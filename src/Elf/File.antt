-- ===== src/Elf/File.antt =====
-- The steps of `loadELF` in src/lib/elf/elf.c: the file into the buffer, and the buffer into memory.
use open_gpos.Base.{
  ℕ, ◌+◌, ◌^◌, ◌<◌, ◌≤◌, ◌≡◌, ◌≢◌, arith, refl, ap, ◌∙◌, true, false, some, List, length, ◌==◌,
  take, drop, min,
}
use open_gpos.HexUtils.{read_le32}
use open_gpos.HexUtils.Laws.{le_value}
use open_gpos.Fat32.Device.{Device, Serves}
use open_gpos.Fat32.Volume.{VolumeInfo}
use open_gpos.Fat32.Stream.{IsMounted, IsChain, chain_bytes}
use open_gpos.Fat32.Handles.{FileHandle, free_handle, fat32_read, fat32_get_size}
use open_gpos.Fat32.Dir.{FileInfo, LongName}
use open_gpos.Fat32.Path.{fat32_open}
use open_gpos.Fat32.Lookup.{is_file, Resolves}
use open_gpos.Fat32.GetFile.{fat32_open-fat32_read}
use open_gpos.Elf.{
  Allocator, Machine, elf_invalid_executable, window, is_executable, store, load_program,
  opened_file, filled, load_buffer, load_file, load_elf,
}
use open_gpos.Elf.Headers.{image, segments, IsLoadable, IsArmExecutable, Holds, Copies}
use open_gpos.Elf.Load.{read_le32-window}
use open_gpos.Elf.Buffer.{
  store-Holds, is_executable-Holds, is_executable-IsArmExecutable, not_executable,
  load_program-image,
}

min_self : (n : ℕ) → min n n ≡ n
min_self n = omega arith

-- the file that a chain of clusters holds
abbrev pub contents : VolumeInfo → (ℕ → ℕ → ℕ) → FileInfo → List ℕ → List ℕ
contents v disk info rest = take info.file_size (chain_bytes v disk info.first_cluster 0 rest)

module _ {S H : Type 0} (memcpy : (ℕ → ℕ) → ℕ → ℕ → ℕ → ℕ → ℕ) (dev : Device S) (heap : Allocator H)
    (fresh : LongName → LongName) (slot : LongName) (entries : ℕ) (v : VolumeInfo) where
  abbrev loads : List ℕ → Machine S H → ℕ × Machine S H
  loads path m = load_elf memcpy dev heap fresh slot entries v path m

  load_file-load_buffer :
      (file_id size buffer : ℕ) (bytes : List ℕ) (left : List FileHandle) (m : Machine S H)
      → fat32_get_size m.handles file_id ≡ size
      → (heap.malloc size m.mem m.heap).0 ≡ buffer
      → buffer ≢ 0
      → (fat32_read dev v m.handles file_id size m.card).0
        ≡ some (record { ok = true; bytes = bytes; handles = left })
      → load_file memcpy dev heap fresh slot entries v m file_id
        ≡ load_buffer memcpy dev heap fresh slot entries v
            (record m {
              mem = store (heap.malloc size m.mem m.heap).1 buffer bytes;
              heap = (heap.malloc size m.mem m.heap).2;
              handles = left;
              card = (fat32_read dev v m.handles file_id size m.card).1;
            })
            buffer
  unfolding load_file filled
  load_file-load_buffer file_id size buffer bytes left m sized given real reads =
      let on : (buffer == 0) ≡ false = ground arith in
      rw sized (rw given (rw on (rw (reads, filled) refl)))

  load_elf-load_file :
      (file_id : ℕ) (path : List ℕ) (opened : List FileHandle) (m : Machine S H)
      → (fat32_open dev fresh slot entries v m.handles path 0 m.card).0 ≡ some (file_id, opened)
      → load_elf memcpy dev heap fresh slot entries v path m
        ≡ load_file memcpy dev heap fresh slot entries v
            (record m {
              handles = opened;
              card = (fat32_open dev fresh slot entries v m.handles path 0 m.card).1;
            })
            file_id
  unfolding load_elf opened_file
  load_elf-load_file file_id path opened m opens = rw (opens, opened_file) refl

  pub load_buffer-image :
      (m : Machine S H) (mem : ℕ → ℕ) (buffer : ℕ) (file : List ℕ)
      → Copies memcpy
      → m.mem ≡ store mem buffer file
      → IsArmExecutable file
      → IsLoadable file buffer (buffer + length file)
      → let (entry, m') = load_buffer memcpy dev heap fresh slot entries v m buffer in
        (entry ≡ le_value file 0x18 4)
        × (m'.mem
            ≡ (heap.free buffer (image file (segments file) (store mem buffer file)) m.heap).0)
        × (m'.heap
            ≡ (heap.free buffer (image file (segments file) (store mem buffer file)) m.heap).1)
  unfolding load_buffer
  load_buffer-image m mem buffer file copies filled valid l =
      let holds : Holds (store mem buffer file) buffer file = store-Holds file mem buffer in
      let checked =
        is_executable-Holds (store mem buffer file) buffer file holds l.header
        ∙ is_executable-IsArmExecutable file valid in
      let entry =
        read_le32-window (store mem buffer file) buffer file 0x18 holds l.bytes (omega arith)
          (omega (arith, l.header)) in
      let program = load_program-image memcpy (store mem buffer file) buffer file copies holds l in
      let checked' : is_executable m.mem buffer ≡ true =
        ap (λ t. is_executable t buffer) filled ∙ checked in
      let whole : load_program memcpy m.mem buffer
          ≡ image file (segments file) (store mem buffer file) =
        ap (λ t. load_program memcpy t buffer) filled ∙ program in
      rw checked' (
        ap (λ t. read_le32 (window t buffer) 0x18) filled ∙ entry,
        ap (λ t. (heap.free buffer t m.heap).0) whole,
        ap (λ t. (heap.free buffer t m.heap).1) whole,
      )

  pub load_buffer-refused :
      (m : Machine S H) (mem : ℕ → ℕ) (buffer : ℕ) (file : List ℕ)
      → m.mem ≡ store mem buffer file
      → ¬ IsArmExecutable file
      → 0x34 ≤ length file
      → load_buffer memcpy dev heap fresh slot entries v m buffer ≡ (elf_invalid_executable, m)
  unfolding load_buffer
  load_buffer-refused m mem buffer file filled invalid long =
      let holds : Holds (store mem buffer file) buffer file = store-Holds file mem buffer in
      let refused : is_executable m.mem buffer ≡ false =
        ap (λ t. is_executable t buffer) filled
        ∙ is_executable-Holds (store mem buffer file) buffer file holds long
        ∙ not_executable file invalid in
      rw refused refl

  module _ (disk : ℕ → ℕ → ℕ) (Live : S → Type 0) (path : List ℕ) (info : FileInfo) (rest : List ℕ)
      (file_id buffer : ℕ) (m : Machine S H) where
    -- The file of the path has been read into the buffer.
    pub load_elf-load_buffer :
        Serves dev disk Live
        → IsMounted v
        → Live m.card
        → Resolves v disk fresh slot entries v.root_dir_cluster (drop 1 path) (is_file info)
        → IsChain v disk info.first_cluster rest
        → info.file_size ≤ length (chain_bytes v disk info.first_cluster 0 rest)
        → info.file_size < 2 ^ 31
        → free_handle m.handles 0 ≡ some file_id
        → (heap.malloc info.file_size m.mem m.heap).0 ≡ buffer
        → buffer ≢ 0
        → (m' : Machine S H) × (loads path m
            ≡ load_buffer memcpy dev heap fresh slot entries v m' buffer)
          × (m'.mem
              ≡ store
                  (heap.malloc info.file_size m.mem m.heap).1
                  buffer
                  (contents v disk info rest))
          × (m'.heap ≡ (heap.malloc info.file_size m.mem m.heap).2)
    load_elf-load_buffer serves mounted live resolves chain long small free given real =
        let (opened, opens, kept, sized, (left, reads)) =
          fat32_open-fat32_read dev v disk Live fresh slot entries m.handles path info rest 0
            info.file_size file_id (file_id + 1) m.card serves mounted live resolves chain long
            small small free (omega arith) in
        let m1 : Machine S H = record m {
          handles = opened;
          card = (fat32_open dev fresh slot entries v m.handles path 0 m.card).1;
        } in
        let same : min info.file_size info.file_size ≡ info.file_size = min_self info.file_size in
        let reads' : (fat32_read dev v opened file_id info.file_size m1.card).0
            ≡ some (record { ok = true; bytes = contents v disk info rest; handles = left }) =
          reads
          ∙ ap
              (λ n. some (record {
                ok = true;
                bytes = take n (chain_bytes v disk info.first_cluster 0 rest);
                handles = left;
              }))
              same in
        (
          record m1 {
            mem =
                store (heap.malloc info.file_size m.mem m.heap).1 buffer
                  (contents v disk info rest);
            heap = (heap.malloc info.file_size m.mem m.heap).2;
            handles = left;
            card = (fat32_read dev v opened file_id info.file_size m1.card).1;
          },
          load_elf-load_file file_id path opened m opens
              ∙ load_file-load_buffer file_id info.file_size buffer (contents v disk info rest) left
                  m1 sized given real reads',
          refl,
          refl,
        )
