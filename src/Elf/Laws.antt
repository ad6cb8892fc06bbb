-- ===== src/Elf/Laws.antt =====
-- `loadELF` of src/lib/elf/elf.c, from the path of a file on the disk to its segments in memory.
use open_gpos.Base.{
  ℕ, ◌+◌, ◌^◌, ◌<◌, ◌≤◌, ◌≡◌, ◌≢◌, ◌⊎◌, inl, inr, arith, ap, ◌∙◌, some, List, length, drop,
}
use open_gpos.HexUtils.Laws.{le_value}
use open_gpos.Fat32.Device.{Device, Serves}
use open_gpos.Fat32.Volume.{VolumeInfo}
use open_gpos.Fat32.Stream.{IsMounted, IsChain, chain_bytes}
use open_gpos.Fat32.Handles.{free_handle}
use open_gpos.Fat32.Dir.{FileInfo, LongName}
use open_gpos.Fat32.Lookup.{is_file, Resolves}
use open_gpos.Elf.{Allocator, Machine, elf_invalid_executable, store, load_elf}
use open_gpos.Elf.Headers.{
  image, segments, IsLoadable, IsLoadable-narrow, image-eq, IsArmExecutable, Copies,
}
use open_gpos.Elf.Buffer.{store-front, store-behind}
use open_gpos.Elf.File.{contents, load_buffer-image, load_buffer-refused, load_elf-load_buffer}

-- a byte that is not between two addresses is not changed by a store there
off_buffer :
    (bytes : List ℕ) (mem : ℕ → ℕ) (buffer low high q : ℕ)
    → low ≤ buffer
    → buffer + length bytes ≤ high
    → (q < low) ⊎ (high ≤ q)
    → store mem buffer bytes q ≡ mem q
off_buffer bytes mem buffer low high q a b (inl h) = store-front bytes mem buffer q (omega arith)
off_buffer bytes mem buffer low high q a b (inr h) = store-behind bytes mem buffer q (omega arith)

-- `loadELF`, on a card that serves its reads, for a mounted volume, a `memcpy` that copies and a heap
-- that has a buffer for the file, where the path behind its first character resolves to a file whose
-- clusters hold its size, less than 2^31, and a handle is free. The heap has its headers and the
-- buffer between the addresses `low` and `high`, below 2^32. Where the file is an executable for ARM
-- whose program headers are in its first 2^16 bytes and whose segments lie in the file, in memory and
-- outside the addresses of the heap, it returns the entry point and gives the buffer back to the heap,
-- over the memory with the file in the buffer and the image of the segments. A byte outside the heap
-- that the calls of the heap leave as it is is then that of the image of the segments in the order
-- of their headers, with 0 behind the bytes of a segment that the file has.
pub load_elf-image :
    {S H : Type 0} (memcpy : (ℕ → ℕ) → ℕ → ℕ → ℕ → ℕ → ℕ) (dev : Device S) (heap : Allocator H)
    (fresh : LongName → LongName) (slot : LongName) (entries : ℕ) (v : VolumeInfo)
    (disk : ℕ → ℕ → ℕ) (Live : S → Type 0) (path : List ℕ) (info : FileInfo) (rest : List ℕ)
    (file_id buffer low high q : ℕ) (m : Machine S H)
    → Serves dev disk Live
    → IsMounted v
    → Live m.card
    → Resolves v disk fresh slot entries v.root_dir_cluster (drop 1 path) (is_file info)
    → IsChain v disk info.first_cluster rest
    → info.file_size ≤ length (chain_bytes v disk info.first_cluster 0 rest)
    → info.file_size < 2 ^ 31
    → free_handle m.handles 0 ≡ some file_id
    → (heap.malloc info.file_size m.mem m.heap).0 ≡ buffer
    → buffer ≢ 0
    → Copies memcpy
    → IsArmExecutable (contents v disk info rest)
    → IsLoadable (contents v disk info rest) low high
    → low ≤ buffer
    → buffer + length (contents v disk info rest) ≤ high
    → (q < low) ⊎ (high ≤ q)
    → (heap.malloc info.file_size m.mem m.heap).1 q ≡ m.mem q
    → ((mem : ℕ → ℕ)
        → (heap.free buffer mem (heap.malloc info.file_size m.mem m.heap).2).0 q ≡ mem q)
    → let file = contents v disk info rest in
      let (entry, m') = load_elf memcpy dev heap fresh slot entries v path m in
      let (_, given, h) = heap.malloc info.file_size m.mem m.heap in
      let back = heap.free buffer (image file (segments file) (store given buffer file)) h in
      (entry ≡ le_value file 0x18 4)
      × (m'.mem ≡ back.0)
      × (m'.heap ≡ back.1)
      × (m'.mem q ≡ image file (segments file) m.mem q)
load_elf-image memcpy dev heap fresh slot entries v disk Live path info rest file_id buffer low high
      q m serves mounted live resolves chain long small free given real copies valid l below above
      off first second =
    let file = contents v disk info rest in
    let mem1 = (heap.malloc info.file_size m.mem m.heap).1 in
    let h1 = (heap.malloc info.file_size m.mem m.heap).2 in
    let l' = IsLoadable-narrow file low high buffer (buffer + length file) below above l in
    let loaded = image file (segments file) (store mem1 buffer file) in
    let (m1, run, filled, taken) =
      load_elf-load_buffer memcpy dev heap fresh slot entries v disk Live path info rest file_id
        buffer m serves mounted live resolves chain long small free given real in
    let (entry, mem, freed) =
      load_buffer-image memcpy dev heap fresh slot entries v m1 mem1 buffer file copies filled valid
        l' in
    let whole =
      ap (λ (r : ℕ × Machine _ _). r.1.mem) run
      ∙ mem
      ∙ ap (λ t. (heap.free buffer loaded t).0) taken in
    (
      ap (λ r. r.0) run ∙ entry,
      whole,
      ap (λ (r : ℕ × Machine _ _). r.1.heap) run
          ∙ freed
          ∙ ap (λ t. (heap.free buffer loaded t).1) taken,
      ap (λ (f : ℕ → ℕ). f q) whole
          ∙ second loaded
          ∙ image-eq file (segments file) (store mem1 buffer file) m.mem q
              (off_buffer file mem1 buffer low high q below above off ∙ first),
    )

-- `loadELF` under the same conditions on the card, the volume, the path and the heap, of a file of at
-- least 0x34 bytes in whose header a byte of the mark of an ELF file, the class, the order of the
-- bytes, the type or the machine is not one that `IsArmExecutable` admits: it returns
-- `ELF_INVALID_EXECUTABLE` and has only put the file into the buffer, which stays allocated.
pub load_elf-refused :
    {S H : Type 0} (memcpy : (ℕ → ℕ) → ℕ → ℕ → ℕ → ℕ → ℕ) (dev : Device S) (heap : Allocator H)
    (fresh : LongName → LongName) (slot : LongName) (entries : ℕ) (v : VolumeInfo)
    (disk : ℕ → ℕ → ℕ) (Live : S → Type 0) (path : List ℕ) (info : FileInfo) (rest : List ℕ)
    (file_id buffer : ℕ) (m : Machine S H)
    → Serves dev disk Live
    → IsMounted v
    → Live m.card
    → Resolves v disk fresh slot entries v.root_dir_cluster (drop 1 path) (is_file info)
    → IsChain v disk info.first_cluster rest
    → info.file_size ≤ length (chain_bytes v disk info.first_cluster 0 rest)
    → info.file_size < 2 ^ 31
    → free_handle m.handles 0 ≡ some file_id
    → (heap.malloc info.file_size m.mem m.heap).0 ≡ buffer
    → buffer ≢ 0
    → ¬ IsArmExecutable (contents v disk info rest)
    → 0x34 ≤ length (contents v disk info rest)
    → let (result, m') = load_elf memcpy dev heap fresh slot entries v path m in
      let (_, given, h) = heap.malloc info.file_size m.mem m.heap in
      (result ≡ elf_invalid_executable)
      × (m'.mem ≡ store given buffer (contents v disk info rest))
      × (m'.heap ≡ h)
load_elf-refused memcpy dev heap fresh slot entries v disk Live path info rest file_id buffer m
      serves mounted live resolves chain long small free given real invalid header =
    let (m1, run, filled, taken) =
      load_elf-load_buffer memcpy dev heap fresh slot entries v disk Live path info rest file_id
        buffer m serves mounted live resolves chain long small free given real in
    let run' =
      run
      ∙ load_buffer-refused memcpy dev heap fresh slot entries v m1
          (heap.malloc info.file_size m.mem m.heap).1 buffer (contents v disk info rest) filled
          invalid header in
    (
      ap (λ r. r.0) run',
      ap (λ (r : ℕ × Machine _ _). r.1.mem) run' ∙ filled,
      ap (λ (r : ℕ × Machine _ _). r.1.heap) run' ∙ taken,
    )
