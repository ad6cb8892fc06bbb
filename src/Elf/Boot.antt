-- ===== src/Elf/Boot.antt =====
-- How src/kernel/main.c loads the first program: `init_malloc` of libc/src/stdlib/heap.c,
-- `fat32_init` of src/driver/fs/FAT32.c, whose result is not looked at, and then `loadELF` of
-- src/lib/elf/elf.c, whose buffer comes from that heap. A fault of the heap, or a loop
-- of it that runs out of fuel, stays in the machine as the state of the heap.
use open_gpos.Base.{
  ℕ, ◌+◌, ◌-◌, ◌^◌, ◌<◌, ◌≤◌, ◌≡◌, ◌⊎◌, inl, inr, ap, ap₂, Bool, ◌∙◌, some, List, [], ◌∷◌, length,
  false, length-take, drop, arith,
}
use open_gpos.HexUtils.Laws.{le_value}
use open_gpos.Fat32.Device.{Device, Serves}
use open_gpos.Fat32.Volume.{VolumeInfo}
use open_gpos.Fat32.Stream.{IsMounted, IsChain, chain_bytes}
use open_gpos.Fat32.Handles.{FileHandle, free_handle, fat32_init}
use open_gpos.Fat32.Mount.{freed, Describes, fat32_init-mounts, free_handle-freed}
use open_gpos.Fat32.Dir.{FileInfo, LongName}
use open_gpos.Fat32.Lookup.{is_file, Resolves}
use open_gpos.Heap.Store.{Memory, done, and_then}
use open_gpos.Heap.{init_malloc, align_4byte}
use open_gpos.Heap.Blocks.{block}
use open_gpos.Heap.Malloc.{align_4byte_lem}
use open_gpos.Heap.Laws.{IsSound, init_malloc-IsSound}
use open_gpos.Heap.Whole.{whole}
use open_gpos.Elf.{Machine, store, load_elf}
use open_gpos.Elf.Headers.{
  image, segments, IsLoadable, IsArmExecutable, Copies, image-eq, image-spared,
}
use open_gpos.Elf.Buffer.{store-front, store-behind}
use open_gpos.Elf.File.{contents}
use open_gpos.Elf.HeapMemory.{
  HeapState, Layout, Lays, laid, heap_allocator, inversion, write-outside, borrowed,
}
use open_gpos.Elf.Laws.{load_elf-image}

module _ {S : Type 0} (memcpy : (ℕ → ℕ) → ℕ → ℕ → ℕ → ℕ → ℕ) (dev : Device S)
    (fresh : LongName → LongName) (slot : LongName) (layout : Layout)
    (entries fuel heap_start heap_end : ℕ) where
  -- `init_malloc`, `fat32_init` and `loadELF`
  unfoldable pub load_program_file :
      VolumeInfo → List ℕ → Machine S HeapState → ℕ × Machine S HeapState
  load_program_file v path m =
      let h = and_then m.heap (λ _. init_malloc heap_start heap_end) in
      let ((_, volume, handles), s) = fat32_init dev v m.handles m.card in
      load_elf memcpy dev (heap_allocator layout fuel) fresh slot entries volume path
        (record m { mem = laid layout h m.mem; heap = h; handles = handles; card = s })

-- a store beside an address
store_beside :
    (bytes : List ℕ) (mem : ℕ → ℕ) (p size q : ℕ)
    → length bytes ≤ size
    → (q < p) ⊎ (p + size ≤ q)
    → store mem p bytes q ≡ mem q
store_beside bytes mem p size q h (inl a) = store-front bytes mem p q a
store_beside bytes mem p size q h (inr a) = store-behind bytes mem p q (omega arith)

-- `init_malloc`, `fat32_init` and then `loadELF` of an ARM executable, on a card that serves its reads
-- and whose first sector and boot sector describe a volume with sectors of 512 bytes: under the
-- conditions of `loadELF` on path and file, where the table of handles is not empty, the region of
-- the heap is below 2^32 and has room for the file, and the segments lie outside that region, the
-- entry point of the file is returned and every byte outside the region is that of the image of its
-- segments; no call of the heap faults, finds its headers overwritten or runs out of fuel, and the
-- heap is again one free block of the whole region.
pub load_program_file-image :
    {S : Type 0} (memcpy : (ℕ → ℕ) → ℕ → ℕ → ℕ → ℕ → ℕ) (dev : Device S)
    (fresh : LongName → LongName) (slot : LongName) (layout : Layout)
    (entries fuel heap_start heap_end : ℕ) (v partition volume : VolumeInfo) (disk : ℕ → ℕ → ℕ)
    (Live : S → Type 0) (path : List ℕ) (info : FileInfo) (rest : List ℕ) (handle : FileHandle)
    (handles : List FileHandle) (q : ℕ) (m : Machine S HeapState) (memory : Memory)
    → Lays layout
    → Serves dev disk Live
    → Live m.card
    → Describes disk v partition volume
    → IsMounted volume
    → m.handles ≡ handle ∷ handles
    → Resolves volume disk fresh slot entries volume.root_dir_cluster (drop 1 path) (is_file info)
    → IsChain volume disk info.first_cluster rest
    → info.file_size ≤ length (chain_bytes volume disk info.first_cluster 0 rest)
    → info.file_size < 2 ^ 31
    → Copies memcpy
    → IsArmExecutable (contents volume disk info rest)
    → m.heap ≡ done tt memory
    → 0 < heap_start
    → heap_start + 19 ≤ heap_end
    → heap_end < 2 ^ 32
    → 0 < fuel
    → let start = align_4byte heap_start in
      align_4byte info.file_size ≤ heap_end - start - 16
      → IsLoadable (contents volume disk info rest) start heap_end
      → (q < start) ⊎ (heap_end ≤ q)
      → let file = contents volume disk info rest in
        let (entry, m') =
          load_program_file memcpy dev fresh slot layout entries fuel heap_start heap_end v path
            m in
        (entry ≡ le_value file 0x18 4)
        × (m'.mem q ≡ image file (segments file) m.mem q)
        × ((memory' : Memory) × (m'.heap ≡ done tt memory')
            × IsSound memory' start (whole (heap_end - start - 16)))
unfolding load_program_file
load_program_file-image memcpy dev fresh slot layout entries fuel heap_start heap_end v partition
      volume disk Live path info rest handle handles q m memory lays serves live described
      ready_volume table resolves chain long small copies valid ready low region top enough room l
      off =
    let start = align_4byte heap_start in
    let n = heap_end - start - 16 in
    let rounded_start = align_4byte_lem heap_start in
    let rounded_size = align_4byte_lem info.file_size in
    let end : start + 16 + n ≡ heap_end = omega arith in
    let file = contents volume disk info rest in
    let fits : length file ≤ info.file_size =
      omega
        (arith, length-take info.file_size (chain_bytes volume disk info.first_cluster 0 rest)) in
    let (_, fresh_memory, made, sound) =
      inversion (init_malloc-IsSound heap_start heap_end memory low region top) in
    let made' : and_then m.heap (λ _. init_malloc heap_start heap_end) ≡ done tt fresh_memory =
      ap (λ (t : HeapState). and_then t (λ _. init_malloc heap_start heap_end)) ready ∙ made in
    let mem0 = layout.write fresh_memory m.mem in
    let (card, mounts, live') =
      fat32_init-mounts dev disk Live v partition volume m.handles m.card serves live described in
    let lent =
      borrowed layout lays fuel start info.file_size n fresh_memory mem0 sound
        (lays.reads_back fresh_memory m.mem start (block 0 n false) [] sound.heap) enough room
        (omega arith) in
    let off' : (q < start) ⊎ (start + 16 + n ≤ q) = elim off [
      | inl a ↦ inl a
      | inr a ↦ inr (omega arith)
    ] in
    let off'' : (q < start) ⊎ (start + (16 + n + 0) ≤ q) = elim off [
      | inl a ↦ inl a
      | inr a ↦ inr (omega arith)
    ] in
    let first : free_handle (freed m.handles) 0 ≡ some 0 =
      ap (λ t. free_handle (freed t) 0) table ∙ free_handle-freed handle handles in
    let run = λ (h : HeapState) (r : (Bool × VolumeInfo × List FileHandle) × _).
      load_elf memcpy dev (heap_allocator layout fuel) fresh slot entries r.0.1 path
        (record m { mem = laid layout h m.mem; heap = h; handles = r.0.2; card = r.1 }) in
    let (entry, _, heap, byte) =
      load_elf-image memcpy dev (heap_allocator layout fuel) fresh slot entries volume disk Live
        path info rest 0 (start + 16) start heap_end q
        (record m {
          mem = mem0;
          heap = done tt fresh_memory;
          handles = freed m.handles;
          card = card;
        })
        serves ready_volume live' resolves chain long small first lent.place (omega arith) copies
        valid l (omega arith) (omega arith) off (lent.spared q off')
        (λ mem'. lent.free_spared mem' q off') in
    let mem1 = ((heap_allocator layout fuel).malloc info.file_size mem0 (done tt fresh_memory)).1 in
    let (memory', freed_heap, whole_again) =
      lent.given_back (image file (segments file) (store mem1 (start + 16) file))
        (λ a (above, below) beside.
          image-spared file start heap_end (segments file) (store mem1 (start + 16) file) a l.fit
            above (omega arith)
          ∙ store_beside file mem1 (start + 16) info.file_size a fits beside) in
    let same = ap₂ run made' mounts in
    (
      ap (λ r. r.0) same ∙ entry,
      ap (λ (r : ℕ × Machine _ _). r.1.mem q) same
          ∙ byte
          ∙ image-eq file (segments file) mem0 m.mem q (
              write-outside layout lays fresh_memory m.mem start (block 0 n false) [] q sound.heap
                off''),
      (memory', ap (λ (r : ℕ × Machine _ _). r.1.heap) same ∙ heap ∙ freed_heap, whole_again),
    )
