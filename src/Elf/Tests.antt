-- ===== src/Elf/Tests.antt =====
-- The executable of one segment on the small volume, and `loadELF` of it.
use open_gpos.Base.{
  ℕ, replicate, ◌+◌, ◌-◌, ◌≡◌, ◌<◌, ◌≤◌, refl, sym, subst, inl, inr, none, true, Bool, List, [],
  ◌∷◌, arith, ltb, ap, ◌∙◌, ◌==◌, ◌&&◌, if◌then◌else◌, length, All, Bool-cases,
}
use open_gpos.HexUtils.Laws.{le_value}
use open_gpos.Str.Copy.{within}
use open_gpos.Fat32.Stream.{chain_bytes, cluster_byte}
use open_gpos.Fat32.Chain.{fat_cluster_to_lba}
use open_gpos.Fat32.Round.{length-chain_bytes}
use open_gpos.Fat32.Tests.{volume, volume-IsMounted, unknown, partition, described, closed_handle}
use open_gpos.Fat32.PathTests.{
  elf_file, dir_disk, dir_card, nothing, kept, a_info, closed, dir_card-Serves, resolves,
  file_linked, free,
}
use open_gpos.Heap.{align_4byte}
use open_gpos.Heap.Store.{Memory, done}
use open_gpos.Heap.Laws.{IsSound}
use open_gpos.Heap.Whole.{whole}
use open_gpos.Elf.HeapMemory.{HeapState, Layout, Lays, in_headers}
use open_gpos.Elf.Boot.{load_program_file, load_program_file-image}
use open_gpos.Str.Memory.{write}
use open_gpos.Heap.Blocks.{Block, Blocks}
use open_gpos.Elf.{Allocator, Machine, store, load_elf, elf_invalid_executable}
use open_gpos.Elf.Headers.{
  image, segments, IsLoadable, IsArmExecutable, Copies, program_headers, program_header,
}
use open_gpos.Elf.File.{contents}
use open_gpos.Elf.Laws.{load_elf-image, load_elf-refused}

abbrev copy : (ℕ → ℕ) → ℕ → ℕ → ℕ → ℕ → ℕ
copy mem destination source num q =
    if within destination num q then mem (source + (q - destination)) else mem q

copy-Copies : Copies copy
copy-Copies mem destination source num q apart = refl

-- a heap that only grows, with a byte of a header 16 bytes in front of each block
abbrev bump : Allocator ℕ
bump = record {
  malloc = λ size mem h. (h + 16, write mem h 1, h + 16 + size);
  free = λ p mem h. (write mem (p - 16) 0, h);
}

abbrev machine : Machine (Unit {0}) ℕ
machine = record { mem = λ q. 0; heap = 0xff0; handles = closed; card = tt }

same : contents volume (dir_disk elf_file) a_info [] ≡ elf_file
unfolding chain_bytes cluster_byte fat_cluster_to_lba
same = refl

bytes_test : List ℕ → Bool
bytes_test [] = true
bytes_test (b ∷ bytes) = ltb b 256 && bytes_test bytes

bytes_test-All : (bytes : List ℕ) → bytes_test bytes ≡ true → All (λ b. b < 256) bytes
unfolding bytes_test
bytes_test-All [] h = tt
bytes_test-All (b ∷ bytes) h = elim (Bool-cases (bytes_test bytes)) [
  | inl more ↦ (ground arith, bytes_test-All bytes more)
  | inr none_left ↦ absurd (ground arith)
]

small : bytes_test elf_file ≡ true
unfolding bytes_test
small = refl

loadable : IsLoadable elf_file 0xff0 0x2000
unfolding program_headers program_header
loadable = record {
  bytes = bytes_test-All elf_file small;
  header = omega arith;
  entry_size = omega arith;
  table = omega arith;
  near = omega arith;
  room = omega arith;
  fit = (
    inr (record { in_file = omega arith; in_memory = omega arith; apart = inr (omega arith) }),
    tt,
  );
}

executable : IsArmExecutable elf_file
executable = record {
  magic0 = refl;
  magic1 = refl;
  magic2 = refl;
  magic3 = refl;
  class = omega arith;
  order = omega arith;
  kind = refl;
  machine = refl;
}

load_elf-image_example :
    let file = contents volume (dir_disk elf_file) a_info [] in
    let (entry, m') =
      load_elf copy (dir_card elf_file) bump kept nothing 17 volume (0x2f ∷ 65 ∷ []) machine in
    let (_, given, h) = bump.malloc 88 machine.mem 0xff0 in
    let back = bump.free 0x1000 (image file (segments file) (store given 0x1000 file)) h in
    (entry ≡ le_value file 0x18 4)
    × (m'.mem ≡ back.0)
    × (m'.heap ≡ back.1)
    × (m'.mem 0x2000_0005 ≡ image file (segments file) machine.mem 0x2000_0005)
load_elf-image_example =
    load_elf-image copy (dir_card elf_file) bump kept nothing 17 volume (dir_disk elf_file)
      (λ _. Unit) (0x2f ∷ 65 ∷ []) a_info [] 0 0x1000 0xff0 0x2000 0x2000_0005 machine
      (dir_card-Serves elf_file) volume-IsMounted tt (resolves elf_file) (file_linked elf_file)
      (omega (arith, length-chain_bytes volume (dir_disk elf_file) 3 0)) (omega arith) free refl
      (omega arith) copy-Copies (subst (λ f. IsArmExecutable f) (sym same) executable)
      (subst (λ f. IsLoadable f 0xff0 0x2000) (sym same) loadable) (omega arith)
      (subst (λ f. 0x1000 + length f ≤ 0x2000) (sym same) (omega arith)) (inr (omega arith)) refl
      (λ mem. refl)

-- a file of no bytes but 1
abbrev ones : List ℕ
ones = replicate 88 1

same_ones : contents volume (dir_disk ones) a_info [] ≡ ones
unfolding chain_bytes cluster_byte fat_cluster_to_lba
same_ones = refl

no_executable : ¬ IsArmExecutable ones
no_executable arm = let e = arm.magic0 in absurd (omega arith)

load_elf-refused_example :
    let (result, m') =
      load_elf copy (dir_card ones) bump kept nothing 17 volume (0x2f ∷ 65 ∷ []) machine in
    let (_, given, h) = bump.malloc 88 machine.mem 0xff0 in
    (result ≡ elf_invalid_executable)
    × (m'.mem ≡ store given 0x1000 (contents volume (dir_disk ones) a_info []))
    × (m'.heap ≡ h)
load_elf-refused_example =
    load_elf-refused copy (dir_card ones) bump kept nothing 17 volume (dir_disk ones) (λ _. Unit)
      (0x2f ∷ 65 ∷ []) a_info [] 0 0x1000 machine (dir_card-Serves ones) volume-IsMounted tt
      (resolves ones) (file_linked ones)
      (omega (arith, length-chain_bytes volume (dir_disk ones) 3 0)) (omega arith) free refl
      (omega arith) (subst (λ f. ¬ IsArmExecutable f) (sym same_ones) no_executable)
      (subst (λ f. 0x34 ≤ length f) (sym same_ones) (omega arith))

-- headers of which a byte of the first is in memory
abbrev marked : Layout
marked = record { write = λ m mem. write mem m.head 1; reads = λ m mem. mem m.head == 1 }

head_byte : (start : ℕ) (b : Block) (bs : Blocks) → in_headers start (b ∷ bs) start ≡ true
head_byte start b bs = ground arith

marked-Lays : Lays marked
marked-Lays = record {
  reads_back = λ m mem start b bs h. ground arith;
  confined = λ m mem start b bs q h out.
      let e = h.head_there in
      elim (Bool-cases (q == m.head)) [
        | inr other ↦ rw other refl
        | inl here ↦
            let same : q ≡ start = ground arith in
            let inside : in_headers start (b ∷ bs) q ≡ true =
              subst (λ t. in_headers start (b ∷ bs) t ≡ true) (sym same) (head_byte start b bs) in
            cc
      ];
  headers_only = λ m mem mem' start b bs h same.
      let e = h.head_there in
      ap (λ t. t == 1) (ap mem' e ∙ same start (head_byte start b bs) ∙ ap mem (sym e));
}

abbrev no_heap : Memory
no_heap = record { head = 0; spaces = λ _. none; bytes = λ _. 0 }

abbrev waiting : Machine (Unit {0}) HeapState
waiting = record { mem = λ q. 0; heap = done tt no_heap; handles = closed; card = tt }

load_program_file-image_example :
    let file = contents volume (dir_disk elf_file) a_info [] in
    let start = align_4byte 0xff0 in
    let (entry, m') =
      load_program_file copy
        (dir_card elf_file)
        kept
        nothing
        marked
        17
        1
        0xff0
        0x2000
        unknown
        (0x2f ∷ 65 ∷ [])
        waiting in
    (entry ≡ le_value file 0x18 4)
    × (m'.mem 0x2000_0005 ≡ image file (segments file) waiting.mem 0x2000_0005)
    × ((memory : Memory) × (m'.heap ≡ done tt memory)
        × IsSound memory start (whole (0x2000 - start - 16)))
unfolding align_4byte
load_program_file-image_example =
    load_program_file-image copy (dir_card elf_file) kept nothing marked 17 1 0xff0 0x2000 unknown
      partition volume (dir_disk elf_file) (λ _. Unit) (0x2f ∷ 65 ∷ []) a_info [] closed_handle
      (replicate 15 closed_handle) 0x2000_0005 waiting no_heap marked-Lays
      (dir_card-Serves elf_file) tt described volume-IsMounted refl (resolves elf_file)
      (file_linked elf_file) (omega (arith, length-chain_bytes volume (dir_disk elf_file) 3 0))
      (omega arith) copy-Copies (subst (λ f. IsArmExecutable f) (sym same) executable) refl
      (omega arith) (omega arith) (omega arith) (omega arith) (omega arith)
      (subst (λ f. IsLoadable f 0xff0 0x2000) (sym same) loadable) (inr (omega arith))
