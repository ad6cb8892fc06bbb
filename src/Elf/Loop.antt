-- ===== src/Elf/Loop.antt =====
-- The loop of `loadELF` in src/lib/elf/elf.c leaves the image of the file's segments.
use open_gpos.Base.{
  ℕ, zero, suc, ◌+◌, ◌-◌, ◌*◌, ◌^◌, ◌<◌, ◌≤◌, ◌≡◌, ◌⊎◌, inl, inr, arith, refl, ap, ◌∙◌, fun_ext,
  true, false, List, length, u32, All, ◌==◌, ◌!=◌, if◌then◌else◌, Bool-cases,
}
use open_gpos.HexUtils.{read_le32}
use open_gpos.HexUtils.Laws.{le_value}
use open_gpos.Str.Copy.{within}
use open_gpos.Elf.{window, load_segment, load_header, load_loop}
use open_gpos.Elf.Headers.{
  Segment, program_header, program_headers, placed, image, Loadable, Holds, Copies,
}
use open_gpos.Elf.Load.{read_le32-window, load_segment_lem}

outside_lem :
    (buffer size i p n m : ℕ)
    → i < size
    → (p + (n + (m - n)) ≤ buffer) ⊎ (buffer + size ≤ p)
    → (within p n (buffer + i) ≡ false) × (within p m (buffer + i) ≡ false)
outside_lem buffer size i p n m low (inl h) = (ground arith, ground arith)
outside_lem buffer size i p n m low (inr h) = (ground arith, ground arith)

placed-Holds :
    (mem : ℕ → ℕ) (buffer : ℕ) (file : List ℕ) (s : Segment)
    → Loadable file buffer (buffer + length file) s
    → Holds mem buffer file
    → Holds (placed file s mem) buffer file
unfolding placed
placed-Holds mem buffer file s (inl other) holds i low =
    let off : (s.p_type == 1) ≡ false = ground arith in rw off (holds i low)
placed-Holds mem buffer file s (inr fits) holds i low =
    let (first, second) =
      outside_lem buffer (length file) i s.p_vaddr s.p_filesz s.p_memsz low fits.apart in
    elim (Bool-cases (s.p_type == 1)) [
      | inl on ↦ rw on (rw first (rw second (holds i low)))
      | inr off ↦ rw off (holds i low)
    ]

field_read :
    (mem : ℕ → ℕ) (buffer : ℕ) (file : List ℕ) (offset k : ℕ)
    → Holds mem buffer file
    → All (λ b. b < 256) file
    → offset + 0x18 ≤ length file
    → offset + 0x18 ≤ 2 ^ 16
    → k + 4 ≤ 0x18
    → read_le32 (window mem buffer) (u32 (offset + k)) ≡ le_value file (offset + k) 4
field_read mem buffer file offset k holds bytes inside near low =
    let there : u32 (offset + k) ≡ offset + k = omega arith in
    ap (read_le32 (window mem buffer)) there
    ∙ read_le32-window mem buffer file (offset + k) holds bytes (omega arith) (omega arith)

module _ (memcpy : (ℕ → ℕ) → ℕ → ℕ → ℕ → ℕ → ℕ) where
  load_header-fields :
      (mem : ℕ → ℕ) (buffer offset p_type p_offset p_vaddr p_filesz p_memsz q : ℕ)
      → read_le32 (window mem buffer) offset ≡ p_type
      → read_le32 (window mem buffer) (u32 (offset + 0x04)) ≡ p_offset
      → read_le32 (window mem buffer) (u32 (offset + 0x08)) ≡ p_vaddr
      → read_le32 (window mem buffer) (u32 (offset + 0x10)) ≡ p_filesz
      → read_le32 (window mem buffer) (u32 (offset + 0x14)) ≡ p_memsz
      → load_header memcpy mem buffer offset q ≡ (
          if p_type == 1
          then load_segment memcpy mem buffer p_offset p_vaddr p_filesz p_memsz q
          else mem q)
  unfolding load_header
  load_header-fields mem buffer offset p_type p_offset p_vaddr p_filesz p_memsz q r0 r1 r2 r3 r4 =
      rw r0 (
        rw r1 (
          rw r2 (
            rw r3 (
              rw r4 (elim (Bool-cases (p_type == 1)) [
                | inl on ↦ let only : (p_type != 1) ≡ false = ground arith in rw (on, only) refl
                | inr off ↦ let other : (p_type != 1) ≡ true = ground arith in rw (off, other) refl
              ])))))

  load_header-program_header :
      (mem : ℕ → ℕ) (buffer : ℕ) (file : List ℕ) (offset q : ℕ)
      → Holds mem buffer file
      → All (λ b. b < 256) file
      → offset + 0x18 ≤ length file
      → offset + 0x18 ≤ 2 ^ 16
      → let s = program_header file offset in
        load_header memcpy mem buffer offset q ≡ (
          if s.p_type == 1
          then load_segment memcpy mem buffer s.p_offset s.p_vaddr s.p_filesz s.p_memsz q
          else mem q)
  unfolding program_header
  load_header-program_header mem buffer file offset q holds bytes inside near =
      let field = λ (k : ℕ) (low : k + 4 ≤ 0x18).
        field_read mem buffer file offset k holds bytes inside near low in
      let r0 = read_le32-window mem buffer file offset holds bytes (omega arith) (omega arith) in
      load_header-fields mem buffer offset _ _ _ _ _ q r0 (field 0x04 (omega arith))
        (field 0x08 (omega arith)) (field 0x10 (omega arith)) (field 0x14 (omega arith))

  load_header-placed :
      (mem : ℕ → ℕ) (buffer : ℕ) (file : List ℕ) (s : Segment) (q : ℕ)
      → Copies memcpy
      → Holds mem buffer file
      → buffer + length file < 2 ^ 32
      → Loadable file buffer (buffer + length file) s
      → (if s.p_type == 1
          then load_segment memcpy mem buffer s.p_offset s.p_vaddr s.p_filesz s.p_memsz q
          else mem q)
        ≡ placed file s mem q
  unfolding placed
  load_header-placed mem buffer file s q copies holds room (inl other) =
      let off : (s.p_type == 1) ≡ false = ground arith in rw off refl
  load_header-placed mem buffer file s q copies holds room (inr fits) =
      elim (Bool-cases (s.p_type == 1)) [
        | inl on ↦ rw on (
            load_segment_lem memcpy mem buffer file s.p_offset s.p_vaddr s.p_filesz s.p_memsz q
              copies holds room fits.in_file fits.in_memory fits.apart)
        | inr off ↦ rw off refl
      ]

  pub load_loop-image :
      (count i : ℕ) (mem : ℕ → ℕ) (buffer : ℕ) (file : List ℕ) (e_phoff size offset : ℕ)
      → Copies memcpy
      → Holds mem buffer file
      → All (λ b. b < 256) file
      → buffer + length file < 2 ^ 32
      → 0x18 ≤ size
      → offset ≡ e_phoff + i * size
      → offset + count * size ≤ length file
      → offset + count * size ≤ 2 ^ 16
      → All (Loadable file buffer (buffer + length file)) (program_headers file size count offset)
      → load_loop memcpy count i mem buffer e_phoff size
        ≡ image file (program_headers file size count offset) mem
  unfolding load_loop image program_headers
  load_loop-image zero i mem buffer file e_phoff size offset copies holds bytes room big place
        inside near fit =
      refl
  load_loop-image (suc count) i mem buffer file e_phoff size offset copies holds bytes room big
        place inside near (here, more) =
      let s = program_header file offset in
      let there : u32 (e_phoff + i * size) ≡ offset = omega arith in
      let one : load_header memcpy mem buffer offset ≡ placed file s mem = fun_ext λ q.
        load_header-program_header mem buffer file offset q holds bytes (omega arith) (omega arith)
        ∙ load_header-placed mem buffer file s q copies holds room here in
      rw there (
        rw one (
          load_loop-image count (i + 1) (placed file s mem) buffer file e_phoff size (offset + size)
            copies (placed-Holds mem buffer file s here holds) bytes room big (omega arith)
            (omega arith) (omega arith) more))
