-- ===== src/Elf/Headers.antt =====
-- The program headers of an ELF file, and the image of its segments that `loadELF` of
-- src/lib/elf/elf.c is to leave in memory, from the bytes of the file alone.
use open_gpos.Base.{
  ℕ, zero, suc, ◌+◌, ◌-◌, ◌*◌, ◌^◌, ◌<◌, ◌≤◌, ◌≡◌, ◌⊎◌, ◌≢◌, List, [], ◌∷◌, length, get_or, All,
  ◌==◌, if◌then◌else◌, inl, inr, false, refl, ap, ◌∙◌, arith, Bool-cases,
}
use open_gpos.HexUtils.Laws.{le_value}
use open_gpos.Str.Copy.{within}

-- the fields of a program header that count
pub record Segment : Type 0 where
  pub p_type : ℕ
  pub p_offset : ℕ
  pub p_vaddr : ℕ
  pub p_filesz : ℕ
  pub p_memsz : ℕ

unfoldable pub program_header : List ℕ → ℕ → Segment
program_header file offset = record {
  p_type = le_value file offset 4;
  p_offset = le_value file (offset + 0x04) 4;
  p_vaddr = le_value file (offset + 0x08) 4;
  p_filesz = le_value file (offset + 0x10) 4;
  p_memsz = le_value file (offset + 0x14) 4;
}

-- the `count` headers of `size` bytes from `offset` on
unfoldable pub program_headers : List ℕ → ℕ → ℕ → ℕ → List Segment
program_headers file size zero offset = []
program_headers file size (suc count) offset =
    program_header file offset ∷ program_headers file size count (offset + size)

-- The memory with a segment in it: the bytes of the file, and 0 behind them.
unfoldable pub placed : List ℕ → Segment → (ℕ → ℕ) → ℕ → ℕ
placed file s mem q =
    if s.p_type == 1
    then (if within s.p_vaddr s.p_filesz q
        then get_or file (s.p_offset + (q - s.p_vaddr)) 0
        else if within s.p_vaddr s.p_memsz q
        then 0
        else mem q)
    else mem q

-- a segment behind the other
unfoldable pub image : List ℕ → List Segment → (ℕ → ℕ) → ℕ → ℕ
image file [] mem = mem
image file (s ∷ segments) mem = image file segments (placed file s mem)

-- the bytes that a segment takes in memory
abbrev pub extent : Segment → ℕ
extent s = s.p_filesz + (s.p_memsz - s.p_filesz)

-- A segment is in the file, and its place is in memory and not between the addresses `low` and `high`.
pub record Fits (file : List ℕ) (low high : ℕ) (s : Segment) : Type 0 where
  pub in_file : s.p_offset + s.p_filesz ≤ length file
  pub in_memory : s.p_vaddr + extent s < 2 ^ 32
  pub apart : (s.p_vaddr + extent s ≤ low) ⊎ (high ≤ s.p_vaddr)

-- a segment that is loaded fits
abbrev pub Loadable : List ℕ → ℕ → ℕ → Segment → Type 0
Loadable file low high s = (s.p_type ≢ 1) ⊎ Fits file low high s

-- the program headers of a file
abbrev pub segments : List ℕ → List Segment
segments file =
    program_headers file (le_value file 0x2a 2) (le_value file 0x2c 2) (le_value file 0x1c 4)

-- The file is of bytes and has its header and its program headers, in its first 2^16 bytes, and its
-- segments can be loaded without a byte between `low` and `high`.
pub record IsLoadable (file : List ℕ) (low high : ℕ) : Type 0 where
  pub bytes : All (λ b. b < 256) file
  pub header : 0x34 ≤ length file
  pub entry_size : 0x18 ≤ le_value file 0x2a 2
  pub table : le_value file 0x1c 4 + le_value file 0x2c 2 * le_value file 0x2a 2 ≤ length file
  pub near : le_value file 0x1c 4 + le_value file 0x2c 2 * le_value file 0x2a 2 ≤ 2 ^ 16
  pub room : high < 2 ^ 32
  pub fit : All (Loadable file low high) (segments file)

-- The header is one that the loader takes: the four bytes of an ELF file, a class that is not the
-- 64-bit one, an order of bytes that is not the big-endian one, and the low bytes of the type of an
-- executable and of the machine ARM.
pub record IsArmExecutable (file : List ℕ) : Type 0 where
  pub magic0 : get_or file 0 0 ≡ 0x7f
  pub magic1 : get_or file 1 0 ≡ 0x45
  pub magic2 : get_or file 2 0 ≡ 0x4c
  pub magic3 : get_or file 3 0 ≡ 0x46
  pub class : get_or file 4 0 ≢ 2
  pub order : get_or file 5 0 ≢ 2
  pub kind : get_or file 0x10 0 ≡ 2
  pub machine : get_or file 0x12 0 ≡ 0x28

narrow_all :
    (file : List ℕ) (low high low' high' : ℕ) (ss : List Segment)
    → low ≤ low'
    → high' ≤ high
    → All (Loadable file low high) ss
    → All (Loadable file low' high') ss
narrow_all file low high low' high' [] a b h = tt
narrow_all file low high low' high' (s ∷ ss) a b (inl other, h) =
    (inl other, narrow_all file low high low' high' ss a b h)
narrow_all file low high low' high' (s ∷ ss) a b (inr fits, h) =
    let apart : (s.p_vaddr + extent s ≤ low') ⊎ (high' ≤ s.p_vaddr) = elim fits.apart [
      | inl below ↦ inl (omega arith)
      | inr above ↦ inr (omega arith)
    ] in
    (
      inr (record { in_file = fits.in_file; in_memory = fits.in_memory; apart = apart }),
      narrow_all file low high low' high' ss a b h,
    )

-- What spares a region spares its parts.
pub IsLoadable-narrow :
    (file : List ℕ) (low high low' high' : ℕ)
    → low ≤ low'
    → high' ≤ high
    → IsLoadable file low high
    → IsLoadable file low' high'
IsLoadable-narrow file low high low' high' a b l =
    let small = l.room in
    record {
      bytes = l.bytes;
      header = l.header;
      entry_size = l.entry_size;
      table = l.table;
      near = l.near;
      room = omega arith;
      fit = narrow_all file low high low' high' (segments file) a b l.fit;
    }

-- A byte of the image hangs on that byte of the memory only.
pub image-eq :
    (file : List ℕ) (ss : List Segment) (mem mem' : ℕ → ℕ) (q : ℕ)
    → mem q ≡ mem' q
    → image file ss mem q ≡ image file ss mem' q
unfolding image placed
image-eq file [] mem mem' q e = e
image-eq file (s ∷ ss) mem mem' q e = image-eq file ss (placed file s mem) (placed file s mem') q (
    ap
      (λ t.
        if s.p_type == 1
        then (if within s.p_vaddr s.p_filesz q
            then get_or file (s.p_offset + (q - s.p_vaddr)) 0
            else if within s.p_vaddr s.p_memsz q
            then 0
            else t)
        else t)
      e)

outside :
    (low high p n m q : ℕ)
    → (p + (n + (m - n)) ≤ low) ⊎ (high ≤ p)
    → low ≤ q
    → q < high
    → (within p n q ≡ false) × (within p m q ≡ false)
outside low high p n m q (inl h) a b = (ground arith, ground arith)
outside low high p n m q (inr h) a b = (ground arith, ground arith)

-- Between `low` and `high` the image is the memory.
pub image-spared :
    (file : List ℕ) (low high : ℕ) (ss : List Segment) (mem : ℕ → ℕ) (q : ℕ)
    → All (Loadable file low high) ss
    → low ≤ q
    → q < high
    → image file ss mem q ≡ mem q
unfolding image placed
image-spared file low high [] mem q h a b = refl
image-spared file low high (s ∷ ss) mem q (inl other, h) a b =
    let off : (s.p_type == 1) ≡ false = ground arith in
    image-spared file low high ss (placed file s mem) q h a b ∙ (rw off refl)
image-spared file low high (s ∷ ss) mem q (inr fits, h) a b =
    let (first, second) = outside low high s.p_vaddr s.p_filesz s.p_memsz q fits.apart a b in
    image-spared file low high ss (placed file s mem) q h a b ∙ elim (Bool-cases (s.p_type == 1)) [
      | inl on ↦ rw on (rw first (rw second refl))
      | inr off ↦ rw off refl
    ]

-- the buffer holds the file
abbrev pub Holds : (ℕ → ℕ) → ℕ → List ℕ → Type 0
Holds mem buffer file = (i : ℕ) → i < length file → mem (buffer + i) ≡ get_or file i 0

-- `memcpy` copies where its two places are apart.
abbrev pub Copies : ((ℕ → ℕ) → ℕ → ℕ → ℕ → ℕ → ℕ) → Type 0
Copies memcpy =
    (mem : ℕ → ℕ) (destination source num q : ℕ)
    → (destination + num ≤ source) ⊎ (source + num ≤ destination)
    → memcpy mem destination source num q
      ≡ (if within destination num q then mem (source + (q - destination)) else mem q)
