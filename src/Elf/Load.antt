-- ===== src/Elf/Load.antt =====
-- The loop of `loadELF` in src/lib/elf/elf.c against the image of the file's segments.
use open_gpos.Base.{
  ℕ, zero, suc, ◌+◌, ◌-◌, ◌^◌, ◌<◌, ◌≤◌, ◌≡◌, ◌⊎◌, inl, inr, arith, refl, ap, ap₂, ◌∙◌, true, false,
  List, length, u16, u32, ltb, get_or, All, ◌&&◌, if◌then◌else◌, Bool-cases, bit_or, ◌<<<◌,
}
use open_gpos.HexUtils.{read_le16, read_le32}
use open_gpos.HexUtils.Laws.{le_value, read_le_lem}
use open_gpos.Str.Copy.{within, memset_lem}
use open_gpos.Fat32.Device.{span}
use open_gpos.Elf.{window, load_segment}
use open_gpos.Elf.Headers.{Holds, Copies}

get_or-span : (mem : ℕ → ℕ) (p n i : ℕ) → i < n → get_or (span mem p n) i 0 ≡ mem (p + i)
get_or-span mem p zero i h = absurd (omega arith)
get_or-span mem p (suc n) zero h = let e : p + 0 ≡ p = omega arith in rw e refl
get_or-span mem p (suc n) (suc i) h =
    let e : p + 1 + i ≡ p + suc i = omega arith in
    get_or-span mem (p + 1) n i (omega arith) ∙ ap mem e

get_or-window :
    (mem : ℕ → ℕ) (buffer : ℕ) (file : List ℕ) (i : ℕ)
    → Holds mem buffer file
    → i < length file
    → i < 0x10003
    → get_or (window mem buffer) i 0 ≡ get_or file i 0
get_or-window mem buffer file i holds inside near =
    get_or-span mem buffer 0x10003 i near ∙ holds i inside

-- a byte of a read is in the file and in the window
in_reach :
    (size offset n k : ℕ)
    → offset < 2 ^ 16
    → offset + n ≤ size
    → (ltb k n && ltb k 4) ≡ true
    → (u16 offset + k < size) × (u16 offset + k < 0x10003)
in_reach size offset n k small inside low =
    let below : (k < n) × (k < 4) = ground arith in (omega arith, omega arith)

byte-window :
    (mem : ℕ → ℕ) (buffer : ℕ) (file : List ℕ) (offset n k : ℕ)
    → Holds mem buffer file
    → offset < 2 ^ 16
    → offset + n ≤ length file
    → (ltb k n && ltb k 4) ≡ true
    → get_or (window mem buffer) (u16 offset + k) 0 ≡ get_or file (u16 offset + k) 0
byte-window mem buffer file offset n k holds small inside low =
    let (a, b) = in_reach (length file) offset n k small inside low in
    get_or-window mem buffer file (u16 offset + k) holds a b

first_byte-window :
    (mem : ℕ → ℕ) (buffer : ℕ) (file : List ℕ) (offset n : ℕ)
    → Holds mem buffer file
    → offset < 2 ^ 16
    → offset + n ≤ length file
    → ltb 0 n ≡ true
    → get_or (window mem buffer) (u16 offset) 0 ≡ get_or file (u16 offset) 0
first_byte-window mem buffer file offset n holds small inside low =
    let (a, b) = in_reach (length file) offset n 0 small inside (rw low refl) in
    let zeroth : u16 offset + 0 ≡ u16 offset = omega arith in
    get_or-window mem buffer file (u16 offset) holds (rw zeroth at a) (rw zeroth at b)

pub read_le16-window :
    (mem : ℕ → ℕ) (buffer : ℕ) (file : List ℕ) (offset : ℕ)
    → Holds mem buffer file
    → All (λ b. b < 256) file
    → offset < 2 ^ 16
    → offset + 2 ≤ length file
    → read_le16 (window mem buffer) offset ≡ le_value file offset 2
unfolding read_le16
read_le16-window mem buffer file offset holds bytes small inside =
    let b0 = first_byte-window mem buffer file offset 2 holds small inside refl in
    let b1 = byte-window mem buffer file offset 2 1 holds small inside refl in
    let same : read_le16 (window mem buffer) offset ≡ read_le16 file offset =
      ap₂ (λ x y. bit_or x (y <<< 8)) b0 b1 in
    same ∙ (read_le_lem file offset bytes small).0

pub read_le32-window :
    (mem : ℕ → ℕ) (buffer : ℕ) (file : List ℕ) (offset : ℕ)
    → Holds mem buffer file
    → All (λ b. b < 256) file
    → offset < 2 ^ 16
    → offset + 4 ≤ length file
    → read_le32 (window mem buffer) offset ≡ le_value file offset 4
unfolding read_le32
read_le32-window mem buffer file offset holds bytes small inside =
    let b0 = first_byte-window mem buffer file offset 4 holds small inside refl in
    let b1 = byte-window mem buffer file offset 4 1 holds small inside refl in
    let b2 = byte-window mem buffer file offset 4 2 holds small inside refl in
    let b3 = byte-window mem buffer file offset 4 3 holds small inside refl in
    let same : read_le32 (window mem buffer) offset ≡ read_le32 file offset =
      ap₂ (λ x y. u32 (bit_or x (y <<< 24)))
        (ap₂ (λ x y. bit_or x (y <<< 16)) (ap₂ (λ x y. bit_or x (y <<< 8)) b0 b1) b2) b3 in
    same ∙ (read_le_lem file offset bytes small).1

cleared_behind :
    (p n m q a b : ℕ)
    → ltb n m ≡ true
    → (if within (p + n) (m - n) q then 0 else if within p n q then a else b)
      ≡ (if within p n q then a else if within p m q then 0 else b)
cleared_behind p n m q a b more = elim (Bool-cases (within p n q)) [
  | inl on ↦ let off : within (p + n) (m - n) q ≡ false = ground arith in rw (on, off) refl
  | inr front ↦
      let same : within (p + n) (m - n) q ≡ within p m q = ground arith in rw (front, same) refl
]

nothing_behind :
    (p n m q a b : ℕ)
    → ltb n m ≡ false
    → (if within p n q then a else b) ≡ (if within p n q then a else if within p m q then 0 else b)
nothing_behind p n m q a b none_left = elim (Bool-cases (within p n q)) [
  | inl on ↦ rw on refl
  | inr off ↦ let off' : within p m q ≡ false = ground arith in rw (off, off') refl
]

module _ (memcpy : (ℕ → ℕ) → ℕ → ℕ → ℕ → ℕ → ℕ) where
  memcpy-Holds :
      (mem : ℕ → ℕ) (buffer : ℕ) (file : List ℕ) (offset vaddr count q : ℕ)
      → Copies memcpy
      → Holds mem buffer file
      → buffer + length file < 2 ^ 32
      → offset + count ≤ length file
      → (vaddr + count ≤ buffer) ⊎ (buffer + length file ≤ vaddr)
      → memcpy mem vaddr (u32 (buffer + offset)) count q
        ≡ (if within vaddr count q then get_or file (offset + (q - vaddr)) 0 else mem q)
  memcpy-Holds mem buffer file offset vaddr count q copies holds room inside apart =
      let there : u32 (buffer + offset) ≡ buffer + offset = omega arith in
      let apart' : (vaddr + count ≤ buffer + offset) ⊎ (buffer + offset + count ≤ vaddr) =
        elim apart [ inl h ↦ inl (omega arith) | inr h ↦ inr (omega arith) ] in
      let copy = copies mem vaddr (buffer + offset) count q apart' in
      elim (Bool-cases (within vaddr count q)) [
        | inl on ↦
            let low : offset + (q - vaddr) < length file = ground arith in
            let e : buffer + offset + (q - vaddr) ≡ buffer + (offset + (q - vaddr)) = omega arith in
            let byte : mem (buffer + offset + (q - vaddr)) ≡ get_or file (offset + (q - vaddr)) 0 =
              ap mem e ∙ holds (offset + (q - vaddr)) low in
            rw there (copy ∙ (rw on byte))
        | inr off ↦ rw there (copy ∙ (rw off refl))
      ]

  pub load_segment_lem :
      (mem : ℕ → ℕ) (buffer : ℕ) (file : List ℕ) (offset vaddr filesz memsz q : ℕ)
      → Copies memcpy
      → Holds mem buffer file
      → buffer + length file < 2 ^ 32
      → offset + filesz ≤ length file
      → vaddr + (filesz + (memsz - filesz)) < 2 ^ 32
      → (vaddr + (filesz + (memsz - filesz)) ≤ buffer) ⊎ (buffer + length file ≤ vaddr)
      → load_segment memcpy mem buffer offset vaddr filesz memsz q ≡ (
          if within vaddr filesz q
          then get_or file (offset + (q - vaddr)) 0
          else if within vaddr memsz q
          then 0
          else mem q)
  unfolding load_segment
  load_segment_lem mem buffer file offset vaddr filesz memsz q copies holds room inside place
        apart =
      let apart' : (vaddr + filesz ≤ buffer) ⊎ (buffer + length file ≤ vaddr) = elim apart [
        | inl h ↦ inl (omega arith)
        | inr h ↦ inr (omega arith)
      ] in
      let copied =
        memcpy-Holds mem buffer file offset vaddr filesz q copies holds room inside apart' in
      let c = memcpy mem vaddr (u32 (buffer + offset)) filesz in
      let there : u32 (vaddr + filesz) ≡ vaddr + filesz = omega arith in
      let cleared = (memset_lem c (vaddr + filesz) 0 (memsz - filesz) q).1 in
      elim (Bool-cases (ltb filesz memsz)) [
        | inl more ↦
            rw more (
              rw there (cleared ∙ (rw copied (cleared_behind vaddr filesz memsz q _ (mem q) more))))
        | inr none_left ↦
            rw none_left (copied ∙ nothing_behind vaddr filesz memsz q _ (mem q) none_left)
      ]
