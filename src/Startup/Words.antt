-- ===== src/Startup/Words.antt =====
-- What the masks of the start do to the bits of a word.
use open_gpos.Base.{
  ℕ, ◌+◌, ◌*◌, ◌/◌, ◌%◌, ◌^◌, ◌<◌, ◌≡◌, refl, sym, ap, ap₂, ◌∙◌, List, [], ◌∷◌, bit_and, bit_or,
  arith, All,
}
use open_gpos.Base.Bits.{bit_or_none, bit_or_low, bit_and_low}
use Prim.Native.Nat.{max, min}
use open_gpos.Base.Split.{bit_or_split}
use open_gpos.Dma.Fields.{put, others, field_lem}
use open_gpos.Startup.{without}

-- A bit cleared by its mask is a field of no bits put there.
cleared :
    (k e c : ℕ)
    → c ≡ (c / 2 ^ k / 2 ^ 1 * 2 ^ 1 + c / 2 ^ k % 2 ^ 1) * 2 ^ k + c % 2 ^ k
    → c % 2 ^ k < 2 ^ k
    → c / 2 ^ k / 2 ^ 1 < 2 ^ e
    → bit_and c (others k 1 e) ≡ put k 1 0 c
cleared k e c parts low high =
    let nothing : 0 * 2 ^ k ≡ 0 = omega arith in
    sym (bit_or_none (bit_and c (others k 1 e)) (bit_and c (others k 1 e)) (omega arith))
    ∙ ap (bit_or (bit_and c (others k 1 e))) (sym nothing)
    ∙ field_lem k 1 e c 0 parts low (omega arith) high (omega arith)

low_three : (r : ℕ) → r < 8 → bit_or r 7 ≡ 7
low_three r h =
    let a : bit_or r 7 ≡ bit_or (r / 2) 3 * 2 + max (r % 2) 1 = bit_or_low r 7 in
    let b : bit_or (r / 2) 3 ≡ bit_or (r / 2 / 2) 1 * 2 + max (r / 2 % 2) 1 =
      bit_or_low (r / 2) 3 in
    let c : bit_or (r / 2 / 2) 1 ≡ bit_or (r / 2 / 2 / 2) 0 * 2 + max (r / 2 / 2 % 2) 1 =
      bit_or_low (r / 2 / 2) 1 in
    let d = bit_or_none (r / 2 / 2 / 2) (r / 2 / 2 / 2) (omega arith) in omega arith

-- the three lowest bits set
pub low_bits : (c : ℕ) → bit_or c 7 ≡ c / 8 * 8 + 7
low_bits c =
    let parts : c ≡ c / 8 * 2 ^ 3 + c % 8 = omega arith in
    let seven : 7 ≡ 0 * 2 ^ 3 + 7 = omega arith in
    ap₂ bit_or parts seven
    ∙ bit_or_split 3 (c / 8) 0 (c % 8) 7 (omega arith) (omega arith)
    ∙ ap₂ (λ a b. a * 2 ^ 3 + b) (bit_or_none (c / 8) (c / 8) (omega arith))
        (low_three (c % 8) (omega arith))

-- the priorities of SysTick and PendSV
pub priorities :
    (c : ℕ)
    → c < 2 ^ 32
    → bit_or (bit_and (bit_or (bit_and c 0x00ff_ffff) 0x8000_0000) 0xff00_ffff) 0x00c0_0000
      ≡ put 16 8 0xc0 (put 24 8 0x80 c)
priorities c h =
    let first =
      field_lem 24 8 0 c 0x80 (omega arith) (omega arith) (omega arith) (omega arith)
        (omega arith) in
    ap (λ t. bit_or (bit_and t 0xff00_ffff) 0x00c0_0000) first
    ∙ field_lem 16 8 8 (put 24 8 0x80 c) 0xc0 (omega arith) (omega arith) (omega arith)
        (omega arith) (omega arith)

-- A bit is cleared by its mask in any word.
abbrev pub Clears : ℕ → Type 0
Clears k = (c : ℕ) → c < 2 ^ 32 → (bit_and c (without k) ≡ put k 1 0 c) × (put k 1 0 c < 2 ^ 32)

abbrev pub masked : List ℕ → ℕ → ℕ
masked [] c = c
masked (k ∷ bits) c = masked bits (bit_and c (without k))

abbrev pub put_all : List ℕ → ℕ → ℕ
put_all [] c = c
put_all (k ∷ bits) c = put_all bits (put k 1 0 c)

pub masked-put_all :
    (bits : List ℕ) (c : ℕ) → All Clears bits → c < 2 ^ 32 → masked bits c ≡ put_all bits c
masked-put_all [] c h small = refl
masked-put_all (k ∷ bits) c (clears, h) small =
    let (e, small') = clears c small in
    ap (masked bits) e ∙ masked-put_all bits (put k 1 0 c) h small'

-- the bits of the peripherals that `SystemInit` and `resetSubsys` bring out of reset
abbrev pub peripherals : List ℕ
peripherals = 12 ∷ 21 ∷ 5 ∷ 8 ∷ 22 ∷ 16 ∷ 2 ∷ []

pub peripherals-Clears : All Clears peripherals
peripherals-Clears = (
  λ c h. (cleared 12 19 c (omega arith) (omega arith) (omega arith), omega arith),
  (
    λ c h. (cleared 21 10 c (omega arith) (omega arith) (omega arith), omega arith),
    (
      λ c h. (cleared 5 26 c (omega arith) (omega arith) (omega arith), omega arith),
      (
        λ c h. (cleared 8 23 c (omega arith) (omega arith) (omega arith), omega arith),
        (
          λ c h. (cleared 22 9 c (omega arith) (omega arith) (omega arith), omega arith),
          (
            λ c h. (cleared 16 15 c (omega arith) (omega arith) (omega arith), omega arith),
            (λ c h. (cleared 2 29 c (omega arith) (omega arith) (omega arith), omega arith), tt),
          ),
        ),
      ),
    ),
  ),
)

-- A bit set in any word, and two bits.
pub set_bit0 : (c : ℕ) → bit_or c 1 ≡ put 0 1 1 c
set_bit0 c =
    let a : bit_or c 1 ≡ bit_or (c / 2) 0 * 2 + max (c % 2) 1 = bit_or_low c 1 in
    let b = bit_or_none (c / 2) (c / 2) (omega arith) in omega arith

pub set_bit1 : (c : ℕ) → bit_or c 2 ≡ put 1 1 1 c
set_bit1 c =
    let a : bit_or c 2 ≡ bit_or (c / 2) 1 * 2 + max (c % 2) 0 = bit_or_low c 2 in
    let b : bit_or (c / 2) 1 ≡ bit_or (c / 2 / 2) 0 * 2 + max (c / 2 % 2) 1 =
      bit_or_low (c / 2) 1 in
    let d = bit_or_none (c / 2 / 2) (c / 2 / 2) (omega arith) in omega arith

pub set_bits23 : (c : ℕ) → bit_or c 12 ≡ put 2 2 3 c
set_bits23 c =
    let a : bit_or c 12 ≡ bit_or (c / 2) 6 * 2 + max (c % 2) 0 = bit_or_low c 12 in
    let b : bit_or (c / 2) 6 ≡ bit_or (c / 2 / 2) 3 * 2 + max (c / 2 % 2) 0 =
      bit_or_low (c / 2) 6 in
    let d : bit_or (c / 2 / 2) 3 ≡ bit_or (c / 2 / 2 / 2) 1 * 2 + max (c / 2 / 2 % 2) 1 =
      bit_or_low (c / 2 / 2) 3 in
    let e : bit_or (c / 2 / 2 / 2) 1
        ≡ bit_or (c / 2 / 2 / 2 / 2) 0 * 2 + max (c / 2 / 2 / 2 % 2) 1 =
      bit_or_low (c / 2 / 2 / 2) 1 in
    let f = bit_or_none (c / 2 / 2 / 2 / 2) (c / 2 / 2 / 2 / 2) (omega arith) in omega arith

-- bits 0 and 5 cleared
pub clear_bits05 : (c : ℕ) → c < 2 ^ 32 → bit_and c 0xffff_ffde ≡ put 5 1 0 (put 0 1 0 c)
clear_bits05 c h =
    let a : bit_and c 0xffff_ffde ≡ bit_and (c / 2) 0x7fff_ffef * 2 + min (c % 2) 0 =
      bit_and_low c 0xffff_ffde in
    let b : bit_and (c / 2) 0x7fff_ffef ≡ put 4 1 0 (c / 2) =
      cleared 4 26 (c / 2) (omega arith) (omega arith) (omega arith) in
    omega arith

-- the PLL's power word with the main power and the VCO on, and then with the dividers
abbrev pub vco_on : ℕ → ℕ
vco_on c = put 5 1 0 (put 0 1 0 c)

abbrev pub pll_on : ℕ → ℕ
pll_on c = put 3 1 0 (vco_on c)

pub pll_power : (c : ℕ) → c < 2 ^ 32 → bit_and (bit_and c 0xffff_ffde) 0xffff_fff7 ≡ pll_on c
pll_power c h =
    ap (λ t. bit_and t 0xffff_fff7) (clear_bits05 c h)
    ∙ cleared 3 28 (vco_on c) (omega arith) (omega arith) (omega arith)
