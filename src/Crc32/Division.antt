-- ===== src/Crc32/Division.antt =====
-- The loop of `calculate_crc32` in src/arch/arm_cortexm/rp2040/boot2/compCrc32.c against the
-- division by the polynomial, bit by bit.
use open_gpos.Base.{
  ℕ, zero, suc, ◌+◌, ◌*◌, ◌/◌, ◌%◌, ◌^◌, ◌<◌, ◌≤◌, ◌≡◌, ◌⊎◌, true, false, inl, inr, refl, sym, ap,
  ap₂, ◌∙◌, List, [], ◌∷◌, bit_xor, u8, u32, ◌<<<◌, get_or, leb, Bool-cases, subst, if◌then◌else◌,
  arith, All,
}
use open_gpos.Base.Xor.{bit_xor_comm, bit_xor_assoc, bit_xor_none, bit_xor_split, bit_xor_bound}
use open_gpos.Crc32.{crc32_table, crc32_step, crc32_loop, calculate_crc32}
use open_gpos.Crc32.Table.{crc32_polynomial, divided, crc32_table-divided}
use native.Mathlib.Nat.{pow-succ', one-le-pow}

-- one shift of the register
abbrev pub shifted : ℕ → ℕ
shifted crc =
    if leb (2 ^ 31) crc then bit_xor (u32 (crc <<< 1)) crc32_polynomial else u32 (crc <<< 1)

-- The checksum without a table: a byte goes into the top of the register, which is then shifted
-- eight times.
unfoldable pub bitwise_crc32 : ℕ → List ℕ → ℕ
bitwise_crc32 crc [] = crc
bitwise_crc32 crc (byte ∷ bytes) = bitwise_crc32 (divided 8 (bit_xor crc (byte <<< 24))) bytes

shifted_top : (r : ℕ) → r < 2 ^ 31 → shifted (1 * 2 ^ 31 + r) ≡ bit_xor (2 * r) crc32_polynomial
shifted_top r h =
    let e : u32 ((1 * 2 ^ 31 + r) <<< 1) ≡ 2 * r = omega arith in
    let t : leb (2 ^ 31) (1 * 2 ^ 31 + r) ≡ true = ground arith in rw t (rw e refl)

shifted_low : (r : ℕ) → r < 2 ^ 31 → shifted (0 * 2 ^ 31 + r) ≡ 2 * r
shifted_low r h =
    let e : u32 ((0 * 2 ^ 31 + r) <<< 1) ≡ 2 * r = omega arith in
    let t : leb (2 ^ 31) (0 * 2 ^ 31 + r) ≡ false = ground arith in rw t (rw e refl)

doubled : (a b : ℕ) → bit_xor (2 * a) (2 * b) ≡ 2 * bit_xor a b
doubled a b =
    let ea : 2 * a ≡ a * 2 ^ 1 + 0 = omega arith in
    let eb : 2 * b ≡ b * 2 ^ 1 + 0 = omega arith in
    let nothing : bit_xor 0 0 ≡ 0 = refl in
    ap₂ bit_xor ea eb ∙ bit_xor_split 1 a b 0 0 (omega arith) (omega arith) ∙ omega arith

-- What stands below the top bit is carried through a shift.
shifted-bit_xor :
    (c l : ℕ) → c < 2 ^ 32 → l < 2 ^ 31 → shifted (bit_xor c l) ≡ bit_xor (shifted c) (2 * l)
shifted-bit_xor c l hc hl = elim (digits c hc) [
  | inl e ↦ rw e (
      ap shifted (below 0)
      ∙ shifted_low (bit_xor r l) rl
      ∙ sym (doubled r l)
      ∙ ap (λ t. bit_xor t (2 * l)) (sym (shifted_low r hr)))
  | inr e ↦ rw e (
      ap shifted (below 1)
      ∙ shifted_top (bit_xor r l) rl
      ∙ ap (λ t. bit_xor t crc32_polynomial) (sym (doubled r l))
      ∙ bit_xor_assoc (2 * r) (2 * l) crc32_polynomial
      ∙ ap (bit_xor (2 * r)) (bit_xor_comm (2 * l) crc32_polynomial)
      ∙ sym (bit_xor_assoc (2 * r) crc32_polynomial (2 * l))
      ∙ ap (λ t. bit_xor t (2 * l)) (sym (shifted_top r hr)))
]
  where
    r : ℕ
    r = c % 2 ^ 31

    hr : r < 2 ^ 31
    hr = omega arith

    rl : bit_xor r l < 2 ^ 31
    rl = bit_xor_bound 31 r l hr hl

    digits : (n : ℕ) → n < 2 ^ 32 → (n ≡ 0 * 2 ^ 31 + n % 2 ^ 31) ⊎ (n ≡ 1 * 2 ^ 31 + n % 2 ^ 31)
    digits n h = ground arith

    below : (t : ℕ) → bit_xor (t * 2 ^ 31 + r) l ≡ t * 2 ^ 31 + bit_xor r l
    below t =
        let el : l ≡ 0 * 2 ^ 31 + l = omega arith in
        ap (bit_xor (t * 2 ^ 31 + r)) el
        ∙ bit_xor_split 31 t 0 r l hr hl
        ∙ ap (λ u. u * 2 ^ 31 + bit_xor r l) (bit_xor_none t)

shifted-lt : (c : ℕ) → c < 2 ^ 32 → shifted c < 2 ^ 32
shifted-lt c h = elim (Bool-cases (leb (2 ^ 31) c)) [
  | inl e ↦ rw e (bit_xor_bound 32 (u32 (c <<< 1)) crc32_polynomial (omega arith) (omega arith))
  | inr e ↦ rw e (omega arith)
]

pub divided-lt : (n c : ℕ) → c < 2 ^ 32 → divided n c < 2 ^ 32
divided-lt zero c h = h
divided-lt (suc n) c h = divided-lt n (shifted c) (shifted-lt c h)

half_room : (p q l : ℕ) → 1 ≤ p → q ≡ 2 * p → l * q < 2 ^ 32 → (l < 2 ^ 31) × (2 * l * p < 2 ^ 32)
half_room p q l h e room =
    let one : l * 1 ≤ l * p = grind arith in
    let two : l * q ≡ 2 * (l * p) = omega (arith, ap (λ (t : ℕ). l * t) e) in
    (omega arith, omega arith)

-- A number that no bit of falls out in `n` shifts is carried through them.
divided-bit_xor :
    (n c l : ℕ)
    → c < 2 ^ 32
    → l * 2 ^ n < 2 ^ 32
    → divided n (bit_xor c l) ≡ bit_xor (divided n c) (l * 2 ^ n)
divided-bit_xor zero c l hc hl = let e : l * 2 ^ 0 ≡ l = omega arith in rw e refl
divided-bit_xor (suc n) c l hc hl =
    let room = half_room (2 ^ n) (2 ^ suc n) l (one-le-pow n 2 (omega arith)) (pow-succ' 2 n) hl in
    let regroup : 2 * l * 2 ^ n ≡ l * 2 ^ suc n =
      omega (arith, ap (λ (t : ℕ). l * t) (pow-succ' 2 n)) in
    ap (divided n) (shifted-bit_xor c l hc room.0)
    ∙ divided-bit_xor n (shifted c) (2 * l) (shifted-lt c hc) room.1
    ∙ ap (bit_xor (divided n (shifted c))) regroup

-- A byte of the table's loop is a byte of the division.
crc32_step-divided :
    (crc byte : ℕ)
    → crc < 2 ^ 32
    → byte < 256
    → crc32_step crc byte ≡ divided 8 (bit_xor crc (byte <<< 24))
unfolding crc32_step
crc32_step-divided crc byte hc hb =
    ap₂ bit_xor shift_out (ap (λ t. get_or crc32_table t 0) index ∙ crc32_table-divided i hi)
    ∙ bit_xor_comm (l * 2 ^ 8) (divided 8 (i <<< 24))
    ∙ sym (divided-bit_xor 8 (i <<< 24) l (omega (arith, hi)) (omega (arith, hl)))
    ∙ ap (divided 8) (sym joined)
  where
    t : ℕ
    t = crc / 2 ^ 24

    l : ℕ
    l = crc % 2 ^ 24

    i : ℕ
    i = bit_xor t byte

    hi : i < 256
    hi = bit_xor_bound 8 t byte (omega arith) hb

    hl : l < 2 ^ 24
    hl = omega arith

    shift_out : u32 (crc <<< 8) ≡ l * 2 ^ 8
    shift_out = omega arith

    index : u8 i ≡ i
    index = omega (arith, hi)

    joined : bit_xor crc (byte <<< 24) ≡ bit_xor (i <<< 24) l
    joined =
        let ec : crc ≡ t * 2 ^ 24 + l = omega arith in
        let eb : byte <<< 24 ≡ byte * 2 ^ 24 + 0 = omega arith in
        let ei : i <<< 24 ≡ i * 2 ^ 24 + 0 = omega arith in
        let el : l ≡ 0 * 2 ^ 24 + l = omega arith in
        ap₂ bit_xor ec eb
        ∙ bit_xor_split 24 t byte l 0 hl (omega arith)
        ∙ ap₂ (λ a b. a * 2 ^ 24 + b) (sym (bit_xor_none i)) (bit_xor_comm l 0)
        ∙ sym (bit_xor_split 24 i 0 0 l (omega arith) hl)
        ∙ ap₂ bit_xor (sym ei) (sym el)

crc32_loop-bitwise_crc32 :
    (crc : ℕ) (bytes : List ℕ)
    → crc < 2 ^ 32
    → All (λ b. b < 256) bytes
    → (crc32_loop crc bytes ≡ bitwise_crc32 crc bytes) × (bitwise_crc32 crc bytes < 2 ^ 32)
unfolding crc32_loop bitwise_crc32
crc32_loop-bitwise_crc32 crc [] hc h = (refl, hc)
crc32_loop-bitwise_crc32 crc (byte ∷ bytes) hc (hb, h) =
    let next = bit_xor crc (byte <<< 24) in
    let rest =
      crc32_loop-bitwise_crc32 (divided 8 next) bytes
        (divided-lt 8 next (bit_xor_bound 32 crc (byte <<< 24) hc (omega arith))) h in
    (ap (λ t. crc32_loop t bytes) (crc32_step-divided crc byte hc hb) ∙ rest.0, rest.1)

-- The checksum is the bitwise one that starts at all ones, and it is a word.
pub calculate_crc32-bitwise_crc32 :
    (bytes : List ℕ)
    → All (λ b. b < 256) bytes
    → (calculate_crc32 bytes ≡ bitwise_crc32 0xffff_ffff bytes) × (calculate_crc32 bytes < 2 ^ 32)
unfolding calculate_crc32
calculate_crc32-bitwise_crc32 bytes h =
    let both = crc32_loop-bitwise_crc32 0xffff_ffff bytes (omega arith) h in
    (both.0, subst (λ t. t < 2 ^ 32) (sym both.0) both.1)
