-- ===== src/HexUtils/Laws.antt =====
-- What the readers and the printers of src/lib/util/hexutils.c compute.
use open_gpos.Base.{
  ℕ, zero, suc, ◌+◌, ◌-◌, ◌*◌, ◌/◌, ◌%◌, ◌^◌, ◌<◌, List, [], ◌∷◌, ◌≡◌, refl, inl, inr, arith,
  Bool-cases, false, bit_or, u16, ltb, ◌==◌, if◌then◌else◌, get_or, All, length, ◌∙◌, ◌++◌, ◌≢◌,
  ◌⊎◌, ap, sym,
}
use native.Mathlib.Nat.{pow-suc}
use open_gpos.Base.Bits.{bit_or_above, bit_and_mask}
use open_gpos.HexUtils.{
  read_le16, read_le32, hex_digit, hex_loop, hex_to_str, byte_to_str, byte_to_dec, dec_loop,
  copy_back, int_to_dec, hex_digits,
}

-- the number of `count` bytes from `offset` on, the lowest first
abbrev pub le_value : List ℕ → ℕ → ℕ → ℕ
le_value buf offset zero = 0
le_value buf offset (suc count) = get_or buf offset 0 + 2 ^ 8 * le_value buf (offset + 1) count

get_or-byte : (buf : List ℕ) (i : ℕ) → All (λ b. b < 256) buf → get_or buf i 0 < 256
get_or-byte [] i h = omega arith
get_or-byte (b ∷ buf) zero h = h.0
get_or-byte (b ∷ buf) (suc i) h = get_or-byte buf i h.1

-- On bytes, `read_le16` and `read_le32` give the little-endian number at the offset.
pub read_le_lem :
    (buf : List ℕ) (offset : ℕ)
    → All (λ b. b < 256) buf
    → offset < 2 ^ 16
    → (read_le16 buf offset ≡ le_value buf offset 2)
      × (read_le32 buf offset ≡ le_value buf offset 4)
unfolding read_le16 read_le32
read_le_lem buf offset bytes small =
    let b0 = get_or buf offset 0 in
    let b1 = get_or buf (offset + 1) 0 in
    let b2 = get_or buf (offset + 2) 0 in
    let b3 = get_or buf (offset + 3) 0 in
    let h0 : b0 < 256 = get_or-byte buf offset bytes in
    let h1 : b1 < 256 = get_or-byte buf (offset + 1) bytes in
    let h2 : b2 < 256 = get_or-byte buf (offset + 2) bytes in
    let h3 : b3 < 256 = get_or-byte buf (offset + 3) bytes in
    let there : u16 offset ≡ offset = omega arith in
    let two : bit_or b0 (b1 * 2 ^ 8) ≡ b1 * 2 ^ 8 + b0 = bit_or_above 8 b1 b0 (omega arith) in
    let three : bit_or (b1 * 2 ^ 8 + b0) (b2 * 2 ^ 16) ≡ b2 * 2 ^ 16 + (b1 * 2 ^ 8 + b0) =
      bit_or_above 16 b2 (b1 * 2 ^ 8 + b0) (omega arith) in
    let low = b2 * 2 ^ 16 + (b1 * 2 ^ 8 + b0) in
    let four : bit_or low (b3 * 2 ^ 24) ≡ b3 * 2 ^ 24 + low =
      bit_or_above 24 b3 low (omega arith) in
    let at2 : offset + 1 + 1 ≡ offset + 2 = omega arith in
    let at3 : offset + 2 + 1 ≡ offset + 3 = omega arith in
    rw (there, two, at2, at3, three, four) (omega arith, omega arith)

-- the number of decimal digits behind the number `acc`
abbrev pub dec_value : ℕ → List ℕ → ℕ
dec_value acc [] = acc
dec_value acc (d ∷ ds) = dec_value (acc * 10 + d) ds

-- the characters of digits
abbrev pub shown : List ℕ → List ℕ
shown [] = []
shown (d ∷ ds) = (d + 48) ∷ shown ds

-- digits of a number: each is below 10
abbrev pub IsDecimal : ℕ → List ℕ → Type 0
IsDecimal n ds = All (λ d. d < 10) ds × (dec_value 0 ds ≡ n)

-- the first digit is not 0
abbrev pub Leads : List ℕ → Type 0
Leads [] = ⊥
Leads (d ∷ ds) = 0 < d

-- no 0 in front of other digits
abbrev pub IsCanonical : List ℕ → Type 0
IsCanonical ds = Leads ds ⊎ (ds ≡ 0 ∷ [])

hex_char : ℕ → ℕ
hex_char c = if ltb c 65 then c - 48 else c - 55

pub hex_value : ℕ → List ℕ → ℕ
hex_value acc [] = acc
hex_value acc (c ∷ cs) =
    let rest = hex_value (acc * 16 + hex_char c) cs in if c == 0 then acc else rest

copy_back-shown : (ds : List ℕ) → copy_back (shown ds) ≡ shown ds ++ (0 ∷ [])
unfolding copy_back
copy_back-shown [] = refl
copy_back-shown (d ∷ ds) = ap (λ t. (d + 48) ∷ t) (copy_back-shown ds)

-- The digits in front of those that the loop has found.
dec_loop-shown :
    (fuel n : ℕ) (ds : List ℕ)
    → n < 10 ^ fuel
    → All (λ d. d < 10) ds
    → (n ≢ 0) ⊎ Leads ds
    → (es : List ℕ) × (dec_loop fuel n (shown ds) ≡ shown es)
      × All (λ d. d < 10) es
      × (dec_value 0 es ≡ dec_value n ds)
      × Leads es
unfolding dec_loop
dec_loop-shown zero n ds h small (inl more) = absurd (omega arith)
dec_loop-shown zero n ds h small (inr leads) =
    let e : n ≡ 0 = omega arith in (ds, refl, small, ap (λ t. dec_value t ds) (sym e), leads)
dec_loop-shown (suc fuel) n ds h small lead = elim (Bool-cases (n == 0)) [
  | inl none_left ↦
      let e : n ≡ 0 = ground arith in
      let leads : Leads ds = elim lead [ inl more ↦ absurd (more e) | inr l ↦ l ] in
      (ds, rw none_left refl, small, ap (λ t. dec_value t ds) (sym e), leads)
  | inr more ↦
      let some_left : n ≢ 0 = ground arith in
      let lead' : (n / 10 ≢ 0) ⊎ (0 < n % 10) = elim (Bool-cases (n / 10 == 0)) [
        | inl last ↦ inr (let e : n / 10 ≡ 0 = ground arith in omega arith)
        | inr rest ↦ inl (ground arith)
      ] in
      let step : n / 10 * 10 + n % 10 ≡ n = omega arith in
      let (es, run, small', value, leads) =
        dec_loop-shown fuel (n / 10) (n % 10 ∷ ds) (omega (arith, pow-suc 10 fuel))
          (omega arith, small) lead' in
      (es, rw more run, small', value ∙ ap (λ t. dec_value t ds) step, leads)
]

-- `intToDec` of a number of 32 bits writes the characters of its decimal digits, with no 0 in front
-- of them, and `byteToDec` of a byte those of three; each writes a 0 behind them and nothing else.
pub printers-value :
    (n b : ℕ)
    → n < 2 ^ 32
    → b < 256
    → ((ds : List ℕ) × (int_to_dec n ≡ shown ds ++ (0 ∷ [])) × IsDecimal n ds × IsCanonical ds)
      × ((ds : List ℕ) × (byte_to_dec b ≡ shown ds ++ (0 ∷ [])) × IsDecimal b ds × (length ds ≡ 3))
unfolding int_to_dec byte_to_dec
printers-value n b h small = (
  elim (Bool-cases (n == 0)) [
    | inl nought ↦
        let e : n ≡ 0 = ground arith in
        (0 ∷ [], rw nought refl, ((omega arith, tt), omega arith), inr refl)
    | inr more ↦
        let (es, run, low, value, leads) =
          dec_loop-shown 12 n [] (omega arith) tt (inl (ground arith)) in
        (es, rw more (ap copy_back run ∙ copy_back-shown es), (low, value), inl leads)
  ],
  (
    b / 100 % 10 ∷ b / 10 % 10 ∷ b % 10 ∷ [],
    refl,
    ((omega arith, (omega arith, (omega arith, tt))), omega arith),
    refl,
  ),
)

-- entry `k` of the rest of the table is the digit `k`
Digits : ℕ → List ℕ → Type 0
Digits k [] = Unit
Digits k (c ∷ cs) = (hex_char c ≡ k) × (((c == 0) ≡ false) × Digits (suc k) cs)

Digits-lookup :
    (k : ℕ) (cs : List ℕ) (i : ℕ)
    → Digits k cs
    → i < length cs
    → (hex_char (get_or cs i 0) ≡ k + i) × ((get_or cs i 0 == 0) ≡ false)
unfolding Digits
Digits-lookup k [] i h l = absurd (omega arith)
Digits-lookup k (c ∷ cs) zero h l = let (a, (b, c)) = h in (omega (arith, a), b)
Digits-lookup k (c ∷ cs) (suc i) h l =
    let (a, (b, c)) = h in
    let r = Digits-lookup (suc k) cs i c (omega arith) in (omega (arith, r.0), r.1)

table : Digits 0 hex_digits
unfolding Digits hex_char
table = (
  refl,
  (
    refl,
    (
      refl,
      (
        refl,
        (
          refl,
          (
            refl,
            (
              refl,
              (
                refl,
                (
                  refl,
                  (
                    refl,
                    (
                      refl,
                      (
                        refl,
                        (
                          refl,
                          (
                            refl,
                            (
                              refl,
                              (
                                refl,
                                (
                                  refl,
                                  (
                                    refl,
                                    (
                                      refl,
                                      (
                                        refl,
                                        (
                                          refl,
                                          (
                                            refl,
                                            (
                                              refl,
                                              (
                                                refl,
                                                (
                                                  refl,
                                                  (
                                                    refl,
                                                    (
                                                      refl,
                                                      (refl, (refl, (refl, (refl, (refl, (tt)))))),
                                                    ),
                                                  ),
                                                ),
                                              ),
                                            ),
                                          ),
                                        ),
                                      ),
                                    ),
                                  ),
                                ),
                              ),
                            ),
                          ),
                        ),
                      ),
                    ),
                  ),
                ),
              ),
            ),
          ),
        ),
      ),
    ),
  ),
)

hex_digit-value : (n : ℕ) → (hex_char (hex_digit n) ≡ n % 16) × ((hex_digit n == 0) ≡ false)
unfolding hex_digit
hex_digit-value n =
    let (a, b) = Digits-lookup 0 hex_digits (n % 16) table (omega arith) in
    rw (bit_and_mask 4 n) (omega (arith, a), b)

hex_value-step :
    (acc n : ℕ) (cs : List ℕ) → hex_value acc (hex_digit n ∷ cs) ≡ hex_value (acc * 16 + n % 16) cs
unfolding hex_value
hex_value-step acc n cs = rw ((hex_digit-value n).1, (hex_digit-value n).0) refl

hex_value-end : (acc : ℕ) → hex_value acc (0 ∷ []) ≡ acc
unfolding hex_value
hex_value-end acc = refl

-- `hexToStr` of a number of 32 bits and `byteToStr` of a byte print its hexadecimal digits.
pub hex_printers-value :
    (n b : ℕ)
    → n < 2 ^ 32
    → b < 256
    → (hex_value 0 (hex_to_str n) ≡ n) × (hex_value 0 (byte_to_str b) ≡ b)
unfolding hex_to_str hex_loop byte_to_str
hex_printers-value n b h small = (
  simp (hex_value-step, hex_value-end) (omega arith),
  simp (hex_value-step, hex_value-end) (omega arith),
)
