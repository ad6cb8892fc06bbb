-- ===== src/Dma/Fields.antt =====
-- What the C idiom `(c & ~mask) | (v << k)` does to a field.
use open_gpos.Base.{ℕ, ◌+◌, ◌-◌, ◌*◌, ◌/◌, ◌%◌, ◌^◌, ◌<◌, ◌≡◌, ap, ap₂, ◌∙◌, arith, bit_and, bit_or}
use open_gpos.Base.Bits.{bit_and_lower, bit_and_none, bit_or_none, bit_or_disjoint}
use open_gpos.Base.Split.{bit_and_split, bit_or_split}
use native.Mathlib.Nat.{one-le-pow}

-- a number with the field of `w` bits at `k` replaced
abbrev pub put : ℕ → ℕ → ℕ → ℕ → ℕ
put k w v c = (c / 2 ^ k / 2 ^ w * 2 ^ w + v) * 2 ^ k + c % 2 ^ k

-- the mask of all bits but a field, for a number of `k + w + e` bits
abbrev pub others : ℕ → ℕ → ℕ → ℕ
others k w e = (2 ^ e - 1) * 2 ^ w * 2 ^ k + (2 ^ k - 1)

all_ones : (e h : ℕ) → h < 2 ^ e → bit_and h (2 ^ e - 1) ≡ h
all_ones e h low =
    let plus : h ≡ 0 * 2 ^ e + h = omega arith in
    ap (λ t. bit_and t (2 ^ e - 1)) plus ∙ bit_and_lower e 0 h low

masked :
    (k w e h f l : ℕ)
    → l < 2 ^ k
    → f < 2 ^ w
    → h < 2 ^ e
    → bit_and ((h * 2 ^ w + f) * 2 ^ k + l) (others k w e) ≡ h * 2 ^ w * 2 ^ k + l
masked k w e h f l pl pf ph =
    let outer =
      bit_and_split k (h * 2 ^ w + f) ((2 ^ e - 1) * 2 ^ w) l (2 ^ k - 1) pl
        (omega (arith, one-le-pow k 2)) in
    let inner : bit_and (h * 2 ^ w + f) ((2 ^ e - 1) * 2 ^ w) ≡ h * 2 ^ w =
      (let plus : (2 ^ e - 1) * 2 ^ w ≡ (2 ^ e - 1) * 2 ^ w + 0 = omega arith in
        ap (bit_and (h * 2 ^ w + f)) plus)
      ∙ bit_and_split w h (2 ^ e - 1) f 0 pf (one-le-pow w 2 (omega arith))
      ∙ ap₂ (λ a b. a * 2 ^ w + b) (all_ones e h ph) (bit_and_none f f (omega arith))
      ∙ omega arith in
    outer ∙ ap₂ (λ a b. a * 2 ^ k + b) inner (all_ones k l pl)

field_put :
    (k w e h f l v : ℕ)
    → l < 2 ^ k
    → f < 2 ^ w
    → h < 2 ^ e
    → v < 2 ^ w
    → bit_or (bit_and ((h * 2 ^ w + f) * 2 ^ k + l) (others k w e)) (v * 2 ^ k)
      ≡ (h * 2 ^ w + v) * 2 ^ k + l
field_put k w e h f l v pl pf ph pv =
    ap (λ t. bit_or t (v * 2 ^ k)) (masked k w e h f l pl pf ph)
    ∙ (let plus : v * 2 ^ k ≡ v * 2 ^ k + 0 = omega arith in
        ap (bit_or (h * 2 ^ w * 2 ^ k + l)) plus)
    ∙ bit_or_split k (h * 2 ^ w) v l 0 pl (one-le-pow k 2 (omega arith))
    ∙ ap₂ (λ a b. a * 2 ^ k + b) (bit_or_disjoint w h v pv) (bit_or_none l l (omega arith))

-- The idiom replaces the field.
pub field_lem :
    (k w e c v : ℕ)
    → c ≡ (c / 2 ^ k / 2 ^ w * 2 ^ w + c / 2 ^ k % 2 ^ w) * 2 ^ k + c % 2 ^ k
    → c % 2 ^ k < 2 ^ k
    → c / 2 ^ k % 2 ^ w < 2 ^ w
    → c / 2 ^ k / 2 ^ w < 2 ^ e
    → v < 2 ^ w
    → bit_or (bit_and c (others k w e)) (v * 2 ^ k) ≡ put k w v c
field_lem k w e c v parts pl pf ph pv =
    ap (λ t. bit_or (bit_and t (others k w e)) (v * 2 ^ k)) parts
    ∙ field_put k w e (c / 2 ^ k / 2 ^ w) (c / 2 ^ k % 2 ^ w) (c % 2 ^ k) v pl pf ph pv
