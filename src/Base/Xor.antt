-- ===== src/Base/Xor.antt =====
-- `^` on natural numbers, at every width, from the recursion on binary digits that the native
-- operation stands for.
use Prim.Native.Nat.{
  ℕ, zero, suc, ◌+◌, ◌*◌, ◌/◌, ◌%◌, ◌^◌, ◌≤◌, ◌<◌, bit_xor, differ, bit_xor-bitwise,
}
use mathlib.Core.Path.{◌≡◌, refl, ap, ap₂, ◌∙◌}
use mathlib.Core.Logic.{◌⊎◌, inl, inr}
use native.Mathlib.Nat.{pow-suc}
use native.Mathlib.Omega.{arith}
use open_gpos.Base.Bits.{run_enough}

digit : (a : ℕ) → (a % 2 ≡ 0) ⊎ (a % 2 ≡ 1)
digit a = ground arith

differ_lem : (a b : ℕ) → differ (a % 2) (b % 2) ≡ (a % 2 + b % 2) % 2
differ_lem a b = elim (digit a) [
  | inl p ↦ elim (digit b) [ inl q ↦ rw p (rw q refl) | inr q ↦ rw p (rw q refl) ]
  | inr p ↦ elim (digit b) [ inl q ↦ rw p (rw q refl) | inr q ↦ rw p (rw q refl) ]
]

-- The lowest digit of the result.
pub bit_xor_low : (a b : ℕ) → bit_xor a b ≡ bit_xor (a / 2) (b / 2) * 2 + (a % 2 + b % 2) % 2
bit_xor_low zero b = omega (arith, bit_xor-bitwise 0 b, bit_xor-bitwise (0 / 2) (b / 2))
bit_xor_low (suc a) b = omega (
  arith,
  bit_xor-bitwise (suc a) b,
  bit_xor-bitwise (suc a / 2) (b / 2),
  differ_lem (suc a) b,
  run_enough (λ y. y) differ a (suc a / 2) (suc a / 2) (b / 2) (omega arith) (omega arith),
)

half : (a b : ℕ) → bit_xor a b / 2 ≡ bit_xor (a / 2) (b / 2)
half a b = omega (arith, bit_xor_low a b)

comm_upto : (n a b : ℕ) → a + b ≤ n → bit_xor a b ≡ bit_xor b a
comm_upto n zero zero h = refl
comm_upto zero (suc a) b h = absurd (omega arith)
comm_upto zero zero (suc b) h = absurd (omega arith)
comm_upto (suc n) (suc a) b h = omega (
  arith,
  bit_xor_low (suc a) b,
  bit_xor_low b (suc a),
  comm_upto n (suc a / 2) (b / 2) (omega arith),
)
comm_upto (suc n) zero (suc b) h = omega (
  arith,
  bit_xor_low 0 (suc b),
  bit_xor_low (suc b) 0,
  comm_upto n (0 / 2) (suc b / 2) (omega arith),
)

pub bit_xor_comm : (a b : ℕ) → bit_xor a b ≡ bit_xor b a
bit_xor_comm a b = comm_upto (a + b) a b (omega arith)

assoc_upto : (n a b c : ℕ) → a + b + c ≤ n → bit_xor (bit_xor a b) c ≡ bit_xor a (bit_xor b c)
assoc_upto zero a b c h =
    let ea : a ≡ 0 = omega arith in
    let eb : b ≡ 0 = omega arith in let ec : c ≡ 0 = omega arith in rw ea (rw eb (rw ec refl))
assoc_upto (suc n) a b c h = elim (positive_or (a + b + c)) [
  | inl z ↦ assoc_upto n a b c (omega arith)
  | inr p ↦ omega (
    arith,
    bit_xor_low a b,
    bit_xor_low b c,
    bit_xor_low (bit_xor a b) c,
    bit_xor_low a (bit_xor b c),
    ap (λ t. bit_xor t (c / 2)) (half a b),
    ap (bit_xor (a / 2)) (half b c),
    assoc_upto n (a / 2) (b / 2) (c / 2) (omega arith),
  )
]
  where
    positive_or : (m : ℕ) → (m ≡ 0) ⊎ (0 < m)
    positive_or m = ground arith

pub bit_xor_assoc : (a b c : ℕ) → bit_xor (bit_xor a b) c ≡ bit_xor a (bit_xor b c)
bit_xor_assoc a b c = assoc_upto (a + b + c) a b c (omega arith)

none_upto : (n a : ℕ) → a ≤ n → bit_xor a 0 ≡ a
none_upto n zero h = refl
none_upto zero (suc a) h = absurd (omega arith)
none_upto (suc n) (suc a) h =
    omega (arith, bit_xor_low (suc a) 0, none_upto n (suc a / 2) (omega arith))

pub bit_xor_none : (a : ℕ) → bit_xor a 0 ≡ a
bit_xor_none a = none_upto a a (omega arith)

-- The parts above and below a digit are treated apart.
pub bit_xor_split :
    (k x y r s : ℕ)
    → r < 2 ^ k
    → s < 2 ^ k
    → bit_xor (x * 2 ^ k + r) (y * 2 ^ k + s) ≡ bit_xor x y * 2 ^ k + bit_xor r s
bit_xor_split zero x y r s p q =
    let r0 : r ≡ 0 = omega arith in
    let s0 : s ≡ 0 = omega arith in
    let ex : x * 2 ^ 0 + 0 ≡ x = omega arith in
    let ey : y * 2 ^ 0 + 0 ≡ y = omega arith in
    let nothing : bit_xor 0 0 ≡ 0 = refl in rw r0 (rw s0 (rw ex (rw ey (omega arith))))
bit_xor_split (suc k) x y r s p q =
    let doubled : 2 ^ suc k ≡ 2 ^ k * 2 = pow-suc 2 k in
    let sx : x * 2 ^ suc k ≡ 2 * (x * 2 ^ k) = omega (arith, ap (λ (t : ℕ). x * t) doubled) in
    let sy : y * 2 ^ suc k ≡ 2 * (y * 2 ^ k) = omega (arith, ap (λ (t : ℕ). y * t) doubled) in
    let sb : bit_xor x y * 2 ^ suc k ≡ 2 * (bit_xor x y * 2 ^ k) =
      omega (arith, ap (λ (t : ℕ). bit_xor x y * t) doubled) in
    let hr : r / 2 < 2 ^ k = omega (arith, doubled) in
    let hs : s / 2 < 2 ^ k = omega (arith, doubled) in
    let hx : (x * 2 ^ suc k + r) / 2 ≡ x * 2 ^ k + r / 2 = omega arith in
    let hy : (y * 2 ^ suc k + s) / 2 ≡ y * 2 ^ k + s / 2 = omega arith in
    let lows : ((x * 2 ^ suc k + r) % 2 + (y * 2 ^ suc k + s) % 2) % 2 ≡ (r % 2 + s % 2) % 2 =
      omega arith in
    let ih = bit_xor_split k x y (r / 2) (s / 2) hr hs in
    let low' : bit_xor (x * 2 ^ suc k + r) (y * 2 ^ suc k + s)
        ≡ (bit_xor x y * 2 ^ k + bit_xor (r / 2) (s / 2)) * 2 + (r % 2 + s % 2) % 2 =
      bit_xor_low (x * 2 ^ suc k + r) (y * 2 ^ suc k + s)
      ∙ ap₂ (λ a b. a * 2 + b) (ap₂ bit_xor hx hy ∙ ih) lows in
    low' ∙ omega (arith, sb, bit_xor_low r s)

-- No digit appears above those of the arguments.
pub bit_xor_bound : (k a b : ℕ) → a < 2 ^ k → b < 2 ^ k → bit_xor a b < 2 ^ k
bit_xor_bound zero a b p q =
    let ea : a ≡ 0 = omega arith in let eb : b ≡ 0 = omega arith in rw ea (rw eb (omega arith))
bit_xor_bound (suc k) a b p q =
    let doubled : 2 ^ suc k ≡ 2 ^ k * 2 = pow-suc 2 k in
    let ih = bit_xor_bound k (a / 2) (b / 2) (omega (arith, doubled)) (omega (arith, doubled)) in
    omega (arith, doubled, bit_xor_low a b)
