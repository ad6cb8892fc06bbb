-- ===== src/Base/Bits.antt =====
-- `&` with a mask of low bits and `|` of disjoint fields as arithmetic, at every width, from the
-- recursion on binary digits that the native operations stand for.
use Prim.Native.Nat.{
  ℕ, zero, suc, ◌+◌, ◌*◌, ◌/◌, ◌%◌, ◌^◌, ◌-◌, ◌≤◌, ◌<◌, min, max, bit_and, bit_or, digits,
  bit_and-bitwise, bit_or-bitwise,
}
use mathlib.Core.Path.{◌≡◌, refl, ap, ◌∙◌, sym}
use native.Mathlib.Nat.{pow-suc, pow-succ', one-le-pow, div-div-eq-div-mul}
use native.Mathlib.Omega.{arith}

-- Any two amounts of fuel that cover the number give the same digits.
module _ (rest : ℕ → ℕ) (join : ℕ → ℕ → ℕ) where
  abbrev pub run : ℕ → ℕ → ℕ → ℕ
  run n a b = digits rest join n a b

  run_zero : (n b : ℕ) → run n 0 b ≡ run 0 0 b
  run_zero zero b = refl
  run_zero (suc n) b = refl

  pub run_enough : (n m a b : ℕ) → a ≤ n → a ≤ m → run n a b ≡ run m a b
  run_enough n m zero b p q = run_zero n b ∙ sym (run_zero m b)
  run_enough zero m (suc a) b p q = absurd (omega arith)
  run_enough (suc n) zero (suc a) b p q = absurd (omega arith)
  run_enough (suc n) (suc m) (suc a) b p q =
      ap (λ (t : ℕ). t * 2 + join (suc a % 2) (b % 2))
        (run_enough n m (suc a / 2) (b / 2) (omega arith) (omega arith))

-- The lowest digit of each operation.
pub bit_and_low : (a b : ℕ) → bit_and a b ≡ bit_and (a / 2) (b / 2) * 2 + min (a % 2) (b % 2)
bit_and_low zero b = omega (arith, bit_and-bitwise 0 b, bit_and-bitwise (0 / 2) (b / 2))
bit_and_low (suc a) b = omega (
  arith,
  bit_and-bitwise (suc a) b,
  bit_and-bitwise (suc a / 2) (b / 2),
  run_enough (λ _. 0) min a (suc a / 2) (suc a / 2) (b / 2) (omega arith) (omega arith),
)

pub bit_or_low : (a b : ℕ) → bit_or a b ≡ bit_or (a / 2) (b / 2) * 2 + max (a % 2) (b % 2)
bit_or_low zero b = omega (arith, bit_or-bitwise 0 b, bit_or-bitwise (0 / 2) (b / 2))
bit_or_low (suc a) b = omega (
  arith,
  bit_or-bitwise (suc a) b,
  bit_or-bitwise (suc a / 2) (b / 2),
  run_enough (λ y. y) max a (suc a / 2) (suc a / 2) (b / 2) (omega arith) (omega arith),
)

pub bit_or_none : (bound a : ℕ) → a ≤ bound → bit_or a 0 ≡ a
bit_or_none bound zero h = refl
bit_or_none zero (suc a) h = absurd (omega arith)
bit_or_none (suc bound) (suc a) h =
    omega (arith, bit_or_low (suc a) 0, bit_or_none bound (suc a / 2) (omega arith))

pub bit_and_none : (bound a : ℕ) → a ≤ bound → bit_and a 0 ≡ 0
bit_and_none bound zero h = refl
bit_and_none zero (suc a) h = absurd (omega arith)
bit_and_none (suc bound) (suc a) h =
    omega (arith, bit_and_low (suc a) 0, bit_and_none bound (suc a / 2) (omega arith))

-- `(q << k) | r` is a sum when `r` fits in `k` bits.
pub bit_or_disjoint : (k q r : ℕ) → r < 2 ^ k → bit_or (q * 2 ^ k) r ≡ q * 2 ^ k + r
bit_or_disjoint zero q r h = ground (arith, bit_or_none q q)
bit_or_disjoint (suc k) q r h = ground (
  arith,
  bit_or_low (q * 2 ^ suc k) r,
  ap (λ (t : ℕ). q * t) (pow-suc 2 k),
  bit_or_disjoint k q (r / 2) (omega (arith, pow-suc 2 k)),
)

pub bit_and_lower : (k q r : ℕ) → r < 2 ^ k → bit_and (q * 2 ^ k + r) (2 ^ k - 1) ≡ r
bit_and_lower zero q r h = omega (arith, bit_and_none (q * 2 ^ 0 + r) (q * 2 ^ 0 + r))
bit_and_lower (suc k) q r h =
    let doubled : 2 ^ suc k ≡ 2 ^ k * 2 = pow-suc 2 k in
    let scaled : q * 2 ^ suc k ≡ 2 * (q * 2 ^ k) = omega (arith, ap (λ (t : ℕ). q * t) doubled) in
    let half_r : r / 2 < 2 ^ k = omega (arith, doubled) in
    let halved : (q * 2 ^ suc k + r) / 2 ≡ q * 2 ^ k + r / 2 = omega arith in
    let half_mask : (2 ^ suc k - 1) / 2 ≡ 2 ^ k - 1 = omega (arith, one-le-pow k 2) in
    ground (
      arith,
      bit_and_low (q * 2 ^ suc k + r) (2 ^ suc k - 1),
      one-le-pow k 2,
      bit_and_lower k q (r / 2) half_r,
    )

-- `a & (2 ^ k - 1)` keeps the low `k` bits.
pub bit_and_mask : (k a : ℕ) → bit_and a (2 ^ k - 1) ≡ a % 2 ^ k
bit_and_mask k a = ground (arith, one-le-pow k 2, bit_and_lower k (a / 2 ^ k) (a % 2 ^ k))

-- `a & (1 << k)` is the bit `k` of `a`, in its place.
pub bit_and_bit : (k a : ℕ) → bit_and a (2 ^ k) ≡ a / 2 ^ k % 2 * 2 ^ k
bit_and_bit zero a = omega (arith, bit_and_low a 1, bit_and_none (a / 2) (a / 2))
bit_and_bit (suc k) a =
    let doubled : 2 ^ suc k ≡ 2 * 2 ^ k = pow-succ' 2 k in
    let halves : a / 2 / 2 ^ k ≡ a / (2 * 2 ^ k) = div-div-eq-div-mul a 2 (2 ^ k) in
    rw (doubled, bit_and_low a (2 * 2 ^ k), ← halves) (ground (arith, bit_and_bit k (a / 2)))

bit_or_zero : (bound a : ℕ) → a ≤ bound → bit_or 0 a ≡ a
bit_or_zero bound zero h = refl
bit_or_zero zero (suc a) h = absurd (omega arith)
bit_or_zero (suc bound) (suc a) h =
    omega (arith, bit_or_low 0 (suc a), bit_or_zero bound (suc a / 2) (omega arith))

-- `r | (q << k)` is a sum when `r` fits in `k` bits.
pub bit_or_above : (k q r : ℕ) → r < 2 ^ k → bit_or r (q * 2 ^ k) ≡ q * 2 ^ k + r
bit_or_above zero q r h = ground (arith, bit_or_zero q q)
bit_or_above (suc k) q r h = ground (
  arith,
  bit_or_low r (q * 2 ^ suc k),
  ap (λ (t : ℕ). q * t) (pow-suc 2 k),
  bit_or_above k q (r / 2) (omega (arith, pow-suc 2 k)),
)
