-- ===== src/Base/Split.antt =====
-- `&` and `|` on two parts of a number: what stands above a digit, and what stands below it.
use Prim.Native.Nat.{ℕ, zero, suc, ◌+◌, ◌*◌, ◌/◌, ◌%◌, ◌^◌, ◌<◌, min, max, bit_and, bit_or}
use mathlib.Core.Path.{◌≡◌, refl, ap, ap₂, ◌∙◌}
use native.Mathlib.Nat.{pow-suc}
use native.Mathlib.Omega.{arith}
use open_gpos.Base.Bits.{bit_and_low, bit_or_low}

pub bit_and_split :
    (k x y r s : ℕ)
    → r < 2 ^ k
    → s < 2 ^ k
    → bit_and (x * 2 ^ k + r) (y * 2 ^ k + s) ≡ bit_and x y * 2 ^ k + bit_and r s
bit_and_split zero x y r s p q =
    let r0 : r ≡ 0 = omega arith in
    let s0 : s ≡ 0 = omega arith in
    let ex : x * 2 ^ 0 + 0 ≡ x = omega arith in
    let ey : y * 2 ^ 0 + 0 ≡ y = omega arith in
    let none_left : bit_and 0 0 ≡ 0 = refl in rw r0 (rw s0 (rw ex (rw ey (omega arith))))
bit_and_split (suc k) x y r s p q =
    let doubled : 2 ^ suc k ≡ 2 ^ k * 2 = pow-suc 2 k in
    let sx : x * 2 ^ suc k ≡ 2 * (x * 2 ^ k) = omega (arith, ap (λ (t : ℕ). x * t) doubled) in
    let sy : y * 2 ^ suc k ≡ 2 * (y * 2 ^ k) = omega (arith, ap (λ (t : ℕ). y * t) doubled) in
    let sb : bit_and x y * 2 ^ suc k ≡ 2 * (bit_and x y * 2 ^ k) =
      omega (arith, ap (λ (t : ℕ). bit_and x y * t) doubled) in
    let hr : r / 2 < 2 ^ k = omega (arith, doubled) in
    let hs : s / 2 < 2 ^ k = omega (arith, doubled) in
    let hx : (x * 2 ^ suc k + r) / 2 ≡ x * 2 ^ k + r / 2 = omega arith in
    let hy : (y * 2 ^ suc k + s) / 2 ≡ y * 2 ^ k + s / 2 = omega arith in
    let lx : (x * 2 ^ suc k + r) % 2 ≡ r % 2 = omega arith in
    let ly : (y * 2 ^ suc k + s) % 2 ≡ s % 2 = omega arith in
    let ih = bit_and_split k x y (r / 2) (s / 2) hr hs in
    let low = bit_and_low (x * 2 ^ suc k + r) (y * 2 ^ suc k + s) in
    let low' : bit_and (x * 2 ^ suc k + r) (y * 2 ^ suc k + s)
        ≡ (bit_and x y * 2 ^ k + bit_and (r / 2) (s / 2)) * 2 + min (r % 2) (s % 2) =
      low ∙ ap₂ (λ a b. a * 2 + b) (ap₂ bit_and hx hy ∙ ih) (ap₂ min lx ly) in
    let parts = bit_and_low r s in low' ∙ omega (arith, sb, parts)

pub bit_or_split :
    (k x y r s : ℕ)
    → r < 2 ^ k
    → s < 2 ^ k
    → bit_or (x * 2 ^ k + r) (y * 2 ^ k + s) ≡ bit_or x y * 2 ^ k + bit_or r s
bit_or_split zero x y r s p q =
    let r0 : r ≡ 0 = omega arith in
    let s0 : s ≡ 0 = omega arith in
    let ex : x * 2 ^ 0 + 0 ≡ x = omega arith in
    let ey : y * 2 ^ 0 + 0 ≡ y = omega arith in rw r0 (rw s0 (rw ex (rw ey (omega arith))))
bit_or_split (suc k) x y r s p q =
    let doubled : 2 ^ suc k ≡ 2 ^ k * 2 = pow-suc 2 k in
    let sx : x * 2 ^ suc k ≡ 2 * (x * 2 ^ k) = omega (arith, ap (λ (t : ℕ). x * t) doubled) in
    let sy : y * 2 ^ suc k ≡ 2 * (y * 2 ^ k) = omega (arith, ap (λ (t : ℕ). y * t) doubled) in
    let sb : bit_or x y * 2 ^ suc k ≡ 2 * (bit_or x y * 2 ^ k) =
      omega (arith, ap (λ (t : ℕ). bit_or x y * t) doubled) in
    let hr : r / 2 < 2 ^ k = omega (arith, doubled) in
    let hs : s / 2 < 2 ^ k = omega (arith, doubled) in
    let hx : (x * 2 ^ suc k + r) / 2 ≡ x * 2 ^ k + r / 2 = omega arith in
    let hy : (y * 2 ^ suc k + s) / 2 ≡ y * 2 ^ k + s / 2 = omega arith in
    let lx : (x * 2 ^ suc k + r) % 2 ≡ r % 2 = omega arith in
    let ly : (y * 2 ^ suc k + s) % 2 ≡ s % 2 = omega arith in
    let ih = bit_or_split k x y (r / 2) (s / 2) hr hs in
    let low = bit_or_low (x * 2 ^ suc k + r) (y * 2 ^ suc k + s) in
    let low' : bit_or (x * 2 ^ suc k + r) (y * 2 ^ suc k + s)
        ≡ (bit_or x y * 2 ^ k + bit_or (r / 2) (s / 2)) * 2 + max (r % 2) (s % 2) =
      low ∙ ap₂ (λ a b. a * 2 + b) (ap₂ bit_or hx hy ∙ ih) (ap₂ max lx ly) in
    let parts = bit_or_low r s in low' ∙ omega (arith, sb, parts)
