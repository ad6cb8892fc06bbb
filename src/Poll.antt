-- ===== src/Poll.antt =====
-- A wait on a register, `while (condition(register));`, over the sequence of what its reads give: the
-- drivers of src/driver wait in this way, without a bound. The fuel is the number of reads.
use open_gpos.Base.{
  ℕ, zero, suc, ◌+◌, ◌<◌, ◌≡◌, true, refl, ap, ◌∙◌, arith, Bool, false, Option, none, some,
  if◌then◌else◌, Bool-cases, inl, inr,
}

-- the reads that are done when the condition does not hold any more
unfoldable pub poll : ℕ → (ℕ → Bool) → (ℕ → ℕ) → ℕ → Option ℕ
poll zero condition reads p = none
poll (suc fuel) condition reads p =
    let rest = poll fuel condition reads (p + 1) in
    if condition (reads p) then rest else some (p + 1)

-- among any `bound` reads there is one where the condition does not hold
abbrev pub Ends : ℕ → (ℕ → Bool) → (ℕ → ℕ) → Type 0
Ends bound condition reads = (p : ℕ) → (j : ℕ) × (j < bound) × (condition (reads (p + j)) ≡ false)

pub poll-end :
    (fuel : ℕ) (condition : ℕ → Bool) (reads : ℕ → ℕ) (j p : ℕ)
    → j < fuel
    → condition (reads (p + j)) ≡ false
    → (q : ℕ) × (poll fuel condition reads p ≡ some q)
unfolding poll
poll-end zero condition reads j p low end = absurd (omega arith)
poll-end (suc fuel) condition reads zero p low end =
    let here : p ≡ p + 0 = omega arith in
    let off : condition (reads p) ≡ false = ap (λ t. condition (reads t)) here ∙ end in
    (p + 1, rw off refl)
poll-end (suc fuel) condition reads (suc j) p low end =
    let there : p + 1 + j ≡ p + suc j = omega arith in
    let end' = ap (λ t. condition (reads t)) there ∙ end in
    let (q, run) = poll-end fuel condition reads j (p + 1) (omega arith) end' in
    elim (Bool-cases (condition (reads p))) [
      | inl more ↦ (q, rw more run)
      | inr over ↦ (p + 1, rw over refl)
    ]

-- As much fuel is enough.
pub poll-Ends :
    (bound : ℕ) (condition : ℕ → Bool) (reads : ℕ → ℕ) (p : ℕ)
    → Ends bound condition reads
    → (q : ℕ) × (poll bound condition reads p ≡ some q)
poll-Ends bound condition reads p ends =
    let (j, low, end) = ends p in poll-end bound condition reads j p low end

-- A wait ends with the first read at which its condition does not hold.
pub poll-first :
    (fuel : ℕ) (condition : ℕ → Bool) (reads : ℕ → ℕ) (p q : ℕ)
    → poll fuel condition reads p ≡ some q
    → (j : ℕ) × (q ≡ p + j + 1)
      × (condition (reads (p + j)) ≡ false)
      × ((i : ℕ) → i < j → condition (reads (p + i)) ≡ true)
unfolding poll
poll-first zero condition reads p q e = cc
poll-first (suc fuel) condition reads p q e = elim (Bool-cases (condition (reads p))) [
  | inl more ↦
      let run : poll fuel condition reads (p + 1) ≡ some q = rw more at e in
      let (j, at, off, before) = poll-first fuel condition reads (p + 1) q run in
      let there : p + 1 + j ≡ p + suc j = omega arith in
      (suc j, omega arith, rw (← there) off, earlier more j before)
  | inr over ↦
      let run : some (p + 1) ≡ some q = rw over at e in
      let same : p + 1 ≡ q = cc in
      let here : p + 0 ≡ p = omega arith in
      (0, omega arith, rw here over, λ i h. absurd (omega arith))
]
  where
    earlier :
        condition (reads p) ≡ true
        → (j : ℕ) → ((i : ℕ) → i < j → condition (reads (p + 1 + i)) ≡ true)
        → (i : ℕ) → i < suc j
        → condition (reads (p + i)) ≡ true
    earlier more j before zero h = let here : p + 0 ≡ p = omega arith in rw here more
    earlier more j before (suc i) h =
        let there : p + 1 + i ≡ p + suc i = omega arith in rw (← there) (before i (omega arith))
