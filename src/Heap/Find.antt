-- ===== src/Heap/Find.antt =====
-- `find_free_space` is first fit.
use open_gpos.Base.{
  ℕ, zero, suc, ◌+◌, ◌≤◌, ◌<◌, inl, inr, true, false, [], ◌∷◌, ◌++◌, ◌≡◌, refl, arith, ◌∙◌, ap,
  Bool-cases, ltb, length, not, ◌||◌, ◌!=◌, if◌then◌else◌,
}
use open_gpos.Heap.Store.{Memory, done, and_then, load, pure, ◌>>=◌, Cmd}
use open_gpos.Heap.Steps.{load-done}
use open_gpos.Heap.Blocks.{Block, Blocks, span, fits, before_fit, from_fit}
use open_gpos.Heap.Chain.{Chain, link}
use open_gpos.Heap.{find_loop, find_free_space}

-- First fit splits the blocks and loses none.
pub before_fit-append-from_fit :
    (size : ℕ) (bs : Blocks) → before_fit size bs ++ from_fit size bs ≡ bs
unfolding before_fit from_fit
before_fit-append-from_fit size [] = refl
before_fit-append-from_fit size (b ∷ bs) = elim (Bool-cases (fits size b)) [
  | inl hit ↦ rw hit
  | inr miss ↦ rw miss (ap (λ t. b ∷ t) (before_fit-append-from_fit size bs))
]

-- the check behind the loop
abbrev checked : ℕ → ℕ → Cmd ℕ
checked size curr = do s ← load curr; pure (if ltb s.size size || s.is_allocated then 0 else curr)

find_loop-first :
    (fuel : ℕ) (m : Memory) (at size : ℕ) (b : Block) (bs : Blocks)
    → Chain m.spaces at (b ∷ bs)
    → length bs < fuel
    → and_then (find_loop fuel at size m) (checked size)
      ≡ done (link (at + span (before_fit size (b ∷ bs))) (from_fit size (b ∷ bs))) m
unfolding find_loop before_fit from_fit
find_loop-first zero m at size b bs c enough = absurd (omega arith)
find_loop-first (suc fuel) m at size b [] c enough =
    rw (load-done m at c.0, load-done m at c.0)
      (elim (Bool-cases (fits size b)) [
        | inl hit ↦ rw hit (ground arith)
        | inr miss ↦ rw miss (ground arith)
      ])
find_loop-first (suc fuel) m at size b (n ∷ bs) c enough =
    let next = at + 16 + b.size in
    let more : (next != 0) ≡ true = ground arith in
    let busy : (b.used || ltb b.size size) ≡ not (fits size b) = ground arith in
    rw (load-done m at c.0, more, busy)
      (elim (Bool-cases (fits size b)) [
        | inl hit ↦ rw (hit, load-done m at c.0) (ground arith)
        | inr miss ↦ rw miss (
            find_loop-first fuel m next size n bs c.1 (omega arith)
            ∙ ap (λ a. done (link a (from_fit size (n ∷ bs))) m) (omega arith))
      ])

-- What first fit finds is free and large enough.
pub from_fit-fits :
    (size : ℕ) (bs : Blocks) (c : Block) (cs : Blocks)
    → from_fit size bs ≡ c ∷ cs
    → (c.used ≡ false) × (size ≤ c.size)
unfolding from_fit
from_fit-fits size [] c cs e = cc
from_fit-fits size (b ∷ bs) c cs e = elim (Bool-cases (fits size b)) [
  | inl hit ↦ let same : b ≡ c = ground arith in rw (← same) (ground arith)
  | inr miss ↦ from_fit-fits size bs c cs (rw miss at e)
]

-- `find_free_space` returns the first block that is free and large enough, or NULL.
pub find_free_space-first :
    (fuel : ℕ) (m : Memory) (start size : ℕ) (b : Block) (bs : Blocks)
    → m.head ≡ start
    → Chain m.spaces start (b ∷ bs)
    → length bs < fuel
    → find_free_space fuel size m
      ≡ done (link (start + span (before_fit size (b ∷ bs))) (from_fit size (b ∷ bs))) m
unfolding find_free_space
find_free_space-first fuel m start size b bs e c enough =
    ap (λ a. and_then (find_loop fuel a size m) (checked size)) e
    ∙ find_loop-first fuel m start size b bs c enough
