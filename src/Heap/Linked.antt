-- ===== src/Heap/Linked.antt =====
-- Which operations of the allocator keep every `prev` pointer on the block in front.
use open_gpos.Base.{
  ℕ, ◌+◌, ◌-◌, ◌<◌, ◌≤◌, inl, inr, true, false, [], ◌∷◌, ◌++◌, ◌≡◌, refl, arith, Bool-cases, ltb,
  ltb_of_lt,
}
use open_gpos.Heap.Blocks.{
  Block, Blocks, block, span, set_back, merge_next, split, mark, IsLinked, freed, release,
  last_from,
}

set_back-IsLinked : (p q at : ℕ) (bs : Blocks) → IsLinked q at bs → IsLinked p at (set_back p bs)
set_back-IsLinked p q at [] h = tt
set_back-IsLinked p q at (b ∷ bs) h = (refl, h.1)

merge_next-IsLinked :
    (prev at : ℕ) (bs : Blocks) → IsLinked prev at bs → IsLinked prev at (merge_next at bs)
unfolding merge_next
merge_next-IsLinked prev at [] h = tt
merge_next-IsLinked prev at (b ∷ []) h = h
merge_next-IsLinked prev at (b ∷ n ∷ bs) h = elim (Bool-cases n.used) [
  | inl used ↦ simp used h
  | inr free ↦
      let p_n = at + 16 + b.size in
      let place : p_n + 16 + n.size ≡ at + 16 + (b.size + 16 + n.size) = omega arith in
      simp free (h.0, rw place at (set_back-IsLinked at p_n (p_n + 16 + n.size) bs h.1.1))
]

freed-IsLinked :
    (prev at : ℕ) (b : Block) (post : Blocks)
    → IsLinked prev at (b ∷ post)
    → IsLinked prev at (freed at b post)
freed-IsLinked prev at b post h = merge_next-IsLinked prev at (block b.back b.size false ∷ post) h

-- `free` keeps every `prev` pointer right.
pub release-IsLinked :
    (prev at : ℕ) (pre : Blocks) (b : Block) (post : Blocks)
    → IsLinked prev at (pre ++ (b ∷ post))
    → IsLinked prev at (release at pre b post)
unfolding release
release-IsLinked prev at [] b post h = freed-IsLinked prev at b post h
release-IsLinked prev at (a ∷ []) b post h =
    let rest = freed-IsLinked at (at + 16 + a.size) b post h.1 in
    elim (Bool-cases a.used) [
      | inl used ↦ simp used (h.0, rest)
      | inr free ↦
          simp free (merge_next-IsLinked prev at (a ∷ freed (at + 16 + a.size) b post) (h.0, rest))
    ]
release-IsLinked prev at (a ∷ c ∷ pre) b post h =
    (h.0, release-IsLinked at (at + 16 + a.size) (c ∷ pre) b post h.1)

-- In a linked heap the `prev` pointer that `free` reads is right.
pub back_of_IsLinked :
    (prev at : ℕ) (pre : Blocks) (b : Block) (post : Blocks)
    → IsLinked prev at (pre ++ (b ∷ post))
    → b.back ≡ last_from prev at pre
back_of_IsLinked prev at [] b post h = h.0
back_of_IsLinked prev at (a ∷ pre) b post h = back_of_IsLinked at (at + 16 + a.size) pre b post h.1

pub suffix-IsLinked :
    (prev at : ℕ) (pre bs : Blocks)
    → IsLinked prev at (pre ++ bs)
    → IsLinked (last_from prev at pre) (at + span pre) bs
suffix-IsLinked prev at [] bs h = let e : at + 0 ≡ at = omega arith in rw e h
suffix-IsLinked prev at (a ∷ pre) bs h =
    let e : at + (16 + a.size + span pre) ≡ at + 16 + a.size + span pre = omega arith in
    rw e (suffix-IsLinked at (at + 16 + a.size) pre bs h.1)

-- Splitting the last block keeps the `prev` pointers right.
pub split-IsLinked_last :
    (prev at size : ℕ) (c : Block)
    → size ≤ c.size
    → IsLinked prev at (c ∷ [])
    → IsLinked prev at (mark true (split at size (c ∷ [])))
unfolding split merge_next
split-IsLinked_last prev at size c small h = elim (Bool-cases (ltb (size + 20) c.size)) [
  | inl room ↦ rw room (h.0, (refl, tt))
  | inr keep ↦ rw keep h
]

-- Splitting in front of a block in use: the rest of the block stays free, and that block as it was.
pub split_used :
    (at size : ℕ) (c n : Block) (cs : Blocks)
    → n.used ≡ true
    → size + 20 < c.size
    → mark true (split at size (c ∷ n ∷ cs))
      ≡ block c.back size true ∷ block at (c.size - size - 16) false ∷ n ∷ cs
unfolding split merge_next
split_used at size c n cs used room = simp (ltb_of_lt _ _ room, used)

pub prefix-IsLinked :
    (prev at : ℕ) (pre bs : Blocks) → IsLinked prev at (pre ++ bs) → IsLinked prev at pre
prefix-IsLinked prev at [] bs h = tt
prefix-IsLinked prev at (a ∷ pre) bs h = (h.0, prefix-IsLinked at (at + 16 + a.size) pre bs h.1)

pub append-IsLinked :
    (prev at : ℕ) (pre bs : Blocks)
    → IsLinked prev at pre
    → IsLinked (last_from prev at pre) (at + span pre) bs
    → IsLinked prev at (pre ++ bs)
append-IsLinked prev at [] bs h k = let e : at + 0 ≡ at = omega arith in rw e at k
append-IsLinked prev at (a ∷ pre) bs h k =
    let e : at + (16 + a.size + span pre) ≡ at + 16 + a.size + span pre = omega arith in
    (h.0, append-IsLinked at (at + 16 + a.size) pre bs h.1 (rw e at k))

pub last_from-append :
    (prev at : ℕ) (pre bs : Blocks)
    → last_from prev at (pre ++ bs) ≡ last_from (last_from prev at pre) (at + span pre) bs
last_from-append prev at [] bs = let e : at + 0 ≡ at = omega arith in rw e refl
last_from-append prev at (a ∷ pre) bs =
    let e : at + (16 + a.size + span pre) ≡ at + 16 + a.size + span pre = omega arith in
    rw e (last_from-append at (at + 16 + a.size) pre bs)
