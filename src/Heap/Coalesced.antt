-- ===== src/Heap/Coalesced.antt =====
-- The allocator never leaves a free block next to a free block, as long as every `prev` pointer
-- that `free` reads is right.
use open_gpos.Base.{
  ℕ, ◌+◌, ◌-◌, inl, inr, Bool, true, false, ◌||◌, [], ◌∷◌, ◌++◌, ◌≡◌, refl, arith, Bool-cases, ltb,
  subst, sym,
}
use open_gpos.Heap.Blocks.{
  Block, Blocks, block, set_back, merge_next, split, mark, IsCoalesced, freed, joined, release,
}

set_back-IsCoalesced : (p : ℕ) (bs : Blocks) → IsCoalesced bs → IsCoalesced (set_back p bs)
set_back-IsCoalesced p [] h = tt
set_back-IsCoalesced p (b ∷ []) h = tt
set_back-IsCoalesced p (b ∷ n ∷ bs) h = h

pub tail-IsCoalesced : (b : Block) (bs : Blocks) → IsCoalesced (b ∷ bs) → IsCoalesced bs
tail-IsCoalesced b [] h = tt
tail-IsCoalesced b (n ∷ bs) h = h.1

used-IsCoalesced : (b : Block) (bs : Blocks) → b.used ≡ true → IsCoalesced bs → IsCoalesced (b ∷ bs)
used-IsCoalesced b [] u h = tt
used-IsCoalesced b (n ∷ bs) u h = (simp u, h)

-- what follows a free block in a coalesced list, behind a new free block
behind_free :
    (a b : Block) (p : ℕ) (bs : Blocks)
    → b.used ≡ false
    → IsCoalesced (b ∷ bs)
    → IsCoalesced (a ∷ set_back p bs)
behind_free a b p [] free h = tt
behind_free a b p (e ∷ bs) free h = (ground (arith, h.0), set_back-IsCoalesced p (e ∷ bs) h.1)

free_merge-IsCoalesced :
    (at : ℕ) (b : Block) (bs : Blocks)
    → b.used ≡ false
    → IsCoalesced bs
    → IsCoalesced (merge_next at (b ∷ bs))
unfolding merge_next
free_merge-IsCoalesced at b [] free h = tt
free_merge-IsCoalesced at b (n ∷ bs) free h = elim (Bool-cases n.used) [
  | inl used ↦
      let either : (b.used || n.used) ≡ true = ground arith in simp used (rw used at either, h)
  | inr gone ↦ simp gone (behind_free (block b.back (b.size + 16 + n.size) b.used) n at bs gone h)
]

pub freed-IsCoalesced :
    (at : ℕ) (b : Block) (post : Blocks) → IsCoalesced (b ∷ post) → IsCoalesced (freed at b post)
freed-IsCoalesced at b post h =
    free_merge-IsCoalesced at (block b.back b.size false) post refl (tail-IsCoalesced b post h)

joined-IsCoalesced :
    (at : ℕ) (a d : Block) (ds : Blocks)
    → d.used ≡ false
    → IsCoalesced (d ∷ ds)
    → IsCoalesced (joined at a (d ∷ ds))
unfolding merge_next
joined-IsCoalesced at a d ds free h = elim (Bool-cases a.used) [
  | inl used ↦ simp used (ground arith, h)
  | inr gone ↦
      simp (gone, free) (behind_free (block a.back (a.size + 16 + d.size) false) d at ds free h)
]

-- a coalesced list of blocks whose first one has the flag `u`
pub record Begins (u : Bool) (bs : Blocks) : Type 0 where
  pub first : Block
  pub others : Blocks
  pub shape : bs ≡ first ∷ others
  pub flag : first.used ≡ u
  pub apart : IsCoalesced (first ∷ others)

merge_next-Begins :
    (at : ℕ) (b : Block) (bs : Blocks)
    → IsCoalesced (merge_next at (b ∷ bs))
    → Begins b.used (merge_next at (b ∷ bs))
unfolding merge_next
merge_next-Begins at b [] h = record {
  first = b;
  others = [];
  shape = refl;
  flag = refl;
  apart = h;
}
merge_next-Begins at b (n ∷ bs) h = elim (Bool-cases n.used) [
  | inl used ↦
      let e : merge_next at (b ∷ n ∷ bs) ≡ b ∷ n ∷ bs = simp used in
      record {
        first = b;
        others = n ∷ bs;
        shape = e;
        flag = refl;
        apart = subst (λ t. IsCoalesced t) e h;
      }
  | inr free ↦
      let d = block b.back (b.size + 16 + n.size) b.used in
      let e : merge_next at (b ∷ n ∷ bs) ≡ d ∷ set_back at bs = simp free in
      record {
        first = d;
        others = set_back at bs;
        shape = e;
        flag = refl;
        apart = subst (λ t. IsCoalesced t) e h;
      }
]

joined-Begins :
    (at : ℕ) (a : Block) (ds : Blocks) → Begins false ds → Begins a.used (joined at a ds)
joined-Begins at a ds w =
    let h : IsCoalesced (joined at a ds) =
      rw w.shape (joined-IsCoalesced at a w.first w.others w.flag w.apart) in
    elim (Bool-cases a.used) [
      | inl used ↦
          let e : joined at a ds ≡ a ∷ ds = simp used in
          record {
            first = a;
            others = ds;
            shape = e;
            flag = refl;
            apart = subst (λ t. IsCoalesced t) e h;
          }
      | inr gone ↦
          let e : joined at a ds ≡ merge_next at (a ∷ ds) = simp gone in
          subst (λ t. Begins a.used t) (sym e)
            (merge_next-Begins at a ds (subst (λ t. IsCoalesced t) e h))
    ]

cons-Begins :
    (a : Block) (u : Bool) (ds : Blocks)
    → (a.used || u) ≡ true
    → Begins u ds
    → Begins a.used (a ∷ ds)
cons-Begins a u ds h w = record {
  first = a;
  others = ds;
  shape = refl;
  flag = refl;
  apart = rw w.shape (rw w.flag h, w.apart);
}

release-Begins :
    (at : ℕ) (a : Block) (pre : Blocks) (b : Block) (post : Blocks)
    → IsCoalesced (a ∷ (pre ++ (b ∷ post)))
    → Begins a.used (release at (a ∷ pre) b post)
unfolding release
release-Begins at a [] b post h =
    joined-Begins at a _
      (merge_next-Begins _ (block b.back b.size false) post (freed-IsCoalesced _ b post h.1))
release-Begins at a (c ∷ pre) b post h =
    cons-Begins a c.used _ h.0 (release-Begins (at + 16 + a.size) c pre b post h.1)

-- `free` leaves no free block in front of a free block.
pub release-IsCoalesced :
    (at : ℕ) (pre : Blocks) (b : Block) (post : Blocks)
    → IsCoalesced (pre ++ (b ∷ post))
    → IsCoalesced (release at pre b post)
unfolding release
release-IsCoalesced at [] b post h = freed-IsCoalesced at b post h
release-IsCoalesced at (a ∷ pre) b post h =
    let w = release-Begins at a pre b post h in rw w.shape w.apart

-- `malloc` cuts a block and marks it; it too leaves no free block in front of a free block.
pub split-IsCoalesced :
    (at size : ℕ) (c : Block) (cs : Blocks)
    → IsCoalesced (c ∷ cs)
    → Begins true (mark true (split at size (c ∷ cs)))
unfolding split
split-IsCoalesced at size c cs h =
    let rest = tail-IsCoalesced c cs h in
    elim (Bool-cases (ltb (size + 20) c.size)) [
      | inl room ↦
          let q = at + 16 + size in
          let left = merge_next q (block at (c.size - size - 16) false ∷ cs) in
          record {
            first = block c.back size true;
            others = left;
            shape = simp room;
            flag = refl;
            apart =
                used-IsCoalesced (block c.back size true) left refl
                  (free_merge-IsCoalesced q (block at (c.size - size - 16) false) cs refl rest);
          }
      | inr keep ↦ record {
        first = block c.back c.size true;
        others = cs;
        shape = simp keep;
        flag = refl;
        apart = used-IsCoalesced (block c.back c.size true) cs refl rest;
      }
    ]

pub append-IsCoalesced :
    (pre : Blocks) (c : Block) (cs ds : Blocks)
    → IsCoalesced (pre ++ (c ∷ cs))
    → Begins true ds
    → IsCoalesced (pre ++ ds)
append-IsCoalesced [] c cs ds h w = rw w.shape w.apart
append-IsCoalesced (a ∷ []) c cs ds h w = rw w.shape (ground (arith, w.flag), w.apart)
append-IsCoalesced (a ∷ x ∷ pre) c cs ds h w = (h.0, append-IsCoalesced (x ∷ pre) c cs ds h.1 w)
