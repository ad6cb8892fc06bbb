-- ===== src/Heap/Free.antt =====
-- `free` on a heap of blocks.
use open_gpos.Base.{
  ℕ, ◌+◌, ◌-◌, ◌^◌, ◌≤◌, ◌<◌, inl, inr, false, some, [], ◌∷◌, ◌++◌, ◌≡◌, refl, arith, ◌∙◌, ap,
  Bool-cases, u32, sym, ==_ne, append_assoc, ◌⊎◌,
}
use open_gpos.Heap.Store.{
  Memory, MemorySpace, Run, done, set_is_allocated, Returns, returns, after, weaken, ◌>>◌, ◌>>=◌,
  load,
}
use open_gpos.Heap.Steps.{load-done}
use open_gpos.Heap.Blocks.{
  Block, Blocks, block, span, merge_next, set_back, freed, joined, release, last_from,
}
use open_gpos.Heap.Chain.{Chain, header, link, suffix, Chain-cons}
use open_gpos.Heap.Merge.{Becomes, then-Becomes, merge_refines, unchanged}
use open_gpos.Heap.Split.{mark_refines, link-merge_next}
use open_gpos.Heap.Malloc.{IsHeap, replaced-IsHeap, span-merge_next, span-append}
use open_gpos.Heap.{merge_next_memory_space, merge_into_prev, free}

-- A merge keeps the first block's place, `prev` pointer and flag.
record FirstOf (b : Block) (bs : Blocks) : Type 0 where
  first : Block
  others : Blocks
  shape : bs ≡ first ∷ others
  same_back : first.back ≡ b.back
  same_used : first.used ≡ b.used

merge_next-FirstOf : (at : ℕ) (b : Block) (bs : Blocks) → FirstOf b (merge_next at (b ∷ bs))
unfolding merge_next
merge_next-FirstOf at b [] = record {
  first = b;
  others = [];
  shape = refl;
  same_back = refl;
  same_used = refl;
}
merge_next-FirstOf at b (n ∷ bs) = elim (Bool-cases n.used) [
  | inl used ↦ record {
    first = b;
    others = n ∷ bs;
    shape = simp used;
    same_back = refl;
    same_used = refl;
  }
  | inr free ↦ record {
    first = block b.back (b.size + 16 + n.size) b.used;
    others = set_back at bs;
    shape = simp free;
    same_back = refl;
    same_used = refl;
  }
]

-- The freed block's own `prev` pointer is what `free` goes on with.
freed-load :
    (m : Memory) (at : ℕ) (b : Block) (post : Blocks)
    → Chain m.spaces at (freed at b post)
    → (s : MemorySpace) × (load at m ≡ done s m) × (s.prev ≡ b.back)
freed-load m at b post c =
    let f = merge_next-FirstOf at (block b.back b.size false) post in
    let there = (rw f.shape at c).0 in
    (header f.first (link (at + 16 + f.first.size) f.others), load-done m at there, f.same_back)

-- What `free` does behind its null test, for the block at `at`.
free_at : ℕ → Memory → Run (Unit {0})
free_at at = do
  set_is_allocated at false
  merge_next_memory_space at
  s ← load at
  merge_into_prev s.prev

free_at-freed :
    (m : Memory) (at back : ℕ) (b : Block) (post : Blocks) {P : Unit {0} → Memory → Type 0}
    → b.back ≡ back
    → Chain m.spaces at (b ∷ post)
    → 4 ≤ at
    → at + span (b ∷ post) < 2 ^ 32
    → ((m' : Memory) → Becomes m at (freed at b post) m' → Returns P (merge_into_prev back m'))
    → Returns P (free_at at m)
unfolding free_at
free_at-freed m at back b post e c low fit next =
    after (mark_refines m at (b ∷ post) false c (omega arith) refl) λ _ m1 w1.
      after (merge_refines m1 at (block b.back b.size false) post w1.chain (omega arith) fit)
        λ _ m2 w2.
          let (s, loaded, same) = freed-load m2 at b post w2.chain in
          rw (loaded, same ∙ e) (next m2 (then-Becomes w1 w2))

-- `merge_into_prev` in front of a block that was given back.
merge_into_prev-joined :
    (m : Memory) (at : ℕ) (a : Block) (rest : Blocks)
    → Chain m.spaces at (a ∷ rest)
    → 0 < at
    → at + span (a ∷ rest) < 2 ^ 32
    → Returns (λ _. Becomes m at (joined at a rest)) (merge_into_prev at m)
unfolding merge_into_prev
merge_into_prev-joined m at a rest c pos fit =
    rw (==_ne at 0 (omega arith), load-done m at c.0)
      (elim (Bool-cases a.used) [
        | inl used ↦ simp used (returns (unchanged m at (a ∷ rest) c))
        | inr free ↦ simp free (after (merge_refines m at a rest c pos fit) λ _ m' w. returns w)
      ])

free-free_at : (m : Memory) (at : ℕ) → 0 < at → at + 16 < 2 ^ 32 → free (at + 16) m ≡ free_at at m
unfolding free free_at
free-free_at m at pos fit =
    let place : u32 (at + 16 + 2 ^ 32 - 16) ≡ at = omega arith in
    rw (==_ne (at + 16) 0 (omega arith), place)

span-joined :
    (at : ℕ) (a : Block) (rest : Blocks) → span (joined at a rest) ≡ 16 + a.size + span rest
span-joined at a rest = ground (arith, span-merge_next at (a ∷ rest))

link-joined : (q at : ℕ) (a : Block) (rest : Blocks) → link q (joined at a rest) ≡ q
link-joined q at a rest = ground (arith, link-merge_next q at a rest)

module _ (m : Memory) (start : ℕ) (b : Block) (post : Blocks) where
  free_first :
      IsHeap m start (b ∷ post)
      → b.back ≡ 0
      → Returns
          (λ _ m'. IsHeap m' start (release start [] b post) × (m'.bytes ≡ m.bytes))
          (free (start + 0 + 16) m)
  unfolding release merge_into_prev
  free_first h back =
      let low = h.low in
      let high = h.high in
      let e : start + 0 + 16 ≡ start + 16 = omega arith in
      rw (e, free-free_at m start (omega arith) (omega arith))
        (free_at-freed m start 0 b post back h.chain low high (λ m' w. returns (
          record {
            head_there = w.same_head ∙ h.head_there;
            chain = w.chain;
            low = low;
            high = omega (arith, span-merge_next start (block b.back b.size false ∷ post));
          },
          w.same_bytes,
        )))

  free_after :
      (pre : Blocks) (a : Block)
      → IsHeap m start (pre ++ (a ∷ b ∷ post))
      → b.back ≡ start + span pre
      → let at = start + span pre in
        Returns
          (λ _ m'.
            IsHeap m' start (pre ++ joined at a (freed (at + 16 + a.size) b post))
            × (m'.bytes ≡ m.bytes))
          (free (at + 16 + a.size + 16) m)
  free_after pre a h back =
      let low = h.low in
      let at = start + span pre in
      let p = at + 16 + a.size in
      let rest = freed p b post in
      let d = block b.back b.size false in
      let fit : at + span (a ∷ b ∷ post) < 2 ^ 32 =
        let e = h.high in omega (arith, span-append pre (a ∷ b ∷ post)) in
      let c = suffix m.spaces start pre (a ∷ b ∷ post) h.chain in
      rw (free-free_at m p (omega arith) (omega arith)) (
        free_at-freed m p at b post back c.1 (omega arith) (omega arith) (λ m1 w1.
          (weaken
            (merge_into_prev-joined m1 at a rest
              (Chain-cons m1.spaces at p a rest refl
                (w1.below at (omega arith)
                  ∙ c.0
                  ∙ ap (λ q. some (header a q)) (sym (link-merge_next p p d post)))
                w1.chain)
              (omega arith) (omega (arith, span-merge_next p (d ∷ post))))
            λ _ m2 w2. (
              replaced-IsHeap m start m2 pre (a ∷ b ∷ post) (joined at a rest) h
                  (record {
                    chain = w2.chain;
                    below = λ q k. w2.below q k ∙ w1.below q (omega arith);
                    same_head = w2.same_head ∙ w1.same_head;
                    same_bytes = w2.same_bytes ∙ w1.same_bytes;
                  })
                  (λ q. sym (link-joined q at a rest))
                  (span-joined at a rest
                    ∙ ap (λ (k : ℕ). 16 + a.size + k) (span-merge_next p (d ∷ post))),
              w2.same_bytes ∙ w1.same_bytes,
            ))))

release-last :
    (at : ℕ) (pre : Blocks) (a b : Block) (post : Blocks)
    → release at (pre ++ (a ∷ [])) b post
      ≡ pre ++ joined (at + span pre) a (freed (at + span pre + 16 + a.size) b post)
unfolding release
release-last at [] a b post = ap (λ q. joined q a (freed (q + 16 + a.size) b post)) (omega arith)
release-last at (x ∷ []) a b post =
    ap (λ q. x ∷ joined q a (freed (q + 16 + a.size) b post)) (omega arith)
release-last at (x ∷ y ∷ pre) a b post =
    ap (λ t. x ∷ t)
      (release-last (at + 16 + x.size) (y ∷ pre) a b post
        ∙ ap (λ q. y ∷ pre ++ joined q a (freed (q + 16 + a.size) b post)) (omega arith))

last_from-append :
    (prev at : ℕ) (pre : Blocks) (a : Block) → last_from prev at (pre ++ (a ∷ [])) ≡ at + span pre
last_from-append prev at [] a = omega arith
last_from-append prev at (x ∷ pre) a = omega (arith, last_from-append at (at + 16 + x.size) pre a)

-- A list of blocks is empty or has a last one.
Last : Blocks → Type 0
Last pre = (pre ≡ []) ⊎ ((front : Blocks) × (a : Block) × (pre ≡ front ++ (a ∷ [])))

Last-cases : (pre : Blocks) → Last pre
unfolding Last
Last-cases [] = inl refl
Last-cases (x ∷ pre) = elim (Last-cases pre) [
  | inl e ↦ inr ([], x, ap (λ t. x ∷ t) e)
  | inr (front, a, e) ↦ inr (x ∷ front, a, ap (λ t. x ∷ t) e)
]

-- `free` gives the block back whose payload the pointer names: it merges with the free blocks
-- next to it. The block's `prev` pointer has to be right; no other one is read.
pub free_refines :
    (m : Memory) (start : ℕ) (pre : Blocks) (b : Block) (post : Blocks)
    → IsHeap m start (pre ++ (b ∷ post))
    → b.back ≡ last_from 0 start pre
    → Returns
        (λ _ m'. IsHeap m' start (release start pre b post) × (m'.bytes ≡ m.bytes))
        (free (start + span pre + 16) m)
unfolding Last
free_refines m start pre b post h back = elim (Last-cases pre) [
  | inl e ↦ rw e (free_first m start b post (rw e at h) (rw e at back))
  | inr (front, a, e) ↦
      let at = start + span front in
      let place : start + span (front ++ (a ∷ [])) + 16 ≡ at + 16 + a.size + 16 =
        omega (arith, span-append front (a ∷ [])) in
      let h' : IsHeap m start ((front ++ (a ∷ [])) ++ (b ∷ post)) = rw e at h in
      let back' : b.back ≡ last_from 0 start (front ++ (a ∷ [])) = rw e at back in
      rw (e, place, release-last start front a b post)
        (free_after m start b post front a (rw append_assoc at h')
          (back' ∙ last_from-append 0 start front a))
]
