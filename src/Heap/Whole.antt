-- ===== src/Heap/Whole.antt =====
-- A heap of libc/src/stdlib/heap.c that is one free block, as `init_malloc` makes it: what `malloc`
-- takes from it, `free` gives back.
use open_gpos.Base.{
  ℕ, ◌+◌, ◌-◌, ◌<◌, ◌≤◌, inl, inr, true, false, [], ◌∷◌, ◌≡◌, refl, arith, ◌∙◌, sym, Bool-cases,
  ltb, subst,
}
use open_gpos.Heap.Store.{Memory, Returns, weaken}
use open_gpos.Heap.Blocks.{
  Blocks, block, span, fits, before_fit, from_fit, merge_next, split, mark, release,
}
use open_gpos.Heap.Malloc.{IsHeap, malloc_refines, allocate, allocated_at}
use open_gpos.Heap.Laws.{IsSound, free-IsSound}
use open_gpos.Heap.{malloc, free, align_4byte}

-- one free block of `n` bytes
abbrev pub whole : ℕ → Blocks
whole n = block 0 n false ∷ []

-- the blocks behind `malloc`
abbrev pub cut : ℕ → ℕ → ℕ → Blocks
cut start size n = mark true (split start size (whole n))

first_fit :
    (size n : ℕ) → size ≤ n → (from_fit size (whole n) ≡ whole n) × (before_fit size (whole n) ≡ [])
unfolding from_fit before_fit
first_fit size n h =
    let e : fits size (block 0 n false) ≡ true = ground arith in (rw e refl, rw e refl)

allocate-whole :
    (start size n : ℕ)
    → size ≤ n
    → (allocate start size (whole n) (from_fit size (whole n)) ≡ cut start size n)
      × (allocated_at start size (whole n) (from_fit size (whole n)) ≡ start + 16)
allocate-whole start size n h =
    let (found, before) = first_fit size n h in
    let none_before : start + 0 ≡ start = omega arith in
    rw (found, before, none_before) (refl, refl)

-- A block cut from the heap goes back to it.
returned :
    (m : Memory) (start size n : ℕ)
    → IsHeap m start (cut start size n)
    → size ≤ n
    → Returns (λ _ m'. IsSound m' start (whole n) × (m'.bytes ≡ m.bytes)) (free (start + 16) m)
unfolding split merge_next release
returned m start size n h small =
    let at : start + span [] + 16 ≡ start + 16 = omega arith in
    elim (Bool-cases (ltb (size + 20) n)) [
      | inl room ↦
          let rest = block start (n - size - 16) false in
          let given = block 0 size true in
          let shape : cut start size n ≡ given ∷ rest ∷ [] = rw room refl in
          let sum : size + 16 + (n - size - 16) ≡ n = ground arith in
          let sound : IsSound m start (given ∷ rest ∷ []) = record {
            heap = subst (λ t. IsHeap m start t) shape h;
            linked = (refl, (refl, tt));
            coalesced = (refl, tt);
          } in
          subst
            (λ t. Returns (λ _ m'. IsSound m' start (whole n) × (m'.bytes ≡ m.bytes)) (free t m)) at
            (weaken (free-IsSound m start [] given (rest ∷ []) sound)
              λ _ m' (s, same). (subst (λ t. IsSound m' start (whole t)) sum s, same))
      | inr all ↦
          let given = block 0 n true in
          let shape : cut start size n ≡ given ∷ [] = rw all refl in
          let sound : IsSound m start (given ∷ []) = record {
            heap = subst (λ t. IsHeap m start t) shape h;
            linked = (refl, tt);
            coalesced = tt;
          } in
          subst
            (λ t. Returns (λ _ m'. IsSound m' start (whole n) × (m'.bytes ≡ m.bytes)) (free t m)) at
            (free-IsSound m start [] given [] sound)
    ]

-- `malloc` on the whole heap returns the payload of its first block, and leaves the blocks that are cut
-- from it; `free` of that leaves the heap whole again. No payload changes.
pub malloc-free-whole :
    (m : Memory) (start fuel size n : ℕ)
    → IsSound m start (whole n)
    → 0 < fuel
    → align_4byte size ≤ n
    → Returns
        (λ r m'.
          (r ≡ start + 16)
          × IsHeap m' start (cut start (align_4byte size) n)
          × Returns (λ _ m''. IsSound m'' start (whole n) × (m''.bytes ≡ m.bytes)) (free r m'))
        (malloc fuel size m)
malloc-free-whole m start fuel size n s enough small =
    let size' = align_4byte size in
    let (left, place) = allocate-whole start size' n small in
    weaken (malloc_refines m start fuel size (block 0 n false) [] s.heap enough)
      λ r m' (e, h, same).
        let at : start + 16 ≡ r = sym (e ∙ place) in
        (
          e ∙ place,
          subst (λ t. IsHeap m' start t) left h,
          subst
              (λ t.
                Returns (λ _ m''. IsSound m'' start (whole n) × (m''.bytes ≡ m.bytes)) (free t m'))
              at
              (weaken (returned m' start size' n (subst (λ t. IsHeap m' start t) left h) small)
                λ _ m'' (s', same'). (s', same' ∙ same)),
        )
