-- ===== src/Heap/Laws.antt =====
-- What the allocator promises: the heap after `init_malloc`, `malloc` and `free`.
use open_gpos.Base.{
  ℕ, ◌+◌, ◌-◌, ◌^◌, ◌<◌, ◌≤◌, ◌⊎◌, inl, inr, true, false, [], ◌∷◌, ◌++◌, ◌≡◌, refl, arith,
  Bool-cases, ltb, u32, length, All, subst, ap, sym,
}
use open_gpos.Heap.Store.{Memory, Returns, returns, weaken, store}
use open_gpos.Heap.Steps.{write_space_self}
use open_gpos.Heap.Blocks.{
  Block, Blocks, block, span, fits, before_fit, from_fit, merge_next, split, mark, IsLinked,
  IsCoalesced, release, last_from,
}
use open_gpos.Heap.Find.{from_fit-fits, before_fit-append-from_fit}
use open_gpos.Heap.Linked.{
  release-IsLinked, back_of_IsLinked, suffix-IsLinked, prefix-IsLinked, append-IsLinked,
  last_from-append, split_used,
}
use open_gpos.Heap.Coalesced.{
  release-IsCoalesced, split-IsCoalesced, append-IsCoalesced, tail-IsCoalesced,
}
use open_gpos.Heap.Malloc.{IsHeap, malloc_refines, align_4byte_lem, allocate, allocated_at}
use open_gpos.Heap.Free.{free_refines}
use open_gpos.Heap.{init_malloc, malloc, free, align_4byte}

-- A heap whose `prev` pointers are right and which has no free block in front of a free block.
pub record IsSound (m : Memory) (start : ℕ) (bs : Blocks) : Type 0 where
  pub heap : IsHeap m start bs
  pub linked : IsLinked 0 start bs
  pub coalesced : IsCoalesced bs

-- `init_malloc` makes one free block of the region that the linker reserves.
pub init_malloc-IsSound :
    (heap_start heap_end : ℕ) (m : Memory)
    → 0 < heap_start
    → heap_start + 19 ≤ heap_end
    → heap_end < 2 ^ 32
    → let start = align_4byte heap_start in
      Returns
        (λ _ m'. IsSound m' start (block 0 (heap_end - start - 16) false ∷ []))
        (init_malloc heap_start heap_end m)
unfolding init_malloc store
init_malloc-IsSound heap_start heap_end m pos room top =
    let start = align_4byte heap_start in
    let rounded = align_4byte_lem heap_start in
    let size : u32 (u32 (heap_end + 2 ^ 32 - start) + 2 ^ 32 - 16) ≡ heap_end - start - 16 =
      omega arith in
    returns (record {
      heap = record {
        head_there = refl;
        chain = (rw size (write_space_self m.spaces start _), tt);
        low = omega arith;
        high = omega arith;
      };
      linked = (refl, tt);
      coalesced = tt;
    })

-- `free` of a block's payload address, in a sound heap: the heap is sound again, the block and the
-- free blocks next to it are one free block, and no payload changes.
pub free-IsSound :
    (m : Memory) (start : ℕ) (pre : Blocks) (b : Block) (post : Blocks)
    → IsSound m start (pre ++ (b ∷ post))
    → Returns
        (λ _ m'. IsSound m' start (release start pre b post) × (m'.bytes ≡ m.bytes))
        (free (start + span pre + 16) m)
free-IsSound m start pre b post s =
    weaken (free_refines m start pre b post s.heap (back_of_IsLinked 0 start pre b post s.linked))
      λ _ m' (h, same). (
        record {
          heap = h;
          linked = release-IsLinked 0 start pre b post s.linked;
          coalesced = release-IsCoalesced start pre b post s.coalesced;
        },
        same,
      )

-- The block that a call of `malloc` hands out: of the old blocks `bs` it is the first that is free and
-- large enough, and it is handed out whole, or cut to the size with the rest of it left free; the
-- blocks `ds` that the call leaves are the old ones but for that.
pub record Given (start size r : ℕ) (bs ds : Blocks) : Type 0 where
  pub pre : Blocks
  pub found : Block
  pub post : Blocks
  pub given : Block
  pub rest : Blocks
  pub before : bs ≡ pre ++ (found ∷ post)
  pub behind : ds ≡ pre ++ (given ∷ rest)
  pub first : All (λ b. fits (align_4byte size) b ≡ false) pre
  pub place : r ≡ start + span pre + 16
  pub free : found.used ≡ false
  pub taken : given.used ≡ true
  pub enough : size ≤ given.size
  pub others :
      ((given.size ≡ found.size) × (rest ≡ post))
      ⊎ ((given.size ≡ align_4byte size)
          × (given.size + 20 < found.size)
          × (rest ≡ block (start + span pre) (found.size - given.size - 16) false ∷ post))

none_fits : (size : ℕ) (bs : Blocks) → from_fit size bs ≡ [] → All (λ b. fits size b ≡ false) bs
unfolding from_fit
none_fits size [] e = tt
none_fits size (b ∷ bs) e = elim (Bool-cases (fits size b)) [
  | inl hit ↦ cc
  | inr miss ↦ (miss, none_fits size bs (rw miss at e))
]

-- The two outcomes of `malloc`: NULL and an unchanged heap, or a block.
abbrev pub Outcome : ℕ → ℕ → Blocks → ℕ → Memory → Type 0
Outcome start size bs r m' =
    ((r ≡ 0) × IsHeap m' start bs × All (λ b. fits (align_4byte size) b ≡ false) bs)
    ⊎ ((ds : Blocks) × IsHeap m' start ds × IsCoalesced ds × Given start size r bs ds)

behind : (pre cs : Blocks) → IsCoalesced (pre ++ cs) → IsCoalesced cs
behind [] cs h = h
behind (a ∷ pre) cs h = behind pre cs (tail-IsCoalesced a (pre ++ cs) h)

none_before : (size : ℕ) (bs : Blocks) → All (λ b. fits size b ≡ false) (before_fit size bs)
unfolding before_fit
none_before size [] = tt
none_before size (b ∷ bs) = elim (Bool-cases (fits size b)) [
  | inl hit ↦ rw hit tt
  | inr miss ↦ rw miss (miss, none_before size bs)
]

-- Behind a free block of a coalesced heap there is nothing to merge.
merge_next_idle :
    (at p k : ℕ) (c : Block) (cs : Blocks)
    → c.used ≡ false
    → IsCoalesced (c ∷ cs)
    → merge_next at (block p k false ∷ cs) ≡ block p k false ∷ cs
unfolding merge_next
merge_next_idle at p k c [] free h = refl
merge_next_idle at p k c (n ∷ cs) free h = let used : n.used ≡ true = rw free at h.0 in rw used refl

-- the block that is handed out, and the blocks behind it
pub given_block :
    (size : ℕ) (c : Block) (cs : Blocks) (at : ℕ)
    → size ≤ c.size
    → c.used ≡ false
    → IsCoalesced (c ∷ cs)
    → (d : Block) × (ds : Blocks) × (mark true (split at size (c ∷ cs)) ≡ d ∷ ds)
      × (d.used ≡ true)
      × (size ≤ d.size)
      × (((d.size ≡ c.size) × (ds ≡ cs))
          ⊎ ((d.size ≡ size)
              × (d.size + 20 < c.size)
              × (ds ≡ block at (c.size - d.size - 16) false ∷ cs)))
unfolding split
given_block size c cs at small free apart = elim (Bool-cases (ltb (size + 20) c.size)) [
  | inl room ↦ (
    block c.back size true,
    merge_next (at + 16 + size) (block at (c.size - size - 16) false ∷ cs),
    simp room,
    refl,
    omega arith,
    inr (
      refl,
      ground arith,
      merge_next_idle (at + 16 + size) at (c.size - size - 16) c cs free apart,
    ),
  )
  | inr keep ↦ (block c.back c.size true, cs, simp keep, refl, small, inl (refl, refl))
]

-- `malloc` on a coalesced heap, for a size that can be rounded up: NULL only if no free block is
-- large enough, and then the heap is unchanged; else the payload of the first block that was free and
-- large enough, which is now in use and has at least that size, whole or cut to the rounded size with
-- the rest of it left as a free block behind it; every other block is as before, and the heap is
-- coalesced again. No payload changes.
pub malloc_lem :
    (m : Memory) (start fuel size : ℕ) (b : Block) (bs : Blocks)
    → IsHeap m start (b ∷ bs)
    → IsCoalesced (b ∷ bs)
    → length bs < fuel
    → size + 3 < 2 ^ 32
    → Returns (λ r m'. Outcome start size (b ∷ bs) r m' × (m'.bytes ≡ m.bytes)) (malloc fuel size m)
malloc_lem m start fuel size b bs h apart enough small =
    weaken (malloc_refines m start fuel size b bs h enough)
      λ r m' (e, h', same). (go r m' (from_fit (align_4byte size) (b ∷ bs)) refl e h', same)
  where
    go :
        (r : ℕ) (m' : Memory) (found : Blocks)
        → from_fit (align_4byte size) (b ∷ bs) ≡ found
        → r ≡ allocated_at start (align_4byte size) (b ∷ bs) found
        → IsHeap m' start (allocate start (align_4byte size) (b ∷ bs) found)
        → Outcome start size (b ∷ bs) r m'
    go r m' [] f e h' = inl (e, h', none_fits (align_4byte size) (b ∷ bs) f)
    go r m' (c ∷ cs) f e h' =
        let size' = align_4byte size in
        let pre = before_fit size' (b ∷ bs) in
        let at = start + span pre in
        let (idle, ok) = from_fit-fits size' (b ∷ bs) c cs f in
        let whole : pre ++ (c ∷ cs) ≡ b ∷ bs =
          rw f at (before_fit-append-from_fit size' (b ∷ bs)) in
        let apart' : IsCoalesced (pre ++ (c ∷ cs)) = rw whole apart in
        let (d, ds, shape, taken, large, others) =
          given_block size' c cs at ok idle (behind pre (c ∷ cs) apart') in
        inr (
          pre ++ mark true (split at size' (c ∷ cs)),
          h',
          append-IsCoalesced pre c cs (mark true (split at size' (c ∷ cs))) apart'
              (split-IsCoalesced at size' c cs (behind pre (c ∷ cs) apart')),
          record {
            pre = pre;
            found = c;
            post = cs;
            given = d;
            rest = ds;
            before = sym whole;
            behind = ap (λ t. pre ++ t) shape;
            first = none_before size' (b ∷ bs);
            place = e;
            free = idle;
            taken = taken;
            enough = omega (arith, align_4byte_lem size);
            others = others;
          },
        )

-- Where first fit cuts a block in front of a block in use, `malloc` leaves that block's `prev`
-- pointer on the block that it has cut, where the block in front of it is now the rest of that one;
-- all `prev` pointers up to it are right, and every block but the one that is cut is as before.
pub malloc_stale_prev :
    (m : Memory) (start fuel size : ℕ) (b : Block) (bs : Blocks) (c n : Block) (cs : Blocks)
    → IsHeap m start (b ∷ bs)
    → IsLinked 0 start (b ∷ bs)
    → length bs < fuel
    → from_fit (align_4byte size) (b ∷ bs) ≡ c ∷ n ∷ cs
    → n.used ≡ true
    → align_4byte size + 20 < c.size
    → let size' = align_4byte size in
      let pre = before_fit size' (b ∷ bs) in
      let cut = start + span pre in
      let rest = cut + 16 + size' in
      let parts = block c.back size' true ∷ block cut (c.size - size' - 16) false ∷ [] in
      Returns
        (λ _ m'.
          IsHeap m' start (pre ++ (parts ++ (n ∷ cs)))
          × IsLinked 0 start (pre ++ parts)
          × (last_from 0 start (pre ++ parts) ≡ rest)
          × (n.back ≡ cut)
          × (cut < rest))
        (malloc fuel size m)
malloc_stale_prev m start fuel size b bs c n cs h linked enough found used room =
    weaken (malloc_refines m start fuel size b bs h enough) λ r m' (e, h', same).
      let size' = align_4byte size in
      let pre = before_fit size' (b ∷ bs) in
      let cut = start + span pre in
      let whole : pre ++ (c ∷ n ∷ cs) ≡ b ∷ bs =
        rw found at (before_fit-append-from_fit size' (b ∷ bs)) in
      let old = suffix-IsLinked 0 start pre (c ∷ n ∷ cs) (rw whole linked) in
      let parts = block c.back size' true ∷ block cut (c.size - size' - 16) false ∷ [] in
      let heap : IsHeap m' start (pre ++ mark true (split cut size' (c ∷ n ∷ cs))) =
        subst (λ t. IsHeap m' start (allocate start size' (b ∷ bs) t)) found h' in
      (
        subst (λ t. IsHeap m' start (pre ++ t)) (split_used cut size' c n cs used room) heap,
        append-IsLinked 0 start pre parts
            (prefix-IsLinked 0 start pre (c ∷ n ∷ cs) (rw whole linked)) (old.0, (refl, tt)),
        last_from-append 0 start pre parts,
        old.1.0,
        omega arith,
      )

-- A size of more than 2 ^ 32 - 4 is rounded up to 0: `malloc` hands out an empty block.
pub malloc_wraps :
    (fuel size : ℕ) (m : Memory)
    → size < 2 ^ 32
    → 2 ^ 32 ≤ size + 3
    → malloc fuel size m ≡ malloc fuel 0 m
unfolding malloc
malloc_wraps fuel size m small large =
    let zero_size : align_4byte size ≡ align_4byte 0 =
      omega (arith, align_4byte_lem size, align_4byte_lem 0) in
    rw zero_size
