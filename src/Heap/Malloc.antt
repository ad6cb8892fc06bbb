-- ===== src/Heap/Malloc.antt =====
-- `malloc` on a heap of blocks: first fit, then a split.
use open_gpos.Base.{
  ℕ, ◌+◌, ◌-◌, ◌^◌, ◌/◌, ◌%◌, ◌*◌, ◌≤◌, ◌<◌, Bool, true, false, [], ◌∷◌, ◌++◌, ◌≡◌, refl, arith,
  ◌∙◌, length, u32, sym, bit_and, min, ==_ne, if◌then◌else◌, ◌==◌,
}
use open_gpos.Base.Bits.{bit_and_low, bit_and_mask}
use open_gpos.Heap.Store.{Memory, pure, Returns, returns, after}
use open_gpos.Heap.Blocks.{
  Block, Blocks, block, span, before_fit, from_fit, split, merge_next, mark, set_back,
}
use open_gpos.Heap.Chain.{Chain, link, suffix, replace_suffix}
use open_gpos.Heap.Merge.{Becomes, then-Becomes}
use open_gpos.Heap.Split.{split_refines, mark_refines, link-split}
use open_gpos.Heap.Find.{find_free_space-first, before_fit-append-from_fit, from_fit-fits}
use open_gpos.Heap.{take_space, malloc, align_4byte}

-- The memory holds a heap of the blocks `bs` from the address `start` on.
pub record IsHeap (m : Memory) (start : ℕ) (bs : Blocks) : Type 0 where
  pub head_there : m.head ≡ start
  pub chain : Chain m.spaces start bs
  pub low : 4 ≤ start
  pub high : start + span bs < 2 ^ 32

-- `ALIGN_4BYTE` rounds up to a multiple of 4, modulo 2 ^ 32.
pub align_4byte_lem : (x : ℕ) → align_4byte x ≡ u32 (x + 3) / 4 * 4
unfolding align_4byte
align_4byte_lem x =
    let y = u32 (x + 3) in
    let low : bit_and y 0xffff_fffc ≡ bit_and (y / 2) 0x7fff_fffe * 2 + min (y % 2) 0 =
      bit_and_low y 0xffff_fffc in
    let next : bit_and (y / 2) 0x7fff_fffe
        ≡ bit_and (y / 2 / 2) 0x3fff_ffff * 2 + min (y / 2 % 2) 0 =
      bit_and_low (y / 2) 0x7fff_fffe in
    let mask : bit_and (y / 2 / 2) 0x3fff_ffff ≡ y / 2 / 2 % 2 ^ 30 = bit_and_mask 30 (y / 2 / 2) in
    omega arith

pub span-append : (bs cs : Blocks) → span (bs ++ cs) ≡ span bs + span cs
span-append [] cs = omega arith
span-append (b ∷ bs) cs = omega (arith, span-append bs cs)

pub span-mark : (u : Bool) (bs : Blocks) → span (mark u bs) ≡ span bs
span-mark u [] = refl
span-mark u (b ∷ bs) = refl

link-mark : (a : ℕ) (u : Bool) (bs : Blocks) → link a (mark u bs) ≡ link a bs
link-mark a u [] = refl
link-mark a u (b ∷ bs) = refl

span-set_back : (p : ℕ) (bs : Blocks) → span (set_back p bs) ≡ span bs
span-set_back p [] = refl
span-set_back p (b ∷ bs) = refl

-- Merging and splitting keep the space that the blocks take.
pub span-merge_next : (at : ℕ) (bs : Blocks) → span (merge_next at bs) ≡ span bs
unfolding merge_next
span-merge_next at [] = refl
span-merge_next at (b ∷ []) = refl
span-merge_next at (b ∷ n ∷ bs) = ground (arith, span-set_back at bs)

pub span-split : (at size : ℕ) (bs : Blocks) → span (split at size bs) ≡ span bs
unfolding split
span-split at size [] = refl
span-split at size (b ∷ bs) =
    ground (arith, span-merge_next (at + 16 + size) (block at (b.size - size - 16) false ∷ bs))

-- The blocks after `malloc`, and the address that it returns.
abbrev pub allocate : ℕ → ℕ → Blocks → Blocks → Blocks
allocate start size bs [] = bs
allocate start size bs (c ∷ cs) =
    before_fit size bs ++ mark true (split (start + span (before_fit size bs)) size (c ∷ cs))

abbrev pub allocated_at : ℕ → ℕ → Blocks → Blocks → ℕ
allocated_at start size bs [] = 0
allocated_at start size bs (c ∷ cs) = start + span (before_fit size bs) + 16

module _ (m : Memory) (start : ℕ) where
  -- The heap after an operation on its part from the block `c` on.
  pub replaced-IsHeap :
      (m' : Memory) (pre cs ds : Blocks)
      → IsHeap m start (pre ++ cs)
      → Becomes m (start + span pre) ds m'
      → ((a : ℕ) → link a cs ≡ link a ds)
      → span ds ≡ span cs
      → IsHeap m' start (pre ++ ds)
  replaced-IsHeap m' pre cs ds h w first same = record {
    head_there = w.same_head ∙ h.head_there;
    chain = replace_suffix m.spaces m'.spaces start pre cs ds h.chain first w.below w.chain;
    low = h.low;
    high = let e = h.high in omega (arith, span-append pre cs, span-append pre ds);
  }

  take_space_at :
      (size : ℕ) (pre : Blocks) (c : Block) (cs : Blocks)
      → IsHeap m start (pre ++ (c ∷ cs))
      → size ≤ c.size
      → Returns
          (λ r m'.
            (r ≡ start + span pre + 16)
            × IsHeap m' start (pre ++ mark true (split (start + span pre) size (c ∷ cs)))
            × (m'.bytes ≡ m.bytes))
          (take_space (start + span pre) size m)
  unfolding take_space
  take_space_at size pre c cs h small =
      let p = start + span pre in
      let parts = split p size (c ∷ cs) in
      let fit : p + span (c ∷ cs) < 2 ^ 32 =
        let e = h.high in omega (arith, span-append pre (c ∷ cs)) in
      let low = h.low in
      let return : u32 (p + 16) ≡ p + 16 = omega arith in
      after
        (split_refines m p size c cs (suffix m.spaces start pre (c ∷ cs) h.chain) (omega arith) fit
          small)
        λ _ m1 w1.
          after (mark_refines m1 p parts true w1.chain (omega arith) (link-split p p size c cs))
            λ _ m2 w2. rw return (
              returns (
                refl,
                replaced-IsHeap m2 pre (c ∷ cs) (mark true parts) h (then-Becomes w1 w2)
                    (λ a. sym (link-mark a true parts ∙ link-split a p size c cs))
                    (span-mark true parts ∙ span-split p size (c ∷ cs)),
                w2.same_bytes ∙ w1.same_bytes,
              ))

  -- `malloc` returns the first block that is free and large enough, cut to size, or NULL where
  -- there is none; it changes no payload.
  pub malloc_refines :
      (fuel size : ℕ) (b : Block) (bs : Blocks)
      → IsHeap m start (b ∷ bs)
      → length bs < fuel
      → let size' = align_4byte size in
        let found = from_fit size' (b ∷ bs) in
        Returns
          (λ r m'.
            (r ≡ allocated_at start size' (b ∷ bs) found)
            × IsHeap m' start (allocate start size' (b ∷ bs) found)
            × (m'.bytes ≡ m.bytes))
          (malloc fuel size m)
  unfolding malloc
  malloc_refines fuel size b bs h enough =
      rw (find_free_space-first fuel m start (align_4byte size) b bs h.head_there h.chain enough)
        (go (from_fit (align_4byte size) (b ∷ bs)) refl)
    where
      go :
          (found : Blocks)
          → from_fit (align_4byte size) (b ∷ bs) ≡ found
          → Returns
              (λ r m'.
                (r ≡ allocated_at start (align_4byte size) (b ∷ bs) found)
                × IsHeap m' start (allocate start (align_4byte size) (b ∷ bs) found)
                × (m'.bytes ≡ m.bytes))
              ((if link (start + span (before_fit (align_4byte size) (b ∷ bs))) found == 0
                  then pure 0
                  else take_space
                      (link (start + span (before_fit (align_4byte size) (b ∷ bs))) found)
                      (align_4byte size))
                m)
      go [] e = returns (refl, h, refl)
      go (c ∷ cs) e =
          let size' = align_4byte size in
          let pre = before_fit size' (b ∷ bs) in
          let p = start + span pre in
          let low = h.low in
          let whole : pre ++ (c ∷ cs) ≡ b ∷ bs =
            rw e at (before_fit-append-from_fit size' (b ∷ bs)) in
          rw (==_ne p 0 (omega arith))
            (take_space_at size' pre c cs (rw whole h) (from_fit-fits size' (b ∷ bs) c cs e).1)
