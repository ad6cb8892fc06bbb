-- ===== src/Heap/Merge.antt =====
-- `mergeNextMemorySpace` on a chain of blocks.
use open_gpos.Base.{
  ℕ, ◌+◌, ◌^◌, ◌<◌, inl, inr, some, [], ◌∷◌, ◌≡◌, ◌≢◌, refl, arith, ◌∙◌, u32, Bool-cases, ==_ne,
}
use open_gpos.Heap.Store.{MemorySpace, Memory, Spaces, Returns, write_space, done, returns, weaken}
use open_gpos.Heap.Steps.{
  put, load-done, set_prev-done, set_next-done, set_size-done, write_space_self, write_space-ne,
}
use open_gpos.Heap.Blocks.{Block, Blocks, block, span, set_back, merge_next}
use open_gpos.Heap.Chain.{Chain, header, link, frame, Chain-cons}
use open_gpos.Heap.{absorb_next, set_prev_if_exists, merge_next_memory_space}

-- An operation on the part of the heap from `at` on leaves it with the blocks `bs`, and changes
-- nothing in front of it, nor the payloads.
pub record Becomes (m : Memory) (at : ℕ) (bs : Blocks) (m' : Memory) : Type 0 where
  pub chain : Chain m'.spaces at bs
  pub below : (a : ℕ) → a < at → m'.spaces a ≡ m.spaces a
  pub same_head : m'.head ≡ m.head
  pub same_bytes : m'.bytes ≡ m.bytes

pub unchanged : (m : Memory) (at : ℕ) (bs : Blocks) → Chain m.spaces at bs → Becomes m at bs m
unchanged m at bs c = record { chain = c; below = λ a h. refl; same_head = refl; same_bytes = refl }

-- the second of two operations on the same part
pub then-Becomes :
    {m m1 m2 : Memory} {at : ℕ} {bs cs : Blocks}
    → Becomes m at bs m1
    → Becomes m1 at cs m2
    → Becomes m at cs m2
then-Becomes f g = record {
  chain = g.chain;
  below = λ a h. g.below a h ∙ f.below a h;
  same_head = g.same_head ∙ f.same_head;
  same_bytes = g.same_bytes ∙ f.same_bytes;
}

-- only the header at `p` changed, and `p` is not NULL
record Rewrites (m : Memory) (p : ℕ) (s : MemorySpace) (m' : Memory) : Type 0 where
  there : m'.spaces p ≡ some s
  elsewhere : (a : ℕ) → a ≢ p → m'.spaces a ≡ m.spaces a
  same_head : m'.head ≡ m.head
  same_bytes : m'.bytes ≡ m.bytes

put_twice-Rewrites : (m : Memory) (p : ℕ) (s t : MemorySpace) → Rewrites m p t (put (put m p s) p t)
put_twice-Rewrites m p s t = record {
  there = write_space_self (put m p s).spaces p t;
  elsewhere = λ a ne. write_space-ne (put m p s).spaces p a t ne ∙ write_space-ne m.spaces p a s ne;
  same_head = refl;
  same_bytes = refl;
}

absorb_done :
    (m m1 : Memory) (p n e : ℕ) {sp sn : MemorySpace}
    → set_prev_if_exists e p m ≡ done tt m1
    → m1.spaces p ≡ some sp
    → m1.spaces n ≡ some sn
    → n ≢ p
    → Returns
        (λ _. Rewrites m1 p (record sp { next = e; size = u32 (sp.size + u32 (16 + sn.size)) }))
        (absorb_next p n e m)
unfolding absorb_next
absorb_done m m1 p n e {sp} {sn} first at_p at_n ne =
    let linked : MemorySpace = record sp { next = e } in
    let m2 = put m1 p linked in
    rw
      (
        first,
        set_next-done m1 p at_p e,
        load-done m2 n (write_space-ne m1.spaces p n linked ne ∙ at_n),
        load-done m2 p (write_space_self m1.spaces p linked),
        set_size-done m2 p (write_space_self m1.spaces p linked),
      )
      (returns (put_twice-Rewrites m1 p linked _))

merged-Chain :
    (t : Spaces) (at : ℕ) (b n : Block) (bs : Blocks)
    → at + span (b ∷ n ∷ bs) < 2 ^ 32
    → t at
      ≡ some (
          header
            (block b.back (u32 (b.size + u32 (16 + n.size))) b.used)
            (link (at + 16 + b.size + 16 + n.size) bs))
    → Chain t (at + 16 + b.size + 16 + n.size) bs
    → Chain t at (block b.back (b.size + 16 + n.size) b.used ∷ bs)
merged-Chain t at b n bs fit cell rest =
    let size : u32 (b.size + u32 (16 + n.size)) ≡ b.size + 16 + n.size = omega arith in
    Chain-cons t at (at + 16 + b.size + 16 + n.size) (block b.back (b.size + 16 + n.size) b.used) bs
      (omega arith) (rw (← size) cell) rest

-- Writing the `prev` of the first block of a chain.
relink :
    (s : Spaces) (at back : ℕ) (e : Block) (bs : Blocks)
    → Chain s at (e ∷ bs)
    → Chain
        (write_space s at (header (block back e.size e.used) (link (at + 16 + e.size) bs)))
        at
        (block back e.size e.used ∷ bs)
relink s at back e bs c = (
  write_space_self s at _,
  frame (at + 16 + e.size) bs c.1 (λ a h k. write_space-ne s at a _ (omega arith)),
)

merge_free :
    (m : Memory) (at : ℕ) (b n : Block) (bs : Blocks)
    → Chain m.spaces at (b ∷ n ∷ bs)
    → 0 < at
    → at + span (b ∷ n ∷ bs) < 2 ^ 32
    → Returns
        (λ _. Becomes m at (block b.back (b.size + 16 + n.size) b.used ∷ set_back at bs))
        (absorb_next at (at + 16 + b.size) (link (at + 16 + b.size + 16 + n.size) bs) m)
merge_free m at b n [] c pos fit =
    let p_n = at + 16 + b.size in
    weaken (absorb_done m m at p_n 0 (unfold set_prev_if_exists in refl) c.0 c.1.0 (omega arith))
      λ _ m' w. record {
        chain = merged-Chain m'.spaces at b n [] fit w.there tt;
        below = λ a h. w.elsewhere a (omega arith);
        same_head = w.same_head;
        same_bytes = w.same_bytes;
      }
merge_free m at b n (e ∷ bs) c pos fit =
    let p_n = at + 16 + b.size in
    let p_e = p_n + 16 + n.size in
    let es = block at e.size e.used ∷ bs in
    let new : MemorySpace = header (block at e.size e.used) (link (p_e + 16 + e.size) bs) in
    let m1 = put m p_e new in
    let first : set_prev_if_exists p_e at m ≡ done tt m1 =
      unfold set_prev_if_exists in
      rw (==_ne p_e 0 (omega arith)) (set_prev-done m p_e c.1.1.0 at) in
    let at_p : m1.spaces at ≡ m.spaces at = write_space-ne m.spaces p_e at new (omega arith) in
    let at_n : m1.spaces p_n ≡ m.spaces p_n = write_space-ne m.spaces p_e p_n new (omega arith) in
    weaken (absorb_done m m1 at p_n p_e first (at_p ∙ c.0) (at_n ∙ c.1.0) (omega arith)) λ _ m' w.
      record {
        chain = merged-Chain m'.spaces at b n es fit w.there (
            frame p_e es (relink m.spaces p_e at e bs c.1.1)
              (λ a h k. w.elsewhere a (omega arith)));
        below =
            λ a h. w.elsewhere a (omega arith) ∙ write_space-ne m.spaces p_e a new (omega arith);
        same_head = w.same_head;
        same_bytes = w.same_bytes;
      }

-- `mergeNextMemorySpace` on the first block of a part of the heap.
pub merge_refines :
    (m : Memory) (at : ℕ) (b : Block) (bs : Blocks)
    → Chain m.spaces at (b ∷ bs)
    → 0 < at
    → at + span (b ∷ bs) < 2 ^ 32
    → Returns (λ _. Becomes m at (merge_next at (b ∷ bs))) (merge_next_memory_space at m)
unfolding merge_next_memory_space merge_next
merge_refines m at b [] c pos fit = rw (load-done m at c.0) (returns (unchanged m at (b ∷ []) c))
merge_refines m at b (n ∷ bs) c pos fit =
    rw (load-done m at c.0, ==_ne (at + 16 + b.size) 0 (omega arith), load-done m _ c.1.0)
      (elim (Bool-cases n.used) [
        | inl used ↦ simp used (returns (unchanged m at (b ∷ n ∷ bs) c))
        | inr free ↦ simp free (merge_free m at b n bs c pos fit)
      ])
