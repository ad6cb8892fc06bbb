-- ===== src/Heap/Split.antt =====
-- `splitMemorySpace` and the allocation flag on a chain of blocks.
use open_gpos.Base.{
  ℕ, ◌+◌, ◌-◌, ◌^◌, ◌≤◌, ◌<◌, inl, inr, Bool, true, false, [], ◌∷◌, ◌≡◌, refl, arith, ◌∙◌, u32,
  Bool-cases, ltb, lt_of_ltb,
}
use open_gpos.Heap.Store.{Memory, Returns, returns, after}
use open_gpos.Heap.Steps.{
  put, load-done, set_next-done, set_size-done, set_is_allocated-done, write_space_self,
  write_space-ne,
}
use open_gpos.Heap.Store.{store, set_is_allocated, set_next, set_size, pure, ◌>>◌}
use open_gpos.Heap.Blocks.{Block, Blocks, block, span, merge_next, split, mark}
use open_gpos.Heap.Chain.{Chain, header, link, frame, Chain-cons}
use open_gpos.Heap.Merge.{Becomes, unchanged, merge_refines}
use open_gpos.Heap.{split_memory_space, merge_next_memory_space}

-- What `set_is_allocated` does to the first block.
pub mark_refines :
    (m : Memory) (at : ℕ) (bs : Blocks) (u : Bool)
    → Chain m.spaces at bs
    → 0 < at
    → link at bs ≡ at
    → Returns (λ _. Becomes m at (mark u bs)) (set_is_allocated at u m)
mark_refines m at [] u c pos there = absurd (omega arith)
mark_refines m at (b ∷ bs) u c pos there =
    let new = header (block b.back b.size u) (link (at + 16 + b.size) bs) in
    rw (set_is_allocated-done m at c.0 u) (
      returns (record {
        chain = (
          write_space_self m.spaces at new,
          frame (at + 16 + b.size) bs c.1 (λ a h k. write_space-ne m.spaces at a new (omega arith)),
        );
        below = λ a h. write_space-ne m.spaces at a new (omega arith);
        same_head = refl;
        same_bytes = refl;
      }))

pub link-merge_next : (at q : ℕ) (b : Block) (bs : Blocks) → link at (merge_next q (b ∷ bs)) ≡ at
unfolding merge_next
link-merge_next at q b [] = refl
link-merge_next at q b (n ∷ bs) = ground arith

pub link-split : (at p size : ℕ) (b : Block) (bs : Blocks) → link at (split p size (b ∷ bs)) ≡ at
unfolding split
link-split at p size b bs = ground arith

-- the memory when the new header is written and the old one is cut
abbrev cut : Memory → ℕ → ℕ → Block → Blocks → Memory
cut m at size b bs =
    put
      (put
        (put m (at + 16 + size)
          (header (block at (b.size - size - 16) false) (link (at + 16 + b.size) bs)))
        at (header b (at + 16 + size)))
      at (header (block b.back size b.used) (at + 16 + size))

cut-Chain :
    (m : Memory) (at size : ℕ) (b : Block) (bs : Blocks)
    → Chain m.spaces at (b ∷ bs)
    → size + 20 < b.size
    → Chain (cut m at size b bs).spaces (at + 16 + size) (block at (b.size - size - 16) false ∷ bs)
cut-Chain m at size b bs c room =
    let q = at + 16 + size in
    let place : at + 16 + b.size ≡ q + 16 + (b.size - size - 16) = omega arith in
    let new = header (block at (b.size - size - 16) false) (link (at + 16 + b.size) bs) in
    let old = header b q in
    let m1 = put m q new in
    let m2 = put m1 at old in
    let apart : (a : ℕ) → q ≤ a → (cut m at size b bs).spaces a ≡ m1.spaces a = λ a h.
      write_space-ne m2.spaces at a (header (block b.back size b.used) q) (omega arith)
      ∙ write_space-ne m1.spaces at a old (omega arith) in
    Chain-cons (cut m at size b bs).spaces q (at + 16 + b.size)
      (block at (b.size - size - 16) false) bs place
      (apart q (omega arith) ∙ write_space_self m.spaces q new)
      (frame (at + 16 + b.size) bs c.1
        (λ a h k. apart a (omega arith) ∙ write_space-ne m.spaces q a new (omega arith)))

cut_below :
    (m : Memory) (at size : ℕ) (b : Block) (bs : Blocks) (a : ℕ)
    → a < at
    → (cut m at size b bs).spaces a ≡ m.spaces a
cut_below m at size b bs a h =
    let q = at + 16 + size in
    let new = header (block at (b.size - size - 16) false) (link (at + 16 + b.size) bs) in
    let m1 = put m q new in
    let m2 = put m1 at (header b q) in
    write_space-ne m2.spaces at a (header (block b.back size b.used) q) (omega arith)
    ∙ write_space-ne m1.spaces at a (header b q) (omega arith)
    ∙ write_space-ne m.spaces q a new (omega arith)

split_room :
    (m : Memory) (at size : ℕ) (b : Block) (bs : Blocks)
    → Chain m.spaces at (b ∷ bs)
    → 4 ≤ at
    → at + span (b ∷ bs) < 2 ^ 32
    → size + 20 < b.size
    → Returns
        (λ _. Becomes m at (
          block b.back size b.used
          ∷ merge_next (at + 16 + size) (block at (b.size - size - 16) false ∷ bs)))
        ((merge_next_memory_space (at + 16 + size) >> pure true) (cut m at size b bs))
split_room m at size b bs c pos fit room =
    let q = at + 16 + size in
    let left = block at (b.size - size - 16) false in
    let m2 = put m q (header left (link (at + 16 + b.size) bs)) in
    let m3 = put m2 at (header b q) in
    after
      (merge_refines (cut m at size b bs) q left bs (cut-Chain m at size b bs c room) (omega arith)
        (omega arith))
      λ _ m4 w. returns (record {
        chain =
            Chain-cons m4.spaces at q (block b.back size b.used) (merge_next q (left ∷ bs)) refl
              (rw (link-merge_next q q left bs) (
                w.below at (omega arith)
                ∙ write_space_self m3.spaces at (header (block b.back size b.used) q)))
              w.chain;
        below = λ a h. w.below a (omega arith) ∙ cut_below m at size b bs a h;
        same_head = w.same_head;
        same_bytes = w.same_bytes;
      })

-- `splitMemorySpace` on the first block of a part of the heap.
pub split_refines :
    (m : Memory) (at size : ℕ) (b : Block) (bs : Blocks)
    → Chain m.spaces at (b ∷ bs)
    → 4 ≤ at
    → at + span (b ∷ bs) < 2 ^ 32
    → size ≤ b.size
    → Returns (λ _. Becomes m at (split at size (b ∷ bs))) (split_memory_space at size m)
unfolding split_memory_space split store
split_refines m at size b bs c pos fit small =
    let sum : u32 (size + 16 + 4) ≡ size + 20 = omega arith in
    rw (load-done m at c.0, sum)
      (elim (Bool-cases (ltb (size + 20) b.size)) [
        | inr keep ↦ rw keep (returns (unchanged m at (b ∷ bs) c))
        | inl room ↦ rw room (go (lt_of_ltb _ _ room))
      ])
  where
    go :
        size + 20 < b.size
        → Returns
            (λ _. Becomes m at (
              block b.back size b.used
              ∷ merge_next (at + 16 + size) (block at (b.size - size - 16) false ∷ bs)))
            ((store (u32 (at + 16 + size)) (record {
              prev = at;
              next = link (at + 16 + b.size) bs;
              size = u32 (b.size + 2 ^ 32 - u32 (size + 16));
              is_allocated = false;
            })
                >> (set_next at (u32 (at + 16 + size))
                    >> (set_size at size
                        >> (merge_next_memory_space (u32 (at + 16 + size)) >> pure true))))
              m)
    go room =
        let q = at + 16 + size in
        let place : u32 (at + 16 + size) ≡ q = omega arith in
        let left : u32 (b.size + 2 ^ 32 - u32 (size + 16)) ≡ b.size - size - 16 = omega arith in
        let new = header (block at (b.size - size - 16) false) (link (at + 16 + b.size) bs) in
        let m1 = put m q new in
        let m2 = put m1 at (header b q) in
        rw
          (
            place,
            left,
            set_next-done m1 at (write_space-ne m.spaces q at new (omega arith) ∙ c.0) q,
            set_size-done m2 at (write_space_self m1.spaces at (header b q)) size,
          )
          (split_room m at size b bs c pos fit room)
