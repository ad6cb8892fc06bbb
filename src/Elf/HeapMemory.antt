-- ===== src/Elf/HeapMemory.antt =====
-- The heap of libc/src/stdlib/heap.c as the allocator of `loadELF`. Its headers lie in the memory that
-- the loader writes: how they lie there in bytes is the parameter `Layout`. A call that finds other
-- bytes there than the last one left is a fault.
use open_gpos.Base.{
  ℕ, ◌+◌, ◌<◌, ◌≤◌, ◌≡◌, ◌⊎◌, inl, inr, refl, sym, ap, subst, Bool, ◌∙◌, true, false, ◌||◌,
  if◌then◌else◌, Bool-cases, [], ◌∷◌, arith,
}
use open_gpos.Str.Copy.{within}
use open_gpos.Heap.Store.{Memory, Run, done, fault, out_of_fuel, and_then, Returns, returns}
use open_gpos.Heap.{malloc, free, align_4byte}
use open_gpos.Heap.Blocks.{Block, Blocks, block, span, split}
use open_gpos.Heap.Malloc.{IsHeap, span-split, span-mark}
use open_gpos.Heap.Laws.{IsSound, given_block}
use open_gpos.Heap.Whole.{whole, cut, malloc-free-whole}
use open_gpos.Elf.{Allocator}

-- the headers of a heap written to the bytes of the memory, and whether they are there
pub record Layout : Type 0 where
  pub write : Memory → (ℕ → ℕ) → ℕ → ℕ
  pub reads : Memory → (ℕ → ℕ) → Bool

-- the bytes of the headers of blocks
abbrev pub in_headers : ℕ → Blocks → ℕ → Bool
in_headers at [] q = false
in_headers at (b ∷ bs) q = within at 16 q || in_headers (at + 16 + b.size) bs q

-- What a layout is: headers written are there, nothing else is written, and whether they are there
-- hangs on their bytes only.
pub record Lays (layout : Layout) : Type 0 where
  pub reads_back :
      (m : Memory) (mem : ℕ → ℕ) (start : ℕ) (b : Block) (bs : Blocks)
      → IsHeap m start (b ∷ bs)
      → layout.reads m (layout.write m mem) ≡ true
  pub confined :
      (m : Memory) (mem : ℕ → ℕ) (start : ℕ) (b : Block) (bs : Blocks) (q : ℕ)
      → IsHeap m start (b ∷ bs)
      → in_headers start (b ∷ bs) q ≡ false
      → layout.write m mem q ≡ mem q
  pub headers_only :
      (m : Memory) (mem mem' : ℕ → ℕ) (start : ℕ) (b : Block) (bs : Blocks)
      → IsHeap m start (b ∷ bs)
      → ((q : ℕ) → in_headers start (b ∷ bs) q ≡ true → mem' q ≡ mem q)
      → layout.reads m mem' ≡ layout.reads m mem

-- the heap between two calls
abbrev pub HeapState : Type 0
HeapState = Run (Unit {0})

abbrev pub pointer_of : Run ℕ → ℕ × HeapState
pointer_of (done r m) = (r, done tt m)
pointer_of fault = (0, fault)
pointer_of out_of_fuel = (0, out_of_fuel)

module _ (layout : Layout) where
  -- the heap that a call finds in memory
  abbrev pub checked : HeapState → (ℕ → ℕ) → HeapState
  checked (done t m) mem = if layout.reads m mem then done t m else fault
  checked fault mem = fault
  checked out_of_fuel mem = out_of_fuel

  -- the memory with the headers that a call leaves
  abbrev pub laid : HeapState → (ℕ → ℕ) → ℕ → ℕ
  laid (done t m) mem = layout.write m mem
  laid fault mem = mem
  laid out_of_fuel mem = mem

  -- The allocator of the C library, with fuel for the search in the list of blocks.
  unfoldable pub heap_allocator : ℕ → Allocator HeapState
  heap_allocator fuel = record {
    malloc = λ size mem h.
        let (p, h') = pointer_of (and_then (checked h mem) (λ _. malloc fuel size)) in
        (p, laid h' mem, h');
    free = λ p mem h. let h' = and_then (checked h mem) (λ _. free p) in (laid h' mem, h');
  }

pub inversion :
    {A : Type 0} {P : A → Memory → Type 0} {r : Run A}
    → Returns P r
    → (a : A) × (m : Memory) × (r ≡ done a m) × P a m
inversion (returns p) = (_, _, refl, p)

in_headers_bounds :
    (at : ℕ) (bs : Blocks) (q : ℕ) → in_headers at bs q ≡ true → (at ≤ q) × (q < at + span bs)
in_headers_bounds at [] q h = cc
in_headers_bounds at (b ∷ bs) q h = elim (Bool-cases (within at 16 q)) [
  | inl here ↦ (ground arith, ground arith)
  | inr behind ↦
      let rest : in_headers (at + 16 + b.size) bs q ≡ true = rw behind at h in
      let (low, high) = in_headers_bounds (at + 16 + b.size) bs q rest in (omega arith, omega arith)
]

-- No header is outside the blocks.
pub outside_blocks :
    (at : ℕ) (bs : Blocks) (q : ℕ) → (q < at) ⊎ (at + span bs ≤ q) → in_headers at bs q ≡ false
outside_blocks at bs q off = elim (Bool-cases (in_headers at bs q)) [
  | inr out ↦ out
  | inl inside ↦
      let (low, high) = in_headers_bounds at bs q inside in
      absurd (elim off [ inl a ↦ omega arith | inr a ↦ omega arith ])
]

-- No header is in the payload of the first block.
off_payload :
    (at : ℕ) (b : Block) (bs : Blocks) (q : ℕ)
    → in_headers at (b ∷ bs) q ≡ true
    → (q < at + 16) ⊎ (at + 16 + b.size ≤ q)
off_payload at b bs q h = elim (Bool-cases (within at 16 q)) [
  | inl here ↦ inl (ground arith)
  | inr behind ↦
      let rest : in_headers (at + 16 + b.size) bs q ≡ true = rw behind at h in
      inr (in_headers_bounds (at + 16 + b.size) bs q rest).0
]

-- the first of the blocks behind `malloc`
cut_first :
    (start size n : ℕ)
    → size ≤ n
    → (d : Block) × (ds : Blocks) × (cut start size n ≡ d ∷ ds) × (size ≤ d.size)
cut_first start size n small =
    let (d, ds, shape, used, large, _) =
      given_block size (block 0 n false) [] start small refl tt in
    (d, ds, shape, large)

module _ (layout : Layout) (lays : Lays layout) where
  -- What the headers of a heap do not touch, they leave.
  pub write-outside :
      (m : Memory) (mem : ℕ → ℕ) (start : ℕ) (b : Block) (bs : Blocks) (q : ℕ)
      → IsHeap m start (b ∷ bs)
      → (q < start) ⊎ (start + span (b ∷ bs) ≤ q)
      → layout.write m mem q ≡ mem q
  write-outside m mem start b bs q h off =
      lays.confined m mem start b bs q h (outside_blocks start (b ∷ bs) q off)

  module _ (fuel start size n : ℕ) (m : Memory) (mem : ℕ → ℕ) where
    -- What a call of `malloc` of the allocator leaves of a heap that is whole, and what a call of
    -- `free` behind it then does.
    pub record Borrowed (r : ℕ × (ℕ → ℕ) × HeapState) : Type 0 where
      pub place : r.0 ≡ start + 16
      pub spared : (q : ℕ) → (q < start) ⊎ (start + 16 + n ≤ q) → r.1 q ≡ mem q
      pub free_spared :
          (mem' : ℕ → ℕ) (q : ℕ)
          → (q < start) ⊎ (start + 16 + n ≤ q)
          → ((heap_allocator layout fuel).free (start + 16) mem' r.2).0 q ≡ mem' q
      pub given_back :
          (mem' : ℕ → ℕ)
          → ((q : ℕ)
              → (start ≤ q) × (q < start + 16 + n)
              → (q < start + 16) ⊎ (start + 16 + size ≤ q)
              → mem' q ≡ r.1 q)
          → (m' : Memory) × (((heap_allocator layout fuel).free (start + 16) mem' r.2).1
              ≡ done tt m')
            × IsSound m' start (whole n)

    pub borrowed :
        IsSound m start (whole n)
        → layout.reads m mem ≡ true
        → 0 < fuel
        → align_4byte size ≤ n
        → size ≤ align_4byte size
        → Borrowed ((heap_allocator layout fuel).malloc size mem (done tt m))
    unfolding heap_allocator
    borrowed sound ready enough small rounded =
        let (r, m1, run, (place, heap1, frees)) =
          inversion (malloc-free-whole m start fuel size n sound enough small) in
        let (_, m2, run2, (sound2, _)) = inversion frees in
        let (d, ds, shape, large) = cut_first start (align_4byte size) n small in
        let heap : IsHeap m1 start (d ∷ ds) = subst (λ t. IsHeap m1 start t) shape heap1 in
        let extent : span (d ∷ ds) ≡ 16 + n =
          ap span (sym shape)
          ∙ span-mark true (split start (align_4byte size) (whole n))
          ∙ span-split start (align_4byte size) (whole n)
          ∙ omega arith in
        let run2' : free (start + 16) m1 ≡ done tt m2 = ap (λ p. free p m1) (sym place) ∙ run2 in
        rw ready (
          rw run (record {
            place = place;
            spared = λ q off.
                let off' : (q < start) ⊎ (start + span (d ∷ ds) ≤ q) = elim off [
                  | inl a ↦ inl a
                  | inr a ↦ inr (omega (arith, extent))
                ] in
                write-outside m1 mem start d ds q heap off';
            free_spared = λ mem' q off.
                let off' : (q < start) ⊎ (start + span (whole n) ≤ q) = elim off [
                  | inl a ↦ inl a
                  | inr a ↦ inr (omega arith)
                ] in
                elim (Bool-cases (layout.reads m1 mem')) [
                  | inl there ↦ rw there (
                      rw run2'
                        (write-outside m2 mem' start (block 0 n false) [] q sound2.heap off'))
                  | inr lost ↦ rw lost refl
                ];
            given_back = λ mem' same.
                let kept : layout.reads m1 mem' ≡ true =
                  lays.headers_only m1 (layout.write m1 mem) mem' start d ds heap (λ q inside.
                    let (low, high) = in_headers_bounds start (d ∷ ds) q inside in
                    let off : (q < start + 16) ⊎ (start + 16 + size ≤ q) =
                      elim (off_payload start d ds q inside) [
                        | inl a ↦ inl a
                        | inr a ↦ inr (omega arith)
                      ] in
                    same q (low, omega (arith, extent)) off)
                  ∙ lays.reads_back m1 mem start d ds heap in
                (m2, rw kept run2', sound2);
          }))
