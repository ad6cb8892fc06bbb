-- ===== src/Heap/Chain.antt =====
-- How headers in memory represent blocks, and what a write leaves alone.
use open_gpos.Base.{ℕ, ◌+◌, ◌≤◌, ◌<◌, some, [], ◌∷◌, ◌++◌, ◌≡◌, refl, arith, ◌∙◌}
use open_gpos.Heap.Store.{MemorySpace, Spaces}
use open_gpos.Heap.Blocks.{Block, Blocks, span}

-- the address of a list of blocks that begins at `at`: NULL behind the last block
abbrev pub link : ℕ → Blocks → ℕ
link at [] = 0
link at (b ∷ bs) = at

-- the header of a block whose successor lies at `next`
abbrev pub header : Block → ℕ → MemorySpace
header b next = record { prev = b.back; next = next; size = b.size; is_allocated = b.used }

-- From `at` on the headers describe the blocks, one directly behind the other.
abbrev pub Chain : Spaces → ℕ → Blocks → Type 0
Chain s at [] = Unit
Chain s at (b ∷ bs) =
    (s at ≡ some (header b (link (at + 16 + b.size) bs))) × Chain s (at + 16 + b.size) bs

pub Chain-cons :
    (t : Spaces) (at next : ℕ) (b : Block) (bs : Blocks)
    → next ≡ at + 16 + b.size
    → t at ≡ some (header b (link next bs))
    → Chain t next bs
    → Chain t at (b ∷ bs)
Chain-cons t at next b bs e cell rest = (rw (← e) cell, rw e at rest)

-- The chain depends on the addresses of its blocks alone.
pub frame :
    {s t : Spaces} (at : ℕ) (bs : Blocks)
    → Chain s at bs
    → ((a : ℕ) → at ≤ a → a < at + span bs → t a ≡ s a)
    → Chain t at bs
frame at [] c same = tt
frame {s} {t} at (b ∷ bs) c same = (
  same at (omega arith) (omega arith) ∙ c.0,
  frame (at + 16 + b.size) bs c.1 (λ a p q. same a (omega arith) (omega arith)),
)

-- The part of a chain behind its first blocks.
pub suffix :
    (s : Spaces) (at : ℕ) (pre bs : Blocks) → Chain s at (pre ++ bs) → Chain s (at + span pre) bs
suffix s at [] bs c = let e : at + 0 ≡ at = omega arith in rw e c
suffix s at (a ∷ pre) bs c =
    let e : at + (16 + a.size + span pre) ≡ at + 16 + a.size + span pre = omega arith in
    rw e (suffix s (at + 16 + a.size) pre bs c.1)

link-append :
    (at : ℕ) (pre bs ds : Blocks)
    → ((a : ℕ) → link a bs ≡ link a ds)
    → link at (pre ++ bs) ≡ link at (pre ++ ds)
link-append at [] bs ds same = same at
link-append at (x ∷ pre) bs ds same = refl

-- That part can be replaced by another that begins at the same address.
pub replace_suffix :
    (s t : Spaces) (at : ℕ) (pre bs ds : Blocks)
    → Chain s at (pre ++ bs)
    → ((a : ℕ) → link a bs ≡ link a ds)
    → ((a : ℕ) → a < at + span pre → t a ≡ s a)
    → Chain t (at + span pre) ds
    → Chain t at (pre ++ ds)
replace_suffix s t at [] bs ds c start same new = let e : at + 0 ≡ at = omega arith in rw e at new
replace_suffix s t at (x ∷ pre) bs ds c start same new =
    let e : at + (16 + x.size + span pre) ≡ at + 16 + x.size + span pre = omega arith in
    (
      rw (← link-append (at + 16 + x.size) pre bs ds start) (same at (omega arith) ∙ c.0),
      replace_suffix s t (at + 16 + x.size) pre bs ds c.1 start (λ a h. same a (omega arith))
          (rw e at new),
    )
