-- ===== src/Heap/Blocks.antt =====
-- What a heap stands for: its blocks in address order. The effects of `malloc` and `free` on them.
-- `back` is the `prev` pointer as the header holds it; it need not lead to the block in front.
use open_gpos.Base.{
  ℕ, ◌+◌, ◌-◌, Bool, true, false, List, [], ◌∷◌, ltb, if◌then◌else◌, ◌≡◌, not, ◌&&◌, ◌||◌,
}

pub record Block : Type 0 where
  pub back : ℕ
  pub size : ℕ
  pub used : Bool

abbrev pub block : ℕ → ℕ → Bool → Block
block p n u = record { back = p; size = n; used = u }

abbrev pub Blocks : Type 0
Blocks = List Block

-- the addresses that the blocks take, headers included
abbrev pub span : Blocks → ℕ
span [] = 0
span (b ∷ bs) = 16 + b.size + span bs

-- the `prev` pointer of the first block becomes `p`
abbrev pub set_back : ℕ → Blocks → Blocks
set_back p [] = []
set_back p (b ∷ bs) = block p b.size b.used ∷ bs

-- The first block, which lies at `at`, swallows the second if that is free.
unfoldable pub merge_next : ℕ → Blocks → Blocks
merge_next at [] = []
merge_next at (b ∷ []) = b ∷ []
merge_next at (b ∷ n ∷ bs) =
    if n.used then b ∷ n ∷ bs else block b.back (b.size + 16 + n.size) b.used ∷ set_back at bs

-- The first block, at `at`, is cut to `size` bytes if more than 4 bytes and a header are left over.
unfoldable pub split : ℕ → ℕ → Blocks → Blocks
unfolding merge_next
split at size [] = []
split at size (b ∷ bs) =
    if ltb (size + 20) b.size
    then block b.back size b.used
      ∷ merge_next (at + 16 + size) (block at (b.size - size - 16) false ∷ bs)
    else b ∷ bs

abbrev pub mark : Bool → Blocks → Blocks
mark u [] = []
mark u (b ∷ bs) = block b.back b.size u ∷ bs

abbrev pub fits : ℕ → Block → Bool
fits size b = not b.used && not (ltb b.size size)

-- First fit: the blocks in front of it.
unfoldable pub before_fit : ℕ → Blocks → Blocks
before_fit size [] = []
before_fit size (b ∷ bs) = if fits size b then [] else b ∷ before_fit size bs

-- First fit: the block and what follows; nothing if no block fits.
unfoldable pub from_fit : ℕ → Blocks → Blocks
from_fit size [] = []
from_fit size (b ∷ bs) = if fits size b then b ∷ bs else from_fit size bs

-- Each `prev` pointer leads to the block in front: `prev` for the first block, which lies at `at`.
abbrev pub IsLinked : ℕ → ℕ → Blocks → Type 0
IsLinked prev at [] = Unit
IsLinked prev at (b ∷ bs) = (b.back ≡ prev) × IsLinked at (at + 16 + b.size) bs

-- No free block stands in front of a free block.
abbrev pub IsCoalesced : Blocks → Type 0
IsCoalesced [] = Unit
IsCoalesced (b ∷ []) = Unit
IsCoalesced (b ∷ n ∷ bs) = ((b.used || n.used) ≡ true) × IsCoalesced (n ∷ bs)

-- the address of the last of the blocks from `at` on, or `prev` where there is none
abbrev pub last_from : ℕ → ℕ → Blocks → ℕ
last_from prev at [] = prev
last_from prev at (b ∷ bs) = last_from at (at + 16 + b.size) bs

-- the block at `at` given back, before the block in front of it is looked at
abbrev pub freed : ℕ → Block → Blocks → Blocks
freed at b post = merge_next at (block b.back b.size false ∷ post)

-- the block `a`, at `at`, in front of a block that was given back
abbrev pub joined : ℕ → Block → Blocks → Blocks
joined at a rest = if a.used then a ∷ rest else merge_next at (a ∷ rest)

-- The block `b` between `pre`, which begins at `at`, and `post` given back.
unfoldable pub release : ℕ → Blocks → Block → Blocks → Blocks
release at [] b post = freed at b post
release at (a ∷ []) b post = joined at a (freed (at + 16 + a.size) b post)
release at (a ∷ c ∷ pre) b post = a ∷ release (at + 16 + a.size) (c ∷ pre) b post
