-- ===== src/Heap/Moved.antt =====
-- `realloc` of libc/src/stdlib/heap.c: a block that moves into the free block behind it.
use open_gpos.Base.{ℕ, ◌+◌, true, false, [], ◌∷◌, ◌≡◌, ltb, if◌then◌else◌}
use open_gpos.Heap.Store.{Memory, Run, ◌>>◌, Returns}
use open_gpos.Heap.Blocks.{Blocks, block, split, mark}
use open_gpos.Heap.Chain.{Chain}
use open_gpos.Heap.Laws.{IsSound}

module _ (start n k : ℕ) where
  -- where the free block lies, behind the block in use
  abbrev pub behind : ℕ
  behind = start + 16 + n

  -- a block of `n` bytes in use in front of a free one of `k`
  abbrev pub one_used : Blocks
  one_used = block 0 n true ∷ block start k false ∷ []

  -- the blocks that `malloc` of `size` bytes makes of the free one
  abbrev pub taken_from : ℕ → Blocks
  taken_from size = mark true (split behind size (block start k false ∷ []))

  -- a run of `free` that leaves the first block free and the payloads as they were
  abbrev Frees : Memory → Blocks → Run (Unit {0}) → Type 0
  Frees m post r =
      Returns (λ _ m'. IsSound m' start (block 0 n false ∷ post) × (m'.bytes ≡ m.bytes)) r

  -- the memory behind the copy of `realloc`
  abbrev pub moved : (ℕ → ℕ → ℕ → (ℕ → ℕ) → ℕ → ℕ) → ℕ → (ℕ → ℕ) → ℕ → ℕ
  moved memcpy size bytes = memcpy (behind + 16) (start + 16) (if ltb n size then n else size) bytes
