-- ===== src/Heap/Tests.antt =====
-- Runs of the allocator on a small heap, and the theorems at its blocks.
use open_gpos.Str.Copy.{within}
use open_gpos.Base.{
  ℕ, ◌+◌, ◌-◌, if◌then◌else◌, ◌≡◌, refl, none, true, false, [], ◌∷◌, ◌++◌, ◌<◌, arith,
}
use open_gpos.Heap.Store.{
  Memory, Run, done, Returns, write_space, ◌>>=◌, ◌>>◌, pure, load, store, set_prev, set_next,
  set_size, set_is_allocated,
}
use open_gpos.Heap.Blocks.{Blocks, block, IsLinked, release, from_fit, before_fit, last_from}
use open_gpos.Heap.Chain.{header}
use open_gpos.Heap.Malloc.{IsHeap, allocate, malloc_refines}
use open_gpos.Heap.Laws.{
  IsSound, init_malloc-IsSound, free-IsSound, Outcome, malloc_lem, malloc_stale_prev,
}
use open_gpos.Heap.{init_malloc, malloc, free, align_4byte, find_free_space, take_space}

-- a block of 16 bytes in use, a free one of 100 bytes and one of 8 bytes in use
abbrev sample_blocks : Blocks
sample_blocks = block 0 16 true ∷ block 4096 100 false ∷ block 4128 8 true ∷ []

abbrev sample : Memory
sample = record {
  head = 4096;
  spaces =
      write_space
        (write_space (write_space (λ _. none) 4096 (header (block 0 16 true) 4128)) 4128
          (header (block 4096 100 false) 4244))
        4244 (header (block 4128 8 true) 0);
  bytes = λ a. a;
}

sample-IsHeap : IsHeap sample 4096 sample_blocks
sample-IsHeap = record {
  head_there = refl;
  chain = (refl, (refl, (refl, tt)));
  low = omega arith;
  high = omega arith;
}

sample-IsSound : IsSound sample 4096 sample_blocks
sample-IsSound = record {
  heap = sample-IsHeap;
  linked = (refl, (refl, (refl, tt)));
  coalesced = (refl, (refl, tt));
}

abbrev address : Run ℕ → ℕ
address (done a m) = a
address _ = 0

-- Rounding up, first fit, and the block that is too large.
malloc_runs : (address (malloc 3 30 sample) ≡ 4144) × (address (malloc 3 101 sample) ≡ 0)
unfolding malloc find_free_space take_space align_4byte load store set_next set_size
    set_is_allocated
malloc_runs = (refl, refl)

-- A block given back after `malloc` serves the next request.
malloc_again : address ((do p ← malloc 3 30; free p; q ← malloc 3 100; pure q) sample) ≡ 4144
unfolding malloc find_free_space take_space align_4byte free load store set_prev set_next set_size
    set_is_allocated
malloc_again = refl

init_malloc-IsSound_example :
    Returns
      (λ _ m'. IsSound m' 0x2000_0100 (block 0 0x7ff0 false ∷ []))
      (init_malloc 0x2000_00fe 0x2000_8100 sample)
unfolding align_4byte
init_malloc-IsSound_example =
    init_malloc-IsSound 0x2000_00fe 0x2000_8100 sample (omega arith) (omega arith) (omega arith)

free-IsSound_example :
    Returns
      (λ _ m'.
        IsSound m' 4096
          (release 4096 (block 0 16 true ∷ block 4096 100 false ∷ []) (block 4128 8 true) [])
        × (m'.bytes ≡ sample.bytes))
      (free 4260 sample)
free-IsSound_example =
    free-IsSound sample 4096 (block 0 16 true ∷ block 4096 100 false ∷ []) (block 4128 8 true) []
      sample-IsSound

malloc_lem_example :
    Returns
      (λ r m'. Outcome 4096 30 sample_blocks r m' × (m'.bytes ≡ sample.bytes))
      (malloc 3 30 sample)
malloc_lem_example =
    malloc_lem sample 4096 3 30 (block 0 16 true) (block 4096 100 false ∷ block 4128 8 true ∷ [])
      sample-IsHeap (refl, (refl, tt)) (omega arith) (omega arith)

malloc_refines_example :
    Returns
      (λ r m'.
        (r ≡ 4144)
        × IsHeap m' 4096
            (allocate 4096 32 sample_blocks (block 4096 100 false ∷ block 4128 8 true ∷ []))
        × (m'.bytes ≡ sample.bytes))
      (malloc 3 30 sample)
unfolding align_4byte from_fit before_fit
malloc_refines_example =
    malloc_refines sample 4096 3 30 (block 0 16 true)
      (block 4096 100 false ∷ block 4128 8 true ∷ []) sample-IsHeap (omega arith)

malloc_stale_prev_example :
    let parts = block 4096 32 true ∷ block 4128 52 false ∷ [] in
    Returns
      (λ _ m'.
        IsHeap m' 4096 (block 0 16 true ∷ (parts ++ (block 4128 8 true ∷ [])))
        × IsLinked 0 4096 (block 0 16 true ∷ parts)
        × (last_from 0 4096 (block 0 16 true ∷ parts) ≡ 4176)
        × (◌≡◌ {A = ℕ} 4128 4128)
        × (4128 < 4176))
      (malloc 3 30 sample)
unfolding align_4byte from_fit before_fit
malloc_stale_prev_example =
    malloc_stale_prev sample 4096 3 30 (block 0 16 true)
      (block 4096 100 false ∷ block 4128 8 true ∷ []) (block 4096 100 false) (block 4128 8 true) []
      sample-IsHeap (refl, (refl, (refl, tt))) (omega arith) refl refl (omega arith)

abbrev copy : ℕ → ℕ → ℕ → (ℕ → ℕ) → ℕ → ℕ
copy destination source num bytes q =
    if within destination num q then bytes (source + (q - destination)) else bytes q

-- a block of 16 bytes in use and a free one of 100 bytes
abbrev pair : Memory
pair = record {
  head = 4096;
  spaces =
      write_space (write_space (λ _. none) 4096 (header (block 0 16 true) 4128)) 4128
        (header (block 4096 100 false) 0);
  bytes = λ a. a;
}
