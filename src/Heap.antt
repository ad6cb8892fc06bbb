-- ===== src/Heap.antt =====
-- The allocator of libc/src/stdlib/heap.c: a doubly linked list of headers, first fit, splitting
-- and merging. `size_t` and pointers have 32 bits; NULL is 0.
pub mod Store
pub mod Blocks
pub mod Chain
pub mod Steps
pub mod Merge
pub mod Split
pub mod Find
pub mod Malloc
pub mod Free
pub mod Linked
pub mod Coalesced
pub mod Laws
pub mod Whole
pub mod Moved
mod Tests
use Store.{
  MemorySpace, sizeof_memory_space, Cmd, out_of_fuel, pure, ◌>>=◌, ◌>>◌, load, store, set_prev,
  set_next, set_size, set_is_allocated, fault,
}
use open_gpos.Base.{
  ℕ, zero, suc, ◌+◌, ◌-◌, ◌^◌, Bool, true, false, ◌&&◌, ◌||◌, bit_and, u32, ltb, ◌==◌, ◌!=◌,
  if◌then◌else◌,
}

-- `ALIGN_4BYTE`: the `int` -4 becomes the `size_t` 0xFFFFFFFC.
unfoldable pub align_4byte : ℕ → ℕ
align_4byte x = bit_and (u32 (x + 3)) 0xffff_fffc

-- The loop of `find_free_space`; the fuel bounds the nodes visited.
pub find_loop : ℕ → ℕ → ℕ → Cmd ℕ
find_loop zero curr size = λ _. out_of_fuel
find_loop (suc fuel) curr size = do
  s ← load curr
  if (s.next != 0) && (s.is_allocated || ltb s.size size)
      then find_loop fuel s.next size
      else pure curr

-- `find_free_space`
pub find_free_space : ℕ → ℕ → Cmd ℕ
unfolding find_loop
find_free_space fuel size m =
    (do
      curr ← find_loop fuel m.head size
      s ← load curr
      pure (if ltb s.size size || s.is_allocated then 0 else curr))
      m

-- "only set prev if it even exists"
pub set_prev_if_exists : ℕ → ℕ → Cmd (Unit {0})
set_prev_if_exists p v = if p == 0 then pure tt else set_prev p v

-- `mergeNextMemorySpace` once the next space is known to be free
pub absorb_next : ℕ → ℕ → ℕ → Cmd Bool
unfolding set_prev_if_exists
absorb_next memory_space next_memory_space next_er_memory_space = do
  set_prev_if_exists next_er_memory_space memory_space
  set_next memory_space next_er_memory_space
  n ← load next_memory_space
  s ← load memory_space
  set_size memory_space (u32 (s.size + u32 (sizeof_memory_space + n.size)))
  pure true

-- `mergeNextMemorySpace`
pub merge_next_memory_space : ℕ → Cmd Bool
unfolding absorb_next
merge_next_memory_space memory_space = do
  s ← load memory_space
  if s.next == 0 then pure false else do
    n ← load s.next
    if n.is_allocated then pure false else absorb_next memory_space s.next n.next

-- `splitMemorySpace`. The four fields of the new header are written as one record.
pub split_memory_space : ℕ → ℕ → Cmd Bool
unfolding merge_next_memory_space
split_memory_space memory_space size = do
  s ← load memory_space
  let next = u32 (memory_space + sizeof_memory_space + size)
  if ltb (u32 (size + sizeof_memory_space + 4)) s.size
      then (do
        store next (record {
          prev = memory_space;
          next = s.next;
          size = u32 (s.size + 2 ^ 32 - u32 (size + sizeof_memory_space));
          is_allocated = false;
        })
        set_next memory_space next
        set_size memory_space size
        merge_next_memory_space next
        pure true)
      else pure false

-- `malloc` once a free space is found
pub take_space : ℕ → ℕ → Cmd ℕ
unfolding split_memory_space
take_space free_space size = do
  split_memory_space free_space size
  set_is_allocated free_space true
  pure (u32 (free_space + sizeof_memory_space))

-- `malloc`; `fuel` is that of `find_free_space`
pub malloc : ℕ → ℕ → Cmd ℕ
malloc fuel size = do
  free_space ← find_free_space fuel (align_4byte size)
  if free_space == 0 then pure 0 else take_space free_space (align_4byte size)

-- the second half of `free`: the previous space swallows this one if it is free
pub merge_into_prev : ℕ → Cmd (Unit {0})
unfolding merge_next_memory_space
merge_into_prev prev_memory_space = if prev_memory_space == 0 then pure tt else do
  s ← load prev_memory_space
  if s.is_allocated then pure tt else merge_next_memory_space prev_memory_space >> pure tt

-- `free`
pub free : ℕ → Cmd (Unit {0})
unfolding merge_next_memory_space merge_into_prev
free ptr = if ptr == 0 then pure tt else do
  let memory_space = u32 (ptr + 2 ^ 32 - sizeof_memory_space)
  set_is_allocated memory_space false
  merge_next_memory_space memory_space
  s ← load memory_space
  merge_into_prev s.prev

-- `init_malloc`, for the linker's `__heap_start__` and `__heap_end__`
pub init_malloc : ℕ → ℕ → Cmd (Unit {0})
unfolding align_4byte
init_malloc heap_start heap_end m =
    let head = align_4byte heap_start in
    let heap_size = u32 (heap_end + 2 ^ 32 - head) in
    store head
      (record {
        prev = 0;
        next = 0;
        size = u32 (heap_size + 2 ^ 32 - sizeof_memory_space);
        is_allocated = false;
      })
      (record m { head = head })

-- The copy of `realloc`, by `memcpy dest src n` on the payload bytes; that function hands the copy to
-- the DMA engine, so it is a parameter. More bytes than the new payload has would run over the next
-- header, which is in the same memory: that is a fault.
unfoldable pub copy_payload : (ℕ → ℕ → ℕ → (ℕ → ℕ) → ℕ → ℕ) → ℕ → ℕ → ℕ → Cmd (Unit {0})
copy_payload memcpy new ptr to_copy = do
  t ← load (u32 (new + 2 ^ 32 - sizeof_memory_space))
  if ltb t.size to_copy
      then (λ m. fault)
      else (λ m. pure tt (record m { bytes = memcpy new ptr to_copy m.bytes }))

-- `realloc`
unfoldable pub realloc : (ℕ → ℕ → ℕ → (ℕ → ℕ) → ℕ → ℕ) → ℕ → ℕ → ℕ → Cmd ℕ
realloc memcpy fuel ptr size = do
  s ← load (u32 (ptr + 2 ^ 32 - sizeof_memory_space))
  new ← malloc fuel size
  if new == 0 then pure 0 else do
    let to_copy = if ltb s.size size then s.size else size
    copy_payload memcpy new ptr to_copy
    free ptr
    pure new
