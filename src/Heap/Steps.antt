-- ===== src/Heap/Steps.antt =====
-- What each single read or write of a header does where the header is there.
use open_gpos.Base.{ℕ, ◌≡◌, ◌≢◌, some, Bool, ==_self, ==_ne}
use open_gpos.Heap.Store.{
  Memory, MemorySpace, Spaces, done, write_space, load, set_prev, set_next, set_size,
  set_is_allocated,
}

abbrev pub put : Memory → ℕ → MemorySpace → Memory
put m p s = record m { spaces = write_space m.spaces p s }

module _ (m : Memory) (p : ℕ) {s : MemorySpace} (h : m.spaces p ≡ some s) where
  pub load-done : load p m ≡ done s m
  unfolding load
  load-done = rw (h, load)

  pub set_prev-done : (v : ℕ) → set_prev p v m ≡ done tt (put m p (record s { prev = v }))
  unfolding set_prev
  set_prev-done v = rw load-done

  pub set_next-done : (v : ℕ) → set_next p v m ≡ done tt (put m p (record s { next = v }))
  unfolding set_next
  set_next-done v = rw load-done

  pub set_size-done : (v : ℕ) → set_size p v m ≡ done tt (put m p (record s { size = v }))
  unfolding set_size
  set_size-done v = rw load-done

  pub set_is_allocated-done :
      (v : Bool) → set_is_allocated p v m ≡ done tt (put m p (record s { is_allocated = v }))
  unfolding set_is_allocated
  set_is_allocated-done v = rw load-done

pub write_space_self : (t : Spaces) (p : ℕ) (s : MemorySpace) → write_space t p s p ≡ some s
write_space_self t p s = rw (==_self p)

pub write_space-ne : (t : Spaces) (p a : ℕ) (s : MemorySpace) → a ≢ p → write_space t p s a ≡ t a
write_space-ne t p a s h = rw (==_ne a p h)
