-- ===== src/Heap/Store.antt =====
-- The memory that libc/src/stdlib/heap.c works on, and commands over it: the headers
-- (`memory_space_t`) by address, and the bytes of the payloads. A read of an address that holds no
-- header is a fault; a loop that runs out of fuel says so.
use open_gpos.Base.{ℕ, Bool, Option, none, some, ◌==◌, if◌then◌else◌}

-- `memory_space_t`
pub record MemorySpace : Type 0 where
  pub prev : ℕ
  pub next : ℕ
  pub size : ℕ
  pub is_allocated : Bool

-- `sizeof(memory_space_t)`: two pointers, a `size_t` and a padded `bool`, 4 bytes each.
abbrev pub sizeof_memory_space : ℕ
sizeof_memory_space = 16

abbrev pub Spaces : Type 0
Spaces = ℕ → Option MemorySpace

pub record Memory : Type 0 where
  pub head : ℕ
  pub spaces : Spaces
  pub bytes : ℕ → ℕ

pub data Run (A : Type 0) : Type 0 where
  done : A → Memory → Run A
  fault : Run A
  out_of_fuel : Run A

abbrev pub Cmd : Type 0 → Type 0
Cmd A = Memory → Run A

abbrev pub pure : {A : Type 0} → A → Cmd A
pure = done

module _ {A B : Type 0} where
  abbrev pub and_then : Run A → (A → Cmd B) → Run B
  and_then (done a m) k = k a m
  and_then fault k = fault
  and_then out_of_fuel k = out_of_fuel

  infixl 5 ◌>>=◌ ◌>>◌
  abbrev pub ◌>>=◌ : Cmd A → (A → Cmd B) → Cmd B
  c >>= k = λ m. and_then (c m) k

  abbrev pub ◌>>◌ : Cmd A → Cmd B → Cmd B
  c >> d = c >>= λ _. d

abbrev pub write_space : Spaces → ℕ → MemorySpace → Spaces
write_space s p v a = if a == p then some v else s a

-- `*p` as a header
unfoldable pub load : ℕ → Cmd MemorySpace
load p m = elim (m.spaces p) [ none ↦ fault | some v ↦ done v m ]

unfoldable pub store : ℕ → MemorySpace → Cmd (Unit {0})
store p v m = done tt (record m { spaces = write_space m.spaces p v })

-- `p->prev = v`, and so for the other fields.
unfoldable pub set_prev : ℕ → ℕ → Cmd (Unit {0})
unfolding load store
set_prev p v = do s ← load p; store p (record s { prev = v })

unfoldable pub set_next : ℕ → ℕ → Cmd (Unit {0})
unfolding load store
set_next p v = do s ← load p; store p (record s { next = v })

unfoldable pub set_size : ℕ → ℕ → Cmd (Unit {0})
unfolding load store
set_size p v = do s ← load p; store p (record s { size = v })

unfoldable pub set_is_allocated : ℕ → Bool → Cmd (Unit {0})
unfolding load store
set_is_allocated p v = do s ← load p; store p (record s { is_allocated = v })

-- Total correctness of a run: no fault, enough fuel, and a postcondition.
pub data Returns {A : Type 0} (P : A → Memory → Type 0) : Run A → Type 0 where
  returns : {a : A} {m : Memory} → P a m → Returns P (done a m)

module _ {A : Type 0} {P : A → Memory → Type 0} where
  pub weaken :
      {Q : A → Memory → Type 0} {r : Run A}
      → Returns P r
      → ((a : A) (m : Memory) → P a m → Q a m)
      → Returns Q r
  weaken (returns p) f = returns (f _ _ p)

  pub after :
      {B : Type 0} {Q : B → Memory → Type 0} {r : Run A} {k : A → Cmd B}
      → Returns P r
      → ((a : A) (m : Memory) → P a m → Returns Q (k a m))
      → Returns Q (and_then r k)
  after (returns p) f = f _ _ p
