-- ===== src/Startup/Waits.antt =====
-- A run of register accesses: what it leaves in the registers, and what they hold at its waits.
use open_gpos.Base.{
  ℕ, ◌+◌, ◌^◌, ◌<◌, ◌≢◌, ◌≡◌, refl, sym, ap, ◌∙◌, some, List, [], ◌∷◌, ◌++◌, ◌==◌, ◌-◌, Bool, false,
  append-nil, append_assoc, bit_and, arith, ==_ne,
}
use open_gpos.Poll.{poll-Ends, poll-first, Ends}
use open_gpos.Str.Memory.{write}
use open_gpos.Startup.{Chip, Wait, Access, update, wait_bit, access, accesses}

-- The chip answers: among any `bound` reads of a status register there is one with the bit.
abbrev pub Answers : ℕ → ℕ → ℕ → (ℕ → ℕ → ℕ) → Type 0
Answers bound register bit status =
    (p : ℕ) → (j : ℕ) × (j < bound) × (bit_and (status register (p + j)) (2 ^ bit) ≢ 0)

-- It answers each wait of a list of accesses.
abbrev pub Responds : ℕ → (ℕ → ℕ → ℕ) → List Access → Type 0
Responds bound status [] = Unit
Responds bound status (update register f ∷ more) = Responds bound status more
Responds bound status (wait_bit register bit ∷ more) =
    Answers bound register bit status × Responds bound status more

-- the registers behind the accesses
abbrev pub written : List Access → (ℕ → ℕ) → ℕ → ℕ
written [] regs = regs
written (update register f ∷ more) regs = written more (write regs register (f (regs register)))
written (wait_bit register bit ∷ more) regs = written more regs

-- A point of the start: the wait for a bit, and what the registers hold while it lasts.
pub record Milestone : Type 1 where
  pub register : ℕ
  pub bit : ℕ
  pub Holds : (ℕ → ℕ) → Type 0

abbrev pub milestone : ℕ → ℕ → ((ℕ → ℕ) → Type 0) → Milestone
milestone register bit P = record { register = register; bit = bit; Holds = P }

-- The waits are those of the milestones, in their order, and each ended with its bit set.
abbrev pub Reached : List Milestone → List Wait → Type 0
Reached [] [] = Unit
Reached [] (w ∷ ws) = ⊥
Reached (m ∷ ms) [] = ⊥
Reached (m ∷ ms) (w ∷ ws) =
    ((w.register ≡ m.register)
      × (w.bit ≡ m.bit)
      × (bit_and w.shown (2 ^ w.bit) ≢ 0)
      × m.Holds w.regs)
    × Reached ms ws

-- What the registers hold at the waits of a list of accesses.
abbrev pub AtWaits : List Access → (ℕ → ℕ) → List Milestone → Type 0
AtWaits [] regs [] = Unit
AtWaits [] regs (m ∷ ms) = ⊥
AtWaits (update register f ∷ more) regs ms =
    AtWaits more (write regs register (f (regs register))) ms
AtWaits (wait_bit register bit ∷ more) regs [] = ⊥
AtWaits (wait_bit register bit ∷ more) regs (m ∷ ms) =
    ((register ≡ m.register) × (bit ≡ m.bit) × m.Holds regs) × AtWaits more regs ms

-- A run ends with the registers written and the milestones reached.
pub accesses-written :
    (bound : ℕ) (list : List Access) (ms : List Milestone) (s : Chip)
    → Responds bound s.status list
    → AtWaits list s.regs ms
    → (s' : Chip) × (accesses bound list s ≡ some s')
      × (s'.regs ≡ written list s.regs)
      × ((ws : List Wait) × (s'.waits ≡ s.waits ++ ws) × Reached ms ws)
unfolding accesses access
accesses-written bound [] [] s h at_waits = (s, refl, refl, ([], sym (append-nil s.waits), tt))
accesses-written bound [] (m ∷ ms) s h at_waits = elim at_waits [ ]
accesses-written bound (update register f ∷ more) ms s h at_waits =
    accesses-written bound more ms (record s { regs = write s.regs register (f (s.regs register)) })
      h at_waits
accesses-written bound (wait_bit register bit ∷ more) [] s h at_waits = elim at_waits [ ]
accesses-written bound (wait_bit register bit ∷ more) (m ∷ ms) s (answers, h)
      ((same_register, same_bit, holds), at_waits) =
    let condition : ℕ → Bool = λ r. bit_and r (2 ^ bit) == 0 in
    let ends : Ends bound condition (s.status register) = λ p.
      let (j, low, on) = answers p in
      (j, low, ==_ne (bit_and (s.status register (p + j)) (2 ^ bit)) 0 on) in
    let (p, run) = poll-Ends bound condition (s.status register) (s.reads register) ends in
    let (j, last, off, _) =
      poll-first bound condition (s.status register) (s.reads register) p run in
    let w : Wait = record {
      register = register;
      bit = bit;
      shown = s.status register (p - 1);
      regs = s.regs;
    } in
    let there : p - 1 ≡ s.reads register + j = omega arith in
    let shown : condition (s.status register (p - 1)) ≡ false =
      ap (λ t. condition (s.status register t)) there ∙ off in
    let on : bit_and (s.status register (p - 1)) (2 ^ bit) ≢ 0 = ground arith in
    let (s', rest, same, (ws, listed, reached)) =
      accesses-written bound more ms
        (record s { reads = write s.reads register p; waits = s.waits ++ (w ∷ []) }) h at_waits in
    (
      s',
      rw run rest,
      same,
      (
        w ∷ ws,
        listed ∙ append_assoc s.waits (w ∷ []) ws,
        ((same_register, same_bit, on, holds), reached),
      ),
    )
