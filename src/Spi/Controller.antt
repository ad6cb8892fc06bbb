-- ===== src/Spi/Controller.antt =====
-- What the controller behind src/driver/spi/spi.c documents of its status and its data register, and
-- what a wait of the driver then comes to.
use open_gpos.Base.{
  ℕ, zero, suc, ◌+◌, ◌<◌, ◌≡◌, refl, ap, ◌∙◌, arith, Bool, true, false, not, some, List, [], ◌∷◌,
  ◌++◌, ltb, min, Bool-cases, inl, inr, sym,
}
use open_gpos.Spi.{Spi, transmit_full, receive_empty, busy, wait_while}

-- The controller: the bytes that were written to it, those of them that are still to be transferred,
-- how many bytes came in and were kept, and how many of these were read; and whether the transmit
-- FIFO has room.
pub record View : Type 0 where
  pub sent : List ℕ
  pub flight : ℕ
  pub kept : ℕ
  pub taken : ℕ
  pub room : Bool

-- Some of the bytes in flight are transferred. Each brings one in, which is kept while fewer than 8
-- wait in the receive FIFO.
pub record Transfers (before after : View) : Type 0 where
  pub count : ℕ
  pub flown : after.flight + count ≡ before.flight
  pub came : after.kept ≡ min (before.kept + count) (before.taken + 8)
  pub same_taken : after.taken ≡ before.taken
  pub same_sent : after.sent ≡ before.sent

-- a byte more for the controller
abbrev pub queued : ℕ → View → View
queued x v = record v { sent = v.sent ++ (x ∷ []); flight = v.flight + 1 }

-- a byte read
abbrev pub unloaded : View → View
unloaded v = record v { taken = v.taken + 1 }

module _ {C : Type 0} (spi : Spi C) where
  -- the status that the read behind `j` others gives
  abbrev pub status_at : ℕ → C → ℕ
  status_at zero c = (spi.read_sr c).0
  status_at (suc j) c = status_at j (spi.read_sr c).1

  -- among any `bound` reads of the status there is one where the condition does not hold
  abbrev pub Clears : ℕ → (ℕ → Bool) → Type 0
  Clears bound condition = (c : C) → (j : ℕ) × (j < bound) × (condition (status_at j c) ≡ false)

  -- The registers of a controller into which the bytes `incoming` come. The bits of a status say
  -- that there is room, that nothing is in flight, and that the receive FIFO has a byte; a write where
  -- there is room is sent, and a read where there is a byte takes the next one. Where there is no
  -- room, or no byte, nothing is said.
  pub record Documents (bound : ℕ) (incoming : ℕ → ℕ) (view : C → View) : Type 0 where
    pub status : (c : C) → Transfers (view c) (view (spi.read_sr c).1)
    pub room :
        (c : C) → transmit_full (spi.read_sr c).0 ≡ false → (view (spi.read_sr c).1).room ≡ true
    pub idle : (c : C) → busy (spi.read_sr c).0 ≡ false → (view (spi.read_sr c).1).flight ≡ 0
    pub filled :
        (c : C)
        → let v = view (spi.read_sr c).1 in
          receive_empty (spi.read_sr c).0 ≡ not (ltb v.taken v.kept)
    pub written :
        (x : ℕ) (c : C)
        → (view c).room ≡ true
        → Transfers (queued x (view c)) (view (spi.write_dr x c))
    pub read :
        (c : C)
        → (view c).taken < (view c).kept
        → ((spi.read_dr c).0 ≡ incoming (view c).taken)
          × Transfers (unloaded (view c)) (view (spi.read_dr c).1)
    pub makes_room : Clears bound transmit_full
    pub gets_idle : Clears bound busy

  Transfers_trans : (u v w : View) → Transfers u v → Transfers v w → Transfers u w
  Transfers_trans u v w a b = record {
    count = a.count + b.count;
    flown = let e = a.flown in let f = b.flown in omega arith;
    came = let e = a.came in let f = b.came in let g = a.same_taken in omega arith;
    same_taken = b.same_taken ∙ a.same_taken;
    same_sent = b.same_sent ∙ a.same_sent;
  }

  module _ (bound : ℕ) (incoming : ℕ → ℕ) (view : C → View)
      (documents : Documents bound incoming view) where
    -- A wait ends with a read of the status at which its condition does not hold.
    pub wait_while-ends :
        (fuel j : ℕ) (condition : ℕ → Bool) (c : C)
        → j < fuel
        → condition (status_at j c) ≡ false
        → (last : C) × (wait_while spi fuel condition c ≡ some (spi.read_sr last).1)
          × (condition (spi.read_sr last).0 ≡ false)
          × Transfers (view c) (view (spi.read_sr last).1)
    unfolding wait_while
    wait_while-ends zero j condition c low end = absurd (omega arith)
    wait_while-ends (suc fuel) zero condition c low end = (c, rw end refl, end, documents.status c)
    wait_while-ends (suc fuel) (suc j) condition c low end =
        let c' = (spi.read_sr c).1 in
        let one = documents.status c in
        elim (Bool-cases (condition (spi.read_sr c).0)) [
          | inr over ↦ (c, rw over refl, over, one)
          | inl more ↦
              let (last, run, off, moved) = wait_while-ends fuel j condition c' (omega arith) end in
              (
                last,
                rw more run,
                off,
                Transfers_trans (view c) (view c') (view (spi.read_sr last).1) one moved,
              )
        ]

    -- The wait for room ends where there is room.
    pub wait_room :
        (c : C)
        → (c' : C) × (wait_while spi bound transmit_full c ≡ some c')
          × ((view c').room ≡ true)
          × Transfers (view c) (view c')
    wait_room c =
        let (j, low, end) = documents.makes_room c in
        let (last, run, off, moved) = wait_while-ends bound j transmit_full c low end in
        ((spi.read_sr last).1, run, documents.room last off, moved)

    -- The wait for the end of the transfer ends where nothing is in flight.
    pub wait_idle :
        (c : C)
        → (c' : C) × (wait_while spi bound busy c ≡ some c')
          × ((view c').flight ≡ 0)
          × Transfers (view c) (view c')
    wait_idle c =
        let (j, low, end) = documents.gets_idle c in
        let (last, run, off, moved) = wait_while-ends bound j busy c low end in
        ((spi.read_sr last).1, run, documents.idle last off, moved)

    status_last :
        (j : ℕ) (c : C)
        → (last : C) × (status_at j c ≡ (spi.read_sr last).0)
          × Transfers (view c) (view (spi.read_sr last).1)
    status_last zero c = (c, refl, documents.status c)
    status_last (suc j) c =
        let c' = (spi.read_sr c).1 in
        let (last, same, moved) = status_last j c' in
        (
          last,
          same,
          Transfers_trans (view c) (view c') (view (spi.read_sr last).1) (documents.status c) moved,
        )

    -- Where a byte has come in or is in flight, the wait for it ends where there is one.
    pub wait_filled :
        (c : C)
        → (view c).taken < (view c).kept + (view c).flight
        → (c' : C) × (wait_while spi bound receive_empty c ≡ some c')
          × ((view c').taken < (view c').kept)
          × Transfers (view c) (view c')
    wait_filled c comes =
        let (j, low, idle) = documents.gets_idle c in
        let (seen, same, flown) = status_last j c in
        let none_left = documents.idle seen (sym (ap busy same) ∙ idle) in
        let v = view (spi.read_sr seen).1 in
        let some_kept : ltb v.taken v.kept ≡ true =
          let a = flown.flown in
          let b = flown.came in
          let d = flown.same_taken in let lt : v.taken < v.kept = omega arith in ground arith in
        let full : receive_empty (status_at j c) ≡ false =
          ap receive_empty same ∙ documents.filled seen ∙ ap not some_kept in
        let (last, run, off, moved) = wait_while-ends bound j receive_empty c low full in
        let w = view (spi.read_sr last).1 in
        let there : not (ltb w.taken w.kept) ≡ false = (sym (documents.filled last)) ∙ off in
        ((spi.read_sr last).1, run, ground arith, moved)
