-- ===== src/Spi/Laws.antt =====
-- What the loops of src/driver/spi/spi.c send, and what they leave in the buffer.
use open_gpos.Base.{
  ℕ, zero, suc, ◌+◌, ◌-◌, ◌<◌, ◌≡◌, refl, sym, ap, ap₂, ◌∙◌, arith, some, List, [], ◌∷◌, ◌++◌,
  append_assoc, append-nil, map, replicate, u8, ◌==◌, if◌then◌else◌, true, false, Bool-cases, inl,
  inr, ltb, subst,
}
use open_gpos.Str.Memory.{write}
use open_gpos.Str.Copy.{within}
use open_gpos.Fat32.Device.{span}
use open_gpos.Spi.{
  Spi, receive_empty, filler, take_byte, exchange, rw_loop, spi_rw, spi_rw_blocking,
}
use open_gpos.Spi.Controller.{View, Transfers, Documents, wait_room, wait_idle}

-- Nothing is in flight, and every byte that was kept has been read.
pub record IsAtRest (v : View) : Type 0 where
  pub landed : v.flight ≡ 0
  pub emptied : v.kept ≡ v.taken

-- With nothing in flight nothing changes.
settled : (u v : View) → Transfers u v → IsAtRest u → IsAtRest v
settled u v t r =
    let a = t.flown in
    let b = t.came in
    let c = t.same_taken in
    let d = r.landed in let e = r.emptied in record { landed = omega arith; emptied = omega arith }

span-write : (mem : ℕ → ℕ) (q b p n : ℕ) → q < p → span (write mem q b) p n ≡ span mem p n
span-write mem q b p zero h = refl
span-write mem q b p (suc n) h =
    let off : (p == q) ≡ false = ground arith in
    ap₂ (λ x xs. x ∷ xs) (rw off refl) (span-write mem q b (p + 1) n (omega arith))

map-same : (xs : List ℕ) → map (λ b. b) xs ≡ xs
map-same [] = refl
map-same (x ∷ xs) = ap (λ t. x ∷ t) (map-same xs)

map-constant : (n : ℕ) (mem : ℕ → ℕ) (p : ℕ) → map filler (span mem p n) ≡ replicate n 0xff
map-constant zero mem p = refl
map-constant (suc n) mem p = ap (λ t. 0xff ∷ t) (map-constant n mem (p + 1))

-- the byte of a round in front of those of the rounds behind it
first_taken :
    (incoming mem : ℕ → ℕ) (taken p len q : ℕ)
    → (if within (p + 1) len q
        then u8 (incoming (taken + 1 + (q - (p + 1))))
        else write mem p (u8 (incoming taken)) q)
      ≡ (if within p (suc len) q then u8 (incoming (taken + (q - p))) else mem q)
first_taken incoming mem taken p len q = elim (Bool-cases (ltb p q)) [
  | inl behind ↦
      let same : within (p + 1) len q ≡ within p (suc len) q = ground arith in
      let on : (q == p) ≡ false = ground arith in
      let shift : taken + 1 + (q - (p + 1)) ≡ taken + (q - p) = ground arith in
      rw (same, on, shift) refl
  | inr front ↦ elim (Bool-cases (q == p)) [
    | inl here ↦
        let outside : within (p + 1) len q ≡ false = ground arith in
        let inside : within p (suc len) q ≡ true = ground arith in
        let first : taken + (q - p) ≡ taken = ground arith in rw (outside, inside, here, first) refl
    | inr before ↦
        let outside : within (p + 1) len q ≡ false = ground arith in
        let outside' : within p (suc len) q ≡ false = ground arith in
        rw (outside, outside', before) refl
  ]
]

-- the view of a controller at rest behind a transfer of bytes
pub record Passed (before after : View) (bytes : List ℕ) (count : ℕ) : Type 0 where
  pub rest : IsAtRest after
  pub took : after.taken ≡ before.taken + count
  pub sent : after.sent ≡ before.sent ++ bytes

module _ {C : Type 0} (spi : Spi C) (bound : ℕ) (incoming : ℕ → ℕ) (view : C → View)
    (documents : Documents spi bound incoming view) where
  -- The end of a round with a byte in the receive FIFO takes it.
  take_byte_lem :
      (mem : ℕ → ℕ) (p : ℕ) (c : C)
      → (view c).flight ≡ 0
      → (view c).kept ≡ (view c).taken + 1
      → (c' : C) × (take_byte spi mem p c ≡ (write mem p (u8 (incoming (view c).taken)), c'))
        × IsAtRest (view c')
        × ((view c').taken ≡ (view c).taken + 1)
        × ((view c').sent ≡ (view c).sent)
  unfolding take_byte
  take_byte_lem mem p c landed one =
      let c1 = (spi.read_sr c).1 in
      let seen = documents.status c in
      let s1 = seen.flown in
      let s2 = seen.came in
      let s3 = seen.same_taken in
      let some_kept : (view c1).taken < (view c1).kept = omega arith in
      let full : receive_empty (spi.read_sr c).0 ≡ false = documents.filled c ∙ (ground arith) in
      let (byte, moved) = documents.read c1 some_kept in
      let m1 = moved.flown in
      let m2 = moved.came in
      let m3 = moved.same_taken in
      let value : u8 (spi.read_dr c1).0 ≡ u8 (incoming (view c).taken) =
        ap u8 byte ∙ ap (λ t. u8 (incoming t)) s3 in
      (
        (spi.read_dr c1).1,
        rw full (ap (λ b. (write mem p b, (spi.read_dr c1).1)) value),
        record { landed = omega arith; emptied = omega arith },
        omega arith,
        moved.same_sent ∙ seen.same_sent,
      )

  exchange-Passed :
      (mem : ℕ → ℕ) (p x : ℕ) (c : C)
      → IsAtRest (view c)
      → (c' : C) × (exchange spi bound mem p x c
          ≡ some (write mem p (u8 (incoming (view c).taken)), c'))
        × Passed (view c) (view c') (x ∷ []) 1
  unfolding exchange
  exchange-Passed mem p x c rest =
      let (c1, run1, room, moved1) = wait_room spi bound incoming view documents c in
      let rest1 = settled (view c) (view c1) moved1 rest in
      let put = documents.written x c1 room in
      let c2 = spi.write_dr x c1 in
      let (c3, run2, landed, moved2) = wait_idle spi bound incoming view documents c2 in
      let e1 = moved1.same_taken in
      let e2 = put.flown in
      let e3 = put.came in
      let e4 = put.same_taken in
      let e5 = moved2.flown in
      let e6 = moved2.came in
      let e7 = moved2.same_taken in
      let r1 = rest1.landed in
      let r2 = rest1.emptied in
      let (c4, run3, rest', took, same) = take_byte_lem mem p c3 landed (omega arith) in
      let first : (view c3).taken ≡ (view c).taken = omega arith in
      (
        c4,
        rw run1 (rw run2 (ap some run3 ∙ ap (λ t. some (write mem p (u8 (incoming t)), c4)) first)),
        record {
          rest = rest';
          took = omega arith;
          sent = same ∙ moved2.same_sent ∙ put.same_sent ∙ ap (λ t. t ++ (x ∷ [])) moved1.same_sent;
        },
      )

  rw_loop-exchanged :
      (out : ℕ → ℕ) (len : ℕ) (mem : ℕ → ℕ) (p : ℕ) (c : C)
      → IsAtRest (view c)
      → (mem' : ℕ → ℕ) × (c' : C) × (rw_loop spi bound out len mem p c ≡ some (mem', c'))
        × Passed (view c) (view c') (map out (span mem p len)) len
        × ((q : ℕ)
            → mem' q ≡ (if within p len q then u8 (incoming ((view c).taken + (q - p))) else mem q))
  unfolding rw_loop
  rw_loop-exchanged out zero mem p c rest = (
    mem,
    c,
    refl,
    record { rest = rest; took = omega arith; sent = sym (append-nil (view c).sent) },
    (λ q. ground arith),
  )
  rw_loop-exchanged out (suc len) mem p c rest =
      let x = out (mem p) in
      let b = u8 (incoming (view c).taken) in
      let (c1, run1, one) = exchange-Passed mem p x c rest in
      let (mem', c2, run2, more, point) =
        rw_loop-exchanged out len (write mem p b) (p + 1) c1 one.rest in
      let same = span-write mem p b (p + 1) len (omega arith) in
      let took1 = one.took in
      let took2 = more.took in
      (
        mem',
        c2,
        rw run1 run2,
        record {
          rest = more.rest;
          took = omega arith;
          sent =
              more.sent
              ∙ ap₂ (λ s t. s ++ map out t) one.sent same
              ∙ append_assoc (view c).sent (x ∷ []) (map out (span mem (p + 1) len));
        },
        (λ q.
            point q
            ∙ ap
                (λ t.
                  if within (p + 1) len q
                  then u8 (incoming (t + (q - (p + 1))))
                  else write mem p b q)
                took1
            ∙ first_taken incoming mem (view c).taken p len q),
      )

-- `spi_rw` and `spi_rw_blocking`, on a controller that keeps to its documented behaviour, with nothing
-- in flight and its receive FIFO emptied: with fuel for the reads of the status in which it makes room
-- or ends a transfer they end, send the bytes of the buffer and as many 0xff, in order and nothing
-- else, and leave in the buffer the next bytes that come in, in order, and every other byte as it
-- was; the controller is again at rest.
pub spi_rw-exchanged :
    {C : Type 0} (spi : Spi C) (bound : ℕ) (incoming : ℕ → ℕ) (view : C → View) (len : ℕ)
    (mem : ℕ → ℕ) (p : ℕ) (c : C)
    → Documents spi bound incoming view
    → IsAtRest (view c)
    → ((mem' : ℕ → ℕ) × (c' : C) × (spi_rw spi bound mem p len c ≡ some (mem', c'))
        × Passed (view c) (view c') (span mem p len) len
        × ((q : ℕ)
            → mem' q
              ≡ (if within p len q then u8 (incoming ((view c).taken + (q - p))) else mem q)))
      × ((mem' : ℕ → ℕ) × (c' : C) × (spi_rw_blocking spi bound mem p len c ≡ some (mem', c'))
          × Passed (view c) (view c') (replicate len 0xff) len
          × ((q : ℕ)
              → mem' q
                ≡ (if within p len q then u8 (incoming ((view c).taken + (q - p))) else mem q)))
unfolding spi_rw spi_rw_blocking
spi_rw-exchanged spi bound incoming view len mem p c documents rest =
    let (mem1, c1, run1, done1, point1) =
      rw_loop-exchanged spi bound incoming view documents (λ b. b) len mem p c rest in
    let (mem2, c2, run2, done2, point2) =
      rw_loop-exchanged spi bound incoming view documents filler len mem p c rest in
    (
      (
        mem1,
        c1,
        run1,
        subst (λ t. Passed (view c) (view c1) t len) (map-same (span mem p len)) done1,
        point1,
      ),
      (
        mem2,
        c2,
        run2,
        subst (λ t. Passed (view c) (view c2) t len) (map-constant len mem p) done2,
        point2,
      ),
    )
