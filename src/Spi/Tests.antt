-- ===== src/Spi/Tests.antt =====
-- Transfers with a controller that carries out what is in flight at each read of its status.
use open_gpos.Base.{
  ℕ, ◌+◌, ◌-◌, ◌≡◌, refl, arith, some, [], ◌∷◌, ◌++◌, Bool, true, false, not, replicate,
  if◌then◌else◌, u8, ltb, min, bit_and, ◌^◌, ◌==◌, ◌!=◌,
}
use open_gpos.Str.Copy.{within}
use open_gpos.Fat32.Device.{span}
use open_gpos.Sd.Line
use open_gpos.Sd.Line.{Line, sent}
use open_gpos.Spi.{Spi, receive_empty, spi_rw, spi_rw_blocking}
use open_gpos.Spi.Controller.{View, Documents}
use open_gpos.Spi.Carries.{Carries}
use open_gpos.Spi.Laws.{Passed, spi_rw-exchanged}

-- everything in flight transferred
abbrev carried : View → View
carried v = record v { flight = 0; kept = min (v.kept + v.flight) (v.taken + 8); room = true }

-- room in the one FIFO, and perhaps a byte in the other
abbrev status_of : View → ℕ
status_of v = if ltb v.taken v.kept then 6 else 2

-- a device that answers with the numbers from 0 on
abbrev prompt : Spi View
prompt = record {
  read_sr = λ v. (status_of (carried v), carried v);
  read_dr = λ v. (v.taken, record v { taken = v.taken + 1; kept = min v.kept (v.taken + 1 + 8) });
  write_dr = λ x v. record v {
    sent = v.sent ++ (x ∷ []);
    flight = v.flight + 1;
    kept = min v.kept (v.taken + 8);
  };
}

abbrev numbers : ℕ → ℕ
numbers i = i

filled_bit : (b : Bool) → receive_empty (if b then 6 else 2) ≡ not b
filled_bit true = refl
filled_bit false = refl

prompt-Documents : Documents prompt 1 numbers (λ v. v)
prompt-Documents = record {
  status = λ c. record {
    count = c.flight;
    flown = omega arith;
    came = refl;
    same_taken = refl;
    same_sent = refl;
  };
  room = λ c h. refl;
  idle = λ c h. refl;
  filled = λ c. filled_bit (ltb (carried c).taken (carried c).kept);
  written = λ x c h. record {
    count = 0;
    flown = omega arith;
    came = omega arith;
    same_taken = refl;
    same_sent = refl;
  };
  read = λ c h. (
    refl,
    record {
      count = 0;
      flown = omega arith;
      came = omega arith;
      same_taken = refl;
      same_sent = refl;
    },
  );
  makes_room = λ c. (0, omega arith, clear_of (λ sr. bit_and sr (2 ^ 1) == 0) c refl refl);
  gets_idle = λ c. (0, omega arith, clear_of (λ sr. bit_and sr (2 ^ 4) != 0) c refl refl);
}
  where
    either : (f : ℕ → Bool) (b : Bool) → f 6 ≡ false → f 2 ≡ false → f (if b then 6 else 2) ≡ false
    either f true h k = h
    either f false h k = k

    clear_of :
        (f : ℕ → Bool) (c : View) → f 6 ≡ false → f 2 ≡ false → f (status_of (carried c)) ≡ false
    clear_of f c h k = either f (ltb (carried c).taken (carried c).kept) h k

abbrev rested : View
rested = record { sent = []; flight = 0; kept = 0; taken = 0; room = true }

abbrev memory : ℕ → ℕ
memory p = p

spi_rw-exchanged_example :
    ((mem' : ℕ → ℕ) × (c' : View) × (spi_rw prompt 1 memory 65 3 rested ≡ some (mem', c'))
      × Passed rested c' (span memory 65 3) 3
      × ((q : ℕ) → mem' q ≡ (if within 65 3 q then u8 (numbers (0 + (q - 65))) else memory q)))
    × ((mem' : ℕ → ℕ) × (c' : View) × (spi_rw_blocking prompt 1 memory 65 3 rested
          ≡ some (mem', c'))
        × Passed rested c' (replicate 3 0xff) 3
        × ((q : ℕ) → mem' q ≡ (if within 65 3 q then u8 (numbers (0 + (q - 65))) else memory q)))
spi_rw-exchanged_example =
    spi_rw-exchanged prompt 1 numbers (λ v. v) 3 memory 65 rested prompt-Documents
      (record { landed = refl; emptied = refl })

-- a command sent, whose answer is on its way
abbrev asked : View
asked = record rested { sent = 0x40 ∷ []; flight = 1 }

abbrev asked_line : Line
asked_line = record { rx = λ i. u8 i; pos = 0; events = sent 0x40 ∷ [] }
