-- ===== src/Sd/Line.antt =====
-- The SPI line as src/lib/sd/SD.c sees it. The bytes that the card answers are an arbitrary
-- endless sequence `rx`: each run of the code is a run against one such sequence, `pos` of which
-- have been read. What the code does to the line is recorded, latest first.
use open_gpos.Base.{ℕ, ◌+◌, Bool, true, false, List, [], ◌∷◌}

pub data Event : Type 0 where
  sent : ℕ → Event
  select deselect : Event
  slept : ℕ → Event
  divisor : ℕ → Event
  wrote_text : Event

pub record Line : Type 0 where
  pub rx : ℕ → ℕ
  pub pos : ℕ
  pub events : List Event

abbrev pub Spi : Type 0 → Type 0
Spi A = Line → A × Line

abbrev pub pure : {A : Type 0} → A → Spi A
pure a l = (a, l)

module _ {A B : Type 0} where
  infixl 5 ◌>>=◌ ◌>>◌
  abbrev pub ◌>>=◌ : Spi A → (A → Spi B) → Spi B
  ◌>>=◌ m f l = f (m l).0 (m l).1

  abbrev pub ◌>>◌ : Spi A → Spi B → Spi B
  ◌>>◌ m n l = n (m l).1

abbrev pub log : Event → Line → Line
log e l = record l { events = e ∷ l.events }

abbrev pub event : Event → Spi (Unit {0})
event e l = (tt, log e l)

-- what `spi_read_byte` and `spi_send_byte` of the SPI driver do to the line
abbrev pub spi_read_byte : Spi ℕ
spi_read_byte l = (l.rx l.pos, record l { pos = l.pos + 1 })

abbrev pub spi_send_byte : ℕ → Spi (Unit {0})
spi_send_byte b = event (sent b)

-- Whether the chip select line of the card is held low.
abbrev pub selected : List Event → Bool
selected [] = false
selected (select ∷ es) = true
selected (deselect ∷ es) = false
selected (_ ∷ es) = selected es
