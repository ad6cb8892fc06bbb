-- ===== src/Spi/Carries.antt =====
-- The SPI line of the SD card driver (Sd/Line), carried out by src/driver/spi/spi.c.
use open_gpos.Base.{ℕ, ◌≡◌, List, [], ◌∷◌, ◌++◌, u8}
use open_gpos.Sd.Line
use open_gpos.Sd.Line.{Line, Event, sent}
use open_gpos.Spi.{Spi}
use open_gpos.Spi.Controller.{View}

-- the bytes that a line was sent, of what happened on it, latest first
unfoldable pub sent_bytes : List Event → List ℕ
sent_bytes [] = []
sent_bytes (sent b ∷ events) = sent_bytes events ++ (b ∷ [])
sent_bytes (e ∷ events) = sent_bytes events

-- The controller is where the line is, whose bytes are those that come in.
pub record Carries (incoming : ℕ → ℕ) (v : View) (l : Line) : Type 0 where
  pub answers : (i : ℕ) → u8 (incoming i) ≡ l.rx i
  pub place : v.taken ≡ l.pos
  pub bytes : v.sent ≡ sent_bytes l.events
