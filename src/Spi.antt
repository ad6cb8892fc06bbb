-- ===== src/Spi.antt =====
-- src/driver/spi/spi.c over the controller, whose status and data register are parameters: a read of
-- either, and a write to the data register, may change its state. Spi/Controller says what the
-- controller documents. The fuel counts the reads of the status register in one wait.
pub mod Controller
pub mod Laws
pub mod Carries
mod Tests
use open_gpos.Base.{
  ℕ, zero, suc, ◌+◌, ◌-◌, ◌^◌, Bool, Option, none, some, List, [], ◌∷◌, u8, u32, bit_and, bit_or,
  ◌<<<◌, ◌==◌, ◌!=◌, if◌then◌else◌,
}
use open_gpos.Str.Memory.{write, ◌>>=◌}

-- `spi0_hw->SR` and `spi0_hw->DR`
pub record Spi (C : Type 0) : Type 0 where
  pub read_sr : C → ℕ × C
  pub read_dr : C → ℕ × C
  pub write_dr : ℕ → C → C

-- the conditions of the waits on the status register
abbrev pub transmit_full : ℕ → Bool
transmit_full sr = bit_and sr (2 ^ 1) == 0

abbrev pub receive_empty : ℕ → Bool
receive_empty sr = bit_and sr (2 ^ 2) == 0

abbrev pub busy : ℕ → Bool
busy sr = bit_and sr (2 ^ 4) != 0

-- what `spi_rw_blocking` sends
abbrev pub filler : ℕ → ℕ
filler b = 0xff

module _ {C : Type 0} (spi : Spi C) where
  -- `while (condition on spi0_hw->SR);`
  unfoldable pub wait_while : ℕ → (ℕ → Bool) → C → Option C
  wait_while zero condition s = none
  wait_while (suc fuel) condition s =
      let (sr, s') = spi.read_sr s in
      let rest = wait_while fuel condition s' in if condition sr then rest else some s'

  -- a read of the data register as a byte
  unfoldable pub get_dr : C → ℕ × C
  get_dr s = let (dr, s') = spi.read_dr s in (u8 dr, s')

  -- the end of a round: the byte is taken if the receive FIFO is not empty
  unfoldable pub take_byte : (ℕ → ℕ) → ℕ → C → (ℕ → ℕ) × C
  unfolding get_dr
  take_byte mem p s =
      let (sr, s') = spi.read_sr s in
      let (b, s'') = get_dr s' in if receive_empty sr then (mem, s') else (write mem p b, s'')

  module _ (fuel : ℕ) where
    -- `spi_send_byte`
    unfoldable pub spi_send_byte : ℕ → C → Option C
    spi_send_byte x s = do s' ← wait_while fuel transmit_full s; some (spi.write_dr x s')

    -- `spi_read_byte`
    unfoldable pub spi_read_byte : C → Option (ℕ × C)
    unfolding get_dr
    spi_read_byte s = do s' ← wait_while fuel receive_empty s; some (get_dr s')

    -- `spi_rw_byte`
    unfoldable pub spi_rw_byte : ℕ → C → Option (ℕ × C)
    unfolding get_dr
    spi_rw_byte byte s = do s' ← wait_while fuel busy (spi.write_dr byte s); some (get_dr s')

    -- a round of the loops of `spi_rw` and `spi_rw_blocking`
    unfoldable pub exchange : (ℕ → ℕ) → ℕ → ℕ → C → Option ((ℕ → ℕ) × C)
    exchange mem p x s = do
      s1 ← wait_while fuel transmit_full s
      s2 ← wait_while fuel busy (spi.write_dr x s1)
      some (take_byte mem p s2)

    -- The loops: what a round sends is `out` of the byte in the buffer.
    unfoldable pub rw_loop : (ℕ → ℕ) → ℕ → (ℕ → ℕ) → ℕ → C → Option ((ℕ → ℕ) × C)
    rw_loop out zero mem p s = some (mem, s)
    rw_loop out (suc len) mem p s = do
      r ← exchange mem p (out (mem p)) s
      rw_loop out len r.0 (p + 1) r.1

    -- `spi_rw` and `spi_rw_blocking`
    unfoldable pub spi_rw : (ℕ → ℕ) → ℕ → ℕ → C → Option ((ℕ → ℕ) × C)
    spi_rw mem p len s = rw_loop (λ b. b) len mem p s

    unfoldable pub spi_rw_blocking : (ℕ → ℕ) → ℕ → ℕ → C → Option ((ℕ → ℕ) × C)
    spi_rw_blocking mem p len s = rw_loop filler len mem p s

-- the registers that `spi_init` and `spi_set_speed` write
pub data Register : Type 0 where
  cr0 cr1 cpsr oe_set : Register
  gpio_ctrl pad : ℕ → Register

-- `spi_init`, for what `CR1` gives where it is read: its writes
unfoldable pub spi_init : ℕ → ℕ → List (Register × ℕ)
spi_init first_cr1 second_cr1 =
    (cr0, 0x7 <<< 0)
    ∷ (cpsr, 254)
    ∷ (cr1, bit_and first_cr1 (2 ^ 32 - 1 - 2 ^ 2))
    ∷ (gpio_ctrl 16, 1)
    ∷ (gpio_ctrl 18, 1)
    ∷ (gpio_ctrl 19, 1)
    ∷ (gpio_ctrl 9, 5)
    ∷ (oe_set, 1 <<< 9)
    ∷ (pad 18, bit_or (1 <<< 1) (1 <<< 8))
    ∷ (pad 19, bit_or (1 <<< 1) (1 <<< 8))
    ∷ (cr1, bit_or second_cr1 (1 <<< 1))
    ∷ []

-- `spi_set_speed`
unfoldable pub spi_set_speed : ℕ → Register × ℕ
spi_set_speed divisor = (cpsr, divisor)
