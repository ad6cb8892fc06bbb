-- ===== src/Startup/Laws.antt =====
-- What `SystemInit` and `resetSubsys` leave in the registers, and the order of their waits.
use open_gpos.Base.{
  ℕ, ◌+◌, ◌*◌, ◌/◌, ◌%◌, ◌^◌, ◌<◌, ◌≡◌, refl, sym, subst, some, List, [], ◌∷◌, ◌++◌, arith,
}
use open_gpos.Dma.Fields.{put, field_lem}
use open_gpos.Uart.{clk_sys_hz}
use open_gpos.Startup.{
  Chip, Wait, Access, accesses, system_init, reset_subsys, xosc_ctrl, xosc_status, resets_reset,
  resets_done, pll_cs, pll_pwr, pll_fbdiv_int, pll_prim, clocks_ref_ctrl, clocks_ref_selected,
  clocks_sys_ctrl, clocks_sys_selected, clocks_peri_ctrl, rosc_ctrl, watchdog_tick, scb_shpr2,
  scb_shpr3, syst_rvr, syst_cvr, syst_csr, xosc_hz,
}
use open_gpos.Startup.Waits.{
  Responds, written, Milestone, milestone, Reached, AtWaits, accesses-written,
}
use open_gpos.Startup.Words.{
  low_bits, priorities, put_all, masked-put_all, peripherals, peripherals-Clears, set_bit0,
  set_bit1, set_bits23, clear_bits05, pll_power, vco_on, pll_on,
}

-- What `SystemInit` and then `resetSubsys` make of the registers. `put k w v c` is `c` with `v` in
-- the `w` bits from bit `k` on.
pub record Configured (old new : ℕ → ℕ) : Type 0 where
  -- the crystal is enabled
  pub crystal : new xosc_ctrl ≡ 0xfab_aa0
  -- the PLL is powered, with its dividers, and makes the system clock of the crystal's
  pub powered : new pll_pwr ≡ pll_on (old pll_pwr)
  pub clock :
      xosc_hz * new pll_fbdiv_int
      ≡ clk_sys_hz * (new pll_prim / 2 ^ 16 % 8) * (new pll_prim / 2 ^ 12 % 8)
  -- the reference clock is the crystal's, the system clock that of the auxiliary source; the clock of
  -- the peripherals is on, and the ring oscillator disabled
  pub reference : new clocks_ref_ctrl ≡ put 1 1 1 (old clocks_ref_ctrl)
  pub system : new clocks_sys_ctrl ≡ put 0 1 1 (old clocks_sys_ctrl)
  pub peripheral : new clocks_peri_ctrl ≡ 2 ^ 11
  pub ring : new rosc_ctrl ≡ put 12 12 0xd1e (old rosc_ctrl)
  -- the bits 2 and 3 of the cycles of a tick are set
  pub tick : new watchdog_tick ≡ put 2 2 3 (old watchdog_tick)
  -- seven peripherals are out of reset, the others as before
  pub running : new resets_reset ≡ put_all peripherals (old resets_reset)
  -- the priorities
  pub lowest_byte : new scb_shpr2 ≡ put 0 8 0 (old scb_shpr2)
  pub ranked : new scb_shpr3 ≡ put 16 8 0xc0 (put 24 8 0x80 (old scb_shpr3))
  -- the words from `SYST_BASE` on: a reload value for 100 ticks a second of the system clock, no
  -- current value, and the three lowest bits
  pub ticks : (new syst_rvr + 1) * 100 ≡ clk_sys_hz
  pub restarted : new syst_cvr ≡ 0
  pub ticking : new syst_csr ≡ old syst_csr / 8 * 8 + 7

-- The waits of the start, in their order, with what has been written before each.
abbrev pub milestones : (ℕ → ℕ) → List Milestone
milestones old =
    let reset = λ (bits : List ℕ) (r : ℕ → ℕ). r resets_reset ≡ put_all bits (old resets_reset) in
    milestone xosc_status 31 (λ r. r xosc_ctrl ≡ 0xfab_aa0)
    ∷ milestone resets_done 12 (reset (12 ∷ []))
    ∷ milestone pll_cs 31 (λ r. (r pll_fbdiv_int ≡ 100) × (r pll_pwr ≡ vco_on (old pll_pwr)))
    ∷ milestone clocks_ref_selected 2 (λ r. r clocks_ref_ctrl ≡ put 1 1 1 (old clocks_ref_ctrl))
    ∷ milestone clocks_sys_selected 1 (λ r.
      (r pll_pwr ≡ pll_on (old pll_pwr)) × (r clocks_sys_ctrl ≡ put 0 1 1 (old clocks_sys_ctrl)))
    ∷ milestone resets_done 21 (reset (12 ∷ 21 ∷ []))
    ∷ milestone resets_done 5 (reset (12 ∷ 21 ∷ 5 ∷ []))
    ∷ milestone resets_done 8 (reset (12 ∷ 21 ∷ 5 ∷ 8 ∷ []))
    ∷ milestone resets_done 22 (reset (12 ∷ 21 ∷ 5 ∷ 8 ∷ 22 ∷ []))
    ∷ milestone resets_done 16 (reset (12 ∷ 21 ∷ 5 ∷ 8 ∷ 22 ∷ 16 ∷ []))
    ∷ milestone resets_done 2 (reset peripherals)
    ∷ []

-- the accesses in the order of the start
abbrev pub start_up : List Access
start_up = system_init ++ reset_subsys

-- the registers that are read back are words
pub record AreWords (regs : ℕ → ℕ) : Type 0 where
  pub reset : regs resets_reset < 2 ^ 32
  pub power : regs pll_pwr < 2 ^ 32
  pub ring : regs rosc_ctrl < 2 ^ 32
  pub first : regs scb_shpr2 < 2 ^ 32
  pub second : regs scb_shpr3 < 2 ^ 32

start_up-Configured : (regs : ℕ → ℕ) → AreWords regs → Configured regs (written start_up regs)
start_up-Configured regs w = record {
  crystal = refl;
  powered = pll_power (regs pll_pwr) w.power;
  clock = refl;
  reference = set_bit1 (regs clocks_ref_ctrl);
  system = set_bit0 (regs clocks_sys_ctrl);
  peripheral = refl;
  ring =
      let small = w.ring in
      field_lem 12 12 8 (regs rosc_ctrl) 0xd1e (omega arith) (omega arith) (omega arith)
        (omega arith) (omega arith);
  tick = set_bits23 (regs watchdog_tick);
  running = masked-put_all peripherals (regs resets_reset) peripherals-Clears w.reset;
  lowest_byte =
      let small = w.first in
      field_lem 0 8 24 (regs scb_shpr2) 0 (omega arith) (omega arith) (omega arith) (omega arith)
        (omega arith);
  ranked = priorities (regs scb_shpr3) w.second;
  ticks = refl;
  restarted = refl;
  ticking = low_bits (regs syst_csr);
}

start_up-AtWaits : (regs : ℕ → ℕ) → AreWords regs → AtWaits start_up regs (milestones regs)
start_up-AtWaits regs w =
    let c = regs resets_reset in
    let (c1, (c2, (c3, (c4, (c5, (c6, _)))))) = peripherals-Clears in
    (
      (refl, refl, refl),
      (
        (refl, refl, masked-put_all (12 ∷ []) c (c1, tt) w.reset),
        (
          (refl, refl, (refl, clear_bits05 (regs pll_pwr) w.power)),
          (
            (refl, refl, set_bit1 (regs clocks_ref_ctrl)),
            (
              (refl, refl, (pll_power (regs pll_pwr) w.power, set_bit0 (regs clocks_sys_ctrl))),
              (
                (refl, refl, masked-put_all (12 ∷ 21 ∷ []) c (c1, (c2, tt)) w.reset),
                (
                  (refl, refl, masked-put_all (12 ∷ 21 ∷ 5 ∷ []) c (c1, (c2, (c3, tt))) w.reset),
                  (
                    (
                      refl,
                      refl,
                      masked-put_all (12 ∷ 21 ∷ 5 ∷ 8 ∷ []) c (c1, (c2, (c3, (c4, tt)))) w.reset,
                    ),
                    (
                      (
                        refl,
                        refl,
                        masked-put_all (12 ∷ 21 ∷ 5 ∷ 8 ∷ 22 ∷ []) c
                            (c1, (c2, (c3, (c4, (c5, tt))))) w.reset,
                      ),
                      (
                        (
                          refl,
                          refl,
                          masked-put_all (12 ∷ 21 ∷ 5 ∷ 8 ∷ 22 ∷ 16 ∷ []) c
                              (c1, (c2, (c3, (c4, (c5, (c6, tt)))))) w.reset,
                        ),
                        ((refl, refl, masked-put_all peripherals c peripherals-Clears w.reset), tt),
                      ),
                    ),
                  ),
                ),
              ),
            ),
          ),
        ),
      ),
    )

-- `SystemInit` and then `resetSubsys`, on a chip whose status registers show each bit that is waited
-- for in one of any `bound` reads, and of whose registers those that are read back hold 32 bits, end.
-- They wait for the crystal, the PLL, the switches of both clocks and each peripheral, in this order,
-- each until its bit is set, and each wait begins when what it waits for has been written: the
-- crystal enabled, the PLL out of reset and then its multiplier and its power, the switches, the
-- resets so far. In the end the crystal is enabled; the PLL is powered and multiplies and divides its
-- frequency to `CLK_SYS_HZ`; the clocks are switched, the ring oscillator disabled and the tick set;
-- the PLL, the timer and the five peripherals of `resetSubsys` are out of reset, the others as before;
-- the lowest byte of SHPR2 is 0, SHPR3 has the priorities 2 and 3 in its two highest bytes and the
-- rest of it is kept; of the words from `SYST_BASE` on, the reload value is for 100 ticks a second of
-- that clock, the current value is 0 and the three lowest bits are set, with the rest kept.
pub start_up-configures :
    (bound : ℕ) (s : Chip)
    → Responds bound s.status start_up
    → AreWords s.regs
    → (s' : Chip) × (accesses bound start_up s ≡ some s')
      × Configured s.regs s'.regs
      × ((ws : List Wait) × (s'.waits ≡ s.waits ++ ws) × Reached (milestones s.regs) ws)
start_up-configures bound s responds words =
    let (s', run, same, waited) =
      accesses-written bound start_up (milestones s.regs) s responds
        (start_up-AtWaits s.regs words) in
    (s', run, subst (Configured s.regs) (sym same) (start_up-Configured s.regs words), waited)
