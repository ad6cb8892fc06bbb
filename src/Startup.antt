-- ===== src/Startup.antt =====
-- The register accesses of the start: `SystemInit` in src/arch/arm_cortexm/rp2040/system_rp2040.c and
-- `resetSubsys` in src/kernel/main.c. A register reads back what was written last; each read of a
-- status register gives the next element of an arbitrary sequence. The waits of the source have no
-- bound, so the fuel counts the reads in one wait.
pub mod Waits
pub mod Words
pub mod Laws
mod Tests
use open_gpos.Base.{
  ℕ, ◌+◌, ◌-◌, ◌*◌, ◌/◌, ◌^◌, Option, none, some, List, [], ◌∷◌, ◌++◌, map, bit_and, bit_or, ◌<<<◌,
  ◌==◌, if◌then◌else◌,
}
use open_gpos.Poll.{poll}
use open_gpos.Uart.{clk_sys_hz}
use open_gpos.Str.Memory.{◌>>=◌, write}

-- the registers, by address
abbrev pub xosc_ctrl : ℕ
xosc_ctrl = 0x4002_4000

abbrev pub xosc_status : ℕ
xosc_status = 0x4002_4004

abbrev pub resets_reset : ℕ
resets_reset = 0x4000_c000

abbrev pub resets_done : ℕ
resets_done = 0x4000_c008

abbrev pub pll_cs : ℕ
pll_cs = 0x4002_8000

abbrev pub pll_pwr : ℕ
pll_pwr = 0x4002_8004

abbrev pub pll_fbdiv_int : ℕ
pll_fbdiv_int = 0x4002_8008

abbrev pub pll_prim : ℕ
pll_prim = 0x4002_800c

abbrev pub clocks_ref_ctrl : ℕ
clocks_ref_ctrl = 0x4000_8030

abbrev pub clocks_ref_selected : ℕ
clocks_ref_selected = 0x4000_8038

abbrev pub clocks_sys_ctrl : ℕ
clocks_sys_ctrl = 0x4000_803c

abbrev pub clocks_sys_selected : ℕ
clocks_sys_selected = 0x4000_8044

abbrev pub clocks_peri_ctrl : ℕ
clocks_peri_ctrl = 0x4000_8048

abbrev pub rosc_ctrl : ℕ
rosc_ctrl = 0x4006_0000

abbrev pub watchdog_tick : ℕ
watchdog_tick = 0x4005_802c

abbrev pub scb_shpr2 : ℕ
scb_shpr2 = 0xe000_ed1c

abbrev pub scb_shpr3 : ℕ
scb_shpr3 = 0xe000_ed20

abbrev pub syst_csr : ℕ
syst_csr = 0xe000_0010

abbrev pub syst_rvr : ℕ
syst_rvr = 0xe000_0014

abbrev pub syst_cvr : ℕ
syst_cvr = 0xe000_0018

-- `XOSC_HZ`
abbrev pub xosc_hz : ℕ
xosc_hz = 12_000_000

-- `SYSTICK_RELOAD_VAL`
abbrev pub systick_reload_val : ℕ
systick_reload_val = clk_sys_hz / (1000 / 10) - 1

-- `PRIORITY_0_HIGHEST`, `PRIORITY_2` and `PRIORITY_3_LOWEST`
abbrev pub priority_0_highest : ℕ
priority_0_highest = 0x00

abbrev pub priority_2 : ℕ
priority_2 = 0x80

abbrev pub priority_3_lowest : ℕ
priority_3_lowest = 0xc0

-- a wait that is over: the bit of a status register, the status that showed it, and what the other
-- registers held at that time
pub record Wait : Type 0 where
  pub register : ℕ
  pub bit : ℕ
  pub shown : ℕ
  pub regs : ℕ → ℕ

-- the registers, what the reads of the status registers give, how many of each were made, and the
-- waits so far
pub record Chip : Type 0 where
  pub regs : ℕ → ℕ
  pub status : ℕ → ℕ → ℕ
  pub reads : ℕ → ℕ
  pub waits : List Wait

-- a mask of 32 bits without one of them, `~(1 << bit)`
abbrev pub without : ℕ → ℕ
without bit = 2 ^ 32 - 1 - 2 ^ bit

-- an access to the registers: a new value for one of them, or a wait for a bit
pub data Access : Type 0 where
  update : ℕ → (ℕ → ℕ) → Access
  wait_bit : ℕ → ℕ → Access

abbrev pub assign : ℕ → ℕ → Access
assign register value = update register (λ _. value)

abbrev pub or_with : ℕ → ℕ → Access
or_with register mask = update register (λ old. bit_or old mask)

abbrev pub and_with : ℕ → ℕ → Access
and_with register mask = update register (λ old. bit_and old mask)

-- a field written over, `r = (r & mask) | value`
abbrev pub replace : ℕ → ℕ → ℕ → Access
replace register mask value = update register (λ old. bit_or (bit_and old mask) value)

unfoldable pub access : ℕ → Access → Chip → Option Chip
access fuel (update register f) s =
    some (record s { regs = write s.regs register (f (s.regs register)) })
access fuel (wait_bit register bit) s = do
  p ← poll fuel (λ r. bit_and r (2 ^ bit) == 0) (s.status register) (s.reads register)
  some (record s {
    reads = write s.reads register p;
    waits =
        s.waits
        ++ (record {
          register = register;
          bit = bit;
          shown = s.status register (p - 1);
          regs = s.regs;
        }
            ∷ []);
  })

unfoldable pub accesses : ℕ → List Access → Chip → Option Chip
accesses fuel [] s = some s
accesses fuel (a ∷ more) s = do s' ← access fuel a s; accesses fuel more s'

-- a peripheral brought out of reset
abbrev pub released : ℕ → List Access
released bit = and_with resets_reset (without bit) ∷ wait_bit resets_done bit ∷ []

-- `SystemInit`
abbrev pub system_init : List Access
system_init =
    assign xosc_ctrl 0xaa0
    ∷ or_with xosc_ctrl (0xfab <<< 12)
    ∷ wait_bit xosc_status 31
    ∷ and_with resets_reset (without 12)
    ∷ wait_bit resets_done 12
    ∷ assign pll_fbdiv_int 100
    ∷ and_with pll_pwr (2 ^ 32 - 1 - bit_or (1 <<< 0) (1 <<< 5))
    ∷ wait_bit pll_cs 31
    ∷ assign pll_prim (bit_or (6 <<< 16) (1 <<< 12))
    ∷ and_with pll_pwr (without 3)
    ∷ or_with clocks_ref_ctrl (2 <<< 0)
    ∷ wait_bit clocks_ref_selected 2
    ∷ or_with clocks_sys_ctrl (1 <<< 0)
    ∷ wait_bit clocks_sys_selected 1
    ∷ assign clocks_peri_ctrl (1 <<< 11)
    ∷ replace rosc_ctrl (2 ^ 32 - 1 - 0x00ff_f000) (0xd1e <<< 12)
    ∷ or_with watchdog_tick (12 <<< 0)
    ∷ and_with resets_reset (without 21)
    ∷ wait_bit resets_done 21
    ∷ replace scb_shpr2 (2 ^ 32 - 1 - (0xff <<< 0)) (priority_0_highest <<< 0)
    ∷ replace scb_shpr3 (2 ^ 32 - 1 - (0xff <<< 24)) (priority_2 <<< 24)
    ∷ replace scb_shpr3 (2 ^ 32 - 1 - (0xff <<< 16)) (priority_3_lowest <<< 16)
    ∷ assign syst_rvr systick_reload_val
    ∷ assign syst_cvr 0
    ∷ or_with syst_csr (bit_or (bit_or (1 <<< 2) (1 <<< 1)) (1 <<< 0))
    ∷ []

-- `resetSubsys`
abbrev pub reset_subsys : List Access
reset_subsys = released 5 ++ released 8 ++ released 22 ++ released 16 ++ released 2
