-- ===== src/Startup/Tests.antt =====
-- A chip whose status registers show every bit at once.
use open_gpos.Base.{ℕ, ◌≡◌, refl, arith, List, [], Option, none, some}
use open_gpos.Startup.{Chip, Wait, access, accesses, resets_reset, released}
use open_gpos.Startup.Waits.{Responds, Reached}
use open_gpos.Startup.Laws.{Configured, milestones, start_up, start_up-configures}
use open_gpos.Poll.{poll}

abbrev chip : Chip
chip = record {
  regs = λ register. 0x1ff_ffff;
  status = λ register n. 0xffff_ffff;
  reads = λ register. 0;
  waits = [];
}

abbrev reset_value : Option Chip → ℕ
reset_value none = 0
reset_value (some s) = s.regs resets_reset

releases_dma : reset_value (accesses 1 (released 2) chip) ≡ 0x1ff_fffb
unfolding accesses access poll
releases_dma = refl

waits_without_end : accesses 3 (released 2) (record chip { status = λ register n. 0 }) ≡ none
unfolding accesses access poll
waits_without_end = refl

responds : Responds 1 chip.status start_up
responds = (
  (λ p. (0, omega arith, omega arith)),
  (
    (λ p. (0, omega arith, omega arith)),
    (
      (λ p. (0, omega arith, omega arith)),
      (
        (λ p. (0, omega arith, omega arith)),
        (
          (λ p. (0, omega arith, omega arith)),
          (
            (λ p. (0, omega arith, omega arith)),
            (
              (λ p. (0, omega arith, omega arith)),
              (
                (λ p. (0, omega arith, omega arith)),
                (
                  (λ p. (0, omega arith, omega arith)),
                  (
                    (λ p. (0, omega arith, omega arith)),
                    ((λ p. (0, omega arith, omega arith)), tt),
                  ),
                ),
              ),
            ),
          ),
        ),
      ),
    ),
  ),
)

start_up-configures_example :
    (s : Chip) × (accesses 1 start_up chip ≡ some s)
    × Configured chip.regs s.regs
    × ((ws : List Wait) × (s.waits ≡ ws) × Reached (milestones chip.regs) ws)
start_up-configures_example = start_up-configures 1 chip responds (record {
  reset = omega arith;
  power = omega arith;
  ring = omega arith;
  first = omega arith;
  second = omega arith;
})
