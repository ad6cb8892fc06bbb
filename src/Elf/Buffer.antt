-- ===== src/Elf/Buffer.antt =====
-- The buffer of `loadELF` in src/lib/elf/elf.c that holds the file.
use open_gpos.Base.{
  ℕ, zero, suc, ◌+◌, ◌*◌, ◌<◌, ◌≤◌, ◌≡◌, arith, refl, ap, ◌∙◌, true, false, List, [], ◌∷◌, length,
  get_or, ◌==◌, ◌!=◌, ◌||◌, ◌≢◌, not, if◌then◌else◌, Bool-cases, inl, inr,
}
use open_gpos.HexUtils.Laws.{le_value}
use open_gpos.Str.Memory.{write}
use open_gpos.Elf.{is_executable, store, load_program}
use open_gpos.Elf.Headers.{image, segments, IsLoadable, IsArmExecutable, Holds, Copies}
use open_gpos.Elf.Load.{read_le16-window, read_le32-window}
use open_gpos.Elf.Loop.{load_loop-image}

-- A store changes nothing in front of its bytes, nor behind them.
pub store-front : (bytes : List ℕ) (mem : ℕ → ℕ) (p q : ℕ) → q < p → store mem p bytes q ≡ mem q
unfolding store
store-front [] mem p q h = refl
store-front (b ∷ bytes) mem p q h =
    let off : (q == p) ≡ false = ground arith in
    store-front bytes (write mem p b) (p + 1) q (omega arith) ∙ (rw off refl)

pub store-behind :
    (bytes : List ℕ) (mem : ℕ → ℕ) (p q : ℕ) → p + length bytes ≤ q → store mem p bytes q ≡ mem q
unfolding store
store-behind [] mem p q h = refl
store-behind (b ∷ bytes) mem p q h =
    let off : (q == p) ≡ false = ground arith in
    store-behind bytes (write mem p b) (p + 1) q (omega arith) ∙ (rw off refl)

pub store-Holds : (bytes : List ℕ) (mem : ℕ → ℕ) (p : ℕ) → Holds (store mem p bytes) p bytes
unfolding store
store-Holds [] mem p i h = absurd (omega arith)
store-Holds (b ∷ bytes) mem p zero h =
    let here : p + 0 ≡ p = omega arith in
    let on : (p == p) ≡ true = ground arith in
    rw here (store-front bytes (write mem p b) (p + 1) p (omega arith) ∙ (rw on refl))
store-Holds (b ∷ bytes) mem p (suc i) h =
    let e : p + suc i ≡ p + 1 + i = omega arith in
    rw e (store-Holds bytes (write mem p b) (p + 1) i (omega arith))

-- the memory that has the bytes from 0 on
abbrev pub at_zero : List ℕ → ℕ → ℕ
at_zero bytes i = get_or bytes i 0

pub is_executable-Holds :
    (mem : ℕ → ℕ) (buffer : ℕ) (file : List ℕ)
    → Holds mem buffer file
    → 0x34 ≤ length file
    → is_executable mem buffer ≡ is_executable (at_zero file) 0
unfolding is_executable
is_executable-Holds mem buffer file holds long =
    let first : mem buffer ≡ get_or file 0 0 =
      ap mem (let e : buffer ≡ buffer + 0 = omega arith in e) ∙ holds 0 (omega arith) in
    rw first (
      rw (holds 1 (omega arith)) (
        rw (holds 2 (omega arith)) (
          rw (holds 3 (omega arith)) (
            rw (holds 4 (omega arith)) (
              rw (holds 5 (omega arith))
                (rw (holds 0x10 (omega arith)) (rw (holds 0x12 (omega arith)) refl)))))))

-- The checks of the header take what `IsArmExecutable` says, and nothing else.
pub is_executable-IsArmExecutable :
    (file : List ℕ) → IsArmExecutable file → is_executable (at_zero file) 0 ≡ true
unfolding is_executable
is_executable-IsArmExecutable file arm =
    let c = arm.class in
    let o = arm.order in
    let c' : (get_or file 4 0 == 2) ≡ false = ground arith in
    let o' : (get_or file 5 0 == 2) ≡ false = ground arith in
    rw (arm.magic0, arm.magic1, arm.magic2, arm.magic3, c', o', arm.kind, arm.machine) refl

accepted :
    (a b c d e f g h : ℕ)
    → (if (a != 0x7f) || ((b != 0x45) || ((c != 0x4c) || (d != 0x46)))
        then false
        else if e == 2
        then false
        else if f == 2
        then false
        else if g != 0x02
        then false
        else not (h != 0x28))
      ≡ true
    → (a ≡ 0x7f) × (b ≡ 0x45) × (c ≡ 0x4c) × (d ≡ 0x46) × (e ≢ 2) × (f ≢ 2) × (g ≡ 2) × (h ≡ 0x28)
accepted a b c d e f g h run = (
  ground arith,
  ground arith,
  ground arith,
  ground arith,
  ground arith,
  ground arith,
  ground arith,
  ground arith,
)

pub not_executable :
    (file : List ℕ) → ¬ IsArmExecutable file → is_executable (at_zero file) 0 ≡ false
unfolding is_executable
not_executable file other = elim (Bool-cases (is_executable (at_zero file) 0)) [
  | inr refused ↦ refused
  | inl taken ↦
      let r =
        accepted (get_or file 0 0) (get_or file 1 0) (get_or file 2 0) (get_or file 3 0)
          (get_or file 4 0) (get_or file 5 0) (get_or file 0x10 0) (get_or file 0x12 0) taken in
      absurd (
        other (record {
          magic0 = r.0;
          magic1 = r.1;
          magic2 = r.2;
          magic3 = r.3;
          class = r.4;
          order = r.5;
          kind = r.6;
          machine = r.7;
        }))
]

-- `load_program` leaves the image of the segments where the buffer holds the file.
pub load_program-image :
    (memcpy : (ℕ → ℕ) → ℕ → ℕ → ℕ → ℕ → ℕ) (mem : ℕ → ℕ) (buffer : ℕ) (file : List ℕ)
    → Copies memcpy
    → Holds mem buffer file
    → IsLoadable file buffer (buffer + length file)
    → load_program memcpy mem buffer ≡ image file (segments file) mem
unfolding load_program
load_program-image memcpy mem buffer file copies holds l =
    let offset =
      read_le32-window mem buffer file 0x1c holds l.bytes (omega arith) (omega (arith, l.header)) in
    let size =
      read_le16-window mem buffer file 0x2a holds l.bytes (omega arith) (omega (arith, l.header)) in
    let count =
      read_le16-window mem buffer file 0x2c holds l.bytes (omega arith) (omega (arith, l.header)) in
    let start : le_value file 0x1c 4 ≡ le_value file 0x1c 4 + 0 * le_value file 0x2a 2 =
      omega arith in
    rw offset (
      rw size (
        rw count (
          load_loop-image memcpy (le_value file 0x2c 2) 0 mem buffer file (le_value file 0x1c 4)
            (le_value file 0x2a 2) (le_value file 0x1c 4) copies holds l.bytes l.room l.entry_size
            start l.table l.near l.fit)))
