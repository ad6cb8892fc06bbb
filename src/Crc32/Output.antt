-- ===== src/Crc32/Output.antt =====
-- What `main` of src/arch/arm_cortexm/rp2040/boot2/compCrc32.c leaves behind.
use open_gpos.Base.{
  ℕ, ◌+◌, ◌*◌, ◌^◌, ◌<◌, ◌≡◌, refl, subst, Option, some, none, List, [], ◌∷◌, ◌&&◌, not, leb, ◌==◌,
  Bool, true, false, if◌then◌else◌, Bool-cases, inl, inr, ◌>>>◌, All, length, arith,
}
use open_gpos.Base.Bits.{bit_and_mask}
use open_gpos.Crc32.{calculate_crc32}
use open_gpos.Crc32.Division.{bitwise_crc32, calculate_crc32-bitwise_crc32}
use open_gpos.Crc32.Main.{
  Stdio, File, input, output, exit_success, exit_failure, Call, fopen, seek_end, seek_start, fread,
  fclose, fprintf, complain, Outcome, checksum_bytes, write_output, read_input, measure_input, main,
}

-- the test that lets `main` reach its end
abbrev pub ready : Stdio → ℕ → Bool
ready s argc =
    argc == 2 && s.input_opens && s.end_reached && leb s.told 252 && not s.failed && s.output_opens

abbrev pub same_file : File → File → Bool
same_file input input = true
same_file output output = true
same_file input output = false
same_file output input = false

-- Whether a file is open after the calls, if none closes what is not open or opens what is.
abbrev pub open_after : File → Bool → List Call → Option Bool
open_after f now [] = some now
open_after f now (fopen g ok ∷ calls) =
    let rest = open_after f (if same_file f g then ok else now) calls in
    if same_file f g && now then none else rest
open_after f now (fclose g ∷ calls) =
    let rest = open_after f (if same_file f g then false else now) calls in
    if same_file f g && not now then none else rest
open_after f now (seek_end ∷ calls) = open_after f now calls
open_after f now (seek_start ∷ calls) = open_after f now calls
open_after f now (fread size ∷ calls) = open_after f now calls
open_after f now (fprintf bytes ∷ calls) = open_after f now calls
open_after f now (complain ∷ calls) = open_after f now calls

abbrev pub printed : List Call → List (List ℕ)
printed [] = []
printed (fprintf bytes ∷ calls) = bytes ∷ printed calls
printed (fopen g ok ∷ calls) = printed calls
printed (fclose g ∷ calls) = printed calls
printed (seek_end ∷ calls) = printed calls
printed (seek_start ∷ calls) = printed calls
printed (fread size ∷ calls) = printed calls
printed (complain ∷ calls) = printed calls

-- the number that bytes spell, the lowest first
abbrev pub spelled : List ℕ → ℕ
spelled [] = 0
spelled (b ∷ bytes) = b + 256 * spelled bytes

-- four bytes that spell the number
abbrev pub Spells : ℕ → List ℕ → Type 0
Spells n bytes = (length bytes ≡ 4) × (spelled bytes ≡ n) × All (λ b. b < 256) bytes

checksum_bytes-Spells : (c : ℕ) → c < 2 ^ 32 → Spells c (checksum_bytes c)
unfolding checksum_bytes
checksum_bytes-Spells c h =
    rw
      (
        bit_and_mask 8 c,
        bit_and_mask 8 (c >>> 8),
        bit_and_mask 8 (c >>> 16),
        bit_and_mask 8 (c >>> 24),
      )
      (refl, omega arith, (omega arith, (omega arith, (omega arith, (omega arith, tt)))))

-- what `main` prints on its way to the end
abbrev pub print_of : List ℕ → List (List ℕ)
print_of bytes = checksum_bytes (calculate_crc32 bytes) ∷ []

abbrev Ends : Outcome → Bool → List (List ℕ) → Type 0
Ends o ok lines =
    (o.0 ≡ (if ok then exit_success else exit_failure))
    × (printed o.1 ≡ (if ok then lines else []))
    × ((f : File) → open_after f false o.1 ≡ some false)

for_both : (P : File → Type 0) → P input → P output → (f : File) → P f
for_both P a b input = a
for_both P a b output = b

abbrev answers : Bool → Bool → Bool → Bool → ℕ → (ℕ → List ℕ) → Stdio
answers i e x o told read = record {
  input_opens = i;
  end_reached = e;
  told = told;
  read = read;
  failed = x;
  output_opens = o;
}

main-Ends :
    (i e x o : Bool) (told argc : ℕ) (read : ℕ → List ℕ)
    → Ends
        (main (answers i e x o told read) argc)
        (ready (answers i e x o told read) argc)
        (print_of (read 252))
unfolding main measure_input read_input write_output
main-Ends i e x o told argc read = elim (Bool-cases (argc == 2)) [
  | inr other ↦ rw other (refl, refl, for_both _ refl refl)
  | inl two ↦ rw two (opened i e x o)
]
  where
    opened :
        (i e x o : Bool)
        → Ends
            (main (answers i e x o told read) 2)
            (ready (answers i e x o told read) 2)
            (print_of (read 252))
    opened false e x o = (refl, refl, for_both _ refl refl)
    opened true false x o = (refl, refl, for_both _ refl refl)
    opened true true true true = elim (Bool-cases (leb told 252)) [
      | inr large ↦ rw large (refl, refl, for_both _ refl refl)
      | inl small ↦ rw small (refl, refl, for_both _ refl refl)
    ]
    opened true true true false = elim (Bool-cases (leb told 252)) [
      | inr large ↦ rw large (refl, refl, for_both _ refl refl)
      | inl small ↦ rw small (refl, refl, for_both _ refl refl)
    ]
    opened true true false true = elim (Bool-cases (leb told 252)) [
      | inr large ↦ rw large (refl, refl, for_both _ refl refl)
      | inl small ↦ rw small (refl, refl, for_both _ refl refl)
    ]
    opened true true false false = elim (Bool-cases (leb told 252)) [
      | inr large ↦ rw large (refl, refl, for_both _ refl refl)
      | inl small ↦ rw small (refl, refl, for_both _ refl refl)
    ]

-- `main` succeeds exactly when it has one argument, the input opens, its end is reached, it is not
-- larger than 252 bytes, it is read and the output opens; then it prints, and prints once, four
-- bytes that spell the bitwise checksum of what was read, the lowest first. Otherwise it prints
-- nothing. In every case each file that it opened is closed again, once.
pub main-prints :
    (s : Stdio) (argc : ℕ)
    → All (λ b. b < 256) (s.read 252)
    → (bytes : List ℕ) × Spells (bitwise_crc32 0xffff_ffff (s.read 252)) bytes
      × ((main s argc).0 ≡ (if ready s argc then exit_success else exit_failure))
      × (printed (main s argc).1 ≡ (if ready s argc then bytes ∷ [] else []))
      × ((f : File) → open_after f false (main s argc).1 ≡ some false)
main-prints s argc h =
    let crc = calculate_crc32-bitwise_crc32 (s.read 252) h in
    let ends = main-Ends s.input_opens s.end_reached s.failed s.output_opens s.told argc s.read in
    (
      checksum_bytes (calculate_crc32 (s.read 252)),
      subst (λ t. Spells t (checksum_bytes (calculate_crc32 (s.read 252)))) crc.0
          (checksum_bytes-Spells (calculate_crc32 (s.read 252)) crc.1),
      ends.0,
      ends.1,
      ends.2,
    )
