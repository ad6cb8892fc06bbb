-- ===== src/Crc32/Tests.antt =====
-- The checksum of the digits 1 to 9, and runs of `main`.
use open_gpos.Base.{
  ◌≡◌, refl, ℕ, List, [], ◌∷◌, arith, ◌^◌, ◌<◌, true, false, some, if◌then◌else◌, take,
}
use open_gpos.Crc32.{crc32_step, crc32_loop, calculate_crc32}
use open_gpos.Crc32.Division.{bitwise_crc32, calculate_crc32-bitwise_crc32}
use open_gpos.Crc32.Main.{
  Stdio, File, exit_success, exit_failure, complain, main, measure_input, read_input, write_output,
  checksum_bytes,
}
use open_gpos.Crc32.Output.{ready, printed, open_after, Spells, main-prints}

abbrev digits : List ℕ
digits = 49 ∷ 50 ∷ 51 ∷ 52 ∷ 53 ∷ 54 ∷ 55 ∷ 56 ∷ 57 ∷ []

nine_digits : calculate_crc32 digits ≡ 0x0376_e6e7
unfolding calculate_crc32 crc32_loop crc32_step
nine_digits = refl

calculate_crc32-bitwise_crc32_example :
    (calculate_crc32 digits ≡ bitwise_crc32 0xffff_ffff digits) × (calculate_crc32 digits < 2 ^ 32)
calculate_crc32-bitwise_crc32_example = calculate_crc32-bitwise_crc32 digits (omega arith)

-- a file with the nine digits
abbrev digit_file : Stdio
digit_file = record {
  input_opens = true;
  end_reached = true;
  told = 9;
  read = λ n. take n digits;
  failed = false;
  output_opens = true;
}

abbrev digit_bytes : List ℕ
digit_bytes = 0xe7 ∷ 0xe6 ∷ 0x76 ∷ 0x03 ∷ []

prints_nine : printed (main digit_file 2).1 ≡ digit_bytes ∷ []
unfolding main measure_input read_input write_output checksum_bytes calculate_crc32 crc32_loop
    crc32_step
prints_nine = refl

no_argument : main digit_file 1 ≡ (exit_failure, complain ∷ [])
unfolding main
no_argument = refl

main-prints_example :
    (bytes : List ℕ) × Spells (bitwise_crc32 0xffff_ffff (digit_file.read 252)) bytes
    × ((main digit_file 2).0 ≡ (if ready digit_file 2 then exit_success else exit_failure))
    × (printed (main digit_file 2).1 ≡ (if ready digit_file 2 then bytes ∷ [] else []))
    × ((f : File) → open_after f false (main digit_file 2).1 ≡ some false)
main-prints_example = main-prints digit_file 2 (omega arith)
