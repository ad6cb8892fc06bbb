-- ===== src/Crc32/Main.antt =====
-- `main` of src/arch/arm_cortexm/rp2040/boot2/compCrc32.c. What the C library answers is a
-- parameter, `Stdio`; the calls that `main` makes are a list.
use open_gpos.Base.{
  ℕ, List, [], ◌∷◌, ◌++◌, bit_and, u8, ◌>>>◌, leb, ◌==◌, if◌then◌else◌, Bool, true, false,
}
use open_gpos.Crc32.{calculate_crc32}

-- `MAX_FILE_SIZE`
abbrev pub max_file_size : ℕ
max_file_size = 252

-- The answers of `fopen`, `fseek`, `ftell` (as a `size_t`), `fread` (at most so many bytes),
-- `ferror`, and of `fopen` for the output.
pub record Stdio : Type 0 where
  pub input_opens : Bool
  pub end_reached : Bool
  pub told : ℕ
  pub read : ℕ → List ℕ
  pub failed : Bool
  pub output_opens : Bool

pub data File : Type 0 where
  input : File
  output : File

pub data Exit : Type 0 where
  exit_success : Exit
  exit_failure : Exit

-- the calls of the C library; `complain` is a message on `stderr`
pub data Call : Type 0 where
  fopen : File → Bool → Call
  seek_end : Call
  seek_start : Call
  fread : ℕ → Call
  fclose : File → Call
  fprintf : List ℕ → Call
  complain : Call

abbrev pub Outcome : Type 0
Outcome = Exit × List Call

abbrev pub after : List Call → Outcome → Outcome
after calls o = (o.0, calls ++ o.1)

-- byte0 to byte3, in the order they are printed
unfoldable pub checksum_bytes : ℕ → List ℕ
checksum_bytes checksum =
    u8 (bit_and checksum 0xff)
    ∷ u8 (bit_and (checksum >>> 8) 0xff)
    ∷ u8 (bit_and (checksum >>> 16) 0xff)
    ∷ u8 (bit_and (checksum >>> 24) 0xff)
    ∷ []

unfoldable pub write_output : Stdio → List ℕ → Outcome
write_output s bytes =
    if s.output_opens
    then (
      exit_success,
      fopen output true ∷ fprintf (checksum_bytes (calculate_crc32 bytes)) ∷ fclose output ∷ [],
    )
    else (exit_failure, fopen output false ∷ complain ∷ [])

unfoldable pub read_input : Stdio → Outcome
read_input s =
    if s.failed
    then (exit_failure, fread max_file_size ∷ complain ∷ fclose input ∷ [])
    else after (fread max_file_size ∷ fclose input ∷ []) (write_output s (s.read max_file_size))

unfoldable pub measure_input : Stdio → Outcome
measure_input s =
    if s.end_reached
    then after (seek_end ∷ seek_start ∷ [])
        (if leb s.told 252 then read_input s else (exit_failure, complain ∷ fclose input ∷ []))
    else (exit_failure, seek_end ∷ complain ∷ fclose input ∷ [])

-- `main`
unfoldable pub main : Stdio → ℕ → Outcome
main s argc =
    if argc == 2
    then if s.input_opens
      then after (fopen input true ∷ []) (measure_input s)
      else (exit_failure, fopen input false ∷ complain ∷ [])
    else (exit_failure, complain ∷ [])
