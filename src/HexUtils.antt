-- ===== src/HexUtils.antt =====
-- src/lib/util/hexutils.c and hexutils.h: the little-endian readers and the number printers. A
-- printer returns the characters that it writes from the start of the buffer on, the terminating 0
-- included. A read behind the end of a list gives 0; no caller depends on it.
pub mod Laws
mod Tests
use open_gpos.Base.{
  ℕ, zero, suc, ◌+◌, ◌-◌, ◌*◌, ◌/◌, ◌%◌, List, [], ◌∷◌, bit_and, bit_or, u16, u32, ◌<<<◌, ◌>>>◌,
  get_or, ◌==◌, if◌then◌else◌,
}

-- `read_le32`
unfoldable pub read_le32 : List ℕ → ℕ → ℕ
read_le32 buffer offset =
    let o = u16 offset in
    u32 (
      bit_or
        (bit_or (bit_or (get_or buffer o 0) (get_or buffer (o + 1) 0 <<< 8))
          (get_or buffer (o + 2) 0 <<< 16))
        (get_or buffer (o + 3) 0 <<< 24))

-- `read_le16`
unfoldable pub read_le16 : List ℕ → ℕ → ℕ
read_le16 buffer offset =
    let o = u16 offset in bit_or (get_or buffer o 0) (get_or buffer (o + 1) 0 <<< 8)

-- the characters 0 to 9 and A to F
abbrev pub hex_digits : List ℕ
hex_digits = 48 ∷ 49 ∷ 50 ∷ 51 ∷ 52 ∷ 53 ∷ 54 ∷ 55 ∷ 56 ∷ 57 ∷ 65 ∷ 66 ∷ 67 ∷ 68 ∷ 69 ∷ 70 ∷ []

unfoldable pub hex_digit : ℕ → ℕ
hex_digit n = get_or hex_digits (bit_and n 0xf) 0

-- the loop of `hexToStr` from `i` on, and the 0 behind it
unfoldable pub hex_loop : ℕ → ℕ → ℕ → List ℕ
hex_loop zero i n = 0 ∷ []
hex_loop (suc count) i n = hex_digit (n >>> (28 - i * 4)) ∷ hex_loop count (i + 1) n

-- `hexToStr`
unfoldable pub hex_to_str : ℕ → List ℕ
hex_to_str n = hex_loop 8 0 n

-- `byteToStr`
unfoldable pub byte_to_str : ℕ → List ℕ
byte_to_str n = hex_digit (n >>> 4) ∷ hex_digit n ∷ 0 ∷ []

-- `byteToDec`
unfoldable pub byte_to_dec : ℕ → List ℕ
byte_to_dec n = (n / 100 % 10 + 48) ∷ (n / 10 % 10 + 48) ∷ (n % 10 + 48) ∷ 0 ∷ []

-- The first loop of `intToDec`: `temp_str`, its last character first. The fuel bounds the digits.
unfoldable pub dec_loop : ℕ → ℕ → List ℕ → List ℕ
dec_loop zero n temp_str = temp_str
dec_loop (suc fuel) n temp_str =
    let rest = dec_loop fuel (n / 10) ((n % 10 + 48) ∷ temp_str) in
    if n == 0 then temp_str else rest

-- The second loop of `intToDec`: the last character of `temp_str` is the first of `str`.
unfoldable pub copy_back : List ℕ → List ℕ
copy_back [] = 0 ∷ []
copy_back (c ∷ temp_str) = c ∷ copy_back temp_str

-- `intToDec`: `temp_str` has room for 12 characters.
unfoldable pub int_to_dec : ℕ → List ℕ
int_to_dec n = if n == 0 then 48 ∷ 0 ∷ [] else copy_back (dec_loop 12 n [])
