-- ===== src/Fat32/Names.antt =====
-- The names of directory entries in src/driver/fs/FAT32.c: the 8.3 name as a string, its checksum,
-- and the characters of a part of a long name. A function returns what it writes to its buffer.
use open_gpos.Base.{
  ℕ, zero, suc, ◌+◌, ◌-◌, ◌/◌, ◌||◌, ◌^◌, u32, List, [], ◌∷◌, ◌++◌, bit_and, u8, ◌>>>◌, get_or, ltb,
  ◌==◌, ◌!=◌, if◌then◌else◌, take, drop,
}
use open_gpos.HexUtils.{read_le16}

-- A loop of `fat_sfn_to_string`: the characters from `i` on, up to a space, `count` at most.
unfoldable pub until_space : ℕ → List ℕ → ℕ → List ℕ
until_space zero sfn_name i = []
until_space (suc count) sfn_name i =
    let c = get_or sfn_name i 0 in
    let rest = until_space count sfn_name (i + 1) in if c == 0x20 then [] else c ∷ rest

-- `fat_sfn_to_string`
unfoldable pub fat_sfn_to_string : List ℕ → List ℕ
fat_sfn_to_string sfn_name =
    let base = until_space 8 sfn_name 0 in
    let extension = if get_or sfn_name 8 0 != 0x20 then 0x2e ∷ until_space 3 sfn_name 8 else [] in
    base ++ extension ++ (0 ∷ [])

-- the loop of `fat_sfn_checksum`, over the bytes that are left
unfoldable pub checksum_loop : ℕ → List ℕ → ℕ
checksum_loop sum [] = sum
checksum_loop sum (b ∷ bytes) =
    checksum_loop (u8 ((if bit_and sum 1 != 0 then 0x80 else 0) + (sum >>> 1) + b)) bytes

-- `fat_sfn_checksum`, of the 11 bytes of a name
unfoldable pub fat_sfn_checksum : List ℕ → ℕ
fat_sfn_checksum sfn_name = checksum_loop 0 (take 11 sfn_name)

-- The loop of `fat_lfn_to_utf8` over the 16-bit characters that are left: the characters it writes
-- when `room` more fit in front of the terminating 0.
unfoldable pub lfn_loop : ℕ → List ℕ → List ℕ
lfn_loop room [] = []
lfn_loop zero (wc ∷ wcs) = []
lfn_loop (suc room) (wc ∷ wcs) =
    let rest = lfn_loop room wcs in
    if (wc == 0x0000) || (wc == 0xffff) then [] else (if ltb wc 0x80 then wc else 0x3f) ∷ rest

-- `memcpy` of the bytes of a name part into an array of 16-bit characters
unfoldable pub characters : ℕ → List ℕ → List ℕ
characters zero bytes = []
characters (suc count) bytes = read_le16 bytes 0 ∷ characters count (drop 2 bytes)

-- `fat_lfn_to_utf8`: the characters that it puts at `current_out_len`, without the 0 behind them;
-- it returns their number. `max_len - 1` is of 32 bits and wraps around at 0.
unfoldable pub fat_lfn_to_utf8 : List ℕ → ℕ → ℕ → ℕ → List ℕ
fat_lfn_to_utf8 utf16_name_part copy_len max_len current_out_len =
    lfn_loop (u32 (max_len + 2 ^ 32 - 1) - current_out_len)
      (characters (copy_len / 2) utf16_name_part)
