-- ===== src/Fat32/LongName.antt =====
-- What a part of a long name in src/driver/fs/FAT32.c becomes: at most as many characters as it has
-- and as there is room for, all of them ASCII.
use open_gpos.Base.{
  ℕ, zero, suc, u32, ◌+◌, ◌^◌, ◌-◌, ◌/◌, ◌≤◌, ◌<◌, ◌≡◌, false, inl, inr, refl, ap, List, [], ◌∷◌,
  arith, length, All, Bool-cases, ◌||◌, ltb, ◌==◌, if◌then◌else◌, drop,
}
use open_gpos.Fat32.Names.{lfn_loop, characters, fat_lfn_to_utf8}

abbrev pub IsPrintable : List ℕ → Type 0
IsPrintable cs = All (λ c. (0 < c) × (c < 0x80)) cs

length-characters : (count : ℕ) (bytes : List ℕ) → length (characters count bytes) ≡ count
unfolding characters
length-characters zero bytes = refl
length-characters (suc count) bytes = ap suc (length-characters count (drop 2 bytes))

ascii :
    (wc : ℕ)
    → ((wc == 0) || (wc == 0xffff)) ≡ false
    → let c = if ltb wc 0x80 then wc else 0x3f in (0 < c) × (c < 0x80)
ascii wc h = (ground arith, ground arith)

lfn_loop-IsPrintable :
    (room : ℕ) (wcs : List ℕ)
    → (length (lfn_loop room wcs) ≤ room)
      × (length (lfn_loop room wcs) ≤ length wcs)
      × IsPrintable (lfn_loop room wcs)
unfolding lfn_loop
lfn_loop-IsPrintable room [] = (omega arith, omega arith, tt)
lfn_loop-IsPrintable zero (wc ∷ wcs) = (omega arith, omega arith, tt)
lfn_loop-IsPrintable (suc room) (wc ∷ wcs) =
    let (fits, short, good) = lfn_loop-IsPrintable room wcs in
    elim (Bool-cases ((wc == 0) || (wc == 0xffff))) [
      | inl ended ↦ rw ended (omega arith, omega arith, tt)
      | inr more ↦ rw more (omega arith, omega arith, (ascii wc more, good))
    ]

-- `fat_lfn_to_utf8`, for a buffer of `max_len` characters with room behind the `current_out_len` that
-- it holds, writes at most `copy_len / 2` characters, all of them ASCII and none of them 0, and its
-- terminating 0 is in the buffer too.
pub fat_lfn_to_utf8-IsPrintable :
    (utf16_name_part : List ℕ) (copy_len max_len current_out_len : ℕ)
    → current_out_len < max_len
    → max_len < 2 ^ 32
    → let out = fat_lfn_to_utf8 utf16_name_part copy_len max_len current_out_len in
      (current_out_len + length out < max_len) × (length out ≤ copy_len / 2) × IsPrintable out
unfolding fat_lfn_to_utf8
fat_lfn_to_utf8-IsPrintable utf16_name_part copy_len max_len current_out_len inside small =
    let room : u32 (max_len + 2 ^ 32 - 1) ≡ max_len - 1 = omega arith in
    let (fits, short, good) =
      lfn_loop-IsPrintable (max_len - 1 - current_out_len)
        (characters (copy_len / 2) utf16_name_part) in
    rw room (omega arith, omega (arith, length-characters (copy_len / 2) utf16_name_part), good)
