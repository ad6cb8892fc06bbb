-- ===== src/Str/Memory.antt =====
-- libc/src/string: the functions that write to memory, `memset`, `strncpy` and `strncat`, and the
-- search for delimiters, `strchr` and `strtok`. A pointer that a loop moves, or indexes from, is its
-- argument. A `char` is unsigned; NULL is 0.
use open_gpos.Base.{
  ℕ, zero, suc, ◌+◌, ◌&&◌, ◌||◌, Option, none, some, u8, ◌==◌, ◌!=◌, if◌then◌else◌,
}

infixl 5 ◌>>=◌
abbrev pub ◌>>=◌ : {A B : Type 0} → Option A → (A → Option B) → Option B
none >>= f = none
some a >>= f = f a

abbrev pub write : (ℕ → ℕ) → ℕ → ℕ → ℕ → ℕ
write mem p b q = if q == p then b else mem q

-- `count` times the same byte from `p` on: the loop of `memset`, and the second one of `strncpy`
unfoldable pub fill_loop : ℕ → (ℕ → ℕ) → ℕ → ℕ → ℕ → ℕ
fill_loop zero mem p val = mem
fill_loop (suc count) mem p val = fill_loop count (write mem p val) (p + 1) val

-- `memset`: the pointer it returns, and the memory
unfoldable pub memset : (ℕ → ℕ) → ℕ → ℕ → ℕ → ℕ × (ℕ → ℕ)
memset mem ptr value num = (ptr, fill_loop num mem ptr (u8 value))

-- the loops of `strncpy` for the `count` characters that are left
unfoldable pub copy_loop : ℕ → (ℕ → ℕ) → ℕ → ℕ → ℕ → ℕ
unfolding fill_loop
copy_loop zero mem dest src = mem
copy_loop (suc count) mem dest src =
    let more = copy_loop count (write mem dest (mem src)) (dest + 1) (src + 1) in
    if mem src != 0 then more else fill_loop (suc count) mem dest 0

-- `strncpy`
unfoldable pub strncpy : (ℕ → ℕ) → ℕ → ℕ → ℕ → ℕ × (ℕ → ℕ)
strncpy mem dest src count = (dest, copy_loop count mem dest src)

-- the first loop of `strncat`, for which the fuel bounds the characters it visits
unfoldable pub end_loop : ℕ → (ℕ → ℕ) → ℕ → Option ℕ
end_loop zero mem destination = none
end_loop (suc fuel) mem destination =
    let rest = end_loop fuel mem (destination + 1) in
    if mem destination != 0 then rest else some destination

-- the second loop of `strncat`, and the 0 behind it
unfoldable pub append_loop : ℕ → (ℕ → ℕ) → ℕ → ℕ → ℕ → ℕ
append_loop zero mem destination source = write mem destination 0
append_loop (suc num) mem destination source =
    let more =
      append_loop num (write mem destination (mem source)) (destination + 1) (source + 1) in
    if mem source != 0 then more else write mem destination 0

-- `strncat`
unfoldable pub strncat : ℕ → (ℕ → ℕ) → ℕ → ℕ → ℕ → Option (ℕ × (ℕ → ℕ))
strncat fuel mem destination source num = do
  end ← end_loop fuel mem destination
  some (destination, append_loop num mem end source)

-- the loop of `strchr` and what is behind it
unfoldable pub chr_loop : ℕ → (ℕ → ℕ) → ℕ → ℕ → Option ℕ
chr_loop zero mem str ch = none
chr_loop (suc fuel) mem str ch =
    let rest = chr_loop fuel mem (str + 1) ch in
    if mem str == 0
    then (if mem str == ch then some str else rest)
    else some (if ch == 0 then str else 0)

-- `strchr`
unfoldable pub strchr : ℕ → (ℕ → ℕ) → ℕ → ℕ → Option ℕ
strchr fuel mem str c = chr_loop fuel mem str (u8 c)

-- a loop of `strtok`: where it stops
unfoldable pub skip_loop : ℕ → (ℕ → ℕ) → ℕ → ℕ → Option ℕ
skip_loop zero mem delim last_token = none
skip_loop (suc fuel) mem delim last_token =
    let rest = skip_loop fuel mem delim (last_token + 1) in
    if mem last_token == 0 then some last_token else do
      found ← strchr (suc fuel) mem delim (mem last_token)
      if found == 0 then rest else some last_token

-- What `strtok` returns, and what it leaves in its static `lastToken` and in memory.
pub record Token : Type 0 where
  pub token : ℕ
  pub last_token : ℕ
  pub mem : ℕ → ℕ

-- `strtok` behind its second loop
unfoldable pub cut : (ℕ → ℕ) → ℕ → ℕ → Token
cut mem token_start last_token =
    if mem last_token != 0
    then record { token = token_start; last_token = last_token + 1; mem = write mem last_token 0 }
    else record { token = token_start; last_token = last_token; mem = mem }

-- `strtok` behind its first loop
unfoldable pub take_token : ℕ → (ℕ → ℕ) → ℕ → ℕ → Option Token
unfolding cut
take_token fuel mem delim last_token =
    if mem last_token == 0
    then some (record { token = 0; last_token = last_token; mem = mem })
    else do end ← skip_loop fuel mem delim last_token; some (cut mem last_token end)

-- `strtok`; `last_token` is the static variable that an earlier call left
unfoldable pub strtok : ℕ → (ℕ → ℕ) → ℕ → ℕ → ℕ → Option Token
unfolding take_token
strtok fuel mem last_token str delim =
    if (str == 0) && ((last_token == 0) || (mem last_token == 0))
    then some (record { token = 0; last_token = last_token; mem = mem })
    else do
      start ← skip_loop fuel mem delim (if str != 0 then str else last_token)
      take_token fuel mem delim start
