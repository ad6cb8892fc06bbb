-- ===== src/Str/Tests.antt =====
-- Two strings in a small memory.
use open_gpos.Base.{
  ◌-◌, inl, inr, ◌++◌, take, u8, get_or, ℕ, ◌≡◌, refl, ◌↔◌, some, List, [], ◌∷◌, arith, ◌==◌,
  if◌then◌else◌,
}
use open_gpos.Str.{strlen, strcmp}
use open_gpos.Str.Memory.{memset, strncpy, strncat, strtok, Token}
use open_gpos.Str.Laws.{IsString, strlen-strcmp}
use open_gpos.Str.Copy.{within, strncpy_lem, memset_lem}
use open_gpos.Str.Append.{strncat-IsString}
use open_gpos.Str.Split.{strtok-IsString}

-- `ab` at 1 and `a` at 5
abbrev memory : ℕ → ℕ
memory a = if a == 1 then 97 else if a == 2 then 98 else if a == 5 then 97 else 0

abbrev long : List ℕ
long = 97 ∷ 98 ∷ []

abbrev short : List ℕ
short = 97 ∷ []

strlen-strcmp_example :
    (strlen 3 memory 1 ≡ some 2)
    × ((r : ℕ) × (strcmp 3 memory 1 5 ≡ some r) × ((r ≡ 0) ↔ (long ≡ short)))
strlen-strcmp_example =
    strlen-strcmp 3 memory 1 5 long short
      (refl, (omega arith, omega arith), (refl, (omega arith, omega arith), refl))
      (refl, (omega arith, omega arith), refl) (omega arith)

long-IsString : IsString memory 1 long
long-IsString = (refl, (omega arith, omega arith), (refl, (omega arith, omega arith), refl))

short-IsString : IsString memory 5 short
short-IsString = (refl, (omega arith, omega arith), refl)

strncpy_lem_example :
    ((strncpy memory 10 1 4).0 ≡ 10)
    × ((strncpy memory 10 1 4).1 11
        ≡ (if within 10 4 11 then get_or long (11 - 10) 0 else memory 11))
strncpy_lem_example = strncpy_lem memory 10 1 4 long 11 (inr (omega arith)) long-IsString

memset_lem_example :
    ((memset memory 1 0x141 2).0 ≡ 1)
    × ((memset memory 1 0x141 2).1 2 ≡ (if within 1 2 2 then u8 0x141 else memory 2))
memset_lem_example = memset_lem memory 1 0x141 2 2

strncat-IsString_example :
    (mem' : ℕ → ℕ) × (strncat 3 memory 5 1 7 ≡ some (5, mem'))
    × IsString mem' 5 (short ++ take 7 long)
    × (mem' 2 ≡ memory 2)
strncat-IsString_example =
    strncat-IsString 3 memory 5 1 7 2 short long short-IsString long-IsString (inr (omega arith))
      (omega arith) (inl (omega arith))

abbrev no_token : Token
no_token = record { token = 0; last_token = 3; mem = memory }

strtok-IsString_example :
    (strtok 3 memory 0 1 5 ≡ some no_token) × (strtok 3 memory 3 0 5 ≡ some no_token)
strtok-IsString_example =
    strtok-IsString 3 memory 0 1 5 97 [] long (omega arith) short-IsString long-IsString
      (omega arith)
