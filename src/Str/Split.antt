-- ===== src/Str/Split.antt =====
-- `strchr` and `strtok` of libc/src/string, on strings that end.
use open_gpos.Base.{
  ℕ, zero, suc, ◌+◌, ◌<◌, ◌≡◌, true, false, refl, ap, ◌∙◌, some, List, [], ◌∷◌, length, arith, ◌==◌,
  ◌!=◌, if◌then◌else◌, u8,
}
use open_gpos.Str.Memory.{chr_loop, strchr, skip_loop, Token, take_token, strtok}
use open_gpos.Str.Laws.{IsString}

-- `strchr`, on a string that is not empty, gives the string itself where it looks for the 0 at the
-- end, and else NULL, whether the character is in the string or not.
pub strchr-IsString :
    (fuel : ℕ) (mem : ℕ → ℕ) (str c d : ℕ) (ds : List ℕ)
    → IsString mem str (d ∷ ds)
    → 0 < fuel
    → strchr fuel mem str c ≡ some (if u8 c == 0 then str else 0)
unfolding strchr chr_loop
strchr-IsString zero mem str c d ds s enough = absurd (omega arith)
strchr-IsString (suc fuel) mem str c d ds (here, (pos, small), more) enough =
    let off : (d == 0) ≡ false = ground arith in rw here (rw off refl)

skip_loop-IsString :
    (fuel : ℕ) (mem : ℕ → ℕ) (delim p d : ℕ) (ds cs : List ℕ)
    → IsString mem delim (d ∷ ds)
    → IsString mem p cs
    → length cs < fuel
    → skip_loop fuel mem delim p ≡ some (p + length cs)
unfolding skip_loop
skip_loop-IsString zero mem delim p d ds cs s t l = absurd (omega arith)
skip_loop-IsString (suc fuel) mem delim p d ds [] s t l =
    let e : p + 0 ≡ p = omega arith in rw (t, e) refl
skip_loop-IsString (suc fuel) mem delim p d ds (c ∷ cs) s (here, (pos, small), more) l =
    let off : (c == 0) ≡ false = ground arith in
    let low : (u8 c == 0) ≡ false = ground arith in
    let nothing : strchr (suc fuel) mem delim c ≡ some 0 =
      strchr-IsString (suc fuel) mem delim c d ds s (omega arith) ∙ ap some (rw low refl) in
    let count : p + 1 + length cs ≡ p + suc (length cs) = omega arith in
    rw here (
      rw off (
        rw nothing
          (skip_loop-IsString fuel mem delim (p + 1) d ds cs s more (omega arith) ∙ ap some count)))

IsString-end : (mem : ℕ → ℕ) (p : ℕ) (cs : List ℕ) → IsString mem p cs → mem (p + length cs) ≡ 0
IsString-end mem p [] s = let e : p + 0 ≡ p = omega arith in rw e s
IsString-end mem p (c ∷ cs) (here, size, more) =
    let e : p + suc (length cs) ≡ p + 1 + length cs = omega arith in
    rw e (IsString-end mem (p + 1) cs more)

-- `strtok` finds no token: on a string and a string of delimiters that is not empty it returns NULL,
-- leaves its static variable at the end of the string and the memory as it was; and so does the call
-- with NULL that follows it. The fuel is for one character more than the string has.
pub strtok-IsString :
    (fuel : ℕ) (mem : ℕ → ℕ) (last_token str delim d : ℕ) (ds cs : List ℕ)
    → 0 < str
    → IsString mem delim (d ∷ ds)
    → IsString mem str cs
    → length cs < fuel
    → let nothing : Token = record { token = 0; last_token = str + length cs; mem = mem } in
      (strtok fuel mem last_token str delim ≡ some nothing)
      × (strtok fuel mem (str + length cs) 0 delim ≡ some nothing)
unfolding strtok take_token
strtok-IsString fuel mem last_token str delim d ds cs pos s t enough =
    let off : (str == 0) ≡ false = ground arith in
    let on : (str != 0) ≡ true = ground arith in
    let ended : mem (str + length cs) ≡ 0 = IsString-end mem str cs t in
    let far : (str + length cs == 0) ≡ false = ground arith in
    let skipped = skip_loop-IsString fuel mem delim str d ds cs s t enough in
    (rw off (rw on (rw skipped (rw ended refl))), rw far (rw ended refl))
