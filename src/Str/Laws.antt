-- ===== src/Str/Laws.antt =====
-- `strlen` and `strcmp` of libc/src/string on strings that end.
use open_gpos.Base.{
  ℕ, zero, suc, ◌+◌, ◌-◌, ◌^◌, ◌<◌, ◌≡◌, ◌↔◌, true, false, refl, ap, ap₂, ◌∙◌, some, List, [], ◌∷◌,
  length, arith, Bool-cases, inl, inr, u32, ◌==◌, ◌!=◌,
}
use open_gpos.Str.{strlen_loop, strlen, strcmp}

-- the string of the characters `cs` and its 0 are at `p`
abbrev pub IsString : (ℕ → ℕ) → ℕ → List ℕ → Type 0
IsString mem p [] = mem p ≡ 0
IsString mem p (c ∷ cs) = (mem p ≡ c) × ((0 < c) × (c < 256)) × IsString mem (p + 1) cs

strlen_loop-IsString :
    (fuel : ℕ) (mem : ℕ → ℕ) (str i : ℕ) (cs : List ℕ)
    → IsString mem (str + i) cs
    → length cs < fuel
    → strlen_loop fuel mem str i ≡ some (i + length cs)
unfolding strlen_loop
strlen_loop-IsString zero mem str i cs h l = absurd (omega arith)
strlen_loop-IsString (suc fuel) mem str i [] h l = let e : i + 0 ≡ i = omega arith in rw (h, e) refl
strlen_loop-IsString (suc fuel) mem str i (c ∷ cs) h l =
    let (here, (pos, small), more) = h in
    let on : (mem (str + i) == 0) ≡ false = ground arith in
    let next : str + i + 1 ≡ str + (i + 1) = omega arith in
    let more' : IsString mem (str + (i + 1)) cs = rw next at more in
    let count : i + 1 + length cs ≡ i + suc (length cs) = omega arith in
    rw on (strlen_loop-IsString fuel mem str (i + 1) cs more' (omega arith) ∙ ap some count)

strcmp-IsString :
    (fuel : ℕ) (mem : ℕ → ℕ) (str1 str2 : ℕ) (cs ds : List ℕ)
    → IsString mem str1 cs
    → IsString mem str2 ds
    → length cs < fuel
    → (r : ℕ) × (strcmp fuel mem str1 str2 ≡ some r) × ((r ≡ 0) ↔ (cs ≡ ds))
unfolding strcmp
strcmp-IsString zero mem str1 str2 cs ds h1 h2 l = absurd (omega arith)
strcmp-IsString (suc fuel) mem str1 str2 [] [] h1 h2 l =
    (0, rw (h1, h2) refl, ((λ e. refl), (λ e. refl)))
strcmp-IsString (suc fuel) mem str1 str2 [] (d ∷ ds) h1 h2 l =
    let (here, (pos, small), more) = h2 in
    (u32 (0 + 2 ^ 32 - d), rw (h1, here) refl, ((λ e. absurd (omega arith)), (λ e. cc)))
strcmp-IsString (suc fuel) mem str1 str2 (c ∷ cs) [] h1 h2 l =
    let (here, (pos, small), more) = h1 in
    let on : (c != 0) ≡ true = ground arith in
    (u32 (c + 2 ^ 32 - 0), rw (here, h2, on) refl, ((λ e. absurd (omega arith)), (λ e. cc)))
strcmp-IsString (suc fuel) mem str1 str2 (c ∷ cs) (d ∷ ds) h1 h2 l =
    let (here1, (pos1, small1), more1) = h1 in
    let (here2, (pos2, small2), more2) = h2 in
    let on1 : (c != 0) ≡ true = ground arith in
    let on2 : (d != 0) ≡ true = ground arith in
    elim (Bool-cases (c == d)) [
      | inl same ↦
          let e : c ≡ d = ground arith in
          let (r, run, iff) =
            strcmp-IsString fuel mem (str1 + 1) (str2 + 1) cs ds more1 more2 (omega arith) in
          (
            r,
            rw (here1, here2, on1, on2, same) run,
            ((λ z. ap₂ (λ x xs. x ∷ xs) e (iff.0 z)), (λ q. iff.1 (let t : cs ≡ ds = cc in t))),
          )
      | inr other ↦ (
        u32 (c + 2 ^ 32 - d),
        rw (here1, here2, on1, on2, other) refl,
        ((λ z. absurd (ground arith)), (λ q. absurd (let t : c ≡ d = cc in ground arith))),
      )
    ]

-- On strings that end, `strlen` gives the number of characters, and `strcmp` gives 0 exactly where
-- the two strings are equal, with fuel for one character more than the first string has.
pub strlen-strcmp :
    (fuel : ℕ) (mem : ℕ → ℕ) (str1 str2 : ℕ) (cs ds : List ℕ)
    → IsString mem str1 cs
    → IsString mem str2 ds
    → length cs < fuel
    → (strlen fuel mem str1 ≡ some (length cs))
      × ((r : ℕ) × (strcmp fuel mem str1 str2 ≡ some r) × ((r ≡ 0) ↔ (cs ≡ ds)))
unfolding strlen
strlen-strcmp fuel mem str1 str2 cs ds h1 h2 l =
    let at : str1 + 0 ≡ str1 = omega arith in
    let count : 0 + length cs ≡ length cs = omega arith in
    let h1' : IsString mem (str1 + 0) cs = rw at h1 in
    (
      strlen_loop-IsString fuel mem str1 0 cs h1' l ∙ ap some count,
      strcmp-IsString fuel mem str1 str2 cs ds h1 h2 l,
    )
