-- ===== src/Str/Append.antt =====
-- `strncat` of libc/src/string: the string that it leaves.
use open_gpos.Base.{
  ℕ, zero, suc, ◌+◌, ◌<◌, ◌≤◌, ◌≡◌, ◌⊎◌, true, false, refl, ap, sym, ◌∙◌, some, List, [], ◌∷◌,
  length, arith, Bool-cases, inl, inr, ◌==◌, ◌!=◌, take, ◌++◌, subst,
}
use open_gpos.Str.Memory.{write, end_loop, append_loop, strncat}
use open_gpos.Str.Laws.{IsString}
use open_gpos.Str.Copy.{IsString-step}

end_loop-IsString :
    (fuel : ℕ) (mem : ℕ → ℕ) (p : ℕ) (cs : List ℕ)
    → IsString mem p cs
    → length cs < fuel
    → end_loop fuel mem p ≡ some (p + length cs)
unfolding end_loop
end_loop-IsString zero mem p cs s l = absurd (omega arith)
end_loop-IsString (suc fuel) mem p [] s l = let e : p + 0 ≡ p = omega arith in rw (s, e) refl
end_loop-IsString (suc fuel) mem p (c ∷ cs) (here, (pos, small), more) l =
    let on : (mem p != 0) ≡ true = ground arith in
    let count : p + 1 + length cs ≡ p + suc (length cs) = omega arith in
    rw on (end_loop-IsString fuel mem (p + 1) cs more (omega arith) ∙ ap some count)

append_loop-front :
    (n : ℕ) (mem : ℕ → ℕ) (dest src q : ℕ) → q < dest → append_loop n mem dest src q ≡ mem q
unfolding append_loop
append_loop-front zero mem dest src q h = ground arith
append_loop-front (suc n) mem dest src q h =
    let off : (q == dest) ≡ false = ground arith in
    elim (Bool-cases (mem src != 0)) [
      | inl more ↦ rw more (
          append_loop-front n (write mem dest (mem src)) (dest + 1) (src + 1) q (omega arith)
          ∙ (rw off refl))
      | inr over ↦ rw over (rw off refl)
    ]

append_loop-behind :
    (n : ℕ) (mem : ℕ → ℕ) (dest src q : ℕ) → dest + n < q → append_loop n mem dest src q ≡ mem q
unfolding append_loop
append_loop-behind zero mem dest src q h = ground arith
append_loop-behind (suc n) mem dest src q h =
    let off : (q == dest) ≡ false = ground arith in
    elim (Bool-cases (mem src != 0)) [
      | inl more ↦ rw more (
          append_loop-behind n (write mem dest (mem src)) (dest + 1) (src + 1) q (omega arith)
          ∙ (rw off refl))
      | inr over ↦ rw over (rw off refl)
    ]

here_now : (mem : ℕ → ℕ) (dest b : ℕ) → write mem dest b dest ≡ b
here_now mem dest b = ground arith

append_loop-IsString :
    (n : ℕ) (mem : ℕ → ℕ) (dest src : ℕ) (cs : List ℕ)
    → (dest + n ≤ src) ⊎ (src + length cs < dest)
    → IsString mem src cs
    → IsString (append_loop n mem dest src) dest (take n cs)
unfolding append_loop
append_loop-IsString zero mem dest src cs apart s = here_now mem dest 0
append_loop-IsString (suc n) mem dest src [] apart s = rw s (here_now mem dest 0)
append_loop-IsString (suc n) mem dest src (c ∷ cs) apart (here, (pos, small), more) =
    let on : (c != 0) ≡ true = ground arith in
    let (more', apart') = IsString-step mem dest src n c cs apart more in
    let run : append_loop (suc n) mem dest src
        ≡ append_loop n (write mem dest c) (dest + 1) (src + 1) =
      rw (here, on) refl in
    let kept = append_loop-front n (write mem dest c) (dest + 1) (src + 1) dest (omega arith) in
    subst (λ m. IsString m dest (c ∷ take n cs)) (sym run)
      (
        kept ∙ here_now mem dest c,
        (pos, small),
        append_loop-IsString n (write mem dest c) (dest + 1) (src + 1) cs apart' more',
      )

IsString-append :
    (mem mem' : ℕ → ℕ) (p : ℕ) (ds cs : List ℕ)
    → IsString mem p ds
    → ((q : ℕ) → q < p + length ds → mem' q ≡ mem q)
    → IsString mem' (p + length ds) cs
    → IsString mem' p (ds ++ cs)
IsString-append mem mem' p [] cs s same t = let e : p + 0 ≡ p = omega arith in rw e at t
IsString-append mem mem' p (d ∷ ds) cs (here, size, more) same t =
    let e : p + suc (length ds) ≡ p + 1 + length ds = omega arith in
    let t' : IsString mem' (p + 1 + length ds) cs = rw e at t in
    (
      same p (omega arith) ∙ here,
      size,
      IsString-append mem mem' (p + 1) ds cs more (λ q h. same q (omega arith)) t',
    )

-- `strncat` of the string `cs` to the string `ds`, whose end and the `num` places behind it do not
-- reach into `cs`, with fuel for one character more than `ds` has: it returns the pointer and leaves
-- there the string `ds` and at most `num` characters of `cs`, and changes no byte in front of the end
-- of `ds` or more than `num` places behind it.
pub strncat-IsString :
    (fuel : ℕ) (mem : ℕ → ℕ) (dest src num q : ℕ) (ds cs : List ℕ)
    → IsString mem dest ds
    → IsString mem src cs
    → (dest + length ds + num ≤ src) ⊎ (src + length cs < dest + length ds)
    → length ds < fuel
    → (q < dest + length ds) ⊎ (dest + length ds + num < q)
    → (mem' : ℕ → ℕ) × (strncat fuel mem dest src num ≡ some (dest, mem'))
      × IsString mem' dest (ds ++ take num cs)
      × (mem' q ≡ mem q)
unfolding strncat
strncat-IsString fuel mem dest src num q ds cs d s apart enough outside =
    let end = dest + length ds in
    let front = append_loop-front num mem end src in
    let text = append_loop-IsString num mem end src cs apart s in
    (
      append_loop num mem end src,
      rw (end_loop-IsString fuel mem dest ds d enough) refl,
      IsString-append mem (append_loop num mem end src) dest ds (take num cs) d front text,
      elim outside [ inl h ↦ front q h | inr h ↦ append_loop-behind num mem end src q h ],
    )
