-- ===== src/Str/Copy.antt =====
-- What `memset`, `strncpy` and `strncat` of libc/src/string leave in memory.
use open_gpos.Base.{
  ℕ, Bool, zero, suc, ◌+◌, ◌-◌, ◌<◌, ◌≤◌, ◌≡◌, ◌⊎◌, true, false, refl, ◌∙◌, List, [], ◌∷◌, ◌&&◌,
  length, arith, Bool-cases, inl, inr, u8, ◌==◌, ◌!=◌, get_or, ltb, leb, if◌then◌else◌,
}
use open_gpos.Str.Memory.{write, fill_loop, memset, copy_loop, strncpy}
use open_gpos.Str.Laws.{IsString}

-- the place `q` is one of the `n` from `p` on
abbrev pub within : ℕ → ℕ → ℕ → Bool
within p n q = leb p q && ltb q (p + n)

fill_loop_lem :
    (n : ℕ) (mem : ℕ → ℕ) (p v q : ℕ) → fill_loop n mem p v q ≡ (if within p n q then v else mem q)
unfolding fill_loop
fill_loop_lem zero mem p v q = ground arith
fill_loop_lem (suc n) mem p v q = fill_loop_lem n (write mem p v) (p + 1) v q ∙ (ground arith)

pub IsString-write :
    (mem : ℕ → ℕ) (p q b : ℕ) (cs : List ℕ)
    → (q < p) ⊎ (p + length cs < q)
    → IsString mem p cs
    → IsString (write mem q b) p cs
IsString-write mem p q b [] (inl h) s = let off : (p == q) ≡ false = ground arith in rw off s
IsString-write mem p q b [] (inr h) s = let off : (p == q) ≡ false = ground arith in rw off s
IsString-write mem p q b (c ∷ cs) (inl h) (here, size, more) =
    let off : (p == q) ≡ false = ground arith in
    (rw off here, size, IsString-write mem (p + 1) q b cs (inl (omega arith)) more)
IsString-write mem p q b (c ∷ cs) (inr h) (here, size, more) =
    let off : (p == q) ≡ false = ground arith in
    (rw off here, size, IsString-write mem (p + 1) q b cs (inr (omega arith)) more)

-- a character of a string that a loop has read, written outside what is left of the string
pub IsString-step :
    (mem : ℕ → ℕ) (dest src n c : ℕ) (cs : List ℕ)
    → (dest + suc n ≤ src) ⊎ (src + suc (length cs) < dest)
    → IsString mem (src + 1) cs
    → IsString (write mem dest c) (src + 1) cs
      × ((dest + 1 + n ≤ src + 1) ⊎ (src + 1 + length cs < dest + 1))
IsString-step mem dest src n c cs (inl h) s =
    (IsString-write mem (src + 1) dest c cs (inl (omega arith)) s, inl (omega arith))
IsString-step mem dest src n c cs (inr h) s =
    (IsString-write mem (src + 1) dest c cs (inr (omega arith)) s, inr (omega arith))

get_or-cons :
    (c : ℕ) (cs : List ℕ) (dest q : ℕ)
    → dest < q
    → get_or (c ∷ cs) (q - dest) 0 ≡ get_or cs (q - (dest + 1)) 0
get_or-cons c cs dest q h = let e : q - dest ≡ suc (q - (dest + 1)) = omega arith in rw e refl

copied :
    (mem : ℕ → ℕ) (dest n c q : ℕ) (cs : List ℕ)
    → (if within (dest + 1) n q then get_or cs (q - (dest + 1)) 0 else write mem dest c q)
      ≡ (if within dest (suc n) q then get_or (c ∷ cs) (q - dest) 0 else mem q)
copied mem dest n c q cs = elim (Bool-cases (ltb dest q)) [
  | inl behind ↦
      let same : within (dest + 1) n q ≡ within dest (suc n) q = ground arith in
      let on : (q == dest) ≡ false = ground arith in
      let shift = get_or-cons c cs dest q (ground arith) in rw (same, on, shift) refl
  | inr front ↦ elim (Bool-cases (q == dest)) [
    | inl here ↦
        let outside : within (dest + 1) n q ≡ false = ground arith in
        let inside : within dest (suc n) q ≡ true = ground arith in
        let first : q - dest ≡ 0 = ground arith in rw (outside, inside, here, first) refl
    | inr before ↦
        let outside : within (dest + 1) n q ≡ false = ground arith in
        let outside' : within dest (suc n) q ≡ false = ground arith in
        rw (outside, outside', before) refl
  ]
]

copy_loop_lem :
    (n : ℕ) (mem : ℕ → ℕ) (dest src q : ℕ) (cs : List ℕ)
    → (dest + n ≤ src) ⊎ (src + length cs < dest)
    → IsString mem src cs
    → copy_loop n mem dest src q ≡ (if within dest n q then get_or cs (q - dest) 0 else mem q)
unfolding copy_loop
copy_loop_lem zero mem dest src q cs apart s = ground arith
copy_loop_lem (suc n) mem dest src q [] apart s = rw s (fill_loop_lem (suc n) mem dest 0 q)
copy_loop_lem (suc n) mem dest src q (c ∷ cs) apart (here, (pos, small), more) =
    let on : (c != 0) ≡ true = ground arith in
    let (more', apart') = IsString-step mem dest src n c cs apart more in
    rw here (
      rw on (
        copy_loop_lem n (write mem dest c) (dest + 1) (src + 1) q cs apart' more'
        ∙ copied mem dest n c q cs))

-- `strncpy` of a string into a place that it does not reach into: the first `count` characters of
-- the string are there, and 0 for those that it does not have; no other byte changes.
pub strncpy_lem :
    (mem : ℕ → ℕ) (dest src count : ℕ) (cs : List ℕ) (q : ℕ)
    → (dest + count ≤ src) ⊎ (src + length cs < dest)
    → IsString mem src cs
    → let (r, mem') = strncpy mem dest src count in
      (r ≡ dest) × (mem' q ≡ (if within dest count q then get_or cs (q - dest) 0 else mem q))
unfolding strncpy
strncpy_lem mem dest src count cs q apart s = (refl, copy_loop_lem count mem dest src q cs apart s)

-- `memset` puts the low byte of its value into the `num` bytes from the pointer on, changes no other
-- byte and returns the pointer.
pub memset_lem :
    (mem : ℕ → ℕ) (ptr value num q : ℕ)
    → let (r, mem') = memset mem ptr value num in
      (r ≡ ptr) × (mem' q ≡ (if within ptr num q then u8 value else mem q))
unfolding memset
memset_lem mem ptr value num q = (refl, fill_loop_lem num mem ptr (u8 value) q)
