-- ===== src/Fat32/Padding.antt =====
-- What the 8.3 names of src/driver/fs/FAT32.c are as strings: a base and an extension, each filled up
-- with spaces.
use open_gpos.Base.{
  ℕ, zero, suc, ◌+◌, ◌-◌, ◌≤◌, ◌≡◌, ◌≢◌, ◌⊎◌, inl, inr, true, refl, ◌∙◌, List, [], ◌∷◌, ◌++◌,
  append_assoc, append-nil, arith, get_or, length, replicate, All, ◌!=◌, if◌then◌else◌, ==_ne,
  length-append, length-replicate,
}
use open_gpos.Fat32.Names.{until_space, fat_sfn_to_string}

abbrev pub IsWord : List ℕ → Type 0
IsWord xs = All (λ c. c ≢ 0x20) xs

abbrev pub padded : ℕ → List ℕ → List ℕ
padded n xs = xs ++ replicate (n - length xs) 0x20

get_or-append : (xs ys : List ℕ) (i : ℕ) → get_or (xs ++ ys) (length xs + i) 0 ≡ get_or ys i 0
get_or-append [] ys i = let e : 0 + i ≡ i = omega arith in rw e refl
get_or-append (x ∷ xs) ys i =
    let e : suc (length xs) + i ≡ suc (length xs + i) = omega arith in rw e (get_or-append xs ys i)

-- the word ends at the last place or in front of a space
abbrev Ends : ℕ → List ℕ → List ℕ → Type 0
Ends count xs ys = (count ≡ length xs) ⊎ ((length xs ≤ count) × (get_or ys 0 0 ≡ 0x20))

until_space-word :
    (count : ℕ) (pre xs ys : List ℕ)
    → IsWord xs
    → Ends count xs ys
    → until_space count (pre ++ (xs ++ ys)) (length pre) ≡ xs
unfolding until_space
until_space-word zero pre [] ys word ends = refl
until_space-word zero pre (x ∷ xs) ys word ends = absurd (ground arith)
until_space-word (suc count) pre [] ys word ends =
    let at : length pre + 0 ≡ length pre = omega arith in
    let space : get_or ys 0 0 ≡ 0x20 = ground arith in
    let here : get_or (pre ++ ys) (length pre) 0 ≡ 0x20 =
      rw at at (get_or-append pre ys 0) ∙ space in
    rw here refl
until_space-word (suc count) pre (x ∷ xs) ys word ends =
    let at : length pre + 0 ≡ length pre = omega arith in
    let here : get_or (pre ++ (x ∷ (xs ++ ys))) (length pre) 0 ≡ x =
      rw at at (get_or-append pre (x ∷ (xs ++ ys)) 0) in
    let behind : length (pre ++ (x ∷ [])) ≡ length pre + 1 = length-append pre (x ∷ []) in
    let ends' : Ends count xs ys = elim ends [
      | inl e ↦ inl (omega arith)
      | inr (e, s) ↦ inr (omega arith, s)
    ] in
    let rest : until_space count (pre ++ (x ∷ (xs ++ ys))) (length pre + 1) ≡ xs =
      rw (append_assoc pre (x ∷ []) (xs ++ ys), behind) at
        (until_space-word count (pre ++ (x ∷ [])) xs ys word.1 ends') in
    rw (here, rest, ==_ne x 0x20 word.0) refl

spaces-Ends : (n k : ℕ) (xs ys : List ℕ) → k + length xs ≡ n → Ends n xs (replicate k 0x20 ++ ys)
spaces-Ends n zero xs ys e = inl (omega arith)
spaces-Ends n (suc k) xs ys e = inr (omega arith, refl)

padded-word :
    (n : ℕ) (pre xs ys : List ℕ)
    → IsWord xs
    → length xs ≤ n
    → until_space n (pre ++ (padded n xs ++ ys)) (length pre) ≡ xs
padded-word n pre xs ys word short = rw (append_assoc xs (replicate (n - length xs) 0x20) ys) (
    until_space-word n pre xs (replicate (n - length xs) 0x20 ++ ys) word
      (spaces-Ends n (n - length xs) xs ys (omega arith)))

length-padded : (n : ℕ) (xs : List ℕ) → length xs ≤ n → length (padded n xs) ≡ n
length-padded n xs short = omega (
  arith,
  length-append xs (replicate (n - length xs) 0x20),
  length-replicate {A = ℕ} (n - length xs) 0x20,
)

-- the extension of a name, with its dot
abbrev pub dotted : List ℕ → List ℕ
dotted [] = []
dotted (c ∷ cs) = 0x2e ∷ c ∷ cs

-- A base of up to 8 characters and an extension of up to 3, without spaces and each filled up with
-- spaces, become the base, a dot where there is an extension, and the extension.
pub fat_sfn_to_string-padded :
    (base extension : List ℕ)
    → IsWord base
    → IsWord extension
    → length base ≤ 8
    → length extension ≤ 3
    → fat_sfn_to_string (padded 8 base ++ padded 3 extension) ≡ base ++ dotted extension ++ (0 ∷ [])
unfolding fat_sfn_to_string
fat_sfn_to_string-padded base extension word word' short short' =
    let size = length-padded 8 base short in
    let front : until_space 8 (padded 8 base ++ padded 3 extension) 0 ≡ base =
      padded-word 8 [] base (padded 3 extension) word short in
    let back : until_space 3 (padded 8 base ++ padded 3 extension) 8 ≡ extension =
      rw (append-nil, size) at (padded-word 3 (padded 8 base) extension [] word' short') in
    let mark : get_or (padded 8 base ++ padded 3 extension) 8 0 ≡ get_or (padded 3 extension) 0 0 =
      rw size at (get_or-append (padded 8 base) (padded 3 extension) 0) in
    rw (front, mark, back) (tail extension word')
  where
    tail :
        (ext : List ℕ)
        → IsWord ext
        → base ++ (if get_or (padded 3 ext) 0 0 != 0x20 then 0x2e ∷ ext else []) ++ (0 ∷ [])
          ≡ base ++ dotted ext ++ (0 ∷ [])
    tail [] w = refl
    tail (c ∷ cs) w = let different : (c != 0x20) ≡ true = ground arith in rw different refl
