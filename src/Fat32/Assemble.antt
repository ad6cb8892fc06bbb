-- ===== src/Fat32/Assemble.antt =====
-- The loop of `strncat` calls in `fat_read_next_dir_entry` of src/driver/fs/FAT32.c: the parts of a
-- long name one behind the other, as far as the buffer has room.
use open_gpos.Base.{
  ℕ, zero, suc, ◌+◌, ◌-◌, ◌≤◌, ◌≡◌, refl, sym, ap, ◌∙◌, List, [], ◌∷◌, ◌++◌, append-nil,
  append_assoc, arith, length, take, drop, get_or, length-take, take-all,
}
use open_gpos.Fat32.Dir.{assemble}

-- the parts joined
abbrev pub joined : List (List ℕ) → List ℕ
joined [] = []
joined (part ∷ parts) = part ++ joined parts

take-append : (n : ℕ) (xs ys : List ℕ) → take n (xs ++ ys) ≡ take n xs ++ take (n - length xs) ys
take-append zero [] ys = refl
take-append zero (x ∷ xs) ys = let e : 0 - suc (length xs) ≡ 0 = omega arith in rw e refl
take-append (suc n) [] ys = let e : suc n - 0 ≡ suc n = omega arith in rw e refl
take-append (suc n) (x ∷ xs) ys =
    let e : suc n - suc (length xs) ≡ n - length xs = omega arith in
    rw e (ap (λ t. x ∷ t) (take-append n xs ys))

-- A text that is cut before something is added, and then cut again, is cut once.
take-take-append : (n : ℕ) (xs ys : List ℕ) → take n (take n xs ++ ys) ≡ take n (xs ++ ys)
take-take-append zero xs ys = refl
take-take-append (suc n) [] ys = refl
take-take-append (suc n) (x ∷ xs) ys = ap (λ t. x ∷ t) (take-take-append n xs ys)

head_of_drop :
    (i : ℕ) (parts : List (List ℕ)) {a : List ℕ} {rest : List (List ℕ)}
    → drop i parts ≡ a ∷ rest
    → (get_or parts i [] ≡ a) × (drop (i + 1) parts ≡ rest)
head_of_drop zero [] e = (cc, cc)
head_of_drop zero (p ∷ parts) e = (cc, cc)
head_of_drop (suc i) [] e = (cc, cc)
head_of_drop (suc i) (p ∷ parts) e =
    let (here, behind) = head_of_drop i parts e in
    let step : suc i + 1 ≡ suc (i + 1) = omega arith in (here, rw step behind)

assemble_from :
    (i : ℕ) (parts front rest : List (List ℕ)) (filename : List ℕ)
    → drop i parts ≡ front ++ rest
    → length filename ≤ 255
    → assemble (length front) i parts filename ≡ take 255 (filename ++ joined front)
unfolding assemble
assemble_from i parts [] rest filename e fits =
    rw (append-nil filename) (sym (take-all filename 255 fits))
assemble_from i parts (part ∷ front) rest filename e fits =
    let (here, behind) = head_of_drop i parts e in
    let cut : filename ++ take (255 - length filename) part ≡ take 255 (filename ++ part) = sym (
      take-append 255 filename part
      ∙ ap (λ t. t ++ take (255 - length filename) part) (take-all filename 255 fits)) in
    let short : length (take 255 (filename ++ part)) ≤ 255 =
      omega (arith, length-take 255 (filename ++ part)) in
    ap (λ t. assemble (length front) (i + 1) parts (filename ++ take (255 - length filename) t))
      here
    ∙ ap (assemble (length front) (i + 1) parts) cut
    ∙ assemble_from (i + 1) parts front rest (take 255 (filename ++ part)) behind short
    ∙ take-take-append 255 (filename ++ part) (joined front)
    ∙ ap (take 255) (append_assoc filename part (joined front))

-- The first parts of the buffer are joined and cut behind 255 characters.
pub assemble-joined :
    (front rest : List (List ℕ))
    → assemble (length front) 0 (front ++ rest) [] ≡ take 255 (joined front)
assemble-joined front rest = assemble_from 0 (front ++ rest) front rest [] refl (omega arith)
