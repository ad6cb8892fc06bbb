-- ===== src/Fat32/LongRound.antt =====
-- Long names written to a directory in the way of FAT32, and read back by
-- `fat_read_next_dir_entry` of src/driver/fs/FAT32.c.
use open_gpos.Base.{
  ℕ, zero, suc, ◌+◌, ◌-◌, ◌*◌, ◌/◌, ◌%◌, ◌^◌, ◌≤◌, ◌<◌, ◌≡◌, ◌⊎◌, inl, inr, refl, sym, ap, ap₂, ◌∙◌,
  subst, List, [], ◌∷◌, ◌++◌, append-nil, arith, length, take, drop, replicate, length-replicate,
  length-drop, length-take, take-all, take-append-drop, All, bit_or,
}
use open_gpos.Base.Bits.{bit_or_above}
use open_gpos.HexUtils.{read_le16}
use open_gpos.Fat32.Names.{lfn_loop, characters, fat_lfn_to_utf8}
use open_gpos.Fat32.Dir.{lfn_segment}
use open_gpos.Fat32.LongName.{IsPrintable}

-- the `n` 16-bit characters of a part: its text, a 0 where it is shorter, and then 0xFFFF
abbrev pub units : ℕ → List ℕ → List ℕ
units zero text = []
units (suc n) [] = 0 ∷ replicate n 0xffff
units (suc n) (c ∷ text) = c ∷ units n text

abbrev pub unit_bytes : List ℕ → List ℕ
unit_bytes [] = []
unit_bytes (u ∷ us) = u % 256 ∷ u / 256 ∷ unit_bytes us

-- the entry of a part, with its order byte and the checksum of the 8.3 name
abbrev pub written_part : ℕ → ℕ → List ℕ → List ℕ
written_part order cs text =
    let us = units 13 text in
    order
    ∷ (unit_bytes (take 5 us)
        ++ (0x0f
            ∷ 0
            ∷ cs
            ∷ (unit_bytes (take 6 (drop 5 us)) ++ (0 ∷ 0 ∷ unit_bytes (drop 6 (drop 5 us))))))

-- what is left of the characters of a part, behind the first ones
abbrev Left : ℕ → List ℕ → List ℕ → Type 0
Left n text us = (us ≡ units n text) ⊎ ((text ≡ []) × (us ≡ replicate n 0xffff))

pub length-units : (n : ℕ) (text : List ℕ) → length (units n text) ≡ n
length-units zero text = refl
length-units (suc n) [] = ap suc (length-replicate n 0xffff)
length-units (suc n) (c ∷ text) = ap suc (length-units n text)

printed_unit :
    (room c : ℕ) (us : List ℕ)
    → 0 < c
    → c < 0x80
    → lfn_loop (suc room) (c ∷ us) ≡ c ∷ lfn_loop room us
unfolding lfn_loop
printed_unit room c us p q = ground arith

stops_at_0 : (room : ℕ) (us : List ℕ) → lfn_loop room (0 ∷ us) ≡ []
unfolding lfn_loop
stops_at_0 zero us = refl
stops_at_0 (suc room) us = refl

stops_at_filler : (room : ℕ) (us : List ℕ) → lfn_loop room (0xffff ∷ us) ≡ []
unfolding lfn_loop
stops_at_filler zero us = refl
stops_at_filler (suc room) us = refl

-- The first characters give the first part of the text.
lfn_loop-units :
    (k m room : ℕ) (text us : List ℕ)
    → k ≤ m
    → Left m text us
    → IsPrintable text
    → length text ≤ room
    → lfn_loop room (take k us) ≡ take k text
unfolding lfn_loop
lfn_loop-units zero m room text us h left good fits = refl
lfn_loop-units (suc k) zero room text us h left good fits = absurd (omega arith)
lfn_loop-units (suc k) (suc m) room [] us h (inl e) good fits =
    rw e (stops_at_0 room (take k (replicate m 0xffff)))
lfn_loop-units (suc k) (suc m) room text us h (inr (none_left, e)) good fits =
    rw none_left (rw e (stops_at_filler room (take k (replicate m 0xffff))))
lfn_loop-units (suc k) (suc m) zero (c ∷ text) us h (inl e) good fits = absurd (omega arith)
lfn_loop-units (suc k) (suc m) (suc room) (c ∷ text) us h (inl e) ((p, q), good) fits = rw e (
    printed_unit room c (take k (units m text)) p q
    ∙ ap (λ t. c ∷ t)
        (lfn_loop-units k m room text (units m text) (omega arith) (inl refl) good (omega arith)))

drop-replicate : (k n m v : ℕ) → m ≡ k + n → drop k (replicate m v) ≡ replicate n v
drop-replicate zero n m v h = let e : m ≡ n = omega arith in rw e refl
drop-replicate (suc k) n zero v h = absurd (omega arith)
drop-replicate (suc k) n (suc m) v h = drop-replicate k n m v (omega arith)

drop-Left :
    (k n m : ℕ) (text us : List ℕ) → m ≡ k + n → Left m text us → Left n (drop k text) (drop k us)
drop-Left zero n m text us h left =
    let e : m ≡ n = omega arith in subst (λ t. Left t text us) e left
drop-Left (suc k) n zero text us h left = absurd (omega arith)
drop-Left (suc k) n (suc m) [] us h (inl e) =
    inr (refl, ap (drop (suc k)) e ∙ drop-replicate k n m 0xffff (omega arith))
drop-Left (suc k) n (suc m) text us h (inr (none_left, e)) =
    inr
      (ap (drop (suc k)) none_left, ap (drop (suc k)) e ∙ drop-replicate k n m 0xffff (omega arith))
drop-Left (suc k) n (suc m) (c ∷ text) us h (inl e) =
    rw e (drop-Left k n m text (units m text) (omega arith) (inl refl))

characters-unit_bytes :
    (us rest : List ℕ)
    → All (λ u. u < 2 ^ 16) us
    → characters (length us) (unit_bytes us ++ rest) ≡ us
unfolding characters read_le16
characters-unit_bytes [] rest h = refl
characters-unit_bytes (u ∷ us) rest (hu, h) =
    let both : bit_or (u % 256) ((u / 256) * 2 ^ 8) ≡ u / 256 * 2 ^ 8 + u % 256 =
      bit_or_above 8 (u / 256) (u % 256) (omega arith) in
    let whole : u / 256 * 2 ^ 8 + u % 256 ≡ u = omega arith in
    ap₂ (λ a b. a ∷ b) (both ∙ whole) (characters-unit_bytes us rest h)

pub length-unit_bytes : (us : List ℕ) → length (unit_bytes us) ≡ 2 * length us
length-unit_bytes [] = omega arith
length-unit_bytes (u ∷ us) = omega (arith, length-unit_bytes us)

drop-append : (n k : ℕ) (xs ys : List ℕ) → length xs ≡ n → drop (n + k) (xs ++ ys) ≡ drop k ys
drop-append n k [] ys e = let z : n + k ≡ k = omega arith in rw z refl
drop-append zero k (x ∷ xs) ys e = absurd (omega arith)
drop-append (suc n) k (x ∷ xs) ys e =
    let z : suc n + k ≡ suc (n + k) = omega arith in rw z (drop-append n k xs ys (omega arith))

-- The entry whose three fields hold given characters.
abbrev part_entry : ℕ → ℕ → List ℕ → List ℕ → List ℕ → List ℕ
part_entry order cs xs ys zs =
    order ∷ (unit_bytes xs ++ (0x0f ∷ 0 ∷ cs ∷ (unit_bytes ys ++ (0 ∷ 0 ∷ unit_bytes zs))))

part_entry_fields :
    (order cs : ℕ) (xs ys zs : List ℕ)
    → length xs ≡ 5
    → length ys ≡ 6
    → (drop 14 (part_entry order cs xs ys zs) ≡ unit_bytes ys ++ (0 ∷ 0 ∷ unit_bytes zs))
      × (drop 28 (part_entry order cs xs ys zs) ≡ unit_bytes zs)
part_entry_fields order cs xs ys zs p q =
    let behind = unit_bytes ys ++ (0 ∷ 0 ∷ unit_bytes zs) in
    let ten : length (unit_bytes xs) ≡ 10 = omega (arith, length-unit_bytes xs) in
    let twelve : length (unit_bytes ys) ≡ 12 = omega (arith, length-unit_bytes ys) in
    (
      drop-append 10 3 (unit_bytes xs) (0x0f ∷ 0 ∷ cs ∷ behind) ten,
      drop-append 10 17 (unit_bytes xs) (0x0f ∷ 0 ∷ cs ∷ behind) ten
          ∙ drop-append 12 2 (unit_bytes ys) (0 ∷ 0 ∷ unit_bytes zs) twelve,
    )

field_characters :
    (n : ℕ) (us rest : List ℕ)
    → length us ≡ n
    → All (λ u. u < 2 ^ 16) us
    → characters n (unit_bytes us ++ rest) ≡ us
field_characters n us rest e h =
    ap (λ t. characters t (unit_bytes us ++ rest)) (sym e) ∙ characters-unit_bytes us rest h

part_entry_segment :
    (order cs : ℕ) (xs ys zs text1 text2 text3 : List ℕ)
    → length xs ≡ 5
    → length ys ≡ 6
    → length zs ≡ 2
    → All (λ u. u < 2 ^ 16) xs × All (λ u. u < 2 ^ 16) ys × All (λ u. u < 2 ^ 16) zs
    → lfn_loop 255 xs ≡ text1
    → lfn_loop (255 - length text1) ys ≡ text2
    → lfn_loop (255 - (length text1 + length text2)) zs ≡ text3
    → lfn_segment (part_entry order cs xs ys zs) ≡ text1 ++ (text2 ++ text3)
unfolding lfn_segment fat_lfn_to_utf8
part_entry_segment order cs xs ys zs text1 text2 text3 p q r (hx, hy, hz) e1 e2 e3 =
    let fields = part_entry_fields order cs xs ys zs p q in
    let c1 =
      field_characters 5 xs (0x0f ∷ 0 ∷ cs ∷ (unit_bytes ys ++ (0 ∷ 0 ∷ unit_bytes zs))) p hx in
    let c2 = field_characters 6 ys (0 ∷ 0 ∷ unit_bytes zs) q hy in
    let c3 : characters 2 (unit_bytes zs) ≡ zs =
      ap (characters 2) (sym (append-nil (unit_bytes zs))) ∙ field_characters 2 zs [] r hz in
    let f2 = λ (n : ℕ). fat_lfn_to_utf8 (drop 14 (part_entry order cs xs ys zs)) 12 256 n in
    let f3 = λ (n : ℕ). fat_lfn_to_utf8 (drop 28 (part_entry order cs xs ys zs)) 4 256 n in
    let n1 : fat_lfn_to_utf8 (drop 1 (part_entry order cs xs ys zs)) 10 256 0 ≡ text1 =
      ap (lfn_loop 255) c1 ∙ e1 in
    let n2 : f2 (length text1) ≡ text2 =
      ap (λ t. lfn_loop (255 - length text1) (characters 6 t)) fields.0
      ∙ ap (lfn_loop (255 - length text1)) c2
      ∙ e2 in
    let n3 : f3 (length text1 + length text2) ≡ text3 =
      ap (λ t. lfn_loop (255 - (length text1 + length text2)) (characters 2 t)) fields.1
      ∙ ap (lfn_loop (255 - (length text1 + length text2))) c3
      ∙ e3 in
    ap (λ a. a ++ (f2 (length a) ++ f3 (length a + length (f2 (length a))))) n1
    ∙ ap (λ b. text1 ++ (b ++ f3 (length text1 + length b))) n2
    ∙ ap (λ c. text1 ++ (text2 ++ c)) n3

All-take : (n : ℕ) (us : List ℕ) → All (λ u. u < 2 ^ 16) us → All (λ u. u < 2 ^ 16) (take n us)
All-take zero us h = tt
All-take (suc n) [] h = tt
All-take (suc n) (u ∷ us) (hu, h) = (hu, All-take n us h)

All-drop : (n : ℕ) (us : List ℕ) → All (λ u. u < 2 ^ 16) us → All (λ u. u < 2 ^ 16) (drop n us)
All-drop zero us h = h
All-drop (suc n) [] h = tt
All-drop (suc n) (u ∷ us) (hu, h) = All-drop n us h

pub IsPrintable-drop : (n : ℕ) (text : List ℕ) → IsPrintable text → IsPrintable (drop n text)
IsPrintable-drop zero text h = h
IsPrintable-drop (suc n) [] h = tt
IsPrintable-drop (suc n) (c ∷ text) (hc, h) = IsPrintable-drop n text h

All-replicate : (n : ℕ) → All (λ u. u < 2 ^ 16) (replicate n 0xffff)
All-replicate zero = tt
All-replicate (suc n) = (omega arith, All-replicate n)

All-units : (n : ℕ) (text : List ℕ) → IsPrintable text → All (λ u. u < 2 ^ 16) (units n text)
All-units zero text h = tt
All-units (suc n) [] h = (omega arith, All-replicate n)
All-units (suc n) (c ∷ text) (hc, h) = (omega arith, All-units n text h)

-- A part reads back as its text.
pub written_part-segment :
    (order cs : ℕ) (text : List ℕ)
    → IsPrintable text
    → length text ≤ 13
    → lfn_segment (written_part order cs text) ≡ text
written_part-segment order cs text good fits =
    let us = units 13 text in
    let text' = drop 5 text in
    let left : Left 8 text' (drop 5 us) = drop-Left 5 8 13 text us (omega arith) (inl refl) in
    let left' : Left 2 (drop 6 text') (drop 6 (drop 5 us)) =
      drop-Left 6 2 8 text' (drop 5 us) (omega arith) left in
    let good' = IsPrintable-drop 5 text good in
    let size = length-units 13 text in
    let size' : length (drop 5 us) ≡ 8 = omega (arith, length-drop 5 us, size) in
    let tail : length (drop 6 (drop 5 us)) ≡ 2 = omega (arith, length-drop 6 (drop 5 us), size') in
    let room1 : length text ≤ 255 = omega arith in
    let room2 : length text' ≤ 255 - length (take 5 text) =
      omega (arith, length-drop 5 text, length-take 5 text) in
    let room3 : length (drop 6 text') ≤ 255 - (length (take 5 text) + length (take 6 text')) =
      omega
        (arith, length-drop 6 text', length-drop 5 text, length-take 5 text, length-take 6 text') in
    let wide = All-units 13 text good in
    let room = 255 - (length (take 5 text) + length (take 6 text')) in
    let short : length (drop 6 text') ≤ 2 =
      omega (arith, length-drop 6 text', length-drop 5 text) in
    let last : lfn_loop room (drop 6 (drop 5 us)) ≡ drop 6 text' =
      ap (lfn_loop room) (sym (take-all (drop 6 (drop 5 us)) 2 (omega arith)))
      ∙ lfn_loop-units 2 2 room (drop 6 text') (drop 6 (drop 5 us)) (omega arith) left'
          (IsPrintable-drop 6 text' good') room3
      ∙ take-all (drop 6 text') 2 short in
    part_entry_segment order cs (take 5 us) (take 6 (drop 5 us)) (drop 6 (drop 5 us)) (take 5 text)
      (take 6 text') (drop 6 text') (omega (arith, length-take 5 us, size))
      (omega (arith, length-take 6 (drop 5 us), size')) tail
      (
        All-take 5 us wide,
        All-take 6 (drop 5 us) (All-drop 5 us wide),
        All-drop 6 (drop 5 us) (All-drop 5 us wide),
      )
      (lfn_loop-units 5 13 255 text us (omega arith) (inl refl) good room1)
      (lfn_loop-units 6 8 (255 - length (take 5 text)) text' (drop 5 us) (omega arith) left good'
        room2)
      last
    ∙ ap (λ t. take 5 text ++ t) (take-append-drop 6 text')
    ∙ take-append-drop 5 text
