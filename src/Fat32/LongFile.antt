-- ===== src/Fat32/LongFile.antt =====
-- A file with a long name in a directory, as `fat_read_next_dir_entry` of src/driver/fs/FAT32.c
-- hands it out.
use open_gpos.Base.{
  ℕ, zero, suc, ◌+◌, ◌*◌, ◌≤◌, ◌<◌, ◌≡◌, refl, sym, ap, ap₂, ◌∙◌, subst, List, [], ◌∷◌, ◌++◌,
  append-nil, append_assoc, arith, length, take, drop, get_or, length-take, take-all, bit_and,
}
use open_gpos.Fat32.Device.{Device, Serves}
use open_gpos.Fat32.Volume.{VolumeInfo}
use open_gpos.Fat32.Stream.{IsMounted}
use open_gpos.Fat32.Names.{fat_sfn_checksum}
use open_gpos.Fat32.LongName.{IsPrintable}
use open_gpos.Fat32.Dir.{
  LongName, DirIterator, found, entry_info, lfn_segment, fat_read_next_dir_entry,
}
use open_gpos.Fat32.Listing.{Lists}
use open_gpos.Fat32.Scan.{hands, scan, Agrees, fat_read_next_dir_entry-Agrees}
use open_gpos.Fat32.Assemble.{joined}
use open_gpos.Fat32.LongEntries.{IsPart, Parts, IsShort, segments, scan-long_name}
use open_gpos.Fat32.LongRound.{
  units, unit_bytes, length-units, length-unit_bytes, written_part, written_part-segment,
  IsPrintable-drop,
}

-- the characters of part `k + 1` of a name
abbrev pub part_text : ℕ → List ℕ → List ℕ
part_text k name = take 13 (drop (13 * k) name)

-- the entries of the parts `k` to 1 of a name
abbrev pub written_parts : ℕ → ℕ → List ℕ → List (List ℕ)
written_parts cs zero name = []
written_parts cs (suc k) name = written_part (suc k) cs (part_text k name) ∷ written_parts cs k name

-- the entries of a name of `k + 1` parts, the last one marked
abbrev pub written_name : ℕ → ℕ → List ℕ → List (List ℕ)
written_name cs k name = written_part (suc k + 0x40) cs (part_text k name) ∷ written_parts cs k name

get_or-append :
    (n k : ℕ) (xs ys : List ℕ) → length xs ≡ n → get_or (xs ++ ys) (n + k) 0 ≡ get_or ys k 0
get_or-append n k [] ys e = let z : n + k ≡ k = omega arith in rw z refl
get_or-append zero k (x ∷ xs) ys e = absurd (omega arith)
get_or-append (suc n) k (x ∷ xs) ys e =
    let z : suc n + k ≡ suc (n + k) = omega arith in rw z (get_or-append n k xs ys (omega arith))

-- the attributes and the checksum of a written part
part_header :
    (order cs : ℕ) (text : List ℕ)
    → (get_or (written_part order cs text) 11 0 ≡ 0x0f)
      × (get_or (written_part order cs text) 13 0 ≡ cs)
part_header order cs text =
    let us = units 13 text in
    let behind =
      0x0f
      ∷ 0
      ∷ cs
      ∷ (unit_bytes (take 6 (drop 5 us)) ++ (0 ∷ 0 ∷ unit_bytes (drop 6 (drop 5 us)))) in
    let ten : length (unit_bytes (take 5 us)) ≡ 10 =
      omega (arith, length-unit_bytes (take 5 us), length-take 5 us, length-units 13 text) in
    (
      get_or-append 10 0 (unit_bytes (take 5 us)) behind ten,
      get_or-append 10 2 (unit_bytes (take 5 us)) behind ten,
    )

written_part-IsPart : (order cs : ℕ) (text : List ℕ) → IsPart order (written_part order cs text)
written_part-IsPart order cs text = (refl, ap (λ t. bit_and t 0x0f) (part_header order cs text).0)

length-written_parts : (cs k : ℕ) (name : List ℕ) → length (written_parts cs k name) ≡ k
length-written_parts cs zero name = refl
length-written_parts cs (suc k) name = ap suc (length-written_parts cs k name)

written_parts-Parts : (cs k : ℕ) (name : List ℕ) → Parts (written_parts cs k name)
written_parts-Parts cs zero name = tt
written_parts-Parts cs (suc k) name = (
  subst (λ t. IsPart (suc t) (written_part (suc k) cs (part_text k name)))
      (sym (length-written_parts cs k name)) (written_part-IsPart (suc k) cs (part_text k name)),
  written_parts-Parts cs k name,
)

joined-append : (xs : List (List ℕ)) (y : List ℕ) → joined (xs ++ (y ∷ [])) ≡ joined xs ++ y
joined-append [] y = append-nil y
joined-append (x ∷ xs) y =
    ap (λ t. x ++ t) (joined-append xs y) ∙ sym (append_assoc x (joined xs) y)

take-add : (n m : ℕ) (xs : List ℕ) → take n xs ++ take m (drop n xs) ≡ take (n + m) xs
take-add zero m xs = let z : 0 + m ≡ m = omega arith in rw z refl
take-add (suc n) zero [] = let z : suc n + 0 ≡ suc n = omega arith in rw z refl
take-add (suc n) (suc m) [] = let z : suc n + suc m ≡ suc (n + suc m) = omega arith in rw z refl
take-add (suc n) m (x ∷ xs) =
    let z : suc n + m ≡ suc (n + m) = omega arith in rw z (ap (λ t. x ∷ t) (take-add n m xs))

IsPrintable-take : (n : ℕ) (text : List ℕ) → IsPrintable text → IsPrintable (take n text)
IsPrintable-take zero text h = tt
IsPrintable-take (suc n) [] h = tt
IsPrintable-take (suc n) (c ∷ text) (hc, h) = (hc, IsPrintable-take n text h)

part_text-segment :
    (order cs k : ℕ) (name : List ℕ)
    → IsPrintable name
    → lfn_segment (written_part order cs (part_text k name)) ≡ part_text k name
part_text-segment order cs k name good =
    written_part-segment order cs (part_text k name)
      (IsPrintable-take 13 (drop (13 * k) name) (IsPrintable-drop (13 * k) name good))
      (omega (arith, length-take 13 (drop (13 * k) name)))

-- One more part of the name.
joined-part :
    (order cs k : ℕ) (name : List ℕ) (raws : List (List ℕ))
    → IsPrintable name
    → joined (segments raws) ≡ take (13 * k) name
    → joined (segments (written_part order cs (part_text k name) ∷ raws)) ≡ take (13 * suc k) name
joined-part order cs k name raws good before =
    joined-append (segments raws) (lfn_segment (written_part order cs (part_text k name)))
    ∙ ap₂ (λ a b. a ++ b) before (part_text-segment order cs k name good)
    ∙ take-add (13 * k) 13 name
    ∙ (let e : 13 * k + 13 ≡ 13 * suc k = omega arith in ap (λ t. take t name) e)

joined-written_parts :
    (cs k : ℕ) (name : List ℕ)
    → IsPrintable name
    → joined (segments (written_parts cs k name)) ≡ take (13 * k) name
joined-written_parts cs zero name good = refl
joined-written_parts cs (suc k) name good =
    joined-part (suc k) cs k name (written_parts cs k name) good
      (joined-written_parts cs k name good)

-- A name of fewer than 256 characters and the parts of it that are written: cut, it is whole.
whole :
    (cs k : ℕ) (name : List ℕ)
    → IsPrintable name
    → length name ≤ 13 * suc k
    → length name ≤ 255
    → take 255 (joined (segments (written_name cs k name))) ≡ name
whole cs k name good covers fits =
    ap (take 255) (
      joined-part (suc k + 0x40) cs k name (written_parts cs k name) good
        (joined-written_parts cs k name good)
      ∙ take-all name (13 * suc k) covers)
    ∙ take-all name 255 fits

scan-written_name :
    (c cs k : ℕ) (l : LongName) (name short : List ℕ) (rest : List (List ℕ))
    → IsPrintable name
    → length name ≤ 13 * suc k
    → length name ≤ 255
    → k < 20
    → l.lfn_parts_found ≡ 0
    → length l.lfn_buffer ≡ 20
    → IsShort short
    → fat_sfn_checksum short ≡ cs
    → 0 < cs
    → scan (λ t. t) c l (written_name cs k name ++ (short ∷ rest))
      ≡ hands (record (entry_info short 0 l) { filename = name ++ (0 ∷ []) }) rest
scan-written_name c cs k l name short rest good covers fits few none_yet room is_short sum used =
    let raws = written_parts cs k name in
    let first = written_part (suc k + 0x40) cs (part_text k name) in
    let count = length-written_parts cs k name in
    scan-long_name c l first short raws rest none_yet room
      (subst (λ t. IsPart (suc t + 0x40) first) (sym count)
        (written_part-IsPart (suc k + 0x40) cs (part_text k name)))
      ((part_header (suc k + 0x40) cs (part_text k name)).1 ∙ sym sum) (omega (arith, sum))
      (omega (arith, count)) (written_parts-Parts cs k name) is_short
    ∙ ap (λ t. hands (record (entry_info short 0 l) { filename = t ++ (0 ∷ []) }) rest)
        (whole cs k name good covers fits)

-- A long name of at most 255 ASCII characters, written to a directory as the entries of its parts
-- in front of an 8.3 entry that bears their checksum, which is not 0, is read back: on a card that serves its reads,
-- for an iterator in front of these entries and with more fuel than there are entries, where the
-- locals keep what they hold between two rounds and no part is found at first,
-- `fat_read_next_dir_entry` hands out the file of the 8.3 entry under that name, and the iterator
-- then stands in front of the entries behind it.
pub fat_read_next_dir_entry-long_name :
    {S : Type 0} (dev : Device S) (v : VolumeInfo) (disk : ℕ → ℕ → ℕ) (Live : S → Type 0)
    (fuel k : ℕ) (it : DirIterator) (l : LongName) (name short : List ℕ) (rest : List (List ℕ))
    (s : S)
    → Serves dev disk Live
    → IsMounted v
    → Live s
    → Lists v disk it (written_name (fat_sfn_checksum short) k name ++ (short ∷ rest))
    → length (written_name (fat_sfn_checksum short) k name ++ (short ∷ rest)) < fuel
    → IsPrintable name
    → length name ≤ 255
    → length name ≤ 13 * suc k
    → k < 20
    → IsShort short
    → 0 < fat_sfn_checksum short
    → l.lfn_parts_found ≡ 0
    → length l.lfn_buffer ≡ 20
    → (it' : DirIterator) × ((fat_read_next_dir_entry dev (λ t. t) fuel v it l s).0
        ≡ found (record (entry_info short 0 l) { filename = name ++ (0 ∷ []) }) it')
      × Lists v disk it' rest
fat_read_next_dir_entry-long_name dev v disk Live fuel k it l name short rest s serves m live lists
      enough good fits covers few is_short used none_yet room =
    let raws = written_name (fat_sfn_checksum short) k name ++ (short ∷ rest) in
    let agrees =
      fat_read_next_dir_entry-Agrees dev v disk Live (λ t. t) fuel it l raws s serves m live lists
        enough in
    let scanned =
      scan-written_name it.lfn_checksum (fat_sfn_checksum short) k l name short rest good covers
        fits few none_yet room is_short refl used in
    let (it', e, behind, _) =
      subst
        (λ t.
          Agrees dev v disk Live (λ u. u) t (fat_read_next_dir_entry dev (λ u. u) fuel v it l s).0)
        scanned agrees.0 in
    (it', e, behind)
