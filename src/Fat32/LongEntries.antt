-- ===== src/Fat32/LongEntries.antt =====
-- A long name in a directory: what `fat_read_next_dir_entry` of src/driver/fs/FAT32.c makes of the
-- entries of its parts, the last part first, and of the 8.3 entry behind them.
use open_gpos.Base.{
  ℕ, zero, suc, ◌+◌, ◌*◌, ◌^◌, ◌-◌, ◌≤◌, ◌<◌, ◌≡◌, refl, sym, ap, ap₂, ◌∙◌, true, false, ◌&&◌, List,
  [], ◌∷◌, ◌++◌, append_assoc, arith, length, take, drop, get_or, set, bit_and, length-set,
  length-append, u8, ◌==◌, ◌!=◌,
}
use open_gpos.Base.Bits.{bit_and_mask, bit_and_bit}
use open_gpos.Base.Split.{bit_and_split}
use open_gpos.Fat32.Dir.{
  LongName, skip, file, lfn_segment, lfn_action, entry_action, entry_info, sfn_action, assemble,
}
use open_gpos.Fat32.Names.{fat_sfn_checksum}
use open_gpos.Fat32.Scan.{scan, scan_action, hands}
use open_gpos.Fat32.Assemble.{joined, assemble-joined}

-- an entry of a long name, with its order byte
abbrev pub IsPart : ℕ → List ℕ → Type 0
IsPart order raw = (get_or raw 0 0 ≡ order) × (bit_and (get_or raw 11 0) 0x0f ≡ 0x0f)

-- the entries of the parts k to 1 of a name, k being how many there are
abbrev pub Parts : List (List ℕ) → Type 0
Parts [] = Unit
Parts (raw ∷ raws) = IsPart (suc (length raws)) raw × Parts raws

-- an 8.3 entry that is in use and no volume label
pub record IsShort (raw : List ℕ) : Type 0 where
  pub more : (get_or raw 0 0 == 0x00) ≡ false
  pub in_use : (get_or raw 0 0 == 0xe5) ≡ false
  pub short : (bit_and (get_or raw 11 0) 0x0f == 0x0f) ≡ false
  pub no_label : (bit_and (get_or raw 11 0) 0x08 != 0) ≡ false

-- the parts of the name that the entries hold, the first part first
abbrev pub segments : List (List ℕ) → List (List ℕ)
segments [] = []
segments (raw ∷ raws) = segments raws ++ (lfn_segment raw ∷ [])

-- the locals after an entry
abbrev stored : ℕ → List ℕ → LongName → LongName
stored order raw l = record {
  lfn_buffer = set l.lfn_buffer (order - 1) (lfn_segment raw);
  lfn_parts_found = u8 (l.lfn_parts_found + 1);
}

abbrev filled : List (List ℕ) → LongName → LongName
filled [] l = l
filled (raw ∷ raws) l = filled raws (stored (suc (length raws)) raw l)

-- What the order byte of part `k` says, without and with the mark of the last part.
order_lem :
    (k : ℕ)
    → k ≤ 20
    → (bit_and k 0xbf ≡ k)
      × (bit_and k 0x40 ≡ 0)
      × (bit_and (k + 0x40) 0xbf ≡ k)
      × (bit_and (k + 0x40) 0x40 ≡ 0x40)
order_lem k h =
    let low : k < 2 ^ 6 = omega arith in
    let mask : 63 < 2 ^ 6 = omega arith in
    let plain : k ≡ 0 * 2 ^ 6 + k = omega arith in
    let marked : k + 0x40 ≡ 1 * 2 ^ 6 + k = omega arith in
    let six = bit_and_mask 6 k in
    (
      ap (λ t. bit_and t 0xbf) plain ∙ bit_and_split 6 0 2 k 63 low mask ∙ omega (arith, six),
      omega (arith, bit_and_bit 6 k),
      ap (λ t. bit_and t 0xbf) marked ∙ bit_and_split 6 1 2 k 63 low mask ∙ omega (arith, six),
      omega (arith, bit_and_bit 6 (k + 0x40)),
    )

part_action :
    (k cs : ℕ) (raw : List ℕ) (l : LongName)
    → IsPart (suc k) raw
    → suc k ≤ 20
    → 0 < cs
    → entry_action raw cs l ≡ skip cs (stored (suc k) raw l)
unfolding entry_action lfn_action
part_action k cs raw l (order, attributes) small used =
    let (low, flag, _, _) = order_lem (suc k) small in
    rw (order, attributes, low, flag) (ground arith)

last_action :
    (k cs c : ℕ) (raw : List ℕ) (l : LongName)
    → IsPart (suc k + 0x40) raw
    → get_or raw 13 0 ≡ cs
    → suc k ≤ 20
    → entry_action raw c l ≡ skip cs (stored (suc k) raw l)
unfolding entry_action lfn_action
last_action k cs c raw l (order, attributes) sum small =
    let (_, _, low, flag) = order_lem (suc k) small in
    rw (order, attributes, low, flag, sum) (ground arith)

-- The entries of the parts leave their texts in the buffer.
scan-filled :
    (cs : ℕ) (raws rest : List (List ℕ)) (l : LongName)
    → Parts raws
    → length raws ≤ 20
    → 0 < cs
    → scan (λ t. t) cs l (raws ++ rest) ≡ scan (λ t. t) cs (filled raws l) rest
unfolding scan scan_action
scan-filled cs [] rest l parts few used = refl
scan-filled cs (raw ∷ raws) rest l (part, parts) few used =
    rw (part_action (length raws) cs raw l part few used)
      (scan-filled cs raws rest (stored (suc (length raws)) raw l) parts (omega arith) used)

drop-set :
    (i : ℕ) (buffer : List (List ℕ)) (v : List ℕ)
    → i < length buffer
    → drop i (set buffer i v) ≡ v ∷ drop (suc i) buffer
drop-set i [] v h = absurd (omega arith)
drop-set zero (x ∷ buffer) v h = refl
drop-set (suc i) (x ∷ buffer) v h = drop-set i buffer v (omega arith)

filled_buffer :
    (raws : List (List ℕ)) (l : LongName)
    → length raws ≤ length l.lfn_buffer
    → (filled raws l).lfn_buffer ≡ segments raws ++ drop (length raws) l.lfn_buffer
filled_buffer [] l room = refl
filled_buffer (raw ∷ raws) l room =
    let i = length raws in
    let part = lfn_segment raw in
    let next : suc i - 1 ≡ i = omega arith in
    let kept = length-set l.lfn_buffer (suc i - 1) part in
    filled_buffer raws (stored (suc i) raw l) (omega (arith, kept))
    ∙ ap (λ t. segments raws ++ drop i (set l.lfn_buffer t part)) next
    ∙ ap (λ t. segments raws ++ t) (drop-set i l.lfn_buffer part (omega arith))
    ∙ sym (append_assoc (segments raws) (part ∷ []) (drop (suc i) l.lfn_buffer))

filled_count :
    (raws : List (List ℕ)) (l : LongName)
    → l.lfn_parts_found + length raws < 256
    → (filled raws l).lfn_parts_found ≡ l.lfn_parts_found + length raws
filled_count [] l h = omega arith
filled_count (raw ∷ raws) l h =
    let i = length raws in
    let one : u8 (l.lfn_parts_found + 1) ≡ l.lfn_parts_found + 1 = omega arith in
    filled_count raws (stored (suc i) raw l) (omega arith) ∙ omega arith

-- The 8.3 entry of the name hands out its own fields and the text that was left.
short_action :
    (cs : ℕ) (raw : List ℕ) (l : LongName)
    → IsShort raw
    → fat_sfn_checksum raw ≡ cs
    → 0 < cs
    → entry_action raw cs l
      ≡ file (record (entry_info raw 0 l) {
        filename = assemble l.lfn_parts_found 0 l.lfn_buffer [] ++ (0 ∷ []);
      })
unfolding entry_action sfn_action entry_info
short_action cs raw l h sum used =
    let has_lfn : ((cs != 0) && (cs == cs)) ≡ true = ground arith in
    rw (h.more, h.in_use, h.short, sum, has_lfn, h.no_label) refl

length-segments : (raws : List (List ℕ)) → length (segments raws) ≡ length raws
length-segments [] = refl
length-segments (raw ∷ raws) =
    omega (arith, length-append (segments raws) (lfn_segment raw ∷ []), length-segments raws)

-- The entries of a name's parts and its 8.3 entry, from a call's start: the scan hands out the file
-- of the 8.3 entry under the joined parts, cut behind 255 characters.
pub scan-long_name :
    (c : ℕ) (l : LongName) (first short : List ℕ) (raws rest : List (List ℕ))
    → l.lfn_parts_found ≡ 0
    → length l.lfn_buffer ≡ 20
    → IsPart (suc (length raws) + 0x40) first
    → get_or first 13 0 ≡ fat_sfn_checksum short
    → 0 < fat_sfn_checksum short
    → length raws < 20
    → Parts raws
    → IsShort short
    → scan (λ t. t) c l (first ∷ (raws ++ (short ∷ rest)))
      ≡ hands
          (record (entry_info short 0 l) {
            filename = take 255 (joined (segments (first ∷ raws))) ++ (0 ∷ []);
          })
          rest
unfolding scan scan_action entry_info
scan-long_name c l first short raws rest none_yet room marked sum used few parts is_short =
    let cs = fat_sfn_checksum short in
    let n = length raws in
    let all = first ∷ raws in
    let l1 = stored (suc n) first l in
    let l2 = filled raws l1 in
    let tail = drop (suc n) l.lfn_buffer in
    let count : l2.lfn_parts_found ≡ length (segments all) =
      omega (arith, filled_count all l, length-segments all) in
    let buffer : l2.lfn_buffer ≡ segments all ++ tail = filled_buffer all l (omega arith) in
    ap
      (scan_action (λ c' l'. scan (λ t. t) c' l' (raws ++ (short ∷ rest))) (raws ++ (short ∷ rest)))
      (last_action n cs c first l marked sum few)
    ∙ scan-filled cs raws (short ∷ rest) l1 parts (omega arith) used
    ∙ ap (scan_action (λ c' l'. scan (λ t. t) c' l' rest) rest)
        (short_action cs short l2 is_short refl used)
    ∙ ap (λ t. hands (record (entry_info short 0 l) { filename = t ++ (0 ∷ []) }) rest)
        (ap₂ (λ a b. assemble a 0 b []) count buffer ∙ assemble-joined (segments all) tail)
