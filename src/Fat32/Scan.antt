-- ===== src/Fat32/Scan.antt =====
-- `fat_read_next_dir_entry` of src/driver/fs/FAT32.c against a scan of the directory's entries.
use open_gpos.Base.{
  ℕ, zero, suc, ◌<◌, List, [], ◌∷◌, ◌≡◌, refl, arith, inl, inr, length, subst, ap₂,
}
use open_gpos.Fat32.Device.{Device, Serves}
use open_gpos.Fat32.Volume.{VolumeInfo}
use open_gpos.Fat32.Chain.{FatError, end_of_chain, no_more_entries}
use open_gpos.Fat32.Stream.{IsMounted}
use open_gpos.Fat32.Dir.{
  DirIterator, FileInfo, LongName, Action, last, skip, file, DirResult, found, stopped, raw_entry,
  entry_action, passed, take_action, round, entry_loop, fat_read_next_dir_entry, load_sector,
}
use open_gpos.Fat32.Listing.{Lists}
use open_gpos.Fat32.Walk.{load_sector-Loads, Faces-entry}

-- The next file in a list of entries, with the entries behind it; or why there is none.
pub data Scanned : Type 0 where
  hands : FileInfo → List (List ℕ) → Scanned
  ends : FatError → Scanned

unfoldable pub scan_action : (ℕ → LongName → Scanned) → List (List ℕ) → Action → Scanned
scan_action again raws last = ends no_more_entries
scan_action again raws (skip lfn_checksum l) = again lfn_checksum l
scan_action again raws (file info) = hands info raws

-- each entry as `entry_action` says, the locals going through `fresh` between two of them
unfoldable pub scan : (LongName → LongName) → ℕ → LongName → List (List ℕ) → Scanned
unfolding scan_action
scan fresh lfn_checksum l [] = ends end_of_chain
scan fresh lfn_checksum l (raw ∷ raws) =
    scan_action (λ c l'. scan fresh c (fresh l') raws) raws (entry_action raw lfn_checksum l)

module _ {S : Type 0} (dev : Device S) (v : VolumeInfo) (disk : ℕ → ℕ → ℕ) (Live : S → Type 0)
    (fresh : LongName → LongName) where
  -- What a call returns is what the scan finds, and the iterator then stands behind it.
  abbrev pub Agrees : Scanned → DirResult → Type 0
  Agrees (hands info raws) r =
      (it : DirIterator) × (r ≡ found info it) × Lists v disk it raws × (it.lfn_checksum ≡ 0)
  Agrees (ends e) r = (it : DirIterator) × (r ≡ stopped e it)

  take_action-Agrees :
      (again : DirIterator → LongName → S → DirResult × S) (it : DirIterator) (raws : List (List ℕ))
      (a : Action) (s : S)
      → Live s
      → ((c : ℕ) → Lists v disk (passed c it) raws)
      → ((it' : DirIterator) (l : LongName)
          → Lists v disk it' raws
          → Agrees (scan fresh it'.lfn_checksum l raws) (again it' l s).0 × Live (again it' l s).1)
      → let r = take_action dev fresh again it a s in
        Agrees (scan_action (λ c l'. scan fresh c (fresh l') raws) raws a) r.0 × Live r.1
  unfolding take_action scan_action passed
  take_action-Agrees again it raws last s live behind ih = ((_, refl), live)
  take_action-Agrees again it raws (skip c l) s live behind ih =
      ih (passed c it) (fresh l) (behind c)
  take_action-Agrees again it raws (file info) s live behind ih =
      ((passed 0 it, refl, behind 0, refl), live)

  entry_loop-Agrees :
      (fuel : ℕ) (it : DirIterator) (l : LongName) (raws : List (List ℕ)) (s : S)
      → Serves dev disk Live
      → IsMounted v
      → Live s
      → Lists v disk it raws
      → length raws < fuel
      → let r = entry_loop dev fresh fuel v it l s in
        Agrees (scan fresh it.lfn_checksum l raws) r.0 × Live r.1
  unfolding entry_loop round scan
  entry_loop-Agrees zero it l raws s serves m live lists enough = absurd (omega arith)
  entry_loop-Agrees (suc fuel) it l [] s serves m live lists enough =
      let (r, live') = load_sector-Loads dev v disk Live it [] s serves m live lists in
      elim r [
        | inl (it', e, nil) ↦ rw (e, round) ((it', refl), live')
        | inr (it', e, faces, same) ↦
            let (rs, shape, behind) = Faces-entry v disk it' [] faces in cc
      ]
  entry_loop-Agrees (suc fuel) it l (raw ∷ raws) s serves m live lists enough =
      let (r, live') = load_sector-Loads dev v disk Live it (raw ∷ raws) s serves m live lists in
      elim r [
        | inl (it', e, nil) ↦ cc
        | inr (it', e, faces, same) ↦
            let s' = (load_sector dev v it s).1 in
            let again = λ (it2 : DirIterator) (l2 : LongName) (s2 : S).
              entry_loop dev fresh fuel v it2 l2 s2 in
            let (rs, shape, behind) = Faces-entry v disk it' (raw ∷ raws) faces in
            let here : raw_entry it'.sector_buffer it'.current_entry_in_sector ≡ raw = cc in
            let rest : rs ≡ raws = cc in
            let action : entry_action (raw_entry it'.sector_buffer it'.current_entry_in_sector)
                  it'.lfn_checksum l
                ≡ entry_action raw it.lfn_checksum l =
              ap₂ (λ t c. entry_action t c l) here same in
            rw (e, round)
              (rw action (
                take_action-Agrees again it' raws (entry_action raw it.lfn_checksum l) s' live'
                  (λ c. subst (λ t. Lists v disk (passed c it') t) rest (behind c))
                  λ it2 l2 lists2.
                    entry_loop-Agrees fuel it2 l2 raws s' serves m live' lists2 (omega arith)))
      ]

-- `fat_read_next_dir_entry`, on a card that serves its reads, for an iterator in front of entries of
-- a directory, with more fuel than there are entries: it hands out the file that the scan of the
-- entries finds, and then stands in front of the entries behind it; or it returns the scan's code.
-- It never runs out of fuel.
pub fat_read_next_dir_entry-Agrees :
    {S : Type 0} (dev : Device S) (v : VolumeInfo) (disk : ℕ → ℕ → ℕ) (Live : S → Type 0)
    (fresh : LongName → LongName) (fuel : ℕ) (it : DirIterator) (l : LongName)
    (raws : List (List ℕ)) (s : S)
    → Serves dev disk Live
    → IsMounted v
    → Live s
    → Lists v disk it raws
    → length raws < fuel
    → let r = fat_read_next_dir_entry dev fresh fuel v it l s in
      Agrees dev v disk Live fresh (scan fresh it.lfn_checksum l raws) r.0 × Live r.1
unfolding fat_read_next_dir_entry
fat_read_next_dir_entry-Agrees dev v disk Live fresh fuel it l raws s serves m live lists enough =
    simp m.ready
      (entry_loop-Agrees dev v disk Live fresh fuel it l raws s serves m live lists enough)
