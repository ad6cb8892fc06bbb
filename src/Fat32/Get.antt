-- ===== src/Fat32/Get.antt =====
-- The search for a component in src/driver/fs/FAT32.c's `get_file`, against `Finds`.
use open_gpos.Base.{ℕ, zero, suc, ◌<◌, Bool, List, ◌≡◌, refl, ap, ◌∙◌, arith, length, subst}
use open_gpos.Fat32.Device.{Device, Serves}
use open_gpos.Fat32.Volume.{VolumeInfo}
use open_gpos.Fat32.Chain.{
  FatError, success, read_fail, invalid_cluster, bad_fat_entry, end_of_chain, not_initialized,
  no_more_entries, file_not_found, bad_cluster,
}
use open_gpos.Fat32.Stream.{IsMounted}
use open_gpos.Fat32.Dir.{DirIterator, LongName, DirResult, fat_read_next_dir_entry}
use open_gpos.Fat32.Listing.{Lists}
use open_gpos.Fat32.Scan.{Scanned, hands, ends, scan, Agrees, fat_read_next_dir_entry-Agrees}
use open_gpos.Fat32.Path.{fails, search_end, examine, search_loop}
use open_gpos.Fat32.Lookup.{
  Outcome, is_file, is_dir, missing, dir_error, Finds, file_hit, dir_hit, dir_last, other_name,
  no_dir, over, search_of, scan-shorter,
}

search_end-dir_error : (e : FatError) → search_end e ≡ fails (dir_error e)
unfolding search_end dir_error
search_end-dir_error success = refl
search_end-dir_error read_fail = refl
search_end-dir_error invalid_cluster = refl
search_end-dir_error bad_fat_entry = refl
search_end-dir_error end_of_chain = refl
search_end-dir_error not_initialized = refl
search_end-dir_error no_more_entries = refl
search_end-dir_error file_not_found = refl
search_end-dir_error bad_cluster = refl

module _ {S : Type 0} (dev : Device S) (v : VolumeInfo) (disk : ℕ → ℕ → ℕ) (Live : S → Type 0)
    (fresh : LongName → LongName) (slot : LongName) (entries : ℕ) where
  abbrev read : DirIterator → S → DirResult × S
  read it s = fat_read_next_dir_entry dev fresh entries v it slot s

  read-scan :
      (it : DirIterator) (raws : List (List ℕ)) (r : Scanned) (s : S)
      → Serves dev disk Live
      → IsMounted v
      → Live s
      → Lists v disk it raws
      → it.lfn_checksum ≡ 0
      → length raws < entries
      → scan fresh 0 slot raws ≡ r
      → Agrees dev v disk Live fresh r (read it s).0 × Live (read it s).1
  read-scan it raws r s serves m live lists clear enough e =
      let (agrees, live') =
        fat_read_next_dir_entry-Agrees dev v disk Live fresh entries it slot raws s serves m live
          lists enough in
      let same : scan fresh it.lfn_checksum slot raws ≡ r =
        ap (λ c. scan fresh c slot raws) clear ∙ e in
      (subst (λ t. Agrees dev v disk Live fresh t (read it s).0) same agrees, live')

  -- The search ends with what the directory has for the name.
  pub search_loop-Finds :
      (fuel : ℕ) (name : List ℕ) (final : Bool) (it : DirIterator) (raws : List (List ℕ))
      (o : Outcome) (s : S)
      → Serves dev disk Live
      → IsMounted v
      → Live s
      → Lists v disk it raws
      → it.lfn_checksum ≡ 0
      → length raws < entries
      → length raws < fuel
      → Finds fresh slot name final raws o
      → let r = search_loop dev fresh slot fuel entries v name final it s in
        (r.0 ≡ search_of o) × Live r.1
  unfolding search_loop search_of
  search_loop-Finds zero name final it raws o s serves m live lists clear enough fuelled finds =
      absurd (omega arith)
  search_loop-Finds (suc fuel) name final it raws (is_file info) s serves m live lists clear enough
        fuelled (file_hit e same plain at_end) =
      let ((it', r, lists', clear'), live') =
        read-scan it raws (hands info _) s serves m live lists clear enough e in
      rw (r, examine) (simp (same, plain, at_end) (refl, live'))
  search_loop-Finds (suc fuel) name final it raws (is_dir info) s serves m live lists clear enough
        fuelled (dir_hit e same dir more) =
      let ((it', r, lists', clear'), live') =
        read-scan it raws (hands info _) s serves m live lists clear enough e in
      rw (r, examine) (simp (same, dir, more) (refl, live'))
  search_loop-Finds (suc fuel) name final it raws (missing file_not_found) s serves m live lists
        clear enough fuelled (dir_last {info = info} e same dir at_end) =
      let ((it', r, lists', clear'), live') =
        read-scan it raws (hands info _) s serves m live lists clear enough e in
      rw (r, examine) (simp (same, dir, at_end) (refl, live'))
  search_loop-Finds (suc fuel) name final it raws o s serves m live lists clear enough fuelled
        (other_name {rs = rs} {info = info} e other finds) =
      let ((it', r, lists', clear'), live') =
        read-scan it raws (hands info rs) s serves m live lists clear enough e in
      let shorter = scan-shorter fresh 0 slot raws rs info e in
      rw (r, examine)
        (simp other (
          search_loop-Finds fuel name final it' rs o (read it s).1 serves m live' lists' clear'
            (omega arith) (omega arith) finds))
  search_loop-Finds (suc fuel) name final it raws o s serves m live lists clear enough fuelled
        (no_dir {rs = rs} {info = info} e same plain more finds) =
      let ((it', r, lists', clear'), live') =
        read-scan it raws (hands info rs) s serves m live lists clear enough e in
      let shorter = scan-shorter fresh 0 slot raws rs info e in
      rw (r, examine)
        (simp (same, plain, more)
          (subst
            (λ f.
              ((search_loop dev fresh slot fuel entries v name f it' (read it s).1).0 ≡ search_of o)
              × Live (search_loop dev fresh slot fuel entries v name f it' (read it s).1).1)
            more
            (search_loop-Finds fuel name final it' rs o (read it s).1 serves m live' lists' clear'
              (omega arith) (omega arith) finds)))
  search_loop-Finds (suc fuel) name final it raws o s serves m live lists clear enough fuelled
        (over {e = code} e) =
      let ((it', r), live') = read-scan it raws (ends code) s serves m live lists clear enough e in
      rw (r, examine) (search_end-dir_error code, live')
