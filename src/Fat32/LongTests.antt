-- ===== src/Fat32/LongTests.antt =====
-- A directory with a file whose name is `a long file name.txt`.
use open_gpos.Base.{
  ℕ, ◌≡◌, refl, arith, List, [], ◌∷◌, ◌++◌, ◌==◌, if◌then◌else◌, get_or, drop, length, some, false,
  subst, ap,
}
use open_gpos.HexUtils.{read_le32}
use open_gpos.Fat32.Device.{Device, Serves, span}
use open_gpos.Fat32.Chain.{entry_next, entry_of, entry_lba, entry_offset, fat_cluster_to_lba}
use open_gpos.Fat32.Stream.{IsChain, chain_next}
use open_gpos.Fat32.Names.{fat_sfn_checksum, checksum_loop}
use open_gpos.Fat32.Dir.{
  DirIterator, found, entry_info, raw_entry, fat_init_root_dir_iterator, fat_read_next_dir_entry,
}
use open_gpos.Fat32.Listing.{Lists, chain_entries, cluster_entries, sector_entries, cluster_sector}
use open_gpos.Fat32.Lookup.{fat_init_root_dir_iterator-Lists}
use open_gpos.Fat32.LongEntries.{IsShort}
use open_gpos.Fat32.LongFile.{written_name, fat_read_next_dir_entry-long_name}
use open_gpos.Fat32.Tests.{disk, volume, volume-IsMounted}
use open_gpos.Fat32.PathTests.{nothing, entry}

abbrev name : List ℕ
name =
    97 ∷ 32 ∷ 108 ∷ 111 ∷ 110 ∷ 103 ∷ 32 ∷ 102 ∷ 105 ∷ 108 ∷ 101 ∷ 32 ∷ 110 ∷ 97 ∷ 109 ∷ 101 ∷ 46
    ∷ 116 ∷ 120 ∷ 116 ∷ []

abbrev flat : List (List ℕ) → List ℕ
flat [] = []
flat (raw ∷ raws) = raw ++ flat raws

abbrev checksum : ℕ
checksum = 0x80

checksum_lem : fat_sfn_checksum entry ≡ checksum
unfolding fat_sfn_checksum checksum_loop
checksum_lem = refl

abbrev directory : List (List ℕ)
directory = written_name checksum 1 name ++ (entry ∷ [])

-- The directory is in block 200.
abbrev long_disk : ℕ → ℕ → ℕ
long_disk block i = if block == 200 then get_or (flat directory) i 0 else disk block i

abbrev long_card : Device (Unit {0})
long_card = record {
  read_block = λ block s. (some (span (long_disk block) 0 512), s);
  read_partial = λ block offset count s. (some (span (long_disk block) offset count), s);
  write_block = λ block bytes s. (false, s);
}

long_card-Serves : Serves long_card long_disk (λ _. Unit)
long_card-Serves = record {
  partly = λ s block offset count live fit. (refl, tt);
  wholly = λ s block live. (refl, tt);
}

abbrev entries : List (List ℕ)
entries = chain_entries volume long_disk 2 0 []

root_linked : IsChain volume long_disk 2 []
unfolding IsChain chain_next entry_next entry_of entry_lba entry_offset read_le32
root_linked = refl

listed : entries ≡ written_name (fat_sfn_checksum entry) 1 name ++ (entry ∷ drop 3 entries)
unfolding chain_entries cluster_entries sector_entries cluster_sector raw_entry fat_cluster_to_lba
    fat_sfn_checksum checksum_loop
listed = refl

entries_size : length entries ≡ 16
unfolding chain_entries cluster_entries sector_entries
entries_size = refl

entry-IsShort : IsShort entry
entry-IsShort = record { more = refl; in_use = refl; short = refl; no_label = refl }

fat_read_next_dir_entry-long_name_example :
    (it : DirIterator) × ((fat_read_next_dir_entry long_card
        (λ t. t)
        17
        volume
        (fat_init_root_dir_iterator 2)
        nothing
        tt).0
      ≡ found (record (entry_info entry 0 nothing) { filename = name ++ (0 ∷ []) }) it)
    × Lists volume long_disk it (drop 3 entries)
fat_read_next_dir_entry-long_name_example =
    fat_read_next_dir_entry-long_name long_card volume long_disk (λ _. Unit) 17 1
      (fat_init_root_dir_iterator 2) nothing name entry (drop 3 entries) tt long_card-Serves
      volume-IsMounted tt
      (subst (Lists volume long_disk (fat_init_root_dir_iterator 2)) listed
        (fat_init_root_dir_iterator-Lists volume long_disk 2 [] root_linked))
      (omega (arith, ap length listed, entries_size)) (omega arith) (omega arith) (omega arith)
      (omega arith) entry-IsShort (omega (arith, checksum_lem)) refl refl
