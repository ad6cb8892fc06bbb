-- ===== src/Fat32/PathTests.antt =====
-- A small volume whose root directory has one file, and the theorems on paths at it.
use open_gpos.Base.{
  ℕ, ap, ◌≡◌, refl, some, true, false, List, [], ◌∷◌, arith, ◌==◌, ◌++◌, if◌then◌else◌, replicate,
  length, get_or, get_elem?, drop, take, min,
}
use open_gpos.HexUtils.{read_le16, read_le32}
use open_gpos.Str.{strcmp}
use open_gpos.Fat32.Device.{Device, Serves, span}
use open_gpos.Fat32.Chain.{entry_next, entry_of, entry_lba, entry_offset, fat_cluster_to_lba}
use open_gpos.Fat32.Stream.{chain_next, IsChain, chain_bytes}
use open_gpos.Fat32.Handles.{FileHandle, fat32_read, fat32_get_size, free_handle}
use open_gpos.Fat32.Names.{fat_sfn_to_string, until_space}
use open_gpos.Fat32.Round.{length-chain_bytes}
use open_gpos.Fat32.Dir.{
  FileInfo, LongName, fat_init_root_dir_iterator, fat_read_next_dir_entry, raw_entry, entry_action,
  entry_info, sfn_action,
}
use open_gpos.Fat32.Listing.{chain_entries, cluster_entries, cluster_sector, sector_entries}
use open_gpos.Fat32.Scan.{hands, scan, scan_action, Agrees, fat_read_next_dir_entry-Agrees}
use open_gpos.Fat32.Path.{
  next_component, component_loop, behind_slash, same_name, is_zero, got, get_file, fat32_open,
}
use open_gpos.Fat32.Lookup.{
  is_file, Finds, file_hit, Resolves, at_end, search_of, fat_init_root_dir_iterator-Lists,
}
use open_gpos.Fat32.GetFile.{get_file-Resolves, fat32_open-fat32_read}
use open_gpos.Fat32.Tests.{disk, volume, volume-IsMounted, closed_handle}

-- `A`, at cluster 3, of 88 bytes
abbrev pub entry : List ℕ
entry = 65 ∷ (replicate 10 32 ++ (0x20 ∷ (replicate 14 0 ++ (3 ∷ 0 ∷ 88 ∷ 0 ∷ 0 ∷ 0 ∷ []))))

-- an ELF executable of one segment, of 4 bytes and 4 more of 0, at 0x20000000
abbrev pub elf_file : List ℕ
elf_file =
    127 ∷ 69 ∷ 76 ∷ 70 ∷ 1 ∷ 1 ∷ 1 ∷ 0 ∷ 0 ∷ 0 ∷ 0 ∷ 0 ∷ 0 ∷ 0 ∷ 0 ∷ 0 ∷ 2 ∷ 0 ∷ 40 ∷ 0 ∷ 1 ∷ 0 ∷ 0
    ∷ 0 ∷ 0 ∷ 0 ∷ 0 ∷ 32 ∷ 52 ∷ 0 ∷ 0 ∷ 0 ∷ 0 ∷ 0 ∷ 0 ∷ 0 ∷ 0 ∷ 0 ∷ 0 ∷ 5 ∷ 52 ∷ 0 ∷ 32 ∷ 0 ∷ 1 ∷ 0
    ∷ 40 ∷ 0 ∷ 0 ∷ 0 ∷ 0 ∷ 0 ∷ 1 ∷ 0 ∷ 0 ∷ 0 ∷ 84 ∷ 0 ∷ 0 ∷ 0 ∷ 0 ∷ 0 ∷ 0 ∷ 32 ∷ 0 ∷ 0 ∷ 0 ∷ 32 ∷ 4
    ∷ 0 ∷ 0 ∷ 0 ∷ 8 ∷ 0 ∷ 0 ∷ 0 ∷ 5 ∷ 0 ∷ 0 ∷ 0 ∷ 4 ∷ 0 ∷ 0 ∷ 0 ∷ 0 ∷ 191 ∷ 253 ∷ 231 ∷ []

abbrev pub nothing : LongName
nothing = record { lfn_buffer = replicate 20 []; lfn_parts_found = 0 }

abbrev pub kept : LongName → LongName
kept l = l

abbrev pub a_info : FileInfo
a_info = record {
  filename = 65 ∷ 0 ∷ [];
  first_cluster = 3;
  file_size = 88;
  attributes = 0x20;
  is_directory = false;
}

named : same_name (65 ∷ []) (65 ∷ 0 ∷ []) ≡ true
unfolding same_name is_zero strcmp
named = refl

component :
    next_component (65 ∷ [])
    ≡ record { name_buffer = 65 ∷ []; path = []; final_path_component = true }
unfolding next_component behind_slash component_loop
component = refl

module _ (content : List ℕ) where
  -- The root directory is in block 200, and the file in block 201.
  abbrev pub dir_disk : ℕ → ℕ → ℕ
  dir_disk block i =
      if block == 200
      then get_or entry i 0
      else if block == 201
      then get_or content i 0
      else disk block i

  abbrev pub dir_card : Device (Unit {0})
  dir_card = record {
    read_block = λ block s. (some (span (dir_disk block) 0 512), s);
    read_partial = λ block offset count s. (some (span (dir_disk block) offset count), s);
    write_block = λ block bytes s. (false, s);
  }

  pub dir_card-Serves : Serves dir_card dir_disk (λ _. Unit)
  dir_card-Serves = record {
    partly = λ s block offset count live fit. (refl, tt);
    wholly = λ s block live. (refl, tt);
  }

  abbrev entries : List (List ℕ)
  entries = chain_entries volume dir_disk 2 0 []

  root_linked : IsChain volume dir_disk 2 []
  unfolding IsChain chain_next entry_next entry_of entry_lba entry_offset read_le32
  root_linked = refl

  pub file_linked : IsChain volume dir_disk 3 []
  unfolding IsChain chain_next entry_next entry_of entry_lba entry_offset read_le32
  file_linked = refl

  entries_size : length entries ≡ 16
  unfolding chain_entries cluster_entries sector_entries
  entries_size = refl

  first : scan kept 0 nothing entries ≡ hands a_info (drop 1 entries)
  unfolding scan scan_action chain_entries cluster_entries sector_entries cluster_sector raw_entry
      entry_action entry_info sfn_action fat_sfn_to_string read_le16 read_le32 fat_cluster_to_lba
      until_space
  first = refl

  finds : Finds kept nothing (next_component (65 ∷ [])).name_buffer true entries (is_file a_info)
  finds =
      let name = ap (λ c. c.name_buffer) component in
      rw name (file_hit {rs = drop 1 entries} first named refl refl)

  pub resolves : Resolves volume dir_disk kept nothing 17 2 (65 ∷ []) (is_file a_info)
  resolves =
      let last_one = ap (λ c. c.final_path_component) component in
      at_end [] last_one root_linked (omega (arith, entries_size)) finds

get_file-Resolves_example :
    ((get_file (dir_card elf_file) kept nothing 17 volume (0x2f ∷ 65 ∷ []) tt).0 ≡ got a_info)
    × Unit {0}
unfolding search_of
get_file-Resolves_example =
    get_file-Resolves (dir_card elf_file) volume (dir_disk elf_file) (λ _. Unit) kept nothing 17
      (0x2f ∷ 65 ∷ []) (is_file a_info) tt (dir_card-Serves elf_file) volume-IsMounted tt
      (resolves elf_file)

abbrev pub closed : List FileHandle
closed = replicate 16 closed_handle

pub free : free_handle closed 0 ≡ some 0
unfolding free_handle
free = refl

fat32_open-fat32_read_example :
    (opened : List FileHandle) × ((fat32_open
        (dir_card elf_file)
        kept
        nothing
        17
        volume
        closed
        (0x2f ∷ 65 ∷ [])
        0
        tt).0
      ≡ some (0, opened))
    × (get_elem? opened 3 ≡ get_elem? closed 3)
    × (fat32_get_size opened 0 ≡ 88)
    × ((left : List FileHandle) × ((fat32_read
            (dir_card elf_file)
            volume
            opened
            0
            40
            (fat32_open
              (dir_card elf_file)
              kept
              nothing
              17
              volume
              closed
              (0x2f ∷ 65 ∷ [])
              0
              tt).1).0
          ≡ some (record {
            ok = true;
            bytes = take (min 40 88) (chain_bytes volume (dir_disk elf_file) 3 0 []);
            handles = left;
          })))
fat32_open-fat32_read_example =
    fat32_open-fat32_read (dir_card elf_file) volume (dir_disk elf_file) (λ _. Unit) kept nothing 17
      closed (0x2f ∷ 65 ∷ []) a_info [] 0 40 0 3 tt (dir_card-Serves elf_file) volume-IsMounted tt
      (resolves elf_file) (file_linked elf_file)
      (omega (arith, length-chain_bytes volume (dir_disk elf_file) 3 0)) (omega arith) (omega arith)
      free (omega arith)

fat_read_next_dir_entry-Agrees_example :
    Agrees
      (dir_card elf_file)
      volume
      (dir_disk elf_file)
      (λ _. Unit)
      kept
      (scan kept 0 nothing (entries elf_file))
      (fat_read_next_dir_entry
        (dir_card elf_file)
        kept
        17
        volume
        (fat_init_root_dir_iterator 2)
        nothing
        tt).0
    × Unit {0}
unfolding fat_init_root_dir_iterator
fat_read_next_dir_entry-Agrees_example =
    fat_read_next_dir_entry-Agrees (dir_card elf_file) volume (dir_disk elf_file) (λ _. Unit) kept
      17 (fat_init_root_dir_iterator 2) nothing (entries elf_file) tt (dir_card-Serves elf_file)
      volume-IsMounted tt
      (fat_init_root_dir_iterator-Lists volume (dir_disk elf_file) 2 [] (root_linked elf_file))
      (omega (arith, (entries_size elf_file)))
