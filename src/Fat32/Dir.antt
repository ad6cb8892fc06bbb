-- ===== src/Fat32/Dir.antt =====
-- The directory iterator of src/driver/fs/FAT32.c. `lfn_buffer` and `lfn_parts_found` are local to
-- a round of the loop and have no initial value, so what they hold is a parameter: `fresh` is what
-- the rounds find there, of what the last round left. A string in `lfn_buffer` stands without its 0.
use open_gpos.Base.{
  ℕ, zero, suc, ◌+◌, ◌-◌, ◌*◌, ◌/◌, Bool, true, false, not, ◌&&◌, ◌||◌, Option, none, some, List,
  [], ◌∷◌, ◌++◌, bit_and, bit_or, u8, u16, u32, ◌<<<◌, take, drop, length, get_or, set, ltb, leb,
  ◌==◌, ◌!=◌, if◌then◌else◌,
}
use open_gpos.HexUtils.{read_le16, read_le32}
use open_gpos.Fat32.Device.{Device}
use open_gpos.Fat32.Volume.{VolumeInfo}
use open_gpos.Fat32.Chain.{
  FatError, read_fail, no_more_entries, not_initialized, Next, next, stop, get_next_cluster,
  fat_cluster_to_lba,
}
use open_gpos.Fat32.Names.{fat_sfn_to_string, fat_sfn_checksum, fat_lfn_to_utf8}

-- `fat_directory_iterator_t`
pub record DirIterator : Type 0 where
  pub current_cluster : ℕ
  pub current_sector_in_cluster : ℕ
  pub current_entry_in_sector : ℕ
  pub sector_buffer : List ℕ
  pub sector_buffer_valid : Bool
  pub lfn_checksum : ℕ

-- `fat_file_info_t`; `filename` is the string with its 0
pub record FileInfo : Type 0 where
  pub filename : List ℕ
  pub first_cluster : ℕ
  pub file_size : ℕ
  pub attributes : ℕ
  pub is_directory : Bool

-- `lfn_buffer` and `lfn_parts_found`
pub record LongName : Type 0 where
  pub lfn_buffer : List (List ℕ)
  pub lfn_parts_found : ℕ

abbrev pub max_lfn_parts : ℕ
max_lfn_parts = 20

abbrev pub max_filename_len : ℕ
max_filename_len = 256

-- `fat_init_root_dir_iterator` on a volume that is initialised and an iterator that is not NULL
unfoldable pub fat_init_root_dir_iterator : ℕ → DirIterator
fat_init_root_dir_iterator start_cluster = record {
  current_cluster = start_cluster;
  current_sector_in_cluster = 0xffff_ffff;
  current_entry_in_sector = 0;
  sector_buffer = [];
  sector_buffer_valid = false;
  lfn_checksum = 0;
}

-- What an entry asks the loop to do: end it, go on with `lfn_checksum` and the locals as given, or
-- hand out a file, with `lfn_checksum` reset.
pub data Action : Type 0 where
  last : Action
  skip : ℕ → LongName → Action
  file : FileInfo → Action

abbrev forget : LongName → LongName
forget l = record l { lfn_parts_found = 0 }

-- the characters of the three name fields of a long-name entry
unfoldable pub lfn_segment : List ℕ → List ℕ
lfn_segment raw =
    let name1 = fat_lfn_to_utf8 (drop 1 raw) 10 max_filename_len 0 in
    let name2 = fat_lfn_to_utf8 (drop 14 raw) 12 max_filename_len (length name1) in
    let name3 = fat_lfn_to_utf8 (drop 28 raw) 4 max_filename_len (length name1 + length name2) in
    name1 ++ (name2 ++ name3)

-- an entry of a long name
unfoldable pub lfn_action : List ℕ → ℕ → LongName → Action
lfn_action raw lfn_checksum l =
    let order_flags = get_or raw 0 0 in
    let sequence_order = bit_and order_flags 0xbf in
    let is_last = bit_and order_flags 0x40 != 0 in
    if (sequence_order == 0) || ltb max_lfn_parts sequence_order
    then skip 0 (forget l)
    else if not is_last && (lfn_checksum == 0)
    then skip 0 (forget l)
    else skip (if is_last then get_or raw 13 0 else lfn_checksum) (record {
      lfn_buffer = set l.lfn_buffer (sequence_order - 1) (lfn_segment raw);
      lfn_parts_found = u8 (l.lfn_parts_found + 1);
    })

-- The loop of `strncat` calls over the parts from `i` on. Behind the last part the source reads
-- out of bounds; here there are no characters.
unfoldable pub assemble : ℕ → ℕ → List (List ℕ) → List ℕ → List ℕ
assemble zero i parts filename = filename
assemble (suc count) i parts filename =
    assemble count (i + 1) parts
      (filename ++ take (max_filename_len - 1 - length filename) (get_or parts i []))

-- `file_info_out` for an 8.3 entry
unfoldable pub entry_info : List ℕ → ℕ → LongName → FileInfo
unfolding assemble
entry_info raw lfn_checksum l =
    let attributes = get_or raw 11 0 in
    let has_lfn = (lfn_checksum != 0) && (fat_sfn_checksum raw == lfn_checksum) in
    record {
      filename =
          if has_lfn
          then assemble l.lfn_parts_found 0 l.lfn_buffer [] ++ (0 ∷ [])
          else fat_sfn_to_string raw;
      first_cluster = bit_or (u32 (read_le16 raw 20 <<< 16)) (read_le16 raw 26);
      file_size = read_le32 raw 28;
      attributes = attributes;
      is_directory = bit_and attributes 0x10 != 0;
    }

-- the 8.3 entries but the volume label
unfoldable pub sfn_action : FileInfo → LongName → Action
sfn_action info l =
    if (bit_and info.attributes 0x08 != 0) && not info.is_directory
    then skip 0 (forget l)
    else file info

-- a round of the loop of `fat_read_next_dir_entry` behind the load of the sector
unfoldable pub entry_action : List ℕ → ℕ → LongName → Action
unfolding lfn_action sfn_action
entry_action raw lfn_checksum l =
    if get_or raw 0 0 == 0x00
    then last
    else if get_or raw 0 0 == 0xe5
    then skip lfn_checksum l
    else if bit_and (get_or raw 11 0) 0x0f == 0x0f
    then lfn_action raw lfn_checksum l
    else sfn_action (entry_info raw lfn_checksum l) l

-- The iterator in front of an entry in its buffer, or the code that the call returns.
pub data Loaded : Type 0 where
  ready : DirIterator → Loaded
  failed : FatError → DirIterator → Loaded

-- What a call returns: a file, a code, or no fuel; and the iterator that it leaves.
pub data DirResult : Type 0 where
  found : FileInfo → DirIterator → DirResult
  stopped : FatError → DirIterator → DirResult
  out_of_fuel : DirResult

-- the entry of 32 bytes
unfoldable pub raw_entry : List ℕ → ℕ → List ℕ
raw_entry sector i = take 32 (drop (i * 32) sector)

module _ {S : Type 0} (dev : Device S) where
  -- "Read new sector": the block that was read, if it was
  unfoldable pub buffer_sector : DirIterator → Option (List ℕ) × S → Loaded × S
  buffer_sector it (none, s) = (failed read_fail it, s)
  buffer_sector it (some bytes, s) =
      (ready (record it { sector_buffer = bytes; sector_buffer_valid = true }), s)

  unfoldable pub read_sector : VolumeInfo → DirIterator → S → Loaded × S
  unfolding buffer_sector
  read_sector v it s = buffer_sector it (
      dev.read_block (u32 (fat_cluster_to_lba v it.current_cluster + it.current_sector_in_cluster))
        s)

  -- the move to the next cluster, for what `getNextCluster` returns
  unfoldable pub enter_cluster : VolumeInfo → DirIterator → Next × S → Loaded × S
  unfolding read_sector
  enter_cluster v it (next c, s) =
      read_sector v (record it { current_cluster = c; current_sector_in_cluster = 0 }) s
  enter_cluster v it (stop e, s) = (failed e it, s)

  -- the load of a new sector at the head of a round
  unfoldable pub load_sector : VolumeInfo → DirIterator → S → Loaded × S
  unfolding enter_cluster read_sector
  load_sector v it s =
      let it' : DirIterator = record it {
        current_sector_in_cluster = u32 (it.current_sector_in_cluster + 1);
        current_entry_in_sector = 0;
      } in
      if not it.sector_buffer_valid || leb (v.bytes_per_sector / 32) it.current_entry_in_sector
      then (if leb v.sectors_per_cluster it'.current_sector_in_cluster
          then enter_cluster v it' (get_next_cluster dev v it'.current_cluster s)
          else read_sector v it' s)
      else (ready it, s)

-- the iterator behind its entry
unfoldable pub passed : ℕ → DirIterator → DirIterator
passed lfn_checksum it = record it {
  current_entry_in_sector = u16 (it.current_entry_in_sector + 1);
  lfn_checksum = lfn_checksum;
}

module _ {S : Type 0} (dev : Device S) (fresh : LongName → LongName) where
  -- what the round does with its entry, `again` being the loop
  unfoldable pub take_action :
      (DirIterator → LongName → S → DirResult × S) → DirIterator → Action → S → DirResult × S
  take_action again it last s = (stopped no_more_entries (passed it.lfn_checksum it), s)
  take_action again it (skip lfn_checksum l) s = again (passed lfn_checksum it) (fresh l) s
  take_action again it (file info) s = (found info (passed 0 it), s)

  unfoldable pub round :
      (DirIterator → LongName → S → DirResult × S) → LongName → Loaded × S → DirResult × S
  unfolding take_action
  round again l (failed e it, s) = (stopped e it, s)
  round again l (ready it, s) =
      take_action again it
        (entry_action (raw_entry it.sector_buffer it.current_entry_in_sector) it.lfn_checksum l) s

  -- The loop of `fat_read_next_dir_entry`. The fuel bounds the entries that it looks at: a FAT whose
  -- chain is a cycle has no end.
  unfoldable pub entry_loop : ℕ → VolumeInfo → DirIterator → LongName → S → DirResult × S
  unfolding round
  entry_loop zero v it l s = (out_of_fuel, s)
  entry_loop (suc fuel) v it l s =
      round (λ it' l' s'. entry_loop fuel v it' l' s') l (load_sector dev v it s)

  -- `fat_read_next_dir_entry`, the locals holding `l` at first
  unfoldable pub fat_read_next_dir_entry :
      ℕ → VolumeInfo → DirIterator → LongName → S → DirResult × S
  fat_read_next_dir_entry fuel v it l s =
      if not v.is_initialized then (stopped not_initialized it, s) else entry_loop fuel v it l s
