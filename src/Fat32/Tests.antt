-- ===== src/Fat32/Tests.antt =====
-- A small volume of two files in one cluster each, and the theorems at it.
use open_gpos.Base.{
  ◌%◌, ◌++◌, ◌≤◌, ℕ, ◌+◌, ◌≡◌, refl, inl, some, true, false, List, [], ◌∷◌, arith, u8, ltb, ◌==◌,
  if◌then◌else◌, replicate, length, get_elem?, set, take, drop, ◌<◌, ◌↔◌,
}
use open_gpos.HexUtils.{read_le16, read_le32}
use open_gpos.Fat32.Names.{fat_sfn_to_string, fat_sfn_checksum, checksum_loop, fat_lfn_to_utf8}
use open_gpos.Fat32.Padding.{padded, fat_sfn_to_string-padded}
use open_gpos.Fat32.LongName.{IsPrintable, fat_lfn_to_utf8-IsPrintable}
use open_gpos.Fat32.Device.{Device, Serves, span}
use open_gpos.Fat32.Volume.{VolumeInfo, mbr_volume, partition_loop, bpb_volume}
use open_gpos.Fat32.Mount.{Describes}
use open_gpos.Fat32.Chain.{entry_next, entry_of, entry_lba, entry_offset}
use open_gpos.Fat32.Stream.{chain_next, IsChain, chain_bytes, IsMounted, Stands}
use open_gpos.Fat32.Handles.{FileHandle, fat32_read, fat32_close, open_handle, free_handle}
use open_gpos.Fat32.Round.{length-chain_bytes}
use open_gpos.Fat32.Read.{fat32_read-Reads}
use open_gpos.Fat32.Open.{fat32_close-fat32_read}

-- the byte of a sector that is 0 but for a few bytes
abbrev byte_of : List (ℕ × ℕ) → ℕ → ℕ
byte_of [] i = 0
byte_of ((place, value) ∷ bytes) i = if i == place then value else byte_of bytes i

-- a partition of 1000 blocks from block 50 on
abbrev first_sector : ℕ → ℕ
first_sector =
    byte_of (
      (446, 0x80)
      ∷ (450, 0x0c)
      ∷ (454, 50)
      ∷ (458, 232)
      ∷ (459, 3)
      ∷ (510, 0x55)
      ∷ (511, 0xaa)
      ∷ [])

-- one sector to a cluster, 50 in front of the FAT, 100 in the FAT, the root in cluster 2
abbrev boot_sector : ℕ → ℕ
boot_sector =
    byte_of ((12, 2) ∷ (13, 1) ∷ (14, 50) ∷ (16, 1) ∷ (36, 100) ∷ (44, 2) ∷ (48, 1) ∷ (50, 6) ∷ [])

-- The FAT says that the clusters 2 and 3 end their chains; the other blocks count.
abbrev pub disk : ℕ → ℕ → ℕ
disk block i =
    if block == 0
    then first_sector i
    else if block == 50
    then boot_sector i
    else if block == 100
    then (if ltb i 16 then (if i == 11 then 0x0f else if i == 15 then 0x0f else 0xff) else 0)
    else u8 (block + i)

abbrev pub card : Device (Unit {0})
card = record {
  read_block = λ block s. (some (span (disk block) 0 512), s);
  read_partial = λ block offset count s. (some (span (disk block) offset count), s);
  write_block = λ block bytes s. (false, s);
}

card-Serves : Serves card disk (λ _. Unit)
card-Serves = record {
  partly = λ s block offset count live fit. (refl, tt);
  wholly = λ s block live. (refl, tt);
}

abbrev pub volume : VolumeInfo
volume = record {
  volume_start_lba = 50;
  bytes_per_sector = 512;
  sectors_per_cluster = 1;
  reserved_sector_count = 50;
  num_fats = 1;
  fat_size_sectors = 100;
  root_dir_cluster = 2;
  total_sectors = 1000;
  total_clusters = 850;
  first_fat_lba = 100;
  data_start_lba = 200;
  is_initialized = true;
  fsinfo_sector_lba = 1;
  backup_boot_sector_lba = 6;
  bytes_per_cluster = 512;
}

pub volume-IsMounted : IsMounted volume
volume-IsMounted = record {
  ready = refl;
  sectors = refl;
  clusters = refl;
  some_sectors = omega arith;
  byte_sized = omega arith;
}

linked : IsChain volume disk 3 []
unfolding IsChain chain_next entry_next entry_of entry_lba entry_offset read_le32
linked = refl

abbrev pub handle : FileHandle
handle = record {
  cluster_start = 3;
  current_cluster = 3;
  current_offset = 10;
  file_size = 300;
  current_file_pos = 10;
  is_free = false;
  mode = 0;
}

abbrev pub closed_handle : FileHandle
closed_handle = record handle { is_free = true }

abbrev pub table : List FileHandle
table = handle ∷ replicate 15 closed_handle

abbrev content : List ℕ
content = chain_bytes volume disk 3 10 []

handle-Stands : Stands volume disk handle content
handle-Stands = record { rest = []; chain = linked; place = inl (omega arith); content = refl }

fat32_read-Reads_example :
    ((h' : FileHandle) × ((fat32_read card volume table 0 4 tt).0
        ≡ some (record { ok = true; bytes = take 4 content; handles = set table 0 h' }))
      × Stands volume disk h' (drop 4 content)
      × (h'.current_file_pos ≡ 14))
    × Unit {0}
fat32_read-Reads_example =
    fat32_read-Reads card volume disk (λ _. Unit) table 0 4 4 handle content tt card-Serves
      volume-IsMounted tt refl refl handle-Stands (omega arith) (omega arith) (omega arith)
      (omega arith) (omega (arith, length-chain_bytes volume disk 3 10))

fat32_close-fat32_read_example :
    (((fat32_close table 0).0 ≡ true) ↔ (0 < length table))
    × (get_elem? (fat32_close table 0).1 3 ≡ get_elem? table 3)
    × (fat32_read card volume (fat32_close table 0).1 0 4 tt
        ≡ (some (record { ok = false; bytes = []; handles = (fat32_close table 0).1 }), tt))
fat32_close-fat32_read_example = fat32_close-fat32_read card volume table 0 4 3 tt (omega arith)

abbrev opened : List FileHandle
opened =
    handle ∷ record handle { current_offset = 0; current_file_pos = 0 } ∷ replicate 14 closed_handle

opens : open_handle table 3 300 0 ≡ some (1, opened)
unfolding open_handle free_handle
opens = refl

sums : fat_sfn_checksum (73 ∷ 78 ∷ 73 ∷ 84 ∷ 32 ∷ 32 ∷ 32 ∷ 32 ∷ 69 ∷ 76 ∷ 70 ∷ []) ≡ 0x70
unfolding fat_sfn_checksum checksum_loop
sums = refl

-- `INIT    ELF`
fat_sfn_to_string-padded_example :
    fat_sfn_to_string (padded 8 (73 ∷ 78 ∷ 73 ∷ 84 ∷ []) ++ padded 3 (69 ∷ 76 ∷ 70 ∷ []))
    ≡ 73 ∷ 78 ∷ 73 ∷ 84 ∷ 46 ∷ 69 ∷ 76 ∷ 70 ∷ 0 ∷ []
fat_sfn_to_string-padded_example =
    fat_sfn_to_string-padded (73 ∷ 78 ∷ 73 ∷ 84 ∷ []) (69 ∷ 76 ∷ 70 ∷ [])
      (omega arith, (omega arith, (omega arith, (omega arith, tt))))
      (omega arith, (omega arith, (omega arith, tt))) (omega arith) (omega arith)

fat_lfn_to_utf8-IsPrintable_example :
    (7 + length (fat_lfn_to_utf8 (105 ∷ 0 ∷ 233 ∷ 0 ∷ 0 ∷ 0 ∷ []) 6 256 7) < 256)
    × (length (fat_lfn_to_utf8 (105 ∷ 0 ∷ 233 ∷ 0 ∷ 0 ∷ 0 ∷ []) 6 256 7) ≤ 3)
    × IsPrintable (fat_lfn_to_utf8 (105 ∷ 0 ∷ 233 ∷ 0 ∷ 0 ∷ 0 ∷ []) 6 256 7)
fat_lfn_to_utf8-IsPrintable_example =
    fat_lfn_to_utf8-IsPrintable (105 ∷ 0 ∷ 233 ∷ 0 ∷ 0 ∷ 0 ∷ []) 6 256 7 (omega arith) (omega arith)

-- a card with the same bytes in every block
abbrev counted : ℕ → ℕ → ℕ
counted block i = i % 256

abbrev counted_card : Device (Unit {0})
counted_card = record {
  read_block = λ block s. (some (span (counted block) 0 512), s);
  read_partial = λ block offset count s. (some (span (counted block) offset count), s);
  write_block = λ block bytes s. (false, s);
}

-- the volume before `fat32_init`
abbrev pub unknown : VolumeInfo
unknown = record volume { is_initialized = false; volume_start_lba = 0; total_sectors = 0 }

abbrev pub partition : VolumeInfo
partition = record unknown { volume_start_lba = 50; total_sectors = 1000 }

pub described : Describes disk unknown partition volume
unfolding mbr_volume partition_loop bpb_volume read_le16 read_le32
described = (refl, refl)
