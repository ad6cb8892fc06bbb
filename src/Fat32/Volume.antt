-- ===== src/Fat32/Volume.antt =====
-- The volume of src/driver/fs/FAT32.c: what the partition table and the boot sector say.
use open_gpos.Base.{
  ℕ, zero, suc, ◌+◌, ◌-◌, ◌*◌, ◌/◌, ◌^◌, Bool, true, ◌&&◌, ◌||◌, Option, none, some, List, bit_and,
  u32, get_or, ◌==◌, ◌!=◌, if◌then◌else◌,
}
use open_gpos.HexUtils.{read_le16, read_le32}
use open_gpos.Fat32.Device.{Device, Step, pure, ◌>>=◌}

-- `fat32_volume_info_t`
pub record VolumeInfo : Type 0 where
  pub volume_start_lba : ℕ
  pub bytes_per_sector : ℕ
  pub sectors_per_cluster : ℕ
  pub reserved_sector_count : ℕ
  pub num_fats : ℕ
  pub fat_size_sectors : ℕ
  pub root_dir_cluster : ℕ
  pub total_sectors : ℕ
  pub total_clusters : ℕ
  pub first_fat_lba : ℕ
  pub data_start_lba : ℕ
  pub is_initialized : Bool
  pub fsinfo_sector_lba : ℕ
  pub backup_boot_sector_lba : ℕ
  pub bytes_per_cluster : ℕ

-- The loop of `parseMBR` over the four entries: the first active FAT32 partition.
unfoldable pub partition_loop : ℕ → ℕ → List ℕ → VolumeInfo → Option VolumeInfo
partition_loop zero i mbr_buffer v = none
partition_loop (suc left) i mbr_buffer v =
    let offset = i * 16 in
    let kind = get_or mbr_buffer (offset + 4) 0 in
    let rest = partition_loop left (i + 1) mbr_buffer v in
    if (bit_and (get_or mbr_buffer offset 0) 0x80 != 0) && ((kind == 0x0b) || (kind == 0x0c))
    then some (record v {
      total_sectors = read_le32 mbr_buffer (offset + 12);
      volume_start_lba = read_le32 mbr_buffer (offset + 8);
    })
    else rest

-- `parseMBR` behind the read
unfoldable pub mbr_volume : List ℕ → VolumeInfo → Option VolumeInfo
unfolding partition_loop
mbr_volume mbr_buffer v =
    if read_le16 mbr_buffer 64 != 0xaa55 then none else partition_loop 4 0 mbr_buffer v

-- `parseBPB` behind the read. A volume of 0 sectors per cluster divides by 0.
unfoldable pub bpb_volume : List ℕ → VolumeInfo → VolumeInfo
bpb_volume bpb_data v =
    let bytes_per_sector = read_le16 bpb_data 0 in
    let sectors_per_cluster = get_or bpb_data 0x02 0 in
    let reserved_sector_count = read_le16 bpb_data 0x03 in
    let num_fats = get_or bpb_data 0x05 0 in
    let fat_size_sectors = read_le32 bpb_data 25 in
    let first_fat_lba = u32 (v.volume_start_lba + reserved_sector_count) in
    let fats = u32 (num_fats * fat_size_sectors) in
    let data_sectors = u32 (v.total_sectors + 2 ^ 32 - u32 (reserved_sector_count + fats)) in
    record {
      volume_start_lba = v.volume_start_lba;
      bytes_per_sector = bytes_per_sector;
      sectors_per_cluster = sectors_per_cluster;
      reserved_sector_count = reserved_sector_count;
      num_fats = num_fats;
      fat_size_sectors = fat_size_sectors;
      root_dir_cluster = read_le32 bpb_data 33;
      total_sectors = v.total_sectors;
      total_clusters = data_sectors / sectors_per_cluster;
      first_fat_lba = first_fat_lba;
      data_start_lba = u32 (first_fat_lba + fats);
      is_initialized = true;
      fsinfo_sector_lba = read_le16 bpb_data 37;
      backup_boot_sector_lba = read_le16 bpb_data 39;
      bytes_per_cluster = sectors_per_cluster * bytes_per_sector;
    }

-- both behind the read, which may fail
unfoldable pub mbr_read : VolumeInfo → Option (List ℕ) → Option VolumeInfo
mbr_read v none = none
mbr_read v (some mbr_buffer) = mbr_volume mbr_buffer v

unfoldable pub bpb_read : VolumeInfo → Option (List ℕ) → Option VolumeInfo
bpb_read v none = none
bpb_read v (some bpb_data) = some (bpb_volume bpb_data v)

module _ {S : Type 0} (dev : Device S) where
  -- `parseMBR`: the volume that it leaves, or nothing where it returns `false` and changes nothing
  unfoldable pub parse_mbr : VolumeInfo → Step S (Option VolumeInfo)
  parse_mbr v = do r ← dev.read_partial 0 446 66; pure (mbr_read v r)

  -- `parseBPB`
  unfoldable pub parse_bpb : VolumeInfo → Step S (Option VolumeInfo)
  parse_bpb v = do r ← dev.read_partial v.volume_start_lba 0x0b 41; pure (bpb_read v r)
