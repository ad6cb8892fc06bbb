-- ===== src/Fat32/BootSector.antt =====
-- `parseBPB` of src/driver/fs/FAT32.c against the places of the parameters in the boot sector.
use open_gpos.Base.{ℕ, zero, suc, ◌+◌, ◌*◌, ◌^◌, ◌≡◌, u32}
use open_gpos.Fat32.Device.{Device}
use open_gpos.Fat32.Volume.{VolumeInfo}

-- the number of `count` bytes of a sector from `offset` on, the lowest first
abbrev pub number_at : (ℕ → ℕ) → ℕ → ℕ → ℕ
number_at sector offset zero = 0
number_at sector offset (suc count) = sector offset + 2 ^ 8 * number_at sector (offset + 1) count

-- The parameters of a volume, at their places in the boot sector, and what follows from them; `old` is
-- the volume of the partition table.
pub record IsBootSector (sector : ℕ → ℕ) (old new : VolumeInfo) : Type 0 where
  pub sector_size : new.bytes_per_sector ≡ number_at sector 0x0b 2
  pub cluster_size : new.sectors_per_cluster ≡ sector 0x0d
  pub reserved : new.reserved_sector_count ≡ number_at sector 0x0e 2
  pub fats : new.num_fats ≡ sector 0x10
  pub fat_size : new.fat_size_sectors ≡ number_at sector 0x24 4
  pub root : new.root_dir_cluster ≡ number_at sector 0x2c 4
  pub info : new.fsinfo_sector_lba ≡ number_at sector 0x30 2
  pub backup : new.backup_boot_sector_lba ≡ number_at sector 0x32 2
  pub cluster_bytes : new.bytes_per_cluster ≡ sector 0x0d * number_at sector 0x0b 2
  pub first_fat : new.first_fat_lba ≡ u32 (old.volume_start_lba + number_at sector 0x0e 2)
  pub first_data :
      new.data_start_lba
      ≡ u32 (old.volume_start_lba + number_at sector 0x0e 2 + sector 0x10 * number_at sector 0x24 4)
  pub start : new.volume_start_lba ≡ old.volume_start_lba
  pub total : new.total_sectors ≡ old.total_sectors
