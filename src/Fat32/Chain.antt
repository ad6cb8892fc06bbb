-- ===== src/Fat32/Chain.antt =====
-- The cluster chain of src/driver/fs/FAT32.c: the entries of the FAT, and where clusters lie.
use open_gpos.Base.{
  ℕ, zero, suc, ◌+◌, ◌-◌, ◌*◌, ◌/◌, ◌%◌, Bool, true, false, ◌&&◌, ◌||◌, not, Option, none, some,
  List, [], ◌++◌, bit_and, u32, take, drop, ltb, leb, ◌==◌, if◌then◌else◌,
}
use open_gpos.HexUtils.{read_le32}
use open_gpos.Fat32.Device.{Device, Step, pure, ◌>>=◌}
use open_gpos.Fat32.Volume.{VolumeInfo}

-- `fat_error_t`, and `FAT32_BAD_CLUSTER`, which `getNextCluster` returns beside these.
pub data FatError : Type 0 where
  success read_fail invalid_cluster bad_fat_entry end_of_chain : FatError
  not_initialized no_more_entries file_not_found bad_cluster : FatError

-- What `getNextCluster` returns: `FAT_SUCCESS` with `*next_cluster_out`, or another code, with
-- which no caller reads `*next_cluster_out`.
pub data Next : Type 0 where
  next : ℕ → Next
  stop : FatError → Next

-- `getNextCluster` behind the read, for an entry without its upper four bits
unfoldable pub entry_next : ℕ → Next
entry_next fat_entry_value =
    if leb 0x0fff_fff8 fat_entry_value && leb fat_entry_value 0x0fff_ffff
    then stop end_of_chain
    else if fat_entry_value == 0x0fff_fff7
    then stop bad_cluster
    else if fat_entry_value == 0
    then stop invalid_cluster
    else next fat_entry_value

unfoldable pub entry_of : Option (List ℕ) → Next
unfolding entry_next
entry_of none = stop read_fail
entry_of (some fat_entry_buffer) = entry_next (bit_and (read_le32 fat_entry_buffer 0) 0x0fff_ffff)

-- the sector of the FAT that holds the entry of a cluster, and its place there
unfoldable pub entry_lba : VolumeInfo → ℕ → ℕ
entry_lba v cluster = u32 (v.first_fat_lba + u32 (cluster * 4) / v.bytes_per_sector)

unfoldable pub entry_offset : VolumeInfo → ℕ → ℕ
entry_offset v cluster = u32 (cluster * 4) % v.bytes_per_sector

-- `fatClusterToLba`
unfoldable pub fat_cluster_to_lba : VolumeInfo → ℕ → ℕ
fat_cluster_to_lba v cluster =
    if ltb cluster 2
    then 0
    else u32 (v.data_start_lba + u32 ((cluster - 2) * v.sectors_per_cluster))

module _ {S : Type 0} (dev : Device S) where
  -- `getNextCluster`
  unfoldable pub get_next_cluster : VolumeInfo → ℕ → Step S Next
  get_next_cluster v current_cluster =
      if not v.is_initialized
      then pure (stop not_initialized)
      else if ltb current_cluster 2 || leb (u32 (v.total_clusters + 2)) current_cluster
      then pure (stop invalid_cluster)
      else (do
        r ← dev.read_partial (entry_lba v current_cluster) (entry_offset v current_cluster) 4
        pure (entry_of r))

  -- `read_sectors`: the bytes of the buffer, or nothing where it returns `false`
  unfoldable pub read_sectors : ℕ → ℕ → Step S (Option (List ℕ))
  read_sectors lba zero = pure (some [])
  read_sectors lba (suc count) = do
    r ← dev.read_block (u32 lba)
    elim r [
      | none ↦ pure none
      | some bytes ↦ do
        rest ← read_sectors (lba + 1) count
        elim rest [ none ↦ pure none | some more ↦ pure (some (bytes ++ more)) ]
    ]

  -- `write_sectors`
  unfoldable pub write_sectors : ℕ → ℕ → List ℕ → Step S Bool
  write_sectors lba zero buffer = pure true
  write_sectors lba (suc count) buffer = do
    ok ← dev.write_block (u32 lba) (take 512 buffer)
    if ok then write_sectors (lba + 1) count (drop 512 buffer) else pure false

  -- `fat_read_cluster`: the bytes, or the code
  unfoldable pub fat_read_cluster : VolumeInfo → ℕ → Step S (FatError × Option (List ℕ))
  fat_read_cluster v cluster =
      let lba = fat_cluster_to_lba v cluster in
      if lba == 0 then pure (invalid_cluster, none) else do
        r ← read_sectors lba v.sectors_per_cluster
        elim r [ none ↦ pure (read_fail, none) | some bytes ↦ pure (success, some bytes) ]
