-- ===== src/Fat32/Listing.antt =====
-- A directory of src/driver/fs/FAT32.c as the entries in the sectors of its cluster chain, and the
-- places in it where an iterator may stand.
use open_gpos.Base.{
  ℕ, zero, suc, ◌+◌, ◌-◌, ◌≤◌, ◌<◌, true, List, [], ◌∷◌, ◌++◌, ◌≡◌, u32, if◌then◌else◌,
}
use open_gpos.Fat32.Device.{span}
use open_gpos.Fat32.Volume.{VolumeInfo}
use open_gpos.Fat32.Chain.{fat_cluster_to_lba}
use open_gpos.Fat32.Stream.{IsChain}
use open_gpos.Fat32.Dir.{DirIterator, raw_entry}

-- the `n` entries of a sector from `i` on
unfoldable pub sector_entries : List ℕ → ℕ → ℕ → List (List ℕ)
sector_entries sector i zero = []
sector_entries sector i (suc n) = raw_entry sector i ∷ sector_entries sector (i + 1) n

unfoldable pub cluster_sector : VolumeInfo → (ℕ → ℕ → ℕ) → ℕ → ℕ → List ℕ
cluster_sector v disk c k = span (disk (u32 (fat_cluster_to_lba v c + k))) 0 512

-- the entries of the `n` sectors of a cluster from `k` on
unfoldable pub cluster_entries : VolumeInfo → (ℕ → ℕ → ℕ) → ℕ → ℕ → ℕ → List (List ℕ)
cluster_entries v disk c k zero = []
cluster_entries v disk c k (suc n) =
    sector_entries (cluster_sector v disk c k) 0 16 ++ cluster_entries v disk c (k + 1) n

-- The entries of the chain `c ∷ rest`, from sector `k` of its first cluster on.
unfoldable pub chain_entries : VolumeInfo → (ℕ → ℕ → ℕ) → ℕ → ℕ → List ℕ → List (List ℕ)
chain_entries v disk c k [] = cluster_entries v disk c k (v.sectors_per_cluster - k)
chain_entries v disk c k (d ∷ rest) =
    cluster_entries v disk c k (v.sectors_per_cluster - k) ++ chain_entries v disk d 0 rest

-- the entries in the buffer that are still ahead
unfoldable pub pending : DirIterator → List (List ℕ)
pending it =
    if it.sector_buffer_valid
    then sector_entries it.sector_buffer it.current_entry_in_sector
        (16 - it.current_entry_in_sector)
    else []

-- An iterator in front of the entries `raws` of a chain.
pub record Lists (v : VolumeInfo) (disk : ℕ → ℕ → ℕ) (it : DirIterator) (raws : List (List ℕ))
    : Type 0 where
  pub rest : List ℕ
  pub chain : IsChain v disk it.current_cluster rest
  pub sector : u32 (it.current_sector_in_cluster + 1) ≤ v.sectors_per_cluster
  pub entry : it.current_entry_in_sector ≤ 16
  pub content :
      raws
      ≡ pending it
        ++ chain_entries v disk it.current_cluster (u32 (it.current_sector_in_cluster + 1)) rest

-- the iterator has its next entry in the buffer
pub record Faces (v : VolumeInfo) (disk : ℕ → ℕ → ℕ) (it : DirIterator) (raws : List (List ℕ))
    : Type 0 where
  pub lists : Lists v disk it raws
  pub valid : it.sector_buffer_valid ≡ true
  pub inside : it.current_entry_in_sector < 16
