-- ===== src/Fat32/Round.antt =====
-- One round of the loop of `fat_read_file` in src/driver/fs/FAT32.c: what its sector read gives, and
-- what the FAT says at the end of a cluster.
use open_gpos.Base.{
  ℕ, ◌+◌, ◌-◌, ◌*◌, ◌/◌, ◌%◌, ◌^◌, ◌<◌, ◌≤◌, some, List, [], ◌∷◌, ◌≡◌, ◌⊎◌, inl, inr, refl, sym, ap,
  ◌∙◌, arith, Bool-cases, u16, u32, ltb, leb, if◌then◌else◌, take, drop, length,
}
use open_gpos.Fat32.Device.{Device, Serves, span}
use open_gpos.Fat32.Volume.{VolumeInfo}
use open_gpos.Fat32.Chain.{
  end_of_chain, next, stop, entry_lba, entry_offset, get_next_cluster, fat_cluster_to_lba,
}
use open_gpos.Fat32.Handles.{FileHandle, sector_lba, bytes_to_copy, int_min}
use open_gpos.Fat32.Stream.{
  chain_next, IsChain, cluster_byte, chain_bytes, IsMounted, length-span, take_chain, drop_chain,
  sector_span,
}

pub small_min : (a b : ℕ) → a < 2 ^ 31 → b < 2 ^ 31 → int_min a b ≡ (if ltb a b then a else b)
unfolding int_min
small_min a b ha hb = ground arith

-- a round copies at least one byte, no more than are left, and none behind the sector
pub bytes_to_copy-bounds :
    (v : VolumeInfo) (h : FileHandle) (n : ℕ)
    → v.bytes_per_sector ≡ 512
    → 0 < n
    → n < 2 ^ 31
    → (0 < bytes_to_copy v h n)
      × (bytes_to_copy v h n ≤ n)
      × (h.current_offset % 512 + bytes_to_copy v h n ≤ 512)
unfolding bytes_to_copy
bytes_to_copy-bounds v h n e pos small =
    let m = v.bytes_per_sector - h.current_offset % v.bytes_per_sector in
    let room : m ≡ 512 - h.current_offset % 512 = ap (λ t. t - h.current_offset % t) e in
    let both = small_min n m small (omega arith) in (ground arith, ground arith, ground arith)

entry_place : (v : VolumeInfo) (c : ℕ) → v.bytes_per_sector ≡ 512 → entry_offset v c + 4 ≤ 512
unfolding entry_offset
entry_place v c e =
    let e' : entry_offset v c ≡ u32 (c * 4) % 512 = ap (λ t. u32 (c * 4) % t) e in omega arith

pub length-chain_bytes :
    (v : VolumeInfo) (disk : ℕ → ℕ → ℕ) (c offset : ℕ)
    → length (chain_bytes v disk c offset []) ≡ v.bytes_per_cluster - offset
unfolding chain_bytes
length-chain_bytes v disk c offset =
    length-span (cluster_byte v disk c) offset (v.bytes_per_cluster - offset)

-- At the end of a cluster the FAT ends the chain, and the file, or names the next cluster.
pub cluster_end :
    (v : VolumeInfo) (disk : ℕ → ℕ → ℕ) (c offset count : ℕ) (bytes rest : List ℕ)
    → IsChain v disk c rest
    → bytes ≡ chain_bytes v disk c offset rest
    → offset + count ≡ v.bytes_per_cluster
    → ((chain_next v disk c ≡ stop end_of_chain) × (length bytes ≡ count))
      ⊎ ((d : ℕ) × (more : List ℕ) × (chain_next v disk c ≡ next d)
          × IsChain v disk d more
          × (drop count bytes ≡ chain_bytes v disk d 0 more))
unfolding IsChain chain_bytes
cluster_end v disk c offset count bytes [] chain content full =
    let size = ap length content ∙ length-chain_bytes v disk c offset in inl (chain, omega arith)
cluster_end v disk c offset count bytes (d ∷ more) chain content full =
    let left : v.bytes_per_cluster - (offset + count) ≡ 0 = omega arith in
    let behind =
      ap (drop count) content ∙ drop_chain v disk c offset count (d ∷ more) (omega arith) in
    inr (d, more, chain.0, chain.1, rw left at behind)

module _ {S : Type 0} (dev : Device S) (v : VolumeInfo) (disk : ℕ → ℕ → ℕ) (Live : S → Type 0) where
  pub get_next_cluster-chain :
      (c : ℕ) (s : S)
      → Serves dev disk Live
      → IsMounted v
      → Live s
      → ((get_next_cluster dev v c s).0 ≡ chain_next v disk c) × Live (get_next_cluster dev v c s).1
  unfolding get_next_cluster chain_next
  get_next_cluster-chain c s serves m live =
      let place : entry_offset v c + 4 ≤ 512 = entry_place v c m.sectors in
      let (got, live') = serves.partly s (entry_lba v c) (entry_offset v c) 4 live place in
      simp m.ready (elim (Bool-cases (ltb c 2)) [
        | inl low ↦ rw low (refl, live)
        | inr ok ↦ rw ok (elim (Bool-cases (leb (u32 (v.total_clusters + 2)) c)) [
          | inl high ↦ rw high (refl, live)
          | inr inside ↦ rw (inside, got) (refl, live')
        ])
      ])

  -- The sector read of one round gives the next bytes of the chain.
  pub round-bytes :
      (h : FileHandle) (rest : List ℕ) (count : ℕ) (s : S)
      → Serves dev disk Live
      → IsMounted v
      → Live s
      → h.current_offset % 512 + count ≤ 512
      → h.current_offset < v.bytes_per_cluster
      → let r =
          dev.read_partial
            (sector_lba v h)
            (u16 (h.current_offset % v.bytes_per_sector))
            (u16 count)
            s in
        (r.0 ≡ some (take count (chain_bytes v disk h.current_cluster h.current_offset rest)))
        × Live r.1
  unfolding sector_lba
  round-bytes h rest count s serves m live fit inside =
      let at = u16 (h.current_offset % v.bytes_per_sector) in
      let at_eq : at ≡ h.current_offset % 512 =
        ap (λ t. u16 (h.current_offset % t)) m.sectors
        ∙ (let e : u16 (h.current_offset % 512) ≡ h.current_offset % 512 = omega arith in e) in
      let count_eq : u16 count ≡ count = omega arith in
      let lba_eq : sector_lba v h
          ≡ u32 (fat_cluster_to_lba v h.current_cluster + h.current_offset / 512) =
        ap (λ t. u32 (fat_cluster_to_lba v h.current_cluster + h.current_offset / t)) m.sectors in
      let (got, live') = serves.partly s (sector_lba v h) at (u16 count) live (omega arith) in
      let piece : span (disk (sector_lba v h)) at (u16 count)
          ≡ span (cluster_byte v disk h.current_cluster) h.current_offset count =
        (λ i. span (disk (lba_eq i)) (at_eq i) (count_eq i))
        ∙ sector_span v disk h.current_cluster h.current_offset count fit in
      let whole =
        take_chain v disk h.current_cluster h.current_offset count rest
          (omega (arith, m.clusters)) in
      (got ∙ ap some (piece ∙ sym whole), live')
