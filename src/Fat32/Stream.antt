-- ===== src/Fat32/Stream.antt =====
-- A file as the bytes of its cluster chain on the disk, and its reads as pieces of that: the claim
-- of `fat_read_file` in src/driver/fs/FAT32.c.
use open_gpos.Base.{
  ℕ, zero, suc, ◌+◌, ◌-◌, ◌*◌, ◌/◌, ◌%◌, ◌<◌, ◌≤◌, true, some, List, [], ◌∷◌, ◌++◌, ◌≡◌, ◌⊎◌, refl,
  ap, arith, u32, ltb, leb, if◌then◌else◌, take, drop, length, append-nil,
}
use open_gpos.Fat32.Device.{span}
use open_gpos.Fat32.Volume.{VolumeInfo}
use open_gpos.Fat32.Chain.{
  end_of_chain, invalid_cluster, Next, next, stop, entry_of, entry_lba, entry_offset,
  fat_cluster_to_lba,
}
use open_gpos.Fat32.Handles.{FileHandle}

-- What the FAT on the disk says about a cluster of an initialised volume.
unfoldable pub chain_next : VolumeInfo → (ℕ → ℕ → ℕ) → ℕ → Next
chain_next v disk c =
    if ltb c 2
    then stop invalid_cluster
    else if leb (u32 (v.total_clusters + 2)) c
    then stop invalid_cluster
    else entry_of (some (span (disk (entry_lba v c)) (entry_offset v c) 4))

-- The clusters `c ∷ rest` are linked in the FAT, up to an end mark.
unfoldable pub IsChain : VolumeInfo → (ℕ → ℕ → ℕ) → ℕ → List ℕ → Type 0
IsChain v disk c [] = chain_next v disk c ≡ stop end_of_chain
IsChain v disk c (d ∷ rest) = (chain_next v disk c ≡ next d) × IsChain v disk d rest

-- byte `i` of a cluster
unfoldable pub cluster_byte : VolumeInfo → (ℕ → ℕ → ℕ) → ℕ → ℕ → ℕ
cluster_byte v disk c i = disk (u32 (fat_cluster_to_lba v c + i / 512)) (i % 512)

-- The bytes of the chain `c ∷ rest`, from byte `offset` of its first cluster on.
unfoldable pub chain_bytes : VolumeInfo → (ℕ → ℕ → ℕ) → ℕ → ℕ → List ℕ → List ℕ
chain_bytes v disk c offset [] = span (cluster_byte v disk c) offset (v.bytes_per_cluster - offset)
chain_bytes v disk c offset (d ∷ rest) =
    span (cluster_byte v disk c) offset (v.bytes_per_cluster - offset)
    ++ chain_bytes v disk d 0 rest

-- A volume with sectors of 512 bytes, as `fat32_init` leaves it.
pub record IsMounted (v : VolumeInfo) : Type 0 where
  pub ready : v.is_initialized ≡ true
  pub sectors : v.bytes_per_sector ≡ 512
  pub clusters : v.bytes_per_cluster ≡ v.sectors_per_cluster * 512
  pub some_sectors : 0 < v.sectors_per_cluster
  pub byte_sized : v.sectors_per_cluster < 256

-- A handle stands in front of the bytes `bytes` of a chain: within a cluster, or behind the last.
pub record Stands (v : VolumeInfo) (disk : ℕ → ℕ → ℕ) (h : FileHandle) (bytes : List ℕ)
    : Type 0 where
  pub rest : List ℕ
  pub chain : IsChain v disk h.current_cluster rest
  pub place : (h.current_offset < v.bytes_per_cluster) ⊎ (bytes ≡ [])
  pub content : bytes ≡ chain_bytes v disk h.current_cluster h.current_offset rest

pub length-span : (f : ℕ → ℕ) (i n : ℕ) → length (span f i n) ≡ n
length-span f i zero = refl
length-span f i (suc n) = ap suc (length-span f (i + 1) n)

take-span :
    (m n : ℕ) (f : ℕ → ℕ) (i : ℕ) (ys : List ℕ) → m ≤ n → take m (span f i n ++ ys) ≡ span f i m
take-span zero n f i ys h = refl
take-span (suc m) zero f i ys h = absurd (omega arith)
take-span (suc m) (suc n) f i ys h = ap (λ t. f i ∷ t) (take-span m n f (i + 1) ys (omega arith))

drop-span :
    (m n : ℕ) (f : ℕ → ℕ) (i : ℕ) (ys : List ℕ)
    → m ≤ n
    → drop m (span f i n ++ ys) ≡ span f (i + m) (n - m) ++ ys
drop-span zero n f i ys h =
    let e : n - 0 ≡ n = omega arith in let e' : i + 0 ≡ i = omega arith in rw (e, e') refl
drop-span (suc m) zero f i ys h = absurd (omega arith)
drop-span (suc m) (suc n) f i ys h =
    let e : suc n - suc m ≡ n - m = omega arith in
    let e' : i + suc m ≡ i + 1 + m = omega arith in
    rw (e, e') (drop-span m n f (i + 1) ys (omega arith))

span-ext :
    (n : ℕ) (f g : ℕ → ℕ) (i j : ℕ)
    → ((k : ℕ) → k < n → f (i + k) ≡ g (j + k))
    → span f i n ≡ span g j n
span-ext zero f g i j h = refl
span-ext (suc n) f g i j h =
    let i0 : i + 0 ≡ i = omega arith in
    let j0 : j + 0 ≡ j = omega arith in
    let first : f i ≡ g j = rw (i0, j0) at (h 0 (omega arith)) in
    rw first (
      ap (λ t. g j ∷ t)
        (span-ext n f g (i + 1) (j + 1) λ k l.
          let i1 : i + suc k ≡ i + 1 + k = omega arith in
          let j1 : j + suc k ≡ j + 1 + k = omega arith in rw (i1, j1) at (h (suc k) (omega arith))))

-- a piece of one sector is a piece of the cluster
pub sector_span :
    (v : VolumeInfo) (disk : ℕ → ℕ → ℕ) (c offset n : ℕ)
    → offset % 512 + n ≤ 512
    → span (disk (u32 (fat_cluster_to_lba v c + offset / 512))) (offset % 512) n
      ≡ span (cluster_byte v disk c) offset n
unfolding cluster_byte
sector_span v disk c offset n h = span-ext n _ _ (offset % 512) offset λ k l.
    let same : (offset + k) / 512 ≡ offset / 512 = omega arith in
    let place : (offset + k) % 512 ≡ offset % 512 + k = omega arith in rw (same, place) refl

pub take_sum :
    {A : Type 0} (m n : ℕ) (xs : List A) → take (m + n) xs ≡ take m xs ++ take n (drop m xs)
take_sum zero n xs = let e : 0 + n ≡ n = omega arith in rw e refl
take_sum (suc m) zero [] = let e : suc m + 0 ≡ suc m = omega arith in rw e refl
take_sum (suc m) (suc n) [] = let e : suc m + suc n ≡ suc (m + suc n) = omega arith in rw e refl
take_sum (suc m) n (x ∷ xs) =
    let e : suc m + n ≡ suc (m + n) = omega arith in rw e (ap (λ t. x ∷ t) (take_sum m n xs))

drop_nil : {A : Type 0} (n : ℕ) → ◌≡◌ {A = List A} (drop n []) []
drop_nil zero = refl
drop_nil (suc n) = refl

pub drop_sum : {A : Type 0} (m n : ℕ) (xs : List A) → drop (m + n) xs ≡ drop n (drop m xs)
drop_sum zero n xs = let e : 0 + n ≡ n = omega arith in rw e refl
drop_sum (suc m) n [] = rw (drop_nil (suc m + n), drop_nil n) refl
drop_sum (suc m) n (x ∷ xs) =
    let e : suc m + n ≡ suc (m + n) = omega arith in rw e (drop_sum m n xs)

module _ (v : VolumeInfo) (disk : ℕ → ℕ → ℕ) (c offset count : ℕ) where
  pub take_chain :
      (rest : List ℕ)
      → offset + count ≤ v.bytes_per_cluster
      → take count (chain_bytes v disk c offset rest) ≡ span (cluster_byte v disk c) offset count
  unfolding chain_bytes
  take_chain [] h = rw append-nil at (
      take-span count (v.bytes_per_cluster - offset) (cluster_byte v disk c) offset []
        (omega arith))
  take_chain (d ∷ rest) h =
      take-span count (v.bytes_per_cluster - offset) (cluster_byte v disk c) offset
        (chain_bytes v disk d 0 rest) (omega arith)

  pub drop_chain :
      (rest : List ℕ)
      → offset + count ≤ v.bytes_per_cluster
      → drop count (chain_bytes v disk c offset rest) ≡ chain_bytes v disk c (offset + count) rest
  unfolding chain_bytes
  drop_chain [] h =
      let e : v.bytes_per_cluster - offset - count ≡ v.bytes_per_cluster - (offset + count) =
        omega arith in
      rw (append-nil, append-nil, e) at
        (drop-span count (v.bytes_per_cluster - offset) (cluster_byte v disk c) offset []
          (omega arith))
  drop_chain (d ∷ rest) h =
      let e : v.bytes_per_cluster - offset - count ≡ v.bytes_per_cluster - (offset + count) =
        omega arith in
      rw e at (
        drop-span count (v.bytes_per_cluster - offset) (cluster_byte v disk c) offset
          (chain_bytes v disk d 0 rest) (omega arith))
