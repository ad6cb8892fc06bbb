-- ===== src/Fat32/Mount.antt =====
-- `fat32_init` of src/driver/fs/FAT32.c on a card that serves its reads.
use open_gpos.Base.{ℕ, ◌≡◌, refl, ap, ◌∙◌, true, some, List, ◌∷◌, map, arith}
use open_gpos.Fat32.Device.{Device, Serves, span}
use open_gpos.Fat32.Volume.{
  VolumeInfo, mbr_volume, bpb_volume, mbr_read, bpb_read, parse_mbr, parse_bpb,
}
use open_gpos.Fat32.Handles.{FileHandle, fat32_init, init_volume, init_handles, free_handle}

-- the table of handles behind `fat32_init`
abbrev pub freed : List FileHandle → List FileHandle
freed handles = map (λ (h : FileHandle). record h { is_free = true }) handles

-- The volume that the first sector and the boot sector describe.
abbrev pub Describes : (ℕ → ℕ → ℕ) → VolumeInfo → VolumeInfo → VolumeInfo → Type 0
Describes disk v partition volume =
    (mbr_volume (span (disk 0) 446 66) v ≡ some partition)
    × (bpb_volume (span (disk partition.volume_start_lba) 0x0b 41) partition ≡ volume)

mbr_read-some : (v : VolumeInfo) (bytes : List ℕ) → mbr_read v (some bytes) ≡ mbr_volume bytes v
unfolding mbr_read
mbr_read-some v bytes = refl

bpb_read-some :
    (v : VolumeInfo) (bytes : List ℕ) → bpb_read v (some bytes) ≡ some (bpb_volume bytes v)
unfolding bpb_read
bpb_read-some v bytes = refl

pub fat32_init-mounts :
    {S : Type 0} (dev : Device S) (disk : ℕ → ℕ → ℕ) (Live : S → Type 0)
    (v partition volume : VolumeInfo) (handles : List FileHandle) (s : S)
    → Serves dev disk Live
    → Live s
    → Describes disk v partition volume
    → (s' : S) × (fat32_init dev v handles s ≡ ((true, volume, freed handles), s')) × Live s'
unfolding fat32_init init_volume init_handles parse_mbr parse_bpb
fat32_init-mounts dev disk Live v partition volume handles s serves live (found, described) =
    let mbr = serves.partly s 0 446 66 live (omega arith) in
    let s1 = (dev.read_partial 0 446 66 s).1 in
    let start = partition.volume_start_lba in
    let boot = serves.partly s1 start 0x0b 41 mbr.1 (omega arith) in
    let e1 : (parse_mbr dev v s).0 ≡ some partition =
      ap (mbr_read v) mbr.0 ∙ mbr_read-some v (span (disk 0) 446 66) ∙ found in
    let e2 : (parse_bpb dev partition s1).0 ≡ some volume =
      ap (bpb_read partition) boot.0
      ∙ bpb_read-some partition (span (disk start) 0x0b 41)
      ∙ ap some described in
    (
      (dev.read_partial start 0x0b 41 s1).1,
      ap (λ t. init_volume dev v handles t s1) e1
          ∙ ap (λ t. (init_handles dev partition handles t, (dev.read_partial start 0x0b 41 s1).1))
              e2,
      boot.1,
    )

pub free_handle-freed :
    (h : FileHandle) (handles : List FileHandle) → free_handle (freed (h ∷ handles)) 0 ≡ some 0
unfolding free_handle
free_handle-freed h handles = refl
