-- ===== src/Fat32/Card.antt =====
-- The SD card driver as the device of the file system: `parseMBR` and `parseBPB` of
-- src/driver/fs/FAT32.c, which read parts of a block, against whole blocks.
use open_gpos.Base.{ℕ, ◌≡◌, refl, ap, ◌∙◌, Option, none, some, List, arith}
use mathlib.Core.Option
use open_gpos.Sd.Line.{Line}
use open_gpos.Sd.{sd_read_block, sd_read_partial_block}
use open_gpos.Sd.Control.{sd_write_block}
use open_gpos.Sd.Partial.{slice, sd_read_partial_block-slice}
use open_gpos.Fat32.Device.{Device}
use open_gpos.Fat32.Volume.{
  VolumeInfo, mbr_volume, bpb_volume, mbr_read, bpb_read, parse_mbr, parse_bpb,
}

abbrev pub sd_device : Device Line
sd_device = record {
  read_block = sd_read_block;
  read_partial = λ block offset count. sd_read_partial_block block offset count;
  write_block = sd_write_block;
}

-- the partition table of a block 0 that is read, and the parameters of a boot sector
pub mbr_of_block : VolumeInfo → Option (List ℕ) → Option VolumeInfo
mbr_of_block v none = none
mbr_of_block v (some block) = mbr_volume (slice 446 66 block) v

pub bpb_of_block : VolumeInfo → Option (List ℕ) → Option VolumeInfo
bpb_of_block v none = none
bpb_of_block v (some block) = some (bpb_volume (slice 0x0b 41 block) v)

mbr_read-slice :
    (v : VolumeInfo) (o : Option (List ℕ))
    → mbr_read v (Option.map (slice 446 66) o) ≡ mbr_of_block v o
unfolding mbr_read mbr_of_block
mbr_read-slice v none = refl
mbr_read-slice v (some block) = refl

bpb_read-slice :
    (v : VolumeInfo) (o : Option (List ℕ))
    → bpb_read v (Option.map (slice 0x0b 41) o) ≡ bpb_of_block v o
unfolding bpb_read bpb_of_block
bpb_read-slice v none = refl
bpb_read-slice v (some block) = refl

-- On the card driver, `parseMBR` and `parseBPB` give the volume that their tables in the whole block
-- say, and leave the line as the read of the whole block does.
pub parse-sd_device :
    (v : VolumeInfo) (l : Line)
    → let mbr = sd_read_block 0 l in
      let boot = sd_read_block v.volume_start_lba l in
      (parse_mbr sd_device v l ≡ (mbr_of_block v mbr.0, mbr.1))
      × (parse_bpb sd_device v l ≡ (bpb_of_block v boot.0, boot.1))
unfolding parse_mbr parse_bpb
parse-sd_device v l =
    let mbr = sd_read_block 0 l in
    let boot = sd_read_block v.volume_start_lba l in
    (
      ap (λ (r : Option (List ℕ) × Line). (mbr_read v r.0, r.1))
            (sd_read_partial_block-slice 446 66 (omega arith) 0 l)
          ∙ ap (λ (t : Option VolumeInfo). (t, mbr.1)) (mbr_read-slice v mbr.0),
      ap (λ (r : Option (List ℕ) × Line). (bpb_read v r.0, r.1))
            (sd_read_partial_block-slice 0x0b 41 (omega arith) v.volume_start_lba l)
          ∙ ap (λ (t : Option VolumeInfo). (t, boot.1)) (bpb_read-slice v boot.0),
    )
