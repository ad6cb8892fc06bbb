-- ===== src/Fat32/Handles.antt =====
-- The handles of open files in src/driver/fs/FAT32.c: reading through one, closing, and the size.
-- The table is a list of `MAX_OPEN_FILES` handles. A read returns the bytes that it puts into the
-- buffer, from its start on; the buffer is not NULL.
use open_gpos.Base.{
  ℕ, zero, suc, ◌+◌, ◌-◌, ◌/◌, ◌%◌, ◌^◌, Bool, true, false, not, Option, none, some, List, [], ◌∷◌,
  ◌++◌, map, u16, u32, ltb, leb, ◌==◌, if◌then◌else◌, get_elem?, set,
}
use open_gpos.Fat32.Device.{Device, Step, pure, ◌>>=◌}
use open_gpos.Fat32.Volume.{VolumeInfo, parse_mbr, parse_bpb}
use open_gpos.Fat32.Chain.{
  FatError, success, read_fail, end_of_chain, not_initialized, Next, next, stop, get_next_cluster,
  fat_cluster_to_lba,
}

-- `file_handle_t`
pub record FileHandle : Type 0 where
  pub cluster_start : ℕ
  pub current_cluster : ℕ
  pub current_offset : ℕ
  pub file_size : ℕ
  pub current_file_pos : ℕ
  pub is_free : Bool
  pub mode : ℕ

abbrev pub max_open_files : ℕ
max_open_files = 16

-- `min` of two numbers of 32 bits, which it takes for `int`s
unfoldable pub int_min : ℕ → ℕ → ℕ
int_min a b = if ltb (u32 (a + 2 ^ 31)) (u32 (b + 2 ^ 31)) then a else b

-- The end of a read: the code, the bytes put into the buffer, and the handle; or no fuel.
pub data Reading : Type 0 where
  finished : FatError → List ℕ → FileHandle → Reading
  out_of_fuel : Reading

unfoldable pub prepend : List ℕ → Reading → Reading
prepend bytes (finished e more h) = finished e (bytes ++ more) h
prepend bytes out_of_fuel = out_of_fuel

-- the handle behind the bytes of one sector
unfoldable pub moved : ℕ → FileHandle → FileHandle
moved bytes_to_copy h = record h {
  current_file_pos = u32 (h.current_file_pos + bytes_to_copy);
  current_offset = u32 (h.current_offset + bytes_to_copy);
}

unfoldable pub sector_lba : VolumeInfo → FileHandle → ℕ
sector_lba v h =
    u32 (fat_cluster_to_lba v h.current_cluster + h.current_offset / v.bytes_per_sector)

unfoldable pub bytes_to_copy : VolumeInfo → FileHandle → ℕ → ℕ
unfolding int_min
bytes_to_copy v h bytes_left =
    int_min bytes_left (v.bytes_per_sector - h.current_offset % v.bytes_per_sector)

-- the loop's end where there is no next cluster: the end of the chain is the end of the file
unfoldable pub stopped : FatError → List ℕ → FileHandle → Reading
stopped end_of_chain bytes h = finished success bytes h
stopped e bytes h = finished e bytes h

module _ {S : Type 0} (dev : Device S) where
  -- the loop behind the end of a cluster, for what `getNextCluster` returns
  unfoldable pub change_cluster :
      (FileHandle → Step S Reading) → List ℕ → FileHandle → Next → Step S Reading
  change_cluster again bytes h (next c) = do
    rest ← again (record h { current_cluster = c; current_offset = 0 })
    pure (prepend bytes rest)
  change_cluster again bytes h (stop e) = pure (stopped e bytes h)

  -- The rest of a round behind the sector read, `again` being the loop: the handle moves on.
  unfoldable pub round_end :
      (FileHandle → Step S Reading) → VolumeInfo → FileHandle → ℕ → Option (List ℕ) → Step S Reading
  unfolding change_cluster
  round_end again v h count none = pure (finished read_fail [] h)
  round_end again v h count (some bytes) =
      let h' = moved count h in
      if leb v.bytes_per_cluster h'.current_offset
      then (get_next_cluster dev v h'.current_cluster >>= change_cluster again bytes h')
      else (again h' >>= λ rest. pure (prepend bytes rest))

  -- The loop of `fat_read_file`, with `actual_bytes_to_read - bytes_read_total` bytes left. Each
  -- round copies a byte at least, so that as much fuel is enough.
  unfoldable pub read_loop : ℕ → VolumeInfo → ℕ → FileHandle → Step S Reading
  unfolding round_end
  read_loop zero v bytes_left h s =
      (if bytes_left == 0 then finished success [] h else out_of_fuel, s)
  read_loop (suc fuel) v bytes_left h s =
      let count = bytes_to_copy v h bytes_left in
      let r =
        dev.read_partial (sector_lba v h) (u16 (h.current_offset % v.bytes_per_sector)) (u16 count)
          s in
      let again = λ (h' : FileHandle). read_loop fuel v (bytes_left - count) h' in
      if bytes_left == 0 then (finished success [] h, s) else round_end again v h count r.0 r.1

  -- `fat_read_file` on an open handle
  unfoldable pub read_handle : VolumeInfo → FileHandle → ℕ → Step S Reading
  unfolding int_min
  read_handle v h bytes_to_read =
      if not v.is_initialized
      then pure (finished not_initialized [] h)
      else let actual = int_min bytes_to_read (u32 (h.file_size + 2 ^ 32 - h.current_file_pos)) in
        read_loop actual v actual h

-- what `fat32_read` returns and puts into the buffer
pub record ReadResult : Type 0 where
  pub ok : Bool
  pub bytes : List ℕ
  pub handles : List FileHandle

unfoldable pub is_success : FatError → Bool
is_success success = true
is_success _ = false

unfoldable pub read_result : ℕ → List FileHandle → Reading → Option ReadResult
unfolding is_success
read_result file_id handles (finished e bytes h) =
    some (record { ok = is_success e; bytes = bytes; handles = set handles file_id h })
read_result file_id handles out_of_fuel = none

module _ {S : Type 0} (dev : Device S) where
  -- `fat32_read` for the handle that the table has, if it has one
  unfoldable pub read_open :
      VolumeInfo → List FileHandle → ℕ → ℕ → Option FileHandle → Step S (Option ReadResult)
  read_open v handles file_id bytes_to_read none s =
      (some (record { ok = false; bytes = []; handles = handles }), s)
  read_open v handles file_id bytes_to_read (some h) s =
      let r = read_handle dev v h bytes_to_read s in
      if h.is_free
      then (some (record { ok = false; bytes = []; handles = handles }), s)
      else (read_result file_id handles r.0, r.1)

  -- `fat32_read`; nothing where the fuel runs out
  unfoldable pub fat32_read : VolumeInfo → List FileHandle → ℕ → ℕ → Step S (Option ReadResult)
  unfolding read_open
  fat32_read v handles file_id bytes_to_read =
      read_open v handles file_id bytes_to_read (get_elem? handles file_id)

  -- "init handles", where `parseBPB` has succeeded
  unfoldable pub init_handles :
      VolumeInfo → List FileHandle → Option VolumeInfo → Bool × VolumeInfo × List FileHandle
  init_handles v handles none = (false, v, handles)
  init_handles v handles (some v2) =
      (true, v2, map (λ (h : FileHandle). record h { is_free = true }) handles)

  -- `fat32_init` behind `parseMBR`
  unfoldable pub init_volume :
      VolumeInfo
      → List FileHandle
      → Option VolumeInfo
      → Step S (Bool × VolumeInfo × List FileHandle)
  unfolding init_handles
  init_volume v handles none s = ((false, v, handles), s)
  init_volume v handles (some v1) s =
      (init_handles v1 handles (parse_bpb dev v1 s).0, (parse_bpb dev v1 s).1)

  -- `fat32_init`: its result, the volume and the handles. Where the boot sector is not read, the
  -- volume keeps the partition that was found.
  unfoldable pub fat32_init :
      VolumeInfo → List FileHandle → Step S (Bool × VolumeInfo × List FileHandle)
  unfolding init_volume
  fat32_init v handles s = init_volume v handles (parse_mbr dev v s).0 (parse_mbr dev v s).1

-- `fat32_close`
unfoldable pub fat32_close : List FileHandle → ℕ → Bool × List FileHandle
fat32_close handles file_id = elim (get_elem? handles file_id) [
  | none ↦ (false, handles)
  | some h ↦ (true, set handles file_id (record h { is_free = true }))
]

-- `fat32_get_size`
unfoldable pub fat32_get_size : List FileHandle → ℕ → ℕ
fat32_get_size handles file_id = elim (get_elem? handles file_id) [
  | none ↦ 0
  | some h ↦ h.file_size
]

-- the loop of `fat32_open` over the table, from `i` on: the first free handle
unfoldable pub free_handle : List FileHandle → ℕ → Option ℕ
free_handle [] i = none
free_handle (h ∷ handles) i =
    let rest = free_handle handles (i + 1) in if h.is_free then some i else rest

-- The second half of `fat32_open`, behind `get_file`: a free handle is filled. The handle's number
-- and the table, or nothing where no handle is free.
unfoldable pub open_handle : List FileHandle → ℕ → ℕ → ℕ → Option (ℕ × List FileHandle)
unfolding free_handle
open_handle handles first_cluster file_size mode = elim (free_handle handles 0) [
  | none ↦ none
  | some i ↦ some (
    i,
    set handles i (record {
      cluster_start = first_cluster;
      current_cluster = first_cluster;
      current_offset = 0;
      file_size = file_size;
      current_file_pos = 0;
      is_free = false;
      mode = mode;
    }),
  )
]
