-- ===== src/Elf.antt =====
-- src/lib/elf/elf.c, `loadELF`, over the file handles of the file system. The memory is of bytes by
-- address; `memcpy`, which starts a DMA transfer, is a parameter, and so is the heap, by the
-- interface `Allocator`. A pointer into the buffer is inside its 2^16 bytes and three, which is what
-- the offset of a little-endian read can reach.
pub mod Headers
pub mod Load
pub mod Loop
pub mod Buffer
pub mod File
pub mod Laws
pub mod HeapMemory
pub mod Boot
mod Tests
use open_gpos.Base.{
  ℕ, zero, suc, ◌+◌, ◌-◌, ◌*◌, ◌^◌, Bool, true, false, not, ◌&&◌, ◌||◌, Option, none, some, List,
  [], ◌∷◌, u32, ltb, ◌==◌, ◌!=◌, if◌then◌else◌,
}
use open_gpos.HexUtils.{read_le16, read_le32}
use open_gpos.Str.Memory.{memset, write}
use open_gpos.Fat32.Device.{Device, span}
use open_gpos.Fat32.Volume.{VolumeInfo}
use open_gpos.Fat32.Handles.{FileHandle, ReadResult, fat32_read, fat32_get_size}
use open_gpos.Fat32.Dir.{LongName}
use open_gpos.Fat32.Path.{fat32_open}

-- The heap: `malloc` gives NULL, which is 0, or a pointer. Both calls read and write the memory, in
-- which the heap has its headers.
pub record Allocator (H : Type 0) : Type 0 where
  pub malloc : ℕ → (ℕ → ℕ) → H → ℕ × (ℕ → ℕ) × H
  pub free : ℕ → (ℕ → ℕ) → H → (ℕ → ℕ) × H

-- what `loadELF` reads and writes: the memory, the heap, the table of handles and the card
pub record Machine (S H : Type 0) : Type 0 where
  pub mem : ℕ → ℕ
  pub heap : H
  pub handles : List FileHandle
  pub card : S

abbrev pub elf_invalid_executable : ℕ
elf_invalid_executable = 1

-- the buffer for a little-endian read
abbrev pub window : (ℕ → ℕ) → ℕ → List ℕ
window mem buffer = span mem buffer 0x10003

-- the header is one of a 32-bit little-endian executable for ARM
unfoldable pub is_executable : (ℕ → ℕ) → ℕ → Bool
is_executable mem buffer =
    if (mem buffer != 0x7f)
      || ((mem (buffer + 1) != 0x45) || ((mem (buffer + 2) != 0x4c) || (mem (buffer + 3) != 0x46)))
    then false
    else if mem (buffer + 0x04) == 2
    then false
    else if mem (buffer + 0x05) == 2
    then false
    else if mem (buffer + 0x10) != 0x02
    then false
    else not (mem (buffer + 0x12) != 0x28)

-- bytes put into a buffer
unfoldable pub store : (ℕ → ℕ) → ℕ → List ℕ → ℕ → ℕ
store mem p [] = mem
store mem p (b ∷ bytes) = store (write mem p b) (p + 1) bytes

-- the number and the table behind `fat32_open`, which returns -1 where it fails
unfoldable pub opened_file : List FileHandle → Option (ℕ × List FileHandle) → ℕ × List FileHandle
opened_file handles none = (2 ^ 32 - 1, handles)
opened_file handles (some r) = r

-- the machine behind `fat32_read`, whose result is not looked at
unfoldable pub filled : {S H : Type 0} → Machine S H → ℕ → Option ReadResult × S → Machine S H
filled m buffer (none, s) = record m { card = s }
filled m buffer (some r, s) = record m {
  mem = store m.mem buffer r.bytes;
  handles = r.handles;
  card = s;
}

module _ (memcpy : (ℕ → ℕ) → ℕ → ℕ → ℕ → ℕ → ℕ) where
  -- the load of a segment of type PT_LOAD
  unfoldable pub load_segment : (ℕ → ℕ) → ℕ → ℕ → ℕ → ℕ → ℕ → ℕ → ℕ
  load_segment mem buffer p_offset p_vaddr p_filesz p_memsz =
      let copied = memcpy mem p_vaddr (u32 (buffer + p_offset)) p_filesz in
      if ltb p_filesz p_memsz
      then (memset copied (u32 (p_vaddr + p_filesz)) 0 (p_memsz - p_filesz)).1
      else copied

  -- a round of the loop, for the program header at `offset`
  unfoldable pub load_header : (ℕ → ℕ) → ℕ → ℕ → ℕ → ℕ
  unfolding load_segment
  load_header mem buffer offset =
      let bytes = window mem buffer in
      if read_le32 bytes offset != 1
      then mem
      else load_segment mem buffer (read_le32 bytes (u32 (offset + 0x04)))
          (read_le32 bytes (u32 (offset + 0x08))) (read_le32 bytes (u32 (offset + 0x10)))
          (read_le32 bytes (u32 (offset + 0x14)))

  -- the loop over the program headers from `i` on
  unfoldable pub load_loop : ℕ → ℕ → (ℕ → ℕ) → ℕ → ℕ → ℕ → ℕ → ℕ
  load_loop zero i mem buffer e_phoff e_phentsize = mem
  load_loop (suc count) i mem buffer e_phoff e_phentsize =
      load_loop count (i + 1) (load_header mem buffer (u32 (e_phoff + i * e_phentsize))) buffer
        e_phoff e_phentsize

  -- `loadELF` behind the checks of the header, but for the call of `free`
  unfoldable pub load_program : (ℕ → ℕ) → ℕ → ℕ → ℕ
  load_program mem buffer =
      let bytes = window mem buffer in
      load_loop (read_le16 bytes 0x2c) 0 mem buffer (read_le32 bytes 0x1c) (read_le16 bytes 0x2a)

  module _ {S H : Type 0} (dev : Device S) (heap : Allocator H) (fresh : LongName → LongName)
      (slot : LongName) (entries : ℕ) (v : VolumeInfo) where
    -- `loadELF` behind `fat32_read`
    unfoldable pub load_buffer : Machine S H → ℕ → ℕ × Machine S H
    load_buffer m buffer =
        if not (is_executable m.mem buffer)
        then (elf_invalid_executable, m)
        else (let (mem, h) = heap.free buffer (load_program m.mem buffer) m.heap in
            (read_le32 (window m.mem buffer) 0x18, record m { mem = mem; heap = h }))

    -- `loadELF` behind `fat32_open`
    unfoldable pub load_file : Machine S H → ℕ → ℕ × Machine S H
    load_file m file_id =
        let size = fat32_get_size m.handles file_id in
        let (buffer, mem, h) = heap.malloc size m.mem m.heap in
        let m' : Machine S H = record m { mem = mem; heap = h } in
        if buffer == 0
        then (2, m')
        else load_buffer (filled m' buffer (fat32_read dev v m'.handles file_id size m'.card))
            buffer

    -- `loadELF`
    unfoldable pub load_elf : List ℕ → Machine S H → ℕ × Machine S H
    load_elf path m =
        let (r, s) = fat32_open dev fresh slot entries v m.handles path 0 m.card in
        let (file_id, handles) = opened_file m.handles r in
        load_file (record m { handles = handles; card = s }) file_id
