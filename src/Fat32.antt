-- ===== src/Fat32.antt =====
-- src/driver/fs/FAT32.c and FAT32.h: the volume, the cluster chain, and the handles of open files,
-- over the block reads of the SD card driver. The global `g_fat32_volume_info` is an argument, and
-- so is the table of handles.
pub mod Device
pub mod Volume
pub mod Chain
pub mod Handles
pub mod Stream
pub mod Names
pub mod Padding
pub mod LongName
pub mod Card
pub mod Dir
pub mod Path
pub mod Listing
pub mod Walk
pub mod Scan
pub mod Assemble
pub mod LongEntries
pub mod LongRound
pub mod LongFile
pub mod Lookup
pub mod Get
pub mod GetFile
pub mod Round
pub mod Read
pub mod Open
pub mod Mount
pub mod BootSector
pub mod Tests
pub mod PathTests
mod LongTests
