-- ===== src/Lib.antt =====
-- The verification library of openGPOS, a small operating system for the RP2040. The program
-- boots from flash, mounts a FAT32 volume on an SD card, and loads and runs an executable from
-- it. Modelled here are the parts that carry its logic. Numbers are natural numbers, and the
-- wrap-around of a machine type is written out; a pointer is its address, and NULL is 0.
--
-- Heap: libc/src/stdlib/heap.c, `malloc`, `free`, `realloc` and `init_malloc`. The memory is a
-- map from addresses to headers (`memory_space_t`) beside the payload bytes, and an access to an
-- address without a header is a fault. Heap/Blocks is the abstract heap, a list of blocks, and
-- Heap/Chain says when the headers in memory are that list. Heap/Merge, Split, Find, Malloc and
-- Free relate each function to its abstract counterpart; Heap/Linked and Heap/Coalesced are
-- about `prev` pointers and free neighbours; Heap/Laws joins them. The loop of `find_free_space`
-- has as fuel the nodes that it may visit: more than the blocks behind the first is enough.
-- `memcpy`, which starts a DMA transfer, is a parameter of `realloc`, and a copy of more bytes than
-- the new payload has, which would run over a header, is a fault.
-- Sd: src/lib/sd/SD.c. The card's answers are an arbitrary endless sequence of bytes, and the
-- code is a function of that sequence, which records what it sends (Sd/Line). The timeouts of
-- the source bound its loops, so that none needs more fuel. Sd/Control is the initialisation,
-- the shutdown and the block write; Sd holds the block reads.
-- Fat32: src/driver/fs/FAT32.c and FAT32.h. Fat32/Device is the interface to the card driver: a
-- whole block, a part of a block, a write, each of which may fail. Fat32/Volume is the mount
-- (`parseMBR`, `parseBPB`), Fat32/BootSector is about the places of the parameters in the boot
-- sector, Fat32/Card puts the card driver in, Fat32/Chain the FAT and the
-- clusters, Fat32/Handles the open files, Fat32/Names the names of directory entries.
-- Fat32/Stream says which bytes a cluster chain holds on the disk, Fat32/Round, Read and Open
-- are about reads through a handle, Fat32/Padding and LongName about names. The read loop has as
-- fuel the bytes that are left: each round copies one at least. Results of theorems about reads
-- are for a card in a state in which reads succeed (`Serves`).
-- Fat32/Dir is the directory iterator (`fat_read_next_dir_entry`), Fat32/Path the search for a
-- path (`get_file`) and `fat32_open`. Their fuel is for the entries of a directory: one more than
-- it has is enough, and a FAT whose chain is a cycle has no end. `lfn_buffer` and
-- `lfn_parts_found`, which have no initial value in the source, are parameters: `slot` is what a
-- call finds in them, `fresh` what a round finds of what the last one left. Fat32/Listing says
-- which entries a directory has on the disk and where an iterator stands in them, Fat32/Walk is
-- about the load of a sector, Fat32/Scan about the next file. Fat32/Lookup says which file a path
-- names on the disk, and Fat32/Get and GetFile are about the search and the opening of a file.
-- Fat32/Assemble, LongEntries, LongRound and LongFile are about long names.
-- HexUtils: src/lib/util/hexutils.c and hexutils.h, the little-endian reads that the file system
-- uses and the number printers. `intToDec` has fuel for the 12 characters of its buffer.
-- Crc32: src/arch/arm_cortexm/rp2040/boot2/compCrc32.c, the checksum of the boot stage. Crc32/Main
-- is `main`, whose C library is the record `Stdio`. Crc32/Division is about the division by the
-- polynomial, Crc32/Output about what `main` leaves behind.
-- Str: libc/src/string on a memory of unsigned bytes. Str holds `strlen` and `strcmp`, Str/Memory
-- `memset`, `strncpy`, `strncat`, `strchr` and `strtok`; Str/Laws, Copy, Append and Split are
-- about strings that end (`IsString`). The fuel is the characters that a loop visits; the length
-- of the string and one is enough.
-- Elf: src/lib/elf/elf.c, `loadELF`, from `fat32_open` to the segments in memory. `malloc` and
-- `free` are the interface `Allocator`, which works on the memory of the segments too, and the DMA
-- transfer of `memcpy` is a parameter.
-- Elf/Headers says what image a file asks for, Elf/Load and Loop are about one segment and about
-- the loop, Elf/Buffer and File about the buffer of the file, Elf/Laws about the whole call.
-- Poll is a wait for the hardware, whose fuel is the reads of a register, and says when it is
-- enough (`Ends`). Uart: src/driver/uart/uart.c over arbitrary sequences of what the flag and the
-- data register give. Uart/Wait is about sending, Uart/Laws about the strings that go out and
-- come in, and the baud rate.
-- Spi: src/driver/spi/spi.c over a controller whose registers are parameters. Spi/Controller holds
-- what it documents of them, as hypotheses (`Documents`), with bounds on the reads of its status in
-- which it makes room and ends its transfers, which are the fuel. Spi/Laws is about the transfer
-- of a
-- buffer, Spi/Carries about the line of Sd/Line, which the SPI driver carries out.
-- Dma: src/driver/dma/dma.c, the words that configure a channel and the start of a transfer.
-- Dma/Fields is the arithmetic of a bit field, Dma/Laws is about the setters, Dma/Start about the
-- wait for a channel and the writes to its registers.
-- Syscall: src/kernel/syscall.c, the dispatcher of system calls over the UART.
-- Base: what the modules share, over the native numbers.
-- Unistd: libc/src/unistd, `usleep` and `sleep` over what the registers of the timer show.
-- Startup: `SystemInit` in src/arch/arm_cortexm/rp2040/system_rp2040.c and `resetSubsys` in
-- src/kernel/main.c, lists of accesses to registers by their address, with the fuel of Poll in each
-- wait. Startup/Waits is about a run of accesses and its waits, Startup/Words about the bits that
-- the
-- masks change, Startup/Laws about the whole start. Elf/Boot is the load of the first program in
-- src/kernel/main.c, from `init_malloc`
-- and `fat32_init` to `loadELF`, where the interface `Allocator` of the loader is the heap of Heap
-- (Elf/HeapMemory): how its headers lie in bytes in the memory is a parameter (`Layout`), and a
-- call
-- that finds other bytes there than the last one left is a fault;
-- Fat32/Mount is about `fat32_init`, Heap/Whole is about a heap of one
-- free block, Heap/Moved about `realloc`.
--
-- Not modelled: the C library's `write` and the assembly that enters a system call; the process
-- table
-- (src/kernel/process.c), which does not compile; what the DMA hardware copies; the vector table,
-- the
-- copy of the initial memory and the set-up of the flash at the start, and all other assembly.
mod Base
pub mod Crc32
pub mod Dma
pub mod Elf
pub mod Fat32
pub mod Heap
pub mod HexUtils
pub mod Poll
pub mod Sd
pub mod Spi
pub mod Startup
pub mod Str
pub mod Syscall
pub mod Uart
pub mod Unistd
