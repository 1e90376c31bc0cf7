-- ===== src/Lib.antt =====
-- hausboot: a verification library for the boot loader and its image tools.
--
-- The program boots a PC from a FAT32 partition. The boot sector of the disk (mbr/mbr.cpp) finds
-- the bootable partition and calls its boot sector (vbr/vbr.cpp), which loads and verifies
-- stage 2. Stage 2 has a heap (stage2/heap.cpp) and a reader of the file system (include/fs),
-- and loads a multiboot kernel. On a host, tools/installfat.cpp writes the partition's boot sector
-- and stage 2 into an image, and tools/fatedit.cpp edits its files and directories.
--
-- Base: shared names, lists, tests on numbers and laws of the bit operations.
--   `Slice` has the lemmas on parts of a list and on bytes that are written over others.
-- Types: include/types. A packed integer is its list of bytes, a flag set a number, a padded
--   string a list of bytes.
-- StringUtil: include/StringUtil.h. A C string is a list of bytes up to a NUL or the list's end.
-- Part: include/part and include/BIOS/BiosDisk.h. The interrupt itself is not modelled; the
--   registers that go in and come out are. `BiosDevice` is BIOS/BIOSBlockDevice.h, which serves a
--   partition as a block device.
-- Device: include/device/IBlockDevice.h, an interface that its clients take as a parameter.
--   `Gate` is device/io.h, device/SysCtrl.h, device/PS2Controller.h and lib/pm86/a20.cpp: the
--   ports and the two bytes of memory are a machine that its operations take as a parameter.
-- Host: include/host/File.h. The system calls are parameters, with what they document as laws.
-- Fs: include/fs. `FatName` and `ShortName` for names, `FatDirent` for entries, `FatSuper` for the
--   super block, `FatDirentLong` for long names and the sector with the free clusters, `FatFs` for
--   the reader with its two cached windows, which is passed as state.
-- Heap: stage2/heap.cpp. The entries in memory are a store from addresses to entries; `Chain`
--   relates a store to a list of blocks, the abstract heap.
-- Boot: include/Stage2Header.h, mbr/mbr.cpp and vbr/vbr.cpp. Stage 2 in memory is a function from
--   the index of a word to the word. The services of the BIOS are parameters.
-- Pm86: lib/pm86/copy.cpp, on memory as a function from addresses to bytes.
-- CxxAbi: lib/cxxabi/cxxabi.cpp. A call of a destructor is an event.
-- MultiBoot: include/kernel/MultiBootHeader.h and include/BIOS/MemoryMap.h. The interrupt that
--   hands out the memory map is a parameter. `Info` is kernel/MultiBootInfo.h and
--   kernel/MultiBootMmap.h, with the two ends that use them: `MBGenInfo` of stage2/stage2.cpp and
--   `PrintMemoryMap` of kernel/kernel.cpp. The 64-bit reads of the fields of an entry shift an `int`
--   by 32 and more, which C++ does not define; what they give is a parameter.
-- Screen: include/device/TextScreen.h and include/device/VideoMemory.h.
-- Stage2: stage2/stage2.cpp. `Kernel` is the search and the load of a kernel, over reads of the
--   file that are a parameter; `Script` is the interpreter, over commands that are a parameter;
--   `Main` is the commands and the main function, which put the reader, the interpreter and the
--   loading of a kernel together.
-- Fatedit: tools/fatedit.cpp and tools/util.h. `Outcome` is the image, an interface with the state
--   of the host's file, and what a call gives: a result, a refusal, an exception, or no end within
--   the fuel. `FatReader` is the table, `Table` its way to and from the image,
--   where an offset of type `int` that is negative makes the call throw, `FileReader` and
--   `FileWriter` are the classes of these names, `Directory` is `ScanDirectory`, `Commands` are the
--   functions behind the commands, `Session` is `main`. `Memory` is a list of bytes as an image,
--   for the tests.
-- Installfat: tools/installfat.cpp, over the same interface of an image.
--
-- Loops that the data does not bound run on fuel: the chain of clusters in `FatFs.read_loop`, for
-- which the offset and the size and one round more are enough; the list of blocks in `find_loop` and
-- `merge_loop`, for which the number of blocks and one more is enough; the string in `split_loop`
-- and `run_loop`, for which its length and one more is enough; the bytes asked for in the tools'
-- `read_loop`, one round each and one more; the bytes appended in `append_loop`, two rounds each and
-- one more, one to link a cluster and one to write; the entries in `scan_loop`, one round for every
-- 32 bytes of the size and one more; the bytes and the signals in the loops of Host/File, one round
-- each and one more; the searched part of the kernel's file in `search_loop`, one round for each of
-- its bytes and one more; the entries in the walk of `PrintMemoryMap`, one round each and one more;
-- the kernel's file in `copy_loop`, whose fuel is the caller's; the cells in `blank_loop`, for
-- which nothing is enough. The polling loops of Device/Gate count as the source counts.
--
-- Not modelled: the assembly, and the ports, the BIOS and the system calls themselves, which are
-- outside the source's logic; the ownership of descriptors and pointers (include/host/File.h,
-- include/types/UniquePtr.h) and the padding of include/types/ByteBlob.h; the proxies of
-- include/types/FlagField.h; the strings of include/device/TextScreen.h and all of
-- include/BIOS/BIOSTextMode.h, which only print; the entry of kernel/kernel.cpp.
pub mod Base
pub mod Types
pub mod StringUtil
pub mod Part
pub mod Device
pub mod Heap
pub mod Installfat
pub mod Host
pub mod Fs
pub mod Boot
pub mod Pm86
pub mod Fatedit
pub mod MultiBoot
pub mod CxxAbi
pub mod Screen
pub mod Stage2
