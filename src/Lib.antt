-- ===== src/Lib.antt =====
-- MatteOS is a kernel for 64-bit RISC-V with its own utility library. This development covers its memory
-- allocators, its page tables, its FAT32 reader, its table of open files, its processes and scheduler, its
-- system calls, its parsers of the device tree and of ELF files, and some of its containers and strings.
-- Paths are from the repository's root; in the list of files and in the files themselves they are from its
-- src.
--
-- The page allocator (src/Kernel/Memory/MemoryManager.cpp, Page.cpp) hands out runs of 4096-byte pages
-- and keeps one status byte for each page. The kernel heap (src/Kernel/Memory/KernelMemoryAllocator.cpp)
-- claims 64 pages from it and serves `kmalloc` and `kfree` by headers that stand in the memory itself;
-- the containers of src/Utils and the file system allocate from it. The file system
-- (src/Kernel/FileSystem/FATFS over BlockBackedFileSystem.h) reads blocks from a device through a cache. A new
-- process gets page tables from the page allocator, and its thread a place in the scheduler's run queue. A
-- system call that waits for the console blocks its thread there until the console's interrupt.
--
-- Files:
--   Base           shared names; Base.Tests: Boolean tests, Base.Lists: lists over the native numbers,
--                  Base.Store: memory as a function
--   Pages          MemoryManager and Page: `init`, `alloc`, `zalloc`, `dealloc`, `get_statistics`.
--                  Pages.Runs: the loops, Pages.FirstFit: `alloc`, Pages.RoundTrip: `dealloc`,
--                  Pages.Usage: the statistics, Pages.Zeroing: `zalloc`
--   Paging         PageTable.cpp, PageTableEntry.cpp, the address types and the mapping functions of
--                  MemoryManager.cpp: `translate`, `map`, `identity_map_range`, `map_range`.
--                  Paging.Entries: entries as words, Paging.Leaf: `map` where tables exist, Paging.Fresh: where
--                  they are allocated, Paging.Region and Paging.Ranges: the loops over pages,
--                  Paging.Defaults: `map_system_defaults` and the linker's symbols
--   Heap           KernelMemoryAllocator: `kmalloc`, `kzmalloc`, `kfree`, `coalesce`, `get_statistics`,
--                  `is_in_freed_memory`. Heap.Blocks: the heap as a list of blocks, with first fit, freeing
--                  and joining on it; Heap.Alloc, Heap.Free, Heap.Usage, Heap.Freed: the operations
--   Errors         Utils/Errors/ErrorOr.h
--   Fat            FATFileSystem and FATInode as far as `read` goes, and the block cache. Fat.Cache: the
--                  cache, Fat.Chain: a file as a chain of clusters, Fat.Position: positions in it,
--                  Fat.Skip and Fat.Loop: the two loops of `read`, Fat.Read: `read`
--   Directories    Directories of that volume: `get_child`, `list_dir`, `get_name` and the entries of FAT.h.
--                  Directories.Short: entries that are not read-only, Directories.Methods: the two methods
--   Arrays         Utils/Arrays/ArrayList.h. Arrays.Cells: a list in its cells, Arrays.Growth: `add` and
--                  copies, Arrays.Queries: `get` and the searches, Arrays.Removal: `remove`
--   Queue          Utils/Arrays/Queue.h. Queue.Links: the chain of elements in memory, Queue.Laws: `append`,
--                  Queue.Ends: `pop` and the peeks, Queue.Rotation: `rotate_left`,
--                  Queue.Copies: copies and `clear`
--   Maps           Utils/Maps/HashMap.h. Maps.Lookup: `get` and `has_key`, Maps.Changes: `set`, `remove`
--   Descriptors    Kernel/FileSystem/FileDescriptorTable.cpp. Descriptors.Slots: the free slot,
--                  Descriptors.Laws: opening and closing
--   Scheduler      Kernel/Process/Scheduler.cpp, which turns the run queue, a queue of Queue, to the next
--                  running thread. Scheduler.Choice: the loop, Scheduler.RoundRobin: `schedule`
--   Processes      Kernel/Process/ProcessManager.cpp and the constructor of Process.h: `get_process`, `get_thread`,
--                  `block`, `unblock`, `create_dummy_process`. Processes.Blocking: blocking and the scheduler,
--                  Processes.Numbers, Processes.Registration and Processes.Creation: new processes
--   Strings        Utils/Strings/String.cpp: comparing strings. Strings.Loops: the loop,
--                  Strings.Comparison: `equals`, `equals_ignore_case`, `starts_with`
--   Numerals       Utils/Basic.cpp: `itoa` and `atoi`. Numerals.Reversal: the exchange of characters,
--                  Numerals.RoundTrip: reading back what was written
--   Paths          `String::split`, and `longest_common_prefix` and `open` of Kernel/FileSystem/VirtualFileSystem.cpp.
--                  Paths.Splitting: `split`, Paths.Prefix: the choice of the mount, Paths.Joining: relative paths
--   Syscalls       Kernel/Syscalls: `handle_open`, `handle_close`, `handle_exit`; Syscalls.Console: `handle_read` down to
--                  the console of Kernel/Devices/Console, Syscalls.Dispatch: `handle_syscall`,
--                  Syscalls.Blocking and Syscalls.Reading: a read that waits and one that finds a
--                  line, Syscalls.Closing: a descriptor that is closed
--   Loader         Kernel/Process/Loader/Loader.cpp: `validate_elf_header` and `parse_modinfo`, and `memcmp` of
--                  Utils/Memory.cpp. Loader.Run: properties in a section, Loader.Grammar: what is
--                  accepted, Loader.Header: the checks of the header
--   DeviceTree     Kernel/Firmware/FDT. DeviceTree.Reserved: `parse_reserve_entries`, DeviceTree.Parser: the state
--                  machine `parse_node`, DeviceTree.Words: words and strings in memory, DeviceTree.Encoding: a tree
--                  as bytes, DeviceTree.Fields, DeviceTree.Rounds, DeviceTree.Children and DeviceTree.RoundTrip:
--                  parsing it, DeviceTree.Search: `find_node` and `find_nodes`, DeviceTree.Positions,
--                  DeviceTree.Lookup and DeviceTree.Collect: recursions for them
--   Buffers        Utils/Arrays/CircularStringBuffer.cpp. Buffers.Contents: `write` and `to_string`
--   Tests          runs on concrete data
--
-- State is passed explicitly: an operation takes the record of its class and returns the new one, and a
-- fault (a read of raw memory, a null pointer, a failed assertion) is `none`. Numbers are the native
-- naturals, and sums and pointers that could wrap carry their modulus. The loops over a counter recur on
-- the rounds left. The walks over headers, the release of a run, the second loop of `read`, the parser
-- of the device tree and its searches take fuel, and `none` or `out_of_fuel` says that it ran out; in the loop of
-- the scheduler this is the inner `none`, and the outer one is a fault. The theorems say which fuel is enough:
-- a round for each block, page or byte, and one more where the loop tests once more.
--
-- The objects of the process manager, the page tables and the memory of the system calls are stores of their own. The
-- registers of a trap frame are bytes of that memory, where a copy to a buffer can overwrite them; that such a copy
-- reaches a page table, or the other members of a trap frame, is not modelled.
--
-- The block device is a parameter, a function from size and offset to bytes or an error, and the hash
-- function and the equality of keys are parameters of the map, and so are the linker's symbols and the
-- addresses that `new` gives to a thread and a process. A mounted file system is known by its functions
-- `exists` and `open`, and to the system calls the whole virtual file system by its `open`; the console's driver is
-- a record of its functions. Not modelled: most of the strings, smart pointers, mounting, the resolution of a
-- path inside a file system, the trap handler, loading a module, and, since they are input and output, console
-- output, the processor's registers, assembly and the firmware's calls.
pub mod Base
pub mod Pages
pub mod Paging
pub mod Heap
pub mod Errors
pub mod Fat
pub mod Arrays
pub mod Queue
pub mod Maps
pub mod Descriptors
pub mod Scheduler
pub mod Processes
pub mod Strings
pub mod Numerals
pub mod Directories
pub mod Paths
pub mod Buffers
pub mod Loader
pub mod DeviceTree
pub mod Syscalls
pub mod Tests
