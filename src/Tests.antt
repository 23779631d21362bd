-- ===== src/Tests.antt =====
-- Concrete runs of every part.
mod Pages
mod Paging
mod Heap
mod Fat
mod Arrays
mod Queue
mod Maps
mod Buffers
mod Strings
mod Numerals
mod Directories
mod Paths
mod Descriptors
mod Scheduler
mod Processes
mod Loader
mod DeviceTree
mod Syscalls
