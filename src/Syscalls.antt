-- ===== src/Syscalls.antt =====
-- System calls: Kernel/Syscalls/SyscallManager.cpp, SyscallFile.cpp, SyscallProcess.cpp and SyscallDebug.cpp, with
-- Kernel/Process/Request.h, Kernel/FileSystem/File.cpp, the console's inode of Kernel/FileSystem/RAMFS/RamInode.cpp
-- and Kernel/Devices/Console/ConsoleDevice.cpp.
-- The console's driver, the virtual file system and the other inodes are known by their functions. An inode is named
-- by a number, and 0 is the console's. `none` is a fault: a null pointer that is followed, or an index that fails the
-- assertion of an array.
pub mod Console
pub mod Dispatch
pub mod Blocking
pub mod Closing
pub mod Reading
use matte_os.Base.{
  ℕ, zero, suc, ◌+◌, ◌*◌, ◌/◌, ◌-◌, ◌%◌, ◌^◌, Bool, true, false, Option, none, some, List, [], ◌∷◌,
  ◌++◌, ◌==◌, ltb, leb, if◌then◌else◌, min, length, take, set, get_or, update,
}
use matte_os.Descriptors
use matte_os.Errors.{ErrorOr, value, error, create_from_string}
use matte_os.Paging.{translate, virtual_address}
use matte_os.Processes.{block, unblock, get_current_thread}
use matte_os.Scheduler.{Process, ProcessState, ProcessManager}
use matte_os.Strings.{String}

pub data SysError : Type 0 where
  sys_error sys_blocked : SysError

-- ErrorOr<uintptr_t, SysError>.
pub data SysResult : Type 0 where
  sys_value : ℕ → SysResult
  sys_failed : SysError → SysResult

pub record RequestContext : Type 0 where
  pub pid : ℕ
  pub tid : ℕ

unfoldable pub assign_context : ℕ → ℕ → RequestContext → RequestContext
assign_context pid tid c = if c.pid == 0 then record { pid = pid; tid = tid } else c

-- A blocked request holds the address of its context.
pub data Request {ℓ} (T : Type ℓ) : Type ℓ where
  request_blocked : ℕ → Request T
  request_finalized : T → Request T

pub record File : Type 0 where
  pub inode : ℕ
  pub offset : ℕ
  pub mode : ℕ

-- What the system calls work on; `D` is the console's driver, and no driver is the null pointer. `memory` holds a byte
-- at each address, the registers of the trap frames among them.
pub record Machine {ℓ} (D : Type ℓ) : Type ℓ where
  pub manager : ProcessManager
  pub statistics : List ℕ
  pub words : ℕ → ℕ
  pub memory : ℕ → ℕ
  pub files : ℕ → File
  pub contexts : ℕ → RequestContext
  -- `m_driver` and `m_requests` of the console.
  pub driver : Option D
  pub requests : List ℕ

abbrev pub count : ℕ
count = 10

-- RegisterOffset::GP0.
abbrev pub gp0 : ℕ
gp0 = 10

-- An argument as an `int`, as an index.
unfoldable pub index_of_int : ℕ → ℕ
index_of_int a = let low = a % 2 ^ 32 in if ltb low (2 ^ 31) then low else low + 0xffffffff00000000

-- memcpy of a list of bytes.
unfoldable pub copy_to : (ℕ → ℕ) → ℕ → List ℕ → ℕ → ℕ
copy_to memory address [] = memory
copy_to memory address (c ∷ cs) = copy_to (update memory address c) (address + 1) cs

-- A word of some bytes, the lowest first.
unfoldable pub load_word : ℕ → (ℕ → ℕ) → ℕ → ℕ
load_word zero memory address = 0
load_word (suc n) memory address = memory address + 256 * load_word n memory (address + 1)

unfoldable pub bytes_of : ℕ → ℕ → List ℕ
bytes_of zero v = []
bytes_of (suc n) v = v % 256 ∷ bytes_of n (v / 256)

-- `regs` is the first member of a trap frame.
unfoldable pub get_register : (ℕ → ℕ) → ℕ → ℕ → ℕ
unfolding load_word
get_register memory frame register = load_word 8 memory (frame + 8 * register)

unfoldable pub set_register : (ℕ → ℕ) → ℕ → ℕ → ℕ → ℕ → ℕ
unfolding copy_to bytes_of
set_register memory frame register v = copy_to memory (frame + 8 * register) (bytes_of 8 v)

module _ {ℓ} {D : Type ℓ} where
  -- get_trap_frame: `kernel_addr` is the address of the frame itself.
  abbrev pub get_trap_frame : Machine D → ℕ → ℕ
  get_trap_frame m thread = (m.manager.threads thread).trap_frame.kernel_addr

  -- Userspace::get.
  unfoldable pub userspace_get : Machine D → ℕ → ℕ → ErrorOr ℕ
  unfolding translate virtual_address
  userspace_get m process address =
      translate m.words (m.manager.processes process).page_table (virtual_address address)

  abbrev pub with_table : Machine D → ℕ → Descriptors.FileDescriptorTable ℕ → Machine D
  with_table m process table = record m {
    manager = record m.manager {
      processes =
          update m.manager.processes process
            (record (m.manager.processes process) { fd_table = table });
    };
  }

  -- m_fd_table[fd]: the null pointer is the inner `none`.
  unfoldable pub descriptor_at : Machine D → ℕ → ℕ → Option (Option ℕ)
  unfolding Descriptors.get
  descriptor_at m process fd = elim (Descriptors.get fd (m.manager.processes process).fd_table) [
    | none ↦ none
    | some (error e) ↦ some none
    | some (value file) ↦ some (some file)
  ]

  unfoldable pub handle_close : Machine D → ℕ → ℕ → Option (SysResult × Machine D)
  unfolding descriptor_at Descriptors.close
  handle_close m process fd = elim (descriptor_at m process fd) [
    | none ↦ none
    | some none ↦ some (sys_failed sys_error, m)
    | some (some file) ↦ some (
      sys_value 0,
      with_table m process (Descriptors.close fd (m.manager.processes process).fd_table).1,
    )
  ]

  unfoldable pub handle_exit : Machine D → ℕ → ℕ → SysResult × Machine D
  unfolding index_of_int
  handle_exit m process exit_code = (
    sys_value (index_of_int exit_code),
    record m {
      manager = record m.manager {
        processes =
            update m.manager.processes process
              (record (m.manager.processes process) { state = ProcessState.dead });
      };
    },
  )

  -- `vfs_open` is VirtualFileSystem::open with the inode of its descriptor, `path_at` the string at an address of the
  -- kernel, and `file_at` where `new` makes the file.
  unfoldable pub handle_open :
      (String → ℕ → ErrorOr ℕ) → (ℕ → String) → ℕ → Machine D → ℕ → ℕ → ℕ → SysResult × Machine D
  unfolding userspace_get Descriptors.open_fd
  handle_open vfs_open path_at file_at m process path flags = elim (userspace_get m process path) [
    | error e ↦ (sys_failed sys_error, m)
    | value address ↦ elim (vfs_open (path_at address) flags) [
      | error e ↦ (sys_failed sys_error, m)
      | value inode ↦
          let file : File = record { inode = inode; offset = 0; mode = flags } in
          let m' : Machine D = record m { files = update m.files file_at file } in
          let (opened, table) =
            Descriptors.open_fd file_at (m.manager.processes process).fd_table in
          elim opened [
            | error e ↦ (sys_failed sys_error, m')
            | value fd ↦ (sys_value fd, with_table m' process table)
          ]
    ]
  ]
