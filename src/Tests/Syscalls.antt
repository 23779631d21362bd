-- ===== src/Tests/Syscalls.antt =====
-- One process with the console open, and no line typed.
use matte_os.Base.{
  ℕ, ◌≡◌, ◌≢◌, ◌≤◌, ◌<◌, ◌⊎◌, ◌+◌, ◌*◌, ◌-◌, ◌^◌, refl, Bool, true, false, none, some, [], ◌∷◌,
  replicate,
}
use matte_os.Errors.{Error, ErrorOr, value, error, create_from_string}
use matte_os.Processes.{get_current_thread, get_thread}
use matte_os.Scheduler.Choice.{runs}
use matte_os.Scheduler.{ProcessManager, Process}
use matte_os.Strings.{String}
use matte_os.Syscalls.Blocking.{handle_read-handle_interrupt}
use matte_os.Syscalls.Reading.{bytes_in, handle_read_line}
use matte_os.Syscalls.Closing.{handle_read-handle_close}
use matte_os.Syscalls.Console.{Driver, handle_read, handle_interrupt}
use matte_os.Syscalls.Dispatch.{Outside, increment, with_register, handle_syscall}
use matte_os.Syscalls.{
  get_register, set_register, get_trap_frame, copy_to, sys_value, sys_error, sys_blocked,
  sys_failed, File, Machine, userspace_get, descriptor_at, handle_close, index_of_int, with_table,
}
use matte_os.Tests.Processes.{one_process}

abbrev no_line : Error
no_line = create_from_string "No line"

-- A driver with a line or without: every interrupt brings one.
abbrev read_line : Bool → ErrorOr String × Bool
read_line false = (error no_line, false)
read_line true = (value (b'o' ∷ b'k' ∷ []), false)

abbrev keyboard : Driver Bool
keyboard = record {
  read_line = read_line;
  line_available = λ line. line;
  receive = λ id line. true;
}

abbrev console_process : ℕ → Process
console_process p = record (one_process.processes p) {
  fd_table = record { fds = some 900 ∷ (none ∷ []) };
}

abbrev manager : ProcessManager
manager = record one_process {
  processes = console_process;
  kernel_frame = record one_process.kernel_frame { current_process_id = 2; current_thread_id = 1 };
}

abbrev console_file : File
console_file = record { inode = 0; offset = 0; mode = 0 }

abbrev machine : Machine Bool
machine = record {
  manager = manager;
  statistics = replicate 10 0;
  words = λ a. 3;
  memory = λ a. 0;
  files = λ f. console_file;
  contexts = λ c. record { pid = 0; tid = 0 };
  driver = some false;
  requests = [];
}

current : get_current_thread machine.manager ≡ some (some 10)
unfolding get_current_thread
current = refl

mapped : userspace_get machine 500 64 ≡ value 64
unfolding userspace_get
mapped = refl

console_open : descriptor_at machine 500 (index_of_int 0) ≡ some (some 900)
unfolding descriptor_at index_of_int
console_open = refl

found_here : get_thread 2 1 machine.manager ≡ some (value 10)
unfolding get_thread
found_here = refl

abbrev read_other : ℕ → ℕ → ℕ → ErrorOr ℕ
read_other inode size offset = value 0

handle_read-handle_interrupt_example :
    (m1 : Machine Bool) × (handle_read keyboard read_other 800 machine 500 0 64 16
      ≡ some (sys_failed sys_blocked, m1))
    × (runs m1.manager.threads 10 ≡ false)
    × ((u r : ℕ)
        → get_register m1.memory (get_trap_frame m1 u) r
          ≡ get_register machine.memory (get_trap_frame machine u) r)
    × (m1.memory ≡ machine.memory)
    × (m2 : Machine Bool) × (handle_interrupt keyboard 10 m1 ≡ some (value tt, m2))
    × (m2.manager ≡ machine.manager)
    × (m2.memory ≡ machine.memory)
    × (m2.requests ≡ [])
handle_read-handle_interrupt_example =
    handle_read-handle_interrupt keyboard machine false false no_line read_other 800 500 0 64 16 900
      64 10 10 refl refl console_open mapped refl current found_here refl refl refl

handle_read-handle_close_example :
    (m1 : Machine Bool) × (handle_close machine 500 (index_of_int 0) ≡ some (sys_value 0, m1))
    × (handle_close m1 500 (index_of_int 0) ≡ some (sys_failed sys_error, m1))
    × (handle_read keyboard read_other 800 m1 500 0 64 16 ≡ none)
    × ((j : ℕ) → index_of_int 0 ≢ j → descriptor_at m1 500 j ≡ descriptor_at machine 500 j)
handle_read-handle_close_example =
    handle_read-handle_close keyboard machine read_other 800 500 0 64 16 64 900 console_open mapped

-- With the line "ok" there, of which the buffer takes all but the terminator.
abbrev typed : Machine Bool
typed = record machine { driver = some true }

typed_opens : descriptor_at typed 500 (index_of_int 0) ≡ some (some 900)
unfolding descriptor_at index_of_int
typed_opens = refl

typed_maps : userspace_get typed 500 64 ≡ value 64
unfolding userspace_get
typed_maps = refl

handle_read_line_example :
    (m1 : Machine Bool) × (handle_read keyboard read_other 800 typed 500 0 64 2
      ≡ some (sys_value 2, m1))
    × (bytes_in m1.memory 64 2 ≡ b'o' ∷ b'k' ∷ [])
    × ((a : ℕ) → (a < 64) ⊎ (66 ≤ a) → m1.memory a ≡ typed.memory a)
    × ((m1.files 900).offset ≡ 2)
    × ((u : ℕ) → (m1.manager.threads u).state ≡ (typed.manager.threads u).state)
    × (m1.requests ≡ typed.requests)
handle_read_line_example =
    handle_read_line keyboard typed true false (b'o' ∷ b'k' ∷ []) read_other 800 500 0 64 2 900 64
      10 refl refl typed_opens typed_maps refl current

abbrev outside : Outside
outside = record {
  vfs_open = λ path flags. value 0;
  list_directory = value [];
  read_other = read_other;
  path_at = λ a. [];
  file_at = 1000;
  context_at = 800;
}

-- `close` of the descriptor 0, which the register holds; the result overwrites it.
abbrev closed_machine : Machine Bool
closed_machine =
    with_register
      (with_table (record machine { statistics = increment 1 machine.statistics }) 500
        (record { fds = none ∷ (none ∷ []) }))
      (get_trap_frame machine 10) 0

closes : handle_syscall keyboard outside machine 500 1 ≡ some (none, closed_machine)
unfolding handle_syscall
closes = refl

-- A word that is stored in a register is read back.
stored : get_register (set_register (λ a. 7) 4096 10 (2 ^ 64 - 2)) 4096 10 ≡ 2 ^ 64 - 2
unfolding get_register set_register
stored = refl

-- A line that is copied over a trap frame overwrites its registers.
overwritten : get_register (copy_to (λ a. 0) 4096 (b'o' ∷ b'k' ∷ [])) 4096 0 ≡ b'o' + 256 * b'k'
unfolding get_register copy_to
overwritten = refl
