-- ===== src/Processes.antt =====
-- Kernel/Process/ProcessManager.cpp: finding, blocking and creating processes and threads.
-- The objects that `new` makes stand at the addresses that are given.
pub mod Blocking
pub mod Numbers
pub mod Registration
pub mod Creation
use matte_os.Base.{
  ℕ, zero, suc, ◌+◌, ◌-◌, ◌*◌, ◌/◌, ◌%◌, ◌^◌, Bool, Option, none, some, ◌==◌, update,
}
use matte_os.Errors.{ErrorOr, value, error}
use matte_os.Pages.{u64_mod, page_size}
use matte_os.Arrays.{ArrayList, create, add, find_first_match}
use matte_os.Descriptors
use matte_os.Queue.{append}
use matte_os.Scheduler.{TrapFrame, Thread, ThreadState, Process, ProcessState, ProcessManager}
use matte_os.Paging.{
  Memory, map, map_range, identity_map_range, virtual_address, physical_address, zalloc_pages,
}
use matte_os.Paging.Defaults.{LinkerSymbols, read_execute, read_write}

abbrev pub stack_address : ℕ
stack_address = 0xf0000000

abbrev pub stack_pages : ℕ
stack_pages = 2

abbrev pub thread_frame_address : ℕ
thread_frame_address = 0x1000

unfoldable pub get_process : ℕ → ProcessManager → Option (ErrorOr ℕ)
unfolding find_first_match
get_process pid m = find_first_match (λ p. (m.processes p).pid == pid) m.process_list

unfoldable pub get_thread : ℕ → ℕ → ProcessManager → Option (ErrorOr ℕ)
unfolding get_process find_first_match
get_thread pid tid m = elim (get_process pid m) [
  | none ↦ none
  | some (error e) ↦ some (error e)
  | some (value p) ↦ find_first_match (λ t. (m.threads t).tid == tid) (m.processes p).threads
]

abbrev pub set_state : ProcessManager → ℕ → ThreadState → ProcessManager
set_state m t state = record m {
  threads = update m.threads t (record (m.threads t) { state = state });
}

unfoldable pub unblock : ℕ → ℕ → ProcessManager → Option ProcessManager
unfolding get_thread
unblock pid tid m = elim (get_thread pid tid m) [
  | none ↦ none
  | some (error e) ↦ some m
  | some (value t) ↦ some (set_state m t ThreadState.running)
]

unfoldable pub block : ℕ → ℕ → ProcessManager → Option ProcessManager
unfolding get_thread
block pid tid m = elim (get_thread pid tid m) [
  | none ↦ none
  | some (error e) ↦ some m
  | some (value t) ↦ some (set_state m t ThreadState.blocked)
]

-- The null pointer is the inner `none`.
unfoldable pub get_current_thread : ProcessManager → Option (Option ℕ)
unfolding get_thread
get_current_thread m =
    elim (get_thread m.kernel_frame.current_process_id m.kernel_frame.current_thread_id m) [
      | none ↦ none
      | some (error e) ↦ some none
      | some (value t) ↦ some (some t)
    ]

unfoldable pub get_current_process : ProcessManager → Option (Option ℕ)
unfolding get_process
get_current_process m = elim (get_process m.kernel_frame.current_process_id m) [
  | none ↦ none
  | some (error e) ↦ some none
  | some (value p) ↦ some (some p)
]

-- The word of `satp`: Sv39 is the mode 8.
unfoldable pub build_satp : ℕ → ℕ → ℕ → ℕ
build_satp mode asid address =
    address / 2 ^ 12 % 2 ^ 44 + 2 ^ 44 * (asid % 2 ^ 16) + 2 ^ 60 * (mode % 2 ^ 4)

-- The thread that `new Thread` makes, and the memory with the page of its frame.
unfoldable pub initialize_thread : ℕ → ℕ → ℕ → ℕ → Memory → Thread × Memory
unfolding zalloc_pages
initialize_thread program_counter satp pid tid s =
    let (frame, s') = zalloc_pages s 1 in
    let trap_frame : TrapFrame = record {
      sp = stack_address;
      sepc = program_counter;
      sstatus = 2 ^ 5 + 2 ^ 13 + 2 ^ 18;
      kernel_satp = satp;
      kernel_sp = 0;
      kernel_trap_frame_ptr = 0;
      kernel_addr = frame;
    } in
    let thread : Thread = record {
      trap_frame = trap_frame;
      tid = tid;
      pid = pid;
      state = ThreadState.running;
    } in
    (thread, s')

-- The constructor of Process, which adds its thread to an empty list.
unfoldable pub new_process : ℕ → ℕ → ℕ → Option Process
unfolding add create
new_process pid thread page_table = elim (add thread create) [
  | none ↦ none
  | some (index, threads) ↦ some (record {
    pid = pid;
    gid = pid;
    page_table = page_table;
    state = ProcessState.running;
    fd_table = Descriptors.create;
    threads = threads;
  })
]

-- EntryBits::USER_READ, USER_READ_WRITE and USER_READ_EXECUTE.
abbrev pub user_read : ℕ
user_read = 2 ^ 0 + 2 ^ 1 + 2 ^ 4

abbrev pub user_read_write : ℕ
user_read_write = 2 ^ 0 + 2 ^ 1 + 2 ^ 2 + 2 ^ 4

abbrev pub user_read_execute : ℕ
user_read_execute = 2 ^ 0 + 2 ^ 1 + 2 ^ 3 + 2 ^ 4

-- The page tables of a new process, before its thread: the sections of the kernel's image.
unfoldable pub map_image : LinkerSymbols → ℕ → Memory → Memory
unfolding identity_map_range
map_image l root s =
    let s = identity_map_range s root l.text_start l.text_end user_read_execute in
    let s = identity_map_range s root l.text_special_start l.text_special_end user_read_execute in
    let s =
      identity_map_range s root l.context_switching_start l.context_switching_end read_execute in
    let s = identity_map_range s root l.data_start l.data_end user_read_write in
    let s = identity_map_range s root l.bss_start l.bss_end user_read_write in
    identity_map_range s root l.rodata_start l.rodata_end user_read

-- The frame of the thread and the two pages of the stack.
unfoldable pub map_thread : ℕ → ℕ → Memory → Memory
unfolding map map_range virtual_address physical_address zalloc_pages
map_thread root frame s =
    let s =
      map s root (virtual_address thread_frame_address) (physical_address frame)
        (read_write + 2 ^ 6 + 2 ^ 7) 0 in
    let (stack_bottom, s) = zalloc_pages s stack_pages in
    map_range s root (stack_address - page_size * stack_pages) stack_address stack_bottom
      user_read_write

-- `m_process_list.add(process)` and `m_run_queue.append(thread)`, with the two objects in place.
unfoldable pub register : ℕ → ℕ → Process → Thread → ProcessManager → Option ProcessManager
unfolding add append
register process_at thread_at process thread m = elim (add process_at m.process_list) [
  | none ↦ none
  | some (index, list) ↦ elim (append thread_at m.run_queue) [
    | none ↦ none
    | some queue ↦ some (record m {
      process_list = list;
      run_queue = queue;
      processes = update m.processes process_at process;
      threads = update m.threads thread_at thread;
    })
  ]
]

-- The new process in the list and its thread in the queue.
unfoldable pub enlist : ℕ → ℕ → ℕ → ℕ → Thread → ProcessManager → Option ProcessManager
unfolding new_process register
enlist pid root process_at thread_at thread m = elim (new_process pid thread_at root) [
  | none ↦ none
  | some process ↦ register process_at thread_at process thread m
]

-- The root table of the process numbered `pid`, its thread, and the memory with its page tables.
unfoldable pub build_process : LinkerSymbols → ℕ → ℕ → Memory → ℕ × Thread × Memory
unfolding zalloc_pages map_image build_satp initialize_thread map_thread
build_process l program_counter pid s =
    let (root, s) = zalloc_pages s 1 in
    let s = map_image l root s in
    let (thread, s) = initialize_thread program_counter (build_satp 8 1 root) pid 0 s in
    (root, thread, map_thread root thread.trap_frame.kernel_addr s)

-- The root table, the memory and the tables of processes, for the objects at `thread_at` and `process_at`.
unfoldable pub create_dummy_process :
    LinkerSymbols → ℕ → ℕ → ℕ → Memory → ProcessManager → Option (ℕ × Memory × ProcessManager)
unfolding build_process enlist
create_dummy_process l program_counter thread_at process_at s m =
    let pid = m.pid_counter in
    let counted : ProcessManager = record m { pid_counter = (m.pid_counter + 1) % u64_mod } in
    let (root, thread, s') = build_process l program_counter pid s in
    elim (enlist pid root process_at thread_at thread counted) [
      | none ↦ none
      | some m' ↦ some (root, s', m')
    ]
