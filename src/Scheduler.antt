-- ===== src/Scheduler.antt =====
-- Choosing the next thread: Kernel/Process/Scheduler.cpp, over the run queue of ProcessManager.h and the
-- lock of Utils/Locks/Lock.h. A thread is named by its address.
pub mod Choice
pub mod RoundRobin
use matte_os.Base.{ℕ, zero, suc, Bool, true, false, Option, none, some, ◌==◌, if◌then◌else◌, update}
use matte_os.Arrays.{ArrayList}
use matte_os.Descriptors.{FileDescriptorTable}
use matte_os.Queue.{LinkedQueue, rotate_left, peek_first}

pub data ThreadState : Type 0 where
  running sleeping blocked dead : ThreadState

unfoldable pub is_running : ThreadState → Bool
is_running ThreadState.running = true
is_running ThreadState.sleeping = false
is_running ThreadState.blocked = false
is_running ThreadState.dead = false

-- `sp` is `regs[2]`; the registers that neither the scheduler nor the process manager writes are left out.
pub record TrapFrame : Type 0 where
  pub sp : ℕ
  pub sepc : ℕ
  pub sstatus : ℕ
  pub kernel_satp : ℕ
  pub kernel_sp : ℕ
  pub kernel_trap_frame_ptr : ℕ
  pub kernel_addr : ℕ

pub record Thread : Type 0 where
  pub trap_frame : TrapFrame
  pub tid : ℕ
  pub pid : ℕ
  pub state : ThreadState

pub data ProcessState : Type 0 where
  running sleeping blocked dead : ProcessState

-- The credentials are left out; a descriptor is named by its address.
pub record Process : Type 0 where
  pub pid : ℕ
  pub gid : ℕ
  pub page_table : ℕ
  pub state : ProcessState
  pub fd_table : FileDescriptorTable ℕ
  pub threads : ArrayList ℕ

-- `sp` is `regs[2]`, and `address` is where the frame stands.
pub record KernelTrapFrame : Type 0 where
  pub address : ℕ
  pub sp : ℕ
  pub current_thread_id : ℕ
  pub current_process_id : ℕ

-- The threads and the processes stand in the two stores; the process of the kernel is in none of them.
pub record ProcessManager : Type 0 where
  pub lock : ℕ
  pub run_queue : LinkedQueue ℕ
  pub threads : ℕ → Thread
  pub kernel_frame : KernelTrapFrame
  pub process_list : ArrayList ℕ
  pub processes : ℕ → Process
  pub pid_counter : ℕ

-- The answer, and the state of the lock afterwards.
abbrev pub try_lock : ℕ → Bool × ℕ
try_lock state = (state == 0, 1)

abbrev pub unlock : ℕ → ℕ
unlock state = 0

-- The loop of `schedule`. The outer `none` is a fault, as the empty run queue is; the inner one is fuel that ran out
-- while the loop goes on.
unfoldable pub choose : ℕ → (ℕ → Thread) → LinkedQueue ℕ → Option (Option (ℕ × LinkedQueue ℕ))
choose zero threads q = some none
choose (suc fuel) threads q = elim (rotate_left q) [
  | none ↦ none
  | some q1 ↦ elim (peek_first q1) [
    | none ↦ none
    | some first ↦ elim (is_running (threads first).state) [
      | true ↦ some (some (first, q1))
      | false ↦ choose fuel threads q1
    ]
  ]
]

unfoldable pub prepare_for_switch : ℕ → ProcessManager → ProcessManager
prepare_for_switch target m =
    let thread = m.threads target in
    let user_frame : TrapFrame = record thread.trap_frame {
      kernel_sp = m.kernel_frame.sp;
      kernel_trap_frame_ptr = m.kernel_frame.address;
    } in
    record m {
      threads = update m.threads target (record thread { trap_frame = user_frame });
      kernel_frame = record m.kernel_frame {
        current_process_id = thread.pid;
        current_thread_id = thread.tid;
      };
    }

-- The outer `none` is a fault of the loop or fuel that ran out, the inner one the null pointer that a taken lock
-- gives.
unfoldable pub schedule : ℕ → ProcessManager → Option (Option ℕ × ProcessManager)
unfolding choose prepare_for_switch
schedule fuel m =
    let (acquired, locked) = try_lock m.lock in
    elim acquired [
      | false ↦ some (none, record m { lock = locked })
      | true ↦ elim (choose fuel m.threads m.run_queue) [
        | none ↦ none
        | some none ↦ none
        | some (some (first, q)) ↦ some (
          some first,
          prepare_for_switch first (record m { lock = unlock locked; run_queue = q }),
        )
      ]
    ]
