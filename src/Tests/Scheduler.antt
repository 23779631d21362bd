-- ===== src/Tests/Scheduler.antt =====
-- Scheduling two threads.
use matte_os.Base.{ℕ, ◌==◌, if◌then◌else◌, ◌≡◌, refl, none, some, [], ◌∷◌, arith}
use matte_os.Queue.Laws.{IsQueue}
use matte_os.Arrays.{ArrayList}
use matte_os.Scheduler.{
  Process, ProcessState, ThreadState, Thread, ProcessManager, is_running, schedule, choose,
}
use matte_os.Scheduler.Choice.{Idle, choose_spins}
use matte_os.Scheduler.RoundRobin.{Switched, schedule-IsQueue}
use matte_os.Tests.Queue.{pair, pair-IsQueue}

abbrev pub thread : ThreadState → Thread
thread s = record {
  trap_frame = record {
    sp = 0;
    sepc = 0;
    sstatus = 0;
    kernel_satp = 0;
    kernel_sp = 0;
    kernel_trap_frame_ptr = 0;
    kernel_addr = 0;
  };
  tid = 1;
  pid = 2;
  state = s;
}

abbrev no_processes : ArrayList ℕ
no_processes = record { cells = []; size = 0; ptr = 0 }

abbrev pub no_process : Process
no_process = record {
  pid = 0;
  gid = 0;
  page_table = 0;
  state = ProcessState.running;
  fd_table = record { fds = [] };
  threads = no_processes;
}

-- The thread at 10 has the given state, the other sleeps.
abbrev pub two_threads : ThreadState → ℕ → ProcessManager
two_threads first lock = record {
  lock = lock;
  run_queue = pair;
  threads = λ t. if t == 10 then thread first else thread ThreadState.sleeping;
  kernel_frame = record { address = 64; sp = 4096; current_thread_id = 0; current_process_id = 0 };
  process_list = no_processes;
  processes = λ p. no_process;
  pid_counter = 1;
}

schedule-IsQueue_example :
    let m = two_threads ThreadState.running 0 in
    (m' : ProcessManager) × (schedule 2 m ≡ some (some 10, m'))
    × IsQueue m'.run_queue (10 ∷ 20 ∷ [])
    × Switched m m' 10
unfolding Idle is_running
schedule-IsQueue_example =
    schedule-IsQueue 2 (two_threads ThreadState.running 0) 10 (20 ∷ []) (20 ∷ []) 10 [] refl
      pair-IsQueue refl (refl, tt) refl (omega arith)

choose_spins_example : choose 100 (two_threads ThreadState.blocked 0).threads pair ≡ some none
unfolding Idle is_running
choose_spins_example =
    choose_spins (two_threads ThreadState.blocked 0).threads 100 pair (20 ∷ []) 10 pair-IsQueue
      (refl, (refl, tt))
