-- ===== src/Tests/Processes.antt =====
-- One process with one thread, and a second process that is created.
use matte_os.Base.{ℕ, ◌+◌, ◌≡◌, ◌≢◌, refl, false, none, some, [], ◌∷◌, arith}
use matte_os.Errors.{value}
use matte_os.Arrays.{ArrayList}
use matte_os.Arrays.Cells.{Holds}
use matte_os.Scheduler.{ThreadState, ProcessManager, is_running}
use matte_os.Scheduler.Choice.{runs, Idle}
use matte_os.Scheduler.RoundRobin.{schedule-IsQueue}
use matte_os.Paging.{Memory}
use matte_os.Processes.{get_thread, block, unblock, create_dummy_process, set_state}
use matte_os.Processes.Blocking.{unblock-block, schedule-block}
use matte_os.Processes.Numbers.{Known, NotAt}
use matte_os.Processes.Registration.{Registered}
use matte_os.Processes.Creation.{create_dummy_process-Registered}
use matte_os.Tests.Queue.{pair-IsQueue}
use matte_os.Tests.Scheduler.{two_threads, no_process}
use matte_os.Tests.Paging.{symbols, empty_root}

abbrev pub one_in_eight : ℕ → ArrayList ℕ
one_in_eight v = record {
  cells = some v ∷ none ∷ none ∷ none ∷ none ∷ none ∷ none ∷ none ∷ [];
  size = 8;
  ptr = 1;
}

one-Holds : (v : ℕ) → Holds (one_in_eight v) (v ∷ [])
one-Holds v = record {
  spare = none ∷ none ∷ none ∷ none ∷ none ∷ none ∷ none ∷ [];
  filled = refl;
  counted = refl;
  capacity = refl;
  room = omega arith;
}

-- The process at 500 has the number 2 and the thread at 10, which has the number 1.
abbrev pub one_process : ProcessManager
one_process = record (two_threads ThreadState.running 0) {
  process_list = one_in_eight 500;
  processes = λ p. record no_process { pid = 2; threads = one_in_eight 10 };
  pid_counter = 3;
}

found : get_thread 2 1 one_process ≡ some (value 10)
unfolding get_thread
found = refl

unblock-block_example :
    (m' : ProcessManager) × (block 2 1 one_process ≡ some m')
    × (runs m'.threads 10 ≡ false)
    × ((u : ℕ) → 10 ≢ u → m'.threads u ≡ one_process.threads u)
    × (unblock 2 1 m' ≡ some one_process)
unblock-block_example = unblock-block 2 1 10 one_process found refl

create_dummy_process-Registered_example :
    (root : ℕ) × (s' : Memory) × (m' : ProcessManager) × (create_dummy_process symbols 0x80001000
        600 700 empty_root one_process
      ≡ some (root, s', m'))
    × (m'.pid_counter ≡ 3 + 1)
    × Registered m' (500 ∷ []) (10 ∷ 20 ∷ []) 3 700 600
unfolding Known NotAt
create_dummy_process-Registered_example =
    create_dummy_process-Registered symbols 0x80001000 700 600 empty_root one_process (500 ∷ [])
      (10 ∷ 20 ∷ []) (one-Holds 500) (omega arith) pair-IsQueue (omega arith, tt)
      ((λ e. omega arith), tt) (omega arith)

-- Both threads run, and the first is blocked.
abbrev both_run : ProcessManager
both_run = record one_process { threads = λ t. (two_threads ThreadState.running 0).threads 10 }

found_both : get_thread 2 1 both_run ≡ some (value 10)
unfolding get_thread
found_both = refl

blocked_first : block 2 1 both_run ≡ some (set_state both_run 10 ThreadState.blocked)
unfolding block
blocked_first = refl

abbrev second_thread : ℕ
second_thread = 20

schedule-block_example : second_thread ≢ 10
unfolding Idle is_running
schedule-block_example =
    let m' = set_state both_run 10 ThreadState.blocked in
    let (m'', run, q, s) =
      schedule-IsQueue 1 m' 10 (20 ∷ []) [] 20 (10 ∷ []) refl pair-IsQueue refl tt refl
        (omega arith) in
    schedule-block 2 1 10 20 1 both_run m' m'' found_both blocked_first run
