-- ===== src/Processes/Registration.antt =====
-- `register` and `enlist`: a new process behind the others, and its thread in the queue.
use matte_os.Base.{
  ◌∙◌, ap, ℕ, ◌*◌, ◌<◌, ◌≡◌, refl, Bool, true, Option, none, some, arith, ◌==◌, update, List, [],
  ◌∷◌, ◌++◌,
}
use matte_os.Errors.{value}
use matte_os.Pages.{u64_mod}
use matte_os.Arrays.{ArrayList, find_first_match, create}
use matte_os.Arrays.Cells.{Holds}
use matte_os.Arrays.Growth.{create-Holds, add-Holds}
use matte_os.Arrays.Queries.{first_match, match_result, searches-first_match}
use matte_os.Queue.{LinkedQueue}
use matte_os.Queue.Laws.{IsQueue, append-IsQueue}
use matte_os.Scheduler.{Thread, Process, ProcessState, ProcessManager}
use matte_os.Descriptors
use matte_os.Processes.{get_process, get_thread, register, new_process, enlist}
use matte_os.Processes.Numbers.{Known, NotAt, last_match, Known-update}

-- What `register` leaves: the process and its thread behind the others, and both are found.
pub record Registered (m' : ProcessManager) (ps ts : List ℕ) (pid process_at thread_at : ℕ)
    : Type 0 where
  pub processes : Holds m'.process_list (ps ++ process_at ∷ [])
  pub queue : IsQueue m'.run_queue (ts ++ thread_at ∷ [])
  pub known : Known m'.processes m'.pid_counter (ps ++ process_at ∷ [])
  pub process_found : get_process pid m' ≡ some (value process_at)
  pub thread_found : get_thread pid 0 m' ≡ some (value thread_at)

module _ {ℓ} {A : Type ℓ} where
  found_first :
      (p : A → Bool) (a : ArrayList A) (xs : List A)
      → Holds a xs
      → find_first_match p a ≡ some (match_result (first_match p xs 0))
  found_first p a xs h = let (found, rest, index) = searches-first_match p a xs h in found

process_of : ℕ → ℕ → ArrayList ℕ → Process
process_of pid root threads = record {
  pid = pid;
  gid = pid;
  page_table = root;
  state = ProcessState.running;
  fd_table = Descriptors.create;
  threads = threads;
}

made : ℕ → ℕ → Option (ℕ × ArrayList ℕ) → Option Process
made pid root none = none
made pid root (some (index, threads)) = some (process_of pid root threads)

new_process_lem :
    (pid thread_at root : ℕ)
    → (threads : ArrayList ℕ) × (new_process pid thread_at root
        ≡ some (process_of pid root threads))
      × Holds threads (thread_at ∷ [])
unfolding new_process process_of made
new_process_lem pid thread_at root =
    let (threads, run, h) =
      add-Holds thread_at create [] create-Holds (unfold create in omega arith) in
    (threads, ap (made pid root) run, h)

register_lem :
    (process_at thread_at : ℕ) (process : Process) (thread : Thread) (m : ProcessManager)
    (ps ts : List ℕ)
    → Holds m.process_list ps
    → m.process_list.size * 2 < u64_mod
    → IsQueue m.run_queue ts
    → (list : ArrayList ℕ) × (queue : LinkedQueue ℕ) × (register process_at thread_at process thread
          m
        ≡ some (record m {
          process_list = list;
          run_queue = queue;
          processes = update m.processes process_at process;
          threads = update m.threads thread_at thread;
        }))
      × Holds list (ps ++ process_at ∷ [])
      × IsQueue queue (ts ++ thread_at ∷ [])
unfolding register
register_lem process_at thread_at process thread m ps ts h fits q =
    let (list, run, h') = add-Holds process_at m.process_list ps h fits in
    let (queue, run', q') = append-IsQueue thread_at m.run_queue ts q in
    (list, queue, rw (register, run, run') refl, h', q')

registered : ℕ → ℕ → Thread → ProcessManager → Option Process → Option ProcessManager
registered process_at thread_at thread m none = none
registered process_at thread_at thread m (some process) =
    register process_at thread_at process thread m

enlist_step :
    (pid root process_at thread_at : ℕ) (process : Process) (thread : Thread)
    (m m' : ProcessManager)
    → new_process pid thread_at root ≡ some process
    → register process_at thread_at process thread m ≡ some m'
    → enlist pid root process_at thread_at thread m ≡ some m'
unfolding enlist registered
enlist_step pid root process_at thread_at process thread m m' run run' =
    ap (registered process_at thread_at thread m) run ∙ run'

get_thread_step :
    (pid tid p : ℕ) (m : ProcessManager)
    → get_process pid m ≡ some (value p)
    → get_thread pid tid m
      ≡ find_first_match (λ t. (m.threads t).tid == tid) (m.processes p).threads
unfolding get_thread
get_thread_step pid tid p m run = rw (get_thread, run) refl

only_match :
    (threads : ℕ → Thread) (thread : Thread) (at : ℕ)
    → thread.tid ≡ 0
    → match_result (first_match (λ t. (update threads at thread t).tid == 0) (at ∷ []) 0) ≡ value at
unfolding first_match match_result
only_match threads thread at e =
    let hit : ((update threads at thread at).tid == 0) ≡ true = ground arith in rw hit refl

find_new :
    (m m' : ProcessManager) (process : Process) (thread : Thread) (ps : List ℕ)
    (process_at thread_at : ℕ)
    → (m'.processes ≡ update m.processes process_at process)
    → (m'.threads ≡ update m.threads thread_at thread)
    → Holds m'.process_list (ps ++ process_at ∷ [])
    → Holds process.threads (thread_at ∷ [])
    → thread.tid ≡ 0
    → Known m.processes process.pid ps
    → NotAt process_at ps
    → (get_process process.pid m' ≡ some (value process_at))
      × (get_thread process.pid 0 m' ≡ some (value thread_at))
unfolding get_process
find_new m m' process thread ps process_at thread_at e f h threads zero_tid known away =
    let found : get_process process.pid m' ≡ some (value process_at) =
      found_first (λ p. (m'.processes p).pid == process.pid) m'.process_list (ps ++ process_at ∷ [])
        h
      ∙ rw e (ap some (last_match m.processes process process_at ps 0 known away)) in
    let self : (update m.processes process_at process process_at).threads ≡ process.threads =
      ground arith in
    let at_new : (m'.processes process_at).threads ≡ process.threads =
      ap (λ g. (g process_at).threads) e ∙ self in
    (
      found,
      get_thread_step process.pid 0 process_at m' found
          ∙ ap (find_first_match (λ t. (m'.threads t).tid == 0)) at_new
          ∙ found_first (λ t. (m'.threads t).tid == 0) process.threads (thread_at ∷ []) threads
          ∙ rw f (ap some (only_match m.threads thread thread_at zero_tid)),
    )

pub enlist-Registered :
    (pid root process_at thread_at : ℕ) (thread : Thread) (m : ProcessManager) (ps ts : List ℕ)
    → Holds m.process_list ps
    → m.process_list.size * 2 < u64_mod
    → IsQueue m.run_queue ts
    → Known m.processes pid ps
    → NotAt process_at ps
    → pid < m.pid_counter
    → thread.tid ≡ 0
    → (m' : ProcessManager) × (enlist pid root process_at thread_at thread m ≡ some m')
      × (m'.pid_counter ≡ m.pid_counter)
      × Registered m' ps ts pid process_at thread_at
unfolding process_of
enlist-Registered pid root process_at thread_at thread m ps ts h fits q known away low zero_tid =
    let (threads, new, h1) = new_process_lem pid thread_at root in
    let process = process_of pid root threads in
    let (list, queue, run, h', q') =
      register_lem process_at thread_at process thread m ps ts h fits q in
    let m' : ProcessManager = record m {
      process_list = list;
      run_queue = queue;
      processes = update m.processes process_at process;
      threads = update m.threads thread_at thread;
    } in
    let (process_found, thread_found) =
      find_new m m' process thread ps process_at thread_at refl refl h' h1 zero_tid known away in
    (
      m',
      enlist_step pid root process_at thread_at process thread m m' new run,
      refl,
      record {
        processes = h';
        queue = q';
        known = Known-update m.processes process process_at m.pid_counter ps low known away;
        process_found = process_found;
        thread_found = thread_found;
      },
    )
