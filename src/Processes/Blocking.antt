-- ===== src/Processes/Blocking.antt =====
-- `block` and `unblock`, and the scheduler after them.
use matte_os.Base.{
  sym, ◌∙◌, ap, ℕ, ◌≡◌, ◌≢◌, refl, fun_ext, Bool, true, false, Option, none, some, arith, ◌==◌,
  update, inl, inr, Bool-cases, true_ne_false,
}
use matte_os.Errors.{ErrorOr, value, error}
use matte_os.Arrays.{find_first_match}
use matte_os.Scheduler.{Thread, ThreadState, ProcessManager, schedule, is_running}
use matte_os.Scheduler.Choice.{runs}
use matte_os.Scheduler.RoundRobin.{schedule-Switched}
use matte_os.Processes.{get_process, get_thread, set_state, block, unblock, get_current_thread}

find_in : ProcessManager → ℕ → (ℕ → Bool) → Option (ErrorOr ℕ)
find_in m pid p = elim (get_process pid m) [
  | none ↦ none
  | some (error e) ↦ some (error e)
  | some (value process) ↦ find_first_match p (m.processes process).threads
]

-- The searches do not see the states and the frames of threads.
get_thread_same :
    (pid tid : ℕ) (m m' : ProcessManager)
    → m'.process_list ≡ m.process_list
    → m'.processes ≡ m.processes
    → ((u : ℕ) → (m'.threads u).tid ≡ (m.threads u).tid)
    → get_thread pid tid m' ≡ get_thread pid tid m
unfolding get_thread get_process find_in
get_thread_same pid tid m m' list processes tids =
    ap (λ a. get_thread pid tid (record m' { process_list = a })) list
    ∙ (ap (λ f. get_thread pid tid (record m' { process_list = m.process_list; processes = f }))
          processes
        ∙ ap (find_in m pid) (fun_ext (λ u. ap (λ i. i == tid) (tids u))))

get_thread-set_state :
    (m : ProcessManager) (pid tid t : ℕ) (state : ThreadState)
    → get_thread pid tid (set_state m t state) ≡ get_thread pid tid m
get_thread-set_state m pid tid t state =
    get_thread_same pid tid m (set_state m t state) refl refl (λ u. ground arith)

block_step :
    (pid tid t : ℕ) (m : ProcessManager)
    → get_thread pid tid m ≡ some (value t)
    → block pid tid m ≡ some (set_state m t ThreadState.blocked)
unfolding block
block_step pid tid t m run = rw (block, run) refl

unblock_step :
    (pid tid t : ℕ) (m : ProcessManager)
    → get_thread pid tid m ≡ some (value t)
    → unblock pid tid m ≡ some (set_state m t ThreadState.running)
unfolding unblock
unblock_step pid tid t m run = rw (unblock, run) refl

-- Writing the state of a running thread back.
running_again :
    (f : ℕ → Thread) (t u : ℕ)
    → (f t).state ≡ ThreadState.running
    → update
        (update f t (record (f t) { state = ThreadState.blocked }))
        t
        (record (update f t (record (f t) { state = ThreadState.blocked }) t) {
          state = ThreadState.running;
        })
        u
      ≡ f u
running_again f t u e = elim (Bool-cases (t == u)) [
  | inl same ↦
      let e' : t ≡ u = ground arith in
      let self : (t == t) ≡ true = ground arith in rw (self, same, ← e) (ap f e')
  | inr other ↦ rw other refl
]

-- Where the thread is found, `block` makes it a thread that is not running and changes no other thread; when
-- it was running, `unblock` then restores everything.
pub unblock-block :
    (pid tid t : ℕ) (m : ProcessManager)
    → get_thread pid tid m ≡ some (value t)
    → (m.threads t).state ≡ ThreadState.running
    → (m' : ProcessManager) × (block pid tid m ≡ some m')
      × (runs m'.threads t ≡ false)
      × ((u : ℕ) → t ≢ u → m'.threads u ≡ m.threads u)
      × (unblock pid tid m' ≡ some m)
unfolding is_running
unblock-block pid tid t m found running =
    let m' = set_state m t ThreadState.blocked in
    (
      m',
      block_step pid tid t m found,
      ground arith,
      λ u ne. ground arith,
      unblock_step pid tid t m' (get_thread-set_state m pid tid t ThreadState.blocked ∙ found)
          ∙ ap (λ f. some (record m { threads = f }))
              (fun_ext (λ u. running_again m.threads t u running)),
    )

-- `block` keeps the trap frames.
pub block_frames :
    (pid tid t u : ℕ) (m m' : ProcessManager)
    → get_thread pid tid m ≡ some (value t)
    → block pid tid m ≡ some m'
    → (m'.threads u).trap_frame ≡ (m.threads u).trap_frame
block_frames pid tid t u m m' found run =
    let e : set_state m t ThreadState.blocked ≡ m' = let s = block_step pid tid t m found in cc in
    let kept : ((set_state m t ThreadState.blocked).threads u).trap_frame
        ≡ (m.threads u).trap_frame =
      ground arith in
    ap (λ w. (w.threads u).trap_frame) (sym e) ∙ kept

-- After `block` of a thread that is found, `schedule` returns another one, if it returns one.
pub schedule-block :
    (pid tid t u fuel : ℕ) (m m' m'' : ProcessManager)
    → get_thread pid tid m ≡ some (value t)
    → block pid tid m ≡ some m'
    → schedule fuel m' ≡ some (some u, m'')
    → u ≢ t
unfolding is_running
schedule-block pid tid t u fuel m m' m'' found run chosen e =
    let at_t : runs (set_state m t ThreadState.blocked).threads t ≡ false = ground arith in
    let e' : m' ≡ set_state m t ThreadState.blocked = let s = block_step pid tid t m found in cc in
    let (live, switched) = schedule-Switched fuel u m' m'' chosen in
    true_ne_false live (
      ap (λ w. runs w.threads u) e'
      ∙ (ap (runs (set_state m t ThreadState.blocked).threads) e ∙ at_t))

current_step :
    (t : ℕ) (m : ProcessManager)
    → get_thread m.kernel_frame.current_process_id m.kernel_frame.current_thread_id m
      ≡ some (value t)
    → get_current_thread m ≡ some (some t)
unfolding get_current_thread
current_step t m run = rw (get_current_thread, run) refl

-- After `schedule` has returned a thread that its own numbers find, this is the current thread.
pub get_current_thread-schedule :
    (fuel t : ℕ) (m m' : ProcessManager)
    → schedule fuel m ≡ some (some t, m')
    → get_thread (m.threads t).pid (m.threads t).tid m ≡ some (value t)
    → get_current_thread m' ≡ some (some t)
unfolding get_thread
get_current_thread-schedule fuel t m m' run found =
    let (live, s) = schedule-Switched fuel t m m' run in
    current_step t m' (
      rw (s.current_process, s.current_thread)
        (get_thread_same (m.threads t).pid (m.threads t).tid m m' s.same_list s.same_processes
            s.same_tids
          ∙ found))
