-- ===== src/Scheduler/RoundRobin.antt =====
-- `Scheduler::schedule`.
use mathlib.Core.Path.{subst, ap}
use matte_os.Base.{
  ◌∙◌, inl, inr, Option-cases, ℕ_discrete, ℕ, ◌<◌, ◌≡◌, ◌≢◌, refl, true, false, none, some, List,
  [], ◌∷◌, ◌++◌, arith, length, ◌==◌,
}
use matte_os.Queue.{LinkedQueue}
use matte_os.Queue.Laws.{IsQueue}
use matte_os.Scheduler.{ProcessManager, choose, prepare_for_switch, schedule}
use matte_os.Scheduler.Choice.{runs, Idle, choose-runs, choose-Idle}

with_queue : ProcessManager → LinkedQueue ℕ → ProcessManager
with_queue m q = record m { lock = 0; run_queue = q }

schedule_step :
    (fuel : ℕ) (m : ProcessManager) (t : ℕ) (q : LinkedQueue ℕ)
    → m.lock ≡ 0
    → choose fuel m.threads m.run_queue ≡ some (some (t, q))
    → schedule fuel m ≡ some (some t, prepare_for_switch t (with_queue m q))
unfolding schedule with_queue
schedule_step fuel m t q free run =
    let e : (m.lock == 0) ≡ true = ground arith in rw (schedule, e, run) refl

-- What `schedule` leaves for the thread `t` that it chose.
pub record Switched (m m' : ProcessManager) (t : ℕ) : Type 0 where
  pub released : m'.lock ≡ 0
  pub current_thread : m'.kernel_frame.current_thread_id ≡ (m.threads t).tid
  pub current_process : m'.kernel_frame.current_process_id ≡ (m.threads t).pid
  pub stack : (m'.threads t).trap_frame.kernel_sp ≡ m.kernel_frame.sp
  pub kernel_frame : (m'.threads t).trap_frame.kernel_trap_frame_ptr ≡ m.kernel_frame.address
  pub same_states : (u : ℕ) → (m'.threads u).state ≡ (m.threads u).state
  pub same_tids : (u : ℕ) → (m'.threads u).tid ≡ (m.threads u).tid
  pub same_list : m'.process_list ≡ m.process_list
  pub same_processes : m'.processes ≡ m.processes

prepare-Switched :
    (m : ProcessManager) (t : ℕ) (q : LinkedQueue ℕ)
    → Switched m (prepare_for_switch t (with_queue m q)) t
unfolding prepare_for_switch with_queue
prepare-Switched m t q = record {
  released = refl;
  current_thread = refl;
  current_process = refl;
  stack = ground arith;
  kernel_frame = ground arith;
  same_states = λ u. ground arith;
  same_tids = λ u. ground arith;
  same_list = refl;
  same_processes = refl;
}

prepare-queue :
    (m : ProcessManager) (t : ℕ) (q : LinkedQueue ℕ) (xs : List ℕ)
    → IsQueue q xs
    → IsQueue (prepare_for_switch t (with_queue m q)).run_queue xs
unfolding prepare_for_switch with_queue
prepare-queue m t q xs h = h

-- Round robin. With the lock free, `schedule` passes over the threads behind the head of the run queue,
-- the head last, and returns the first of them that is running: `t`, when those `before` it are not. The
-- run queue then begins with `t`, and those passed over stand at its end; the lock is free again, and
-- the frames name `t`. One round for each thread passed over, and one more, is enough fuel.
pub schedule-IsQueue :
    (fuel : ℕ) (m : ProcessManager) (x : ℕ) (xs before : List ℕ) (t : ℕ) (after : List ℕ)
    → m.lock ≡ 0
    → IsQueue m.run_queue (x ∷ xs)
    → xs ++ x ∷ [] ≡ before ++ t ∷ after
    → Idle m.threads before
    → runs m.threads t ≡ true
    → length before < fuel
    → (m' : ProcessManager) × (schedule fuel m ≡ some (some t, m'))
      × IsQueue m'.run_queue (t ∷ (after ++ before))
      × Switched m m' t
schedule-IsQueue fuel m x xs before t after free h e idle hit enough =
    let (q, run, h') =
      choose-Idle m.threads before fuel m.run_queue x xs t after h e idle hit enough in
    (
      prepare_for_switch t (with_queue m q),
      schedule_step fuel m t q free run,
      prepare-queue m t q (t ∷ (after ++ before)) h',
      prepare-Switched m t q,
    )

-- Where the lock is taken, `schedule` returns the null pointer and changes nothing but the lock's word.
pub schedule_locked :
    (fuel : ℕ) (m : ProcessManager)
    → m.lock ≢ 0
    → schedule fuel m ≡ some (none, record m { lock = 1 })
unfolding schedule
schedule_locked fuel m taken = let e : (m.lock == 0) ≡ false = ground arith in rw (schedule, e) refl

schedule_fault :
    (fuel : ℕ) (m : ProcessManager)
    → m.lock ≡ 0
    → choose fuel m.threads m.run_queue ≡ none
    → schedule fuel m ≡ none
unfolding schedule
schedule_fault fuel m free run =
    let e : (m.lock == 0) ≡ true = ground arith in rw (schedule, e, run) refl

schedule_goes_on :
    (fuel : ℕ) (m : ProcessManager)
    → m.lock ≡ 0
    → choose fuel m.threads m.run_queue ≡ some none
    → schedule fuel m ≡ none
unfolding schedule
schedule_goes_on fuel m free run =
    let e : (m.lock == 0) ≡ true = ground arith in rw (schedule, e, run) refl

pub schedule-Switched :
    (fuel u : ℕ) (m m' : ProcessManager)
    → schedule fuel m ≡ some (some u, m')
    → (runs m.threads u ≡ true) × Switched m m' u
schedule-Switched fuel u m m' run = elim (ℕ_discrete m.lock 0) [
  | no taken ↦ let idle = schedule_locked fuel m taken in absurd cc
  | yes free ↦ elim (Option-cases (choose fuel m.threads m.run_queue)) [
    | inl e ↦ let stuck = schedule_fault fuel m free e in absurd cc
    | inr (none, e) ↦ let stuck = schedule_goes_on fuel m free e in absurd cc
    | inr (some (t, q), e) ↦
        let found = schedule_step fuel m t q free e in
        let same : t ≡ u = cc in
        let after : prepare_for_switch t (with_queue m q) ≡ m' = cc in
        (
          choose-runs m.threads fuel u m.run_queue q (e ∙ ap (λ v. some (some (v, q))) same),
          subst (λ w. Switched m w u) after
              (subst (Switched m (prepare_for_switch t (with_queue m q))) same
                (prepare-Switched m t q)),
        )
  ]
]
