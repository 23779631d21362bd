-- ===== src/Processes/Creation.antt =====
-- `create_dummy_process`: the new process and its thread are found, and the numbers stay distinct.
use matte_os.Base.{◌∙◌, ap, ℕ, ◌+◌, ◌*◌, ◌%◌, ◌<◌, ◌≡◌, refl, sym, Option, none, some, arith, List}
use matte_os.Pages.{u64_mod}
use matte_os.Arrays.Cells.{Holds}
use matte_os.Queue.Laws.{IsQueue}
use matte_os.Scheduler.{Thread, ProcessManager}
use matte_os.Paging.{Memory}
use matte_os.Paging.Defaults.{LinkerSymbols}
use matte_os.Processes.{create_dummy_process, enlist, build_process, initialize_thread}
use matte_os.Processes.Numbers.{Known, NotAt}
use matte_os.Processes.Registration.{Registered, enlist-Registered}

built_tid :
    (l : LinkerSymbols) (program_counter pid root : ℕ) (thread : Thread) (s s' : Memory)
    → build_process l program_counter pid s ≡ (root, thread, s')
    → thread.tid ≡ 0
unfolding build_process initialize_thread
built_tid l program_counter pid root thread s s' e = sym (ap (λ r. let (a, t, b) = r in t.tid) e)

counted : ProcessManager → ProcessManager
counted m = record m { pid_counter = (m.pid_counter + 1) % u64_mod }

created : ℕ → Memory → Option ProcessManager → Option (ℕ × Memory × ProcessManager)
created root s none = none
created root s (some m) = some (root, s, m)

create_step :
    (l : LinkerSymbols) (program_counter process_at thread_at root : ℕ) (thread : Thread)
    (s s' : Memory) (m m' : ProcessManager)
    → build_process l program_counter m.pid_counter s ≡ (root, thread, s')
    → enlist m.pid_counter root process_at thread_at thread (counted m) ≡ some m'
    → create_dummy_process l program_counter thread_at process_at s m ≡ some (root, s', m')
unfolding create_dummy_process counted created
create_step l program_counter process_at thread_at root thread s s' m m' built run =
    ap
      (λ (r : ℕ × Thread × Memory).
        let (root, thread, s') = r in
        created root s' (enlist m.pid_counter root process_at thread_at thread (counted m)))
      built
    ∙ ap (created root s') run

-- `create_dummy_process` puts a process and a thread, which stand at fresh addresses, behind the others, under
-- the number that the counter had: `get_process` finds the one and `get_thread` the other, and the numbers
-- in the list stay below the counter. It returns where the two lists and the counter do not overflow.
pub create_dummy_process-Registered :
    (l : LinkerSymbols) (program_counter process_at thread_at : ℕ) (s : Memory) (m : ProcessManager)
    (ps ts : List ℕ)
    → Holds m.process_list ps
    → m.process_list.size * 2 < u64_mod
    → IsQueue m.run_queue ts
    → Known m.processes m.pid_counter ps
    → NotAt process_at ps
    → m.pid_counter + 1 < u64_mod
    → (root : ℕ) × (s' : Memory) × (m' : ProcessManager) × (create_dummy_process l program_counter
          thread_at process_at s m
        ≡ some (root, s', m'))
      × (m'.pid_counter ≡ m.pid_counter + 1)
      × Registered m' ps ts m.pid_counter process_at thread_at
unfolding counted
create_dummy_process-Registered l program_counter process_at thread_at s m ps ts h fits q known away
      room =
    go (build_process l program_counter m.pid_counter s) refl
  where
    go :
        (r : ℕ × Thread × Memory)
        → build_process l program_counter m.pid_counter s ≡ r
        → (root : ℕ) × (s' : Memory) × (m' : ProcessManager) × (create_dummy_process l
              program_counter thread_at process_at s m
            ≡ some (root, s', m'))
          × (m'.pid_counter ≡ m.pid_counter + 1)
          × Registered m' ps ts m.pid_counter process_at thread_at
    go (root, thread, s') built =
        let (m', run, count, all) =
          enlist-Registered m.pid_counter root process_at thread_at thread (counted m) ps ts h fits
            q known away (omega arith)
            (built_tid l program_counter m.pid_counter root thread s s' built) in
        (
          root,
          s',
          m',
          create_step l program_counter process_at thread_at root thread s s' m m' built run,
          count ∙ omega arith,
          all,
        )
