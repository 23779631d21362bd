-- ===== src/Syscalls/Blocking.antt =====
-- A read that waits for the console.
use matte_os.Base.{
  ℕ, zero, ◌≡◌, refl, ap, ◌∙◌, true, false, some, List, [], ◌∷◌, ◌++◌, ◌==◌, update, arith,
}
use matte_os.Errors.{Error, ErrorOr, value, error}
use matte_os.Processes.Blocking.{unblock-block, block_frames}
use matte_os.Processes.{block, unblock, get_current_thread, get_thread}
use matte_os.Scheduler.Choice.{runs}
use matte_os.Scheduler.{ProcessManager, ThreadState, TrapFrame}
use matte_os.Strings.{String}
use matte_os.Syscalls.Console.{
  Driver, read, await_line, read_async, deliver, inode_read, move_offset, file_read, block_current,
  finish_read, handle_read, unblock_all, handle_interrupt,
}
use matte_os.Syscalls.{
  sys_blocked, sys_failed, RequestContext, assign_context, Request, request_blocked, Machine,
  index_of_int, userspace_get, descriptor_at, get_register, get_trap_frame,
}

-- A context that was made with no numbers takes those of the first thread that is assigned.
fresh_context :
    (contexts : ℕ → RequestContext) (c pid tid : ℕ)
    → let made = update contexts c (record { pid = 0; tid = 0 }) in
      update made c (assign_context pid tid (made c)) c ≡ record { pid = pid; tid = tid }
unfolding assign_context
fresh_context contexts c pid tid = let self : (c == c) ≡ true = ground arith in rw self refl

module _ {ℓ} {D : Type ℓ} (d : Driver D) where
  abbrev with_request : Machine D → D → ℕ → Machine D
  with_request m driver c = record m {
    driver = some driver;
    contexts = update m.contexts c (record { pid = 0; tid = 0 });
    requests = m.requests ++ c ∷ [];
  }

  abbrev with_waiter : Machine D → D → ℕ → ProcessManager → ℕ → ℕ → Machine D
  with_waiter m driver c manager pid tid =
      let m' = with_request m driver c in
      record m' {
        manager = manager;
        contexts = update m'.contexts c (assign_context pid tid (m'.contexts c));
      }

  -- An open descriptor and a buffer that is mapped.
  pub reads :
      (m : Machine D) (read_other : ℕ → ℕ → ℕ → ErrorOr ℕ) (c process fd buffer size f address : ℕ)
      → descriptor_at m process (index_of_int fd) ≡ some (some f)
      → userspace_get m process buffer ≡ value address
      → handle_read d read_other c m process fd buffer size
        ≡ finish_read d process (file_read d read_other c m f address size)
  unfolding handle_read
  reads m read_other c process fd buffer size f address opened mapped =
      rw (handle_read, opened, mapped) refl

  module _ (m : Machine D) (driver driver' : D) (e : Error) (c : ℕ) (at : m.driver ≡ some driver)
      (line : d.read_line driver ≡ (error e, driver')) where
    read_none : read d m ≡ (error e, record m { driver = some driver' })
    unfolding read
    read_none = rw (at, line) refl

    read_async_none : read_async d c m ≡ (request_blocked c, with_request m driver' c)
    unfolding read_async
    read_async_none = ap (await_line d c) read_none ∙ unfold await_line in refl

    inode_read_none :
        (read_other : ℕ → ℕ → ℕ → ErrorOr ℕ) (buffer size offset : ℕ)
        → inode_read d read_other c m zero buffer size offset
          ≡ (value (request_blocked c), with_request m driver' c)
    unfolding inode_read
    inode_read_none read_other buffer size offset =
        ap
          (λ (r : Request String × Machine D).
            let (request, m') = deliver d buffer size r in (value request, m'))
          read_async_none
        ∙ unfold deliver in refl

    file_read_none :
        (read_other : ℕ → ℕ → ℕ → ErrorOr ℕ) (file buffer size : ℕ)
        → (m.files file).inode ≡ 0
        → file_read d read_other c m file buffer size
          ≡ (value (request_blocked c), with_request m driver' c)
    unfolding file_read
    file_read_none read_other file buffer size console =
        ap
          (λ (i : ℕ).
            let (request, m') = inode_read d read_other c m i buffer size (m.files file).offset in
            (request, move_offset d file request m'))
          console
        ∙ ap
            (λ (r : ErrorOr (Request ℕ) × Machine D).
              let (request, m') = r in (request, move_offset d file request m'))
            (inode_read_none read_other buffer size (m.files file).offset)
        ∙ unfold move_offset in refl

    block_current_none :
        (pid t : ℕ) (m1 : ProcessManager)
        → block pid (m.manager.threads t).tid m.manager ≡ some m1
        → block_current d pid t c (with_request m driver' c)
          ≡ some (sys_failed sys_blocked, with_waiter m driver' c m1 pid (m.manager.threads t).tid)
    unfolding block_current
    block_current_none pid t m1 e = rw (block_current, e) refl

    finish_blocked :
        (process t : ℕ)
        → get_current_thread m.manager ≡ some (some t)
        → finish_read d process (value (request_blocked c), with_request m driver' c)
          ≡ block_current d (m.manager.processes process).pid t c (with_request m driver' c)
    unfolding finish_read
    finish_blocked process t current = rw (finish_read, current) refl

    handle_read_none :
        (read_other : ℕ → ℕ → ℕ → ErrorOr ℕ) (process fd buffer size f address t : ℕ)
        (m1 : ProcessManager)
        → descriptor_at m process (index_of_int fd) ≡ some (some f)
        → userspace_get m process buffer ≡ value address
        → (m.files f).inode ≡ 0
        → get_current_thread m.manager ≡ some (some t)
        → block (m.manager.processes process).pid (m.manager.threads t).tid m.manager ≡ some m1
        → handle_read d read_other c m process fd buffer size
          ≡ some (
            sys_failed sys_blocked,
            with_waiter m driver' c m1 (m.manager.processes process).pid (m.manager.threads t).tid,
          )
    handle_read_none read_other process fd buffer size f address t m1 opened mapped console current
          blocks =
        reads m read_other c process fd buffer size f address opened mapped
        ∙ (ap (finish_read d process) (file_read_none read_other f address size console)
            ∙ finish_blocked process t current
            ∙ block_current_none (m.manager.processes process).pid t m1 blocks)

  -- The interrupt with a line there, for one request.
  interrupt_one :
      (m : Machine D) (driver : D) (id c : ℕ) (manager : ProcessManager)
      → d.line_available (d.receive id driver) ≡ true
      → m.requests ≡ c ∷ []
      → unblock (m.contexts c).pid (m.contexts c).tid m.manager ≡ some manager
      → handle_interrupt d id (record m { driver = some driver })
        ≡ some (
          value tt,
          record m { driver = some (d.receive id driver); manager = manager; requests = [] },
        )
  unfolding handle_interrupt
  interrupt_one m driver id c manager there one wakes =
      let all : unblock_all d m.requests m.contexts m.manager ≡ some manager =
        ap (λ (l : List ℕ). unblock_all d l m.contexts m.manager) one
        ∙ unfold unblock_all in rw (unblock_all, wakes) refl in
      rw (handle_interrupt, there, all) refl

  -- A read of the console while no line is there blocks the current thread: `handle_read` returns SysError::Blocked,
  -- the thread no longer runs, and memory and the registers of every thread are as they were, so that the call can be made again. When
  -- nothing else waits and the driver has a line after the console's next interrupt, that interrupt makes the
  -- processes and threads what they were before the read, and nothing waits. The thread must be found under the
  -- numbers of its process and its own, and be running.
  pub handle_read-handle_interrupt :
      (m : Machine D) (driver driver' : D) (e : Error) (read_other : ℕ → ℕ → ℕ → ErrorOr ℕ)
      (c process fd buffer size f address t id : ℕ)
      → m.driver ≡ some driver
      → d.read_line driver ≡ (error e, driver')
      → descriptor_at m process (index_of_int fd) ≡ some (some f)
      → userspace_get m process buffer ≡ value address
      → (m.files f).inode ≡ 0
      → get_current_thread m.manager ≡ some (some t)
      → get_thread (m.manager.processes process).pid (m.manager.threads t).tid m.manager
        ≡ some (value t)
      → (m.manager.threads t).state ≡ ThreadState.running
      → m.requests ≡ []
      → d.line_available (d.receive id driver') ≡ true
      → (m1 : Machine D) × (handle_read d read_other c m process fd buffer size
          ≡ some (sys_failed sys_blocked, m1))
        × (runs m1.manager.threads t ≡ false)
        × ((u r : ℕ)
            → get_register m1.memory (get_trap_frame m1 u) r
              ≡ get_register m.memory (get_trap_frame m u) r)
        × (m1.memory ≡ m.memory)
        × (m2 : Machine D) × (handle_interrupt d id m1 ≡ some (value tt, m2))
        × (m2.manager ≡ m.manager)
        × (m2.memory ≡ m.memory)
        × (m2.requests ≡ [])
  handle_read-handle_interrupt m driver driver' e read_other c process fd buffer size f address t id
        at line opened mapped console current found running alone there =
      let pid = (m.manager.processes process).pid in
      let tid = (m.manager.threads t).tid in
      let (m1, blocks, stopped, others, wakes) = unblock-block pid tid t m.manager found running in
      let waiting = with_waiter m driver' c m1 pid tid in
      let context : waiting.contexts c ≡ record { pid = pid; tid = tid } =
        fresh_context m.contexts c pid tid in
      let one : waiting.requests ≡ c ∷ [] = ap (λ (l : List ℕ). l ++ c ∷ []) alone in
      (
        waiting,
        handle_read_none m driver driver' e c at line read_other process fd buffer size f address t
            m1 opened mapped console current blocks,
        stopped,
        λ u r.
            ap (λ (k : TrapFrame). get_register m.memory k.kernel_addr r)
              (block_frames pid tid t u m.manager m1 found blocks),
        refl,
        record waiting { driver = some (d.receive id driver'); manager = m.manager; requests = [] },
        interrupt_one waiting driver' id c m.manager there one
            (ap (λ (k : RequestContext). unblock k.pid k.tid m1) context ∙ wakes),
        refl,
        refl,
        refl,
      )
