-- ===== src/Syscalls/Console.antt =====
-- Reading through a descriptor: `handle_read`, File::read, DevInode::read, and the console's `read_async` and
-- `handle_interrupt`.
use matte_os.Base.{
  ℕ, zero, suc, ◌+◌, ◌%◌, ◌^◌, Bool, true, false, Option, none, some, List, [], ◌∷◌, ◌++◌, min,
  length, take, update,
}
use matte_os.Errors.{ErrorOr, value, error, create_from_string}
use matte_os.Processes.{block, unblock, get_current_thread}
use matte_os.Scheduler.{ProcessManager}
use matte_os.Strings.{String, to_cstring}
use matte_os.Syscalls.{
  sys_error, sys_blocked, SysResult, sys_value, sys_failed, RequestContext, assign_context, Request,
  request_blocked, request_finalized, Machine, index_of_int, copy_to, userspace_get, descriptor_at,
}

-- The driver reads a line, says whether there is one, and handles an interrupt.
pub record Driver {ℓ} (D : Type ℓ) : Type ℓ where
  pub read_line : D → ErrorOr String × D
  pub line_available : D → Bool
  pub receive : ℕ → D → D

module _ {ℓ} {D : Type ℓ} (d : Driver D) where
  -- ConsoleDevice::read.
  unfoldable pub read : Machine D → ErrorOr String × Machine D
  read m = elim m.driver [
    | none ↦ (error (create_from_string "ConsoleDevice: No driver."), m)
    | some driver ↦
        let (line, driver') = d.read_line driver in (line, record m { driver = some driver' })
  ]

  -- After `read`: a new context stands at `context_at`.
  unfoldable pub await_line : ℕ → ErrorOr String × Machine D → Request String × Machine D
  await_line context_at (error e, m) = (
    request_blocked context_at,
    record m {
      contexts = update m.contexts context_at (record { pid = 0; tid = 0 });
      requests = m.requests ++ context_at ∷ [];
    },
  )
  await_line context_at (value line, m) = (request_finalized line, m)

  unfoldable pub read_async : ℕ → Machine D → Request String × Machine D
  unfolding read await_line
  read_async context_at m = await_line context_at (read m)

  -- DevInode::read behind `read_async`.
  unfoldable pub deliver : ℕ → ℕ → Request String × Machine D → Request ℕ × Machine D
  unfolding copy_to
  deliver buffer size (request_blocked context, m) = (request_blocked context, m)
  deliver buffer size (request_finalized line, m) =
      let to_copy = min size (length line + 1) in
      (
        request_finalized to_copy,
        record m { memory = copy_to m.memory buffer (take to_copy (to_cstring line)) },
      )

  -- Inode::read: of the console's inode, 0, or of another, by its inode, size and offset.
  unfoldable pub inode_read :
      (ℕ → ℕ → ℕ → ErrorOr ℕ) → ℕ → Machine D → ℕ → ℕ → ℕ → ℕ → ErrorOr (Request ℕ) × Machine D
  unfolding read_async deliver
  inode_read read_other context_at m zero buffer size offset =
      let (request, m') = deliver buffer size (read_async context_at m) in (value request, m')
  inode_read read_other context_at m (suc inode) buffer size offset =
      elim (read_other (suc inode) size offset) [
        | error e ↦ (error e, m)
        | value n ↦ (value (request_finalized n), m)
      ]

  -- The offset of the file moves behind what was read.
  unfoldable pub move_offset : ℕ → ErrorOr (Request ℕ) → Machine D → Machine D
  move_offset file (error e) m = m
  move_offset file (value (request_blocked context)) m = m
  move_offset file (value (request_finalized n)) m = record m {
    files =
        update m.files file
          (record (m.files file) { offset = ((m.files file).offset + n) % 2 ^ 64 });
  }

  unfoldable pub file_read :
      (ℕ → ℕ → ℕ → ErrorOr ℕ) → ℕ → Machine D → ℕ → ℕ → ℕ → ErrorOr (Request ℕ) × Machine D
  unfolding inode_read move_offset
  file_read read_other context_at m file buffer size =
      let (request, m') =
        inode_read read_other context_at m (m.files file).inode buffer size (m.files file).offset in
      (request, move_offset file request m')

  -- `assign`, `block` and SysError::Blocked for the current thread.
  unfoldable pub block_current : ℕ → ℕ → ℕ → Machine D → Option (SysResult × Machine D)
  unfolding assign_context block
  block_current pid thread context m =
      let tid = (m.manager.threads thread).tid in
      elim (block pid tid m.manager) [
        | none ↦ none
        | some manager ↦ some (
          sys_failed sys_blocked,
          record m {
            manager = manager;
            contexts = update m.contexts context (assign_context pid tid (m.contexts context));
          },
        )
      ]

  -- `handle_read` behind `file->read`; the inner `none` of the current thread fails an assertion.
  unfoldable pub finish_read : ℕ → ErrorOr (Request ℕ) × Machine D → Option (SysResult × Machine D)
  unfolding block_current get_current_thread
  finish_read process (error e, m) = some (sys_failed sys_error, m)
  finish_read process (value request, m) = elim (get_current_thread m.manager) [
    | none ↦ none
    | some none ↦ none
    | some (some thread) ↦ elim request [
      | request_blocked context ↦ block_current (m.manager.processes process).pid thread context m
      | request_finalized n ↦ some (sys_value n, m)
    ]
  ]

  unfoldable pub handle_read :
      (ℕ → ℕ → ℕ → ErrorOr ℕ) → ℕ → Machine D → ℕ → ℕ → ℕ → ℕ → Option (SysResult × Machine D)
  unfolding descriptor_at index_of_int userspace_get file_read finish_read
  handle_read read_other context_at m process file_descriptor buffer size =
      elim (descriptor_at m process (index_of_int file_descriptor)) [
        | none ↦ none
        | some file ↦ elim (userspace_get m process buffer) [
          | error e ↦ some (sys_failed sys_error, m)
          | value address ↦ elim file [
            | none ↦ none
            | some f ↦ finish_read process (file_read read_other context_at m f address size)
          ]
        ]
      ]

  -- The loop over `m_requests` where a line is there.
  unfoldable pub unblock_all :
      List ℕ → (ℕ → RequestContext) → ProcessManager → Option ProcessManager
  unfolding unblock
  unblock_all [] contexts m = some m
  unblock_all (r ∷ rs) contexts m = elim (unblock (contexts r).pid (contexts r).tid m) [
    | none ↦ none
    | some m' ↦ unblock_all rs contexts m'
  ]

  -- Where there is no line, nothing is done for the requests.
  unfoldable pub handle_interrupt : ℕ → Machine D → Option (ErrorOr (Unit {0}) × Machine D)
  unfolding unblock_all
  handle_interrupt interrupt_id m = elim m.driver [
    | none ↦ some (error (create_from_string "ConsoleDevice: No driver."), m)
    | some driver ↦
        let driver' = d.receive interrupt_id driver in
        let m' : Machine D = record m { driver = some driver' } in
        elim (d.line_available driver') [
          | false ↦ some (value tt, m')
          | true ↦ elim (unblock_all m'.requests m'.contexts m'.manager) [
            | none ↦ none
            | some manager ↦ some (value tt, record m' { manager = manager; requests = [] })
          ]
        ]
  ]
