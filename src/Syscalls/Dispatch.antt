-- ===== src/Syscalls/Dispatch.antt =====
-- SyscallManager::handle_syscall, with the handlers that only print.
use matte_os.Base.{
  ℕ, ◌+◌, ◌-◌, ◌^◌, Option, none, some, List, ◌==◌, leb, if◌then◌else◌, get_or, set,
}
use matte_os.Errors.{ErrorOr, value, error}
use matte_os.Processes.{get_current_thread}
use matte_os.Strings.{String}
use matte_os.Syscalls.Console.{Driver, handle_read}
use matte_os.Syscalls.{
  get_register, set_register, get_trap_frame, SysError, sys_error, sys_blocked, SysResult,
  sys_value, sys_failed, Machine, count, gp0, userspace_get, handle_close, handle_exit, handle_open,
}

-- The functions of the file systems and the addresses of new objects.
pub record Outside : Type 0 where
  pub vfs_open : String → ℕ → ErrorOr ℕ
  pub list_directory : ErrorOr (List String)
  pub read_other : ℕ → ℕ → ℕ → ErrorOr ℕ
  pub path_at : ℕ → String
  pub file_at : ℕ
  pub context_at : ℕ

-- SyscallStatistics::increment.
abbrev pub increment : ℕ → List ℕ → List ℕ
increment id counts = set counts id (get_or counts id 0 + 1)

module _ {ℓ} {D : Type ℓ} where
  -- The message is printed.
  unfoldable pub handle_dbgln : Machine D → ℕ → ℕ → SysResult × Machine D
  unfolding userspace_get
  handle_dbgln m process message = elim (userspace_get m process message) [
    | error e ↦ (sys_failed sys_error, m)
    | value address ↦ (sys_value 0, m)
  ]

  unfoldable pub handle_ls : ErrorOr (List String) → Machine D → SysResult × Machine D
  handle_ls (error e) m = (sys_failed sys_error, m)
  handle_ls (value names) m = (sys_value 0, m)

  -- dmesg, stats and mem print.
  abbrev pub handle_print : Machine D → SysResult × Machine D
  handle_print m = (sys_value 0, m)

  abbrev pub handle_write : Machine D → SysResult × Machine D
  handle_write m = (sys_failed sys_error, m)

  abbrev pub with_register : Machine D → ℕ → ℕ → Machine D
  with_register m frame v = record m { memory = set_register m.memory frame gp0 v }

  -- What is done with the handler's result; `frame` is the trap frame of the thread that called.
  unfoldable pub settle : ℕ → SysResult × Machine D → Option SysError × Machine D
  unfolding set_register
  settle frame (sys_value v, m) = (none, with_register m frame v)
  settle frame (sys_failed sys_error, m) = (none, with_register m frame (2 ^ 64 - 1))
  settle frame (sys_failed sys_blocked, m) = (some sys_blocked, m)

  unfoldable pub settle_call :
      ℕ → Option (SysResult × Machine D) → Option (Option SysError × Machine D)
  unfolding settle
  settle_call frame none = none
  settle_call frame (some r) = some (settle frame r)

  module _ (d : Driver D) (o : Outside) where
    -- syscall_handlers, with the arguments that a handler takes.
    unfoldable pub call_handler : ℕ → Machine D → ℕ → ℕ → ℕ → ℕ → Option (SysResult × Machine D)
    unfolding handle_open handle_close handle_dbgln handle_read handle_exit handle_ls
    call_handler id m process arg0 arg1 arg2 =
        if id == 0
        then some (handle_open o.vfs_open o.path_at o.file_at m process arg0 arg1)
        else if id == 1
        then handle_close m process arg0
        else if id == 2
        then some (handle_dbgln m process arg0)
        else if id == 3
        then handle_read d o.read_other o.context_at m process arg0 arg1 arg2
        else if id == 4
        then some (handle_write m)
        else if id == 5
        then some (handle_exit m process arg0)
        else if id == 9
        then some (handle_ls o.list_directory m)
        else some (handle_print m)

    -- The result is the error, if there is one; the current thread is not null, or there is a fault.
    unfoldable pub handle_syscall : Machine D → ℕ → ℕ → Option (Option SysError × Machine D)
    unfolding call_handler settle_call get_current_thread get_register
    handle_syscall m process syscall_id =
        let m' : Machine D = record m { statistics = increment syscall_id m.statistics } in
        if leb count syscall_id then some (none, m) else elim (get_current_thread m'.manager) [
          | none ↦ none
          | some none ↦ none
          | some (some thread) ↦
              let frame = get_trap_frame m' thread in
              settle_call frame (
                call_handler syscall_id m' process (get_register m'.memory frame gp0)
                  (get_register m'.memory frame (gp0 + 1)) (get_register m'.memory frame (gp0 + 2)))
        ]
