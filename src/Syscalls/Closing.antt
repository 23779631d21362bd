-- ===== src/Syscalls/Closing.antt =====
-- `handle_close`, and what reading and closing do with the descriptor afterwards.
use matte_os.Base.{
  ℕ, ◌≡◌, ◌≢◌, refl, ap, ◌∙◌, true, none, some, ◌==◌, Option-cases, inl, inr, arith,
}
use matte_os.Descriptors
use matte_os.Descriptors.Laws.{get-close}
use matte_os.Errors.{Error, ErrorOr, value, error}
use matte_os.Syscalls.Console.{Driver, handle_read}
use matte_os.Syscalls.{
  sys_error, sys_value, sys_failed, Machine, index_of_int, userspace_get, with_table, descriptor_at,
  handle_close,
}

module _ {ℓ} {D : Type ℓ} (m : Machine D) (process : ℕ) where
  abbrev table : Descriptors.FileDescriptorTable ℕ
  table = (m.manager.processes process).fd_table

  at_error :
      (fd : ℕ) (e : Error)
      → Descriptors.get fd table ≡ some (error e)
      → descriptor_at m process fd ≡ some none
  unfolding descriptor_at
  at_error fd e there = rw (descriptor_at, there) refl

  at_value :
      (fd f : ℕ)
      → descriptor_at m process fd ≡ some (some f)
      → Descriptors.get fd table ≡ some (value f)
  unfolding descriptor_at
  at_value fd f opened = elim (Option-cases (Descriptors.get fd table)) [
    | inl out ↦
        let s : descriptor_at m process fd ≡ none = rw (descriptor_at, out) refl in absurd cc
    | inr (error e, there) ↦ let s = at_error fd e there in absurd cc
    | inr (value f', there) ↦
        let s : descriptor_at m process fd ≡ some (some f') = rw (descriptor_at, there) refl in
        let same : f' ≡ f = cc in cc
  ]

  table_of :
      (t : Descriptors.FileDescriptorTable ℕ)
      → ((with_table m process t).manager.processes process).fd_table ≡ t
  table_of t = let self : (process == process) ≡ true = ground arith in rw self refl

  descriptor_same :
      (t : Descriptors.FileDescriptorTable ℕ) (fd : ℕ)
      → Descriptors.get fd t ≡ Descriptors.get fd table
      → descriptor_at (with_table m process t) process fd ≡ descriptor_at m process fd
  unfolding descriptor_at
  descriptor_same t fd same =
      let same' = ap (Descriptors.get fd) (table_of t) ∙ same in rw (descriptor_at, same') refl

  mapped_same :
      (t : Descriptors.FileDescriptorTable ℕ) (address : ℕ)
      → userspace_get (with_table m process t) process address ≡ userspace_get m process address
  unfolding userspace_get
  mapped_same t address =
      let self : (process == process) ≡ true = ground arith in rw (userspace_get, self) refl

  close_open :
      (fd f : ℕ)
      → descriptor_at m process fd ≡ some (some f)
      → handle_close m process fd
        ≡ some (sys_value 0, with_table m process (Descriptors.close fd table).1)
  unfolding handle_close
  close_open fd f opened = rw (handle_close, opened) refl

  close_closed :
      (fd : ℕ)
      → descriptor_at m process fd ≡ some none
      → handle_close m process fd ≡ some (sys_failed sys_error, m)
  unfolding handle_close
  close_closed fd closed = rw (handle_close, closed) refl

  read_closed :
      (d : Driver D) (read_other : ℕ → ℕ → ℕ → ErrorOr ℕ) (c fd buffer size address : ℕ)
      → descriptor_at m process (index_of_int fd) ≡ some none
      → userspace_get m process buffer ≡ value address
      → handle_read d read_other c m process fd buffer size ≡ none
  unfolding handle_read
  read_closed d read_other c fd buffer size address closed mapped =
      rw (handle_read, closed, mapped) refl

module _ {ℓ} {D : Type ℓ} (d : Driver D) where
  -- A descriptor that is open is closed by `handle_close`, with the result 0. After that, closing it again is an error
  -- that changes nothing, reading from it into a mapped buffer follows a null pointer, and every other descriptor of
  -- the process is what it was.
  pub handle_read-handle_close :
      (m : Machine D) (read_other : ℕ → ℕ → ℕ → ErrorOr ℕ) (c process fd buffer size address f : ℕ)
      → descriptor_at m process (index_of_int fd) ≡ some (some f)
      → userspace_get m process buffer ≡ value address
      → (m1 : Machine D) × (handle_close m process (index_of_int fd) ≡ some (sys_value 0, m1))
        × (handle_close m1 process (index_of_int fd) ≡ some (sys_failed sys_error, m1))
        × (handle_read d read_other c m1 process fd buffer size ≡ none)
        × ((j : ℕ) → index_of_int fd ≢ j → descriptor_at m1 process j ≡ descriptor_at m process j)
  handle_read-handle_close m read_other c process fd buffer size address f opened mapped =
      let k = index_of_int fd in
      let (t, closes, gone, others) = get-close k _ f (at_value m process k f opened) in
      let m1 = with_table m process t in
      let closed : descriptor_at m1 process k ≡ some none =
        at_error m1 process k _ (ap (Descriptors.get k) (table_of m process t) ∙ gone) in
      (
        m1,
        close_open m process k f opened
            ∙ ap (λ r. some (sys_value 0, with_table m process r.1)) closes,
        close_closed m1 process k closed,
        read_closed m1 process d read_other c fd buffer size address closed
            (mapped_same m process t buffer ∙ mapped),
        λ j ne. descriptor_same m process t j (others j ne),
      )
