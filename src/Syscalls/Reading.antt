-- ===== src/Syscalls/Reading.antt =====
-- A read of the console that finds a line.
use matte_os.Base.{
  ℕ, zero, suc, ◌+◌, ◌%◌, ◌^◌, ◌≤◌, ◌<◌, ◌≡◌, ◌⊎◌, inl, refl, sym, ap, ◌∙◌, some, List, [], ◌∷◌,
  min, length, take, length-take, length-append, update, arith,
}
use matte_os.Errors.{ErrorOr, value}
use matte_os.Processes.{get_current_thread}
use matte_os.Strings.{String, to_cstring}
use matte_os.Syscalls.Blocking.{reads}
use matte_os.Syscalls.Console.{
  Driver, read, await_line, read_async, deliver, inode_read, move_offset, file_read, finish_read,
  handle_read,
}
use matte_os.Syscalls.{
  sys_value, Request, request_finalized, Machine, copy_to, index_of_int, userspace_get,
  descriptor_at,
}

-- The bytes of the memory from an address on.
unfoldable pub bytes_in : (ℕ → ℕ) → ℕ → ℕ → List ℕ
bytes_in memory address zero = []
bytes_in memory address (suc n) = memory address ∷ bytes_in memory (address + 1) n

copy_outside :
    (cs : List ℕ) (memory : ℕ → ℕ) (address a : ℕ)
    → (a < address) ⊎ (address + length cs ≤ a)
    → copy_to memory address cs a ≡ memory a
unfolding copy_to
copy_outside [] memory address a out = refl
copy_outside (c ∷ cs) memory address a out =
    let other : update memory address c a ≡ memory a = ground arith in
    copy_outside cs (update memory address c) (address + 1) a (ground arith) ∙ other

bytes_in-copy_to :
    (cs : List ℕ) (memory : ℕ → ℕ) (address : ℕ)
    → bytes_in (copy_to memory address cs) address (length cs) ≡ cs
unfolding bytes_in copy_to
bytes_in-copy_to [] memory address = refl
bytes_in-copy_to (c ∷ cs) memory address =
    let memory' = update memory address c in
    let here : memory' address ≡ c = ground arith in
    let kept : copy_to memory' (address + 1) cs address ≡ c =
      copy_outside cs memory' (address + 1) address (inl (omega arith)) ∙ here in
    ap (λ (b : ℕ). b ∷ bytes_in (copy_to memory' (address + 1) cs) (address + 1) (length cs)) kept
    ∙ ap (λ (l : List ℕ). c ∷ l) (bytes_in-copy_to cs memory' (address + 1))

module _ {ℓ} {D : Type ℓ} (d : Driver D) where
  abbrev copied : ℕ → String → ℕ
  copied size line = min size (length line + 1)

  abbrev with_line : Machine D → D → ℕ → ℕ → String → Machine D
  with_line m driver buffer size line = record m {
    driver = some driver;
    memory = copy_to m.memory buffer (take (copied size line) (to_cstring line));
  }

  length-copied :
      (size : ℕ) (line : String)
      → length (take (copied size line) (to_cstring line)) ≡ copied size line
  length-copied size line =
      length-take (copied size line) (to_cstring line) ∙ omega (arith, length-append line (0 ∷ []))

  module _ (m : Machine D) (driver driver' : D) (line : String) (c : ℕ)
      (at : m.driver ≡ some driver) (there : d.read_line driver ≡ (value line, driver')) where
    read_some : read d m ≡ (value line, record m { driver = some driver' })
    unfolding read
    read_some = rw (at, there) refl

    inode_read_some :
        (read_other : ℕ → ℕ → ℕ → ErrorOr ℕ) (buffer size offset : ℕ)
        → inode_read d read_other c m zero buffer size offset
          ≡ (value (request_finalized (copied size line)), with_line m driver' buffer size line)
    unfolding inode_read read_async
    inode_read_some read_other buffer size offset =
        ap
          (λ (r : ErrorOr String × Machine D).
            let (request, m') = deliver d buffer size (await_line d c r) in (value request, m'))
          read_some
        ∙ unfold await_line deliver in refl

    file_read_some :
        (read_other : ℕ → ℕ → ℕ → ErrorOr ℕ) (f buffer size : ℕ)
        → (m.files f).inode ≡ 0
        → file_read d read_other c m f buffer size ≡ (
          value (request_finalized (copied size line)),
          move_offset d f
              (value (request_finalized (copied size line)))
              (with_line m driver' buffer size line),
        )
    unfolding file_read
    file_read_some read_other f buffer size console =
        ap
          (λ (i : ℕ).
            let (request, m') = inode_read d read_other c m i buffer size (m.files f).offset in
            (request, move_offset d f request m'))
          console
        ∙ ap
            (λ (r : ErrorOr (Request ℕ) × Machine D).
              let (request, m') = r in (request, move_offset d f request m'))
            (inode_read_some read_other buffer size (m.files f).offset)

  finish_finalized :
      (m : Machine D) (process n t : ℕ)
      → get_current_thread m.manager ≡ some (some t)
      → finish_read d process (value (request_finalized n), m) ≡ some (sys_value n, m)
  unfolding finish_read
  finish_finalized m process n t current = rw (finish_read, current) refl

  -- A read of the console while a line is there, through an open descriptor and into a mapped buffer, returns how many
  -- bytes it copied: the length of the line with its terminator, or the size where that is less. The buffer then begins
  -- with as many bytes of the line and its terminator, and the memory elsewhere, the states of all threads and
  -- the waiting requests are as they were; the file's offset is behind what was read. There must be a current thread.
  pub handle_read_line :
      (m : Machine D) (driver driver' : D) (line : String) (read_other : ℕ → ℕ → ℕ → ErrorOr ℕ)
      (c process fd buffer size f address t : ℕ)
      → m.driver ≡ some driver
      → d.read_line driver ≡ (value line, driver')
      → descriptor_at m process (index_of_int fd) ≡ some (some f)
      → userspace_get m process buffer ≡ value address
      → (m.files f).inode ≡ 0
      → get_current_thread m.manager ≡ some (some t)
      → let n = min size (length line + 1) in
        (m1 : Machine D) × (handle_read d read_other c m process fd buffer size
          ≡ some (sys_value n, m1))
        × (bytes_in m1.memory address n ≡ take n (to_cstring line))
        × ((a : ℕ) → (a < address) ⊎ (address + n ≤ a) → m1.memory a ≡ m.memory a)
        × ((m1.files f).offset ≡ ((m.files f).offset + n) % 2 ^ 64)
        × ((u : ℕ) → (m1.manager.threads u).state ≡ (m.manager.threads u).state)
        × (m1.requests ≡ m.requests)
  unfolding move_offset
  handle_read_line m driver driver' line read_other c process fd buffer size f address t at there
        opened mapped console current =
      let n = copied size line in
      let bytes = take n (to_cstring line) in
      let size_of : length bytes ≡ n = length-copied size line in
      let m1 =
        move_offset d f (value (request_finalized n)) (with_line m driver' address size line) in
      (
        m1,
        reads d m read_other c process fd buffer size f address opened mapped
            ∙ (ap (finish_read d process) (
                  file_read_some m driver driver' line c at there read_other f address size console)
                ∙ finish_finalized m1 process n t current),
        ap (bytes_in (copy_to m.memory address bytes) address) (sym size_of)
            ∙ bytes_in-copy_to bytes m.memory address,
        λ a out. copy_outside bytes m.memory address a (ground arith),
        ground arith,
        λ u. refl,
        refl,
      )
