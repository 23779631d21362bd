-- ===== src/Descriptors.antt =====
-- The table of open files: Kernel/FileSystem/FileDescriptorTable.cpp and .h, over Utils/Arrays/Array.h.
-- A descriptor is an element of `A`, and `none` in a slot is the null pointer. An index out of bounds
-- fails the assertion of the array: the outer `none`.
pub mod Slots
pub mod Laws
use matte_os.Base.{
  ℕ, zero, suc, ◌+◌, Bool, true, false, Option, none, some, List, [], ◌∷◌, ltb, leb, if◌then◌else◌,
  length, get_elem?, set, replicate,
}
use matte_os.Errors.{ErrorOr, value, error, create_from_string}

abbrev pub max_fds : ℕ
max_fds = 256

-- `m_fds`, an array of fixed size.
pub record FileDescriptorTable {ℓ} (A : Type ℓ) : Type ℓ where
  pub fds : List (Option A)

module _ {ℓ} {A : Type ℓ} where
  abbrev pub create : FileDescriptorTable A
  create = record { fds = replicate max_fds none }

  -- The loop of `open`, on the slots from the index `i` on: the first empty one.
  unfoldable pub free_slot : List (Option A) → ℕ → Option ℕ
  free_slot [] i = none
  free_slot (none ∷ fds) i = some i
  free_slot (some d ∷ fds) i = free_slot fds (i + 1)

  unfoldable pub open_fd : A → FileDescriptorTable A → ErrorOr ℕ × FileDescriptorTable A
  unfolding free_slot
  open_fd descriptor t = elim (free_slot t.fds 0) [
    | none ↦ (error (create_from_string "No free file descriptors!"), t)
    | some i ↦ (value i, record { fds = set t.fds i (some descriptor) })
  ]

  unfoldable pub get : ℕ → FileDescriptorTable A → Option (ErrorOr A)
  get fd t = elim (get_elem? t.fds fd) [
    | none ↦ none
    | some none ↦ some (error (create_from_string "Invalid file descriptor!"))
    | some (some d) ↦ some (value d)
  ]

  unfoldable pub close : ℕ → FileDescriptorTable A → ErrorOr (Unit {0}) × FileDescriptorTable A
  close fd t = elim (get_elem? t.fds fd) [
    | none ↦ (error (create_from_string "Invalid file descriptor!"), t)
    | some none ↦ (error (create_from_string "File descriptor already closed!"), t)
    | some (some d) ↦ (value tt, record { fds = set t.fds fd none })
  ]

  -- The loop of `close_all`.
  unfoldable pub clear_slots : List (Option A) → List (Option A)
  clear_slots [] = []
  clear_slots (none ∷ fds) = none ∷ clear_slots fds
  clear_slots (some d ∷ fds) = none ∷ clear_slots fds

  unfoldable pub close_all : FileDescriptorTable A → ErrorOr (Unit {0}) × FileDescriptorTable A
  unfolding clear_slots
  close_all t = (value tt, record { fds = clear_slots t.fds })
