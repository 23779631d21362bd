-- ===== src/Tests/Descriptors.antt =====
-- A table of three slots.
use matte_os.Base.{ℕ, none, some, [], ◌∷◌}
use matte_os.Descriptors.{FileDescriptorTable, open_fd}
use matte_os.Descriptors.Laws.{OpenOutcome, open_fd-OpenOutcome}

abbrev three_slots : FileDescriptorTable ℕ
three_slots = record { fds = some 5 ∷ none ∷ some 6 ∷ [] }

open_fd-OpenOutcome_example : OpenOutcome 7 three_slots (open_fd 7 three_slots)
open_fd-OpenOutcome_example = open_fd-OpenOutcome 7 three_slots
