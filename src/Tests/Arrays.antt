-- ===== src/Tests/Arrays.antt =====
-- Lists of numbers.
use matte_os.Base.{ℕ, ◌==◌, ◌≡◌, refl, Bool, some, [], ◌∷◌, arith}
use matte_os.Arrays.{ArrayList, add, remove}
use matte_os.Arrays.Cells.{Holds}
use matte_os.Arrays.Growth.{add-Holds}
use matte_os.Arrays.Removal.{remove-Holds}

-- Full: the next `add` grows it.
abbrev two_numbers : ArrayList ℕ
two_numbers = record { cells = some 5 ∷ some 7 ∷ []; size = 2; ptr = 2 }

two_numbers-Holds : Holds two_numbers (5 ∷ 7 ∷ [])
two_numbers-Holds = record {
  spare = [];
  filled = refl;
  counted = refl;
  capacity = refl;
  room = omega arith;
}

add-Holds_example :
    (a' : ArrayList ℕ) × (add 9 two_numbers ≡ some (2, a')) × Holds a' (5 ∷ 7 ∷ 9 ∷ [])
add-Holds_example = add-Holds 9 two_numbers (5 ∷ 7 ∷ []) two_numbers-Holds (omega arith)

abbrev is_seven : ℕ → Bool
is_seven n = n == 7

remove-Holds_example :
    (a' : ArrayList ℕ) × (remove two_numbers 0 ≡ some a') × Holds a' (7 ∷ []) × (a'.size ≡ 2)
remove-Holds_example = remove-Holds two_numbers [] (7 ∷ []) 5 two_numbers-Holds (omega arith)
