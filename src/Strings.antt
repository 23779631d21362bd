-- ===== src/Strings.antt =====
-- Comparing strings: Utils/Strings/String.cpp.
-- A string is the list of its characters. A C string is the memory from its first character on; behind the
-- list it reads as the terminator.
pub mod Loops
pub mod Comparison
use matte_os.Base.{
  ℕ, zero, suc, ◌+◌, Bool, true, false, List, [], ◌∷◌, ◌++◌, ◌==◌, ltb, leb, ◌&&◌, if◌then◌else◌,
  length, get_or,
}

abbrev pub String : Type 0
String = List ℕ

abbrev pub to_cstring : String → List ℕ
to_cstring s = s ++ 0 ∷ []

unfoldable pub calculate_size : List ℕ → ℕ
calculate_size [] = 0
calculate_size (c ∷ cs) = if c == 0 then 0 else 1 + calculate_size cs

unfoldable pub to_lower : ℕ → ℕ
to_lower c = if leb 65 c && leb c 90 then c + 32 else c

-- The loops of `equals`, `equals_ignore_case` and `starts_with`: `n` rounds from the index `i` on.
unfoldable pub equals_loop : (ℕ → ℕ → Bool) → ℕ → ℕ → List ℕ → List ℕ → Bool
equals_loop same zero i a b = true
equals_loop same (suc n) i a b =
    if same (get_or a i 0) (get_or b i 0) then equals_loop same n (i + 1) a b else false

abbrev pub same_char : ℕ → ℕ → Bool
same_char a b = a == b

unfoldable pub same_letter : ℕ → ℕ → Bool
unfolding to_lower
same_letter a b = to_lower a == to_lower b

unfoldable pub equals_cstring : String → List ℕ → Bool
unfolding calculate_size equals_loop
equals_cstring s other =
    if length s == calculate_size other then equals_loop same_char (length s) 0 s other else false

unfoldable pub equals : String → String → Bool
unfolding equals_cstring
equals s other = equals_cstring s (to_cstring other)

unfoldable pub equals_ignore_case_cstring : String → List ℕ → Bool
unfolding calculate_size equals_loop
equals_ignore_case_cstring s other =
    if length s == calculate_size other then equals_loop same_letter (length s) 0 s other else false

unfoldable pub equals_ignore_case : String → String → Bool
unfolding equals_ignore_case_cstring
equals_ignore_case s other = equals_ignore_case_cstring s (to_cstring other)

unfoldable pub starts_with : String → String → Bool
unfolding equals_loop
starts_with s other =
    if ltb (length s) (length other) then false else equals_loop same_char (length other) 0 s other
