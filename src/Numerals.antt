-- ===== src/Numerals.antt =====
-- Numbers as text: `itoa` and `atoi` of Utils/Basic.cpp.
-- A buffer is the list of the characters written to it, a C string ends at its first zero. The loops take
-- fuel, and `none` says that it ran out.
pub mod Reversal
pub mod RoundTrip
use matte_os.Base.{
  ℕ, zero, suc, ◌+◌, ◌-◌, ◌*◌, ◌/◌, ◌%◌, ◌^◌, Bool, true, false, Option, none, some, List, [], ◌∷◌,
  ◌++◌, ◌==◌, ◌&&◌, ltb, leb, if◌then◌else◌, get_or, set, length,
}
use matte_os.Pages.{u64_mod}

unfoldable pub digit_char : ℕ → ℕ
digit_char digit = (if ltb digit 10 then digit + 48 else digit + 97 - 10) % 2 ^ 8

-- do { ... } while(n /= base): the characters of the digits, the lowest first.
unfoldable pub digit_loop : ℕ → ℕ → ℕ → Option (List ℕ)
unfolding digit_char
digit_loop zero n base = none
digit_loop (suc fuel) n base = elim (n / base == 0) [
  | true ↦ some (digit_char (n % base) ∷ [])
  | false ↦ elim (digit_loop fuel (n / base) base) [
    | none ↦ none
    | some rest ↦ some (digit_char (n % base) ∷ rest)
  ]
]

-- for(j = 0; j < i; j++, i--): the exchange of two characters.
unfoldable pub swap_loop : ℕ → ℕ → ℕ → List ℕ → Option (List ℕ)
swap_loop zero j i buf = none
swap_loop (suc fuel) j i buf = elim (ltb j i) [
  | false ↦ some buf
  | true ↦ swap_loop fuel (j + 1) (i - 1) (set (set buf j (get_or buf i 0)) i (get_or buf j 0))
]

unfoldable pub itoa : ℕ → ℕ → ℕ → Option (List ℕ)
unfolding digit_loop swap_loop
itoa fuel n base = elim (digit_loop fuel n base) [
  | none ↦ none
  | some written ↦ swap_loop fuel 0 (length written - 1) (written ++ 0 ∷ [])
]

-- The three ranges of digits; `none` ends the number.
unfoldable pub digit_value : ℕ → Option ℕ
digit_value c =
    if leb 48 c && leb c 57
    then some (c - 48)
    else if leb 97 c && leb c 102
    then some (c - 97 + 10)
    else if leb 65 c && leb c 70
    then some (c - 65 + 10)
    else none

-- The loop of `atoi` from the next character on. The end of the list reads as the terminator.
unfoldable pub atoi_loop : ℕ → ℕ → List ℕ → ℕ
unfolding digit_value
atoi_loop base result [] = result
atoi_loop base result (c ∷ cs) = elim (c == 0) [
  | true ↦ result
  | false ↦ elim (digit_value c) [
    | none ↦ result
    | some d ↦ atoi_loop base ((result * base + d) % u64_mod) cs
  ]
]

-- `sign` is 2 ^ 64 - 1 behind a minus.
unfoldable pub atoi : List ℕ → ℕ → ℕ
unfolding atoi_loop
atoi [] base = 0
atoi (c ∷ cs) base =
    if c == 45 then (u64_mod - 1) * atoi_loop base 0 cs % u64_mod else atoi_loop base 0 (c ∷ cs)
