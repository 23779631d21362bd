-- ===== src/Tests/Numerals.antt =====
-- Numbers as text.
use matte_os.Base.{ℕ, ◌≤◌, ◌≡◌, refl, some, List, [], ◌∷◌, length, arith}
use matte_os.Numerals.{itoa, atoi}
use matte_os.Numerals.RoundTrip.{atoi-itoa}

-- "cafe" and "0".
hexadecimal : itoa 64 0xcafe 16 ≡ some (99 ∷ 97 ∷ 102 ∷ 101 ∷ 0 ∷ [])
unfolding itoa
hexadecimal = refl

nothing : itoa 64 0 10 ≡ some (48 ∷ 0 ∷ [])
unfolding itoa
nothing = refl

-- "-12" is 2 ^ 64 - 12.
negative : atoi (45 ∷ 49 ∷ 50 ∷ 0 ∷ []) 10 ≡ 0xfffffffffffffff4
unfolding atoi
negative = refl

atoi-itoa_example :
    (buf : List ℕ) × (itoa 64 0xcafe 16 ≡ some buf) × (length buf ≤ 65) × (atoi buf 16 ≡ 0xcafe)
atoi-itoa_example = atoi-itoa 0xcafe 16 (omega arith) (omega arith) (omega arith)
