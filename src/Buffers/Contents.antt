-- ===== src/Buffers/Contents.antt =====
-- What the buffer holds after a write.
use matte_os.Base.{ap, ℕ, ◌+◌, ◌<◌, ◌≡◌, refl, List, [], ◌∷◌, ◌++◌, length, take, replicate}
use matte_os.Buffers.{CircularStringBuffer, to_string}

-- The buffer holds `text`, with room left for a terminator.
pub record Holds (b : CircularStringBuffer) (text : List ℕ) : Type 0 where
  pub spare : List ℕ
  pub filled : b.bytes ≡ text ++ spare
  pub counted : b.head ≡ length text
  pub capacity : length b.bytes ≡ b.size
  pub room : length text < b.size

with_put : CircularStringBuffer → List ℕ → ℕ → CircularStringBuffer
with_put b bytes n = record b { bytes = bytes; head = b.head + n }

cleared : CircularStringBuffer → CircularStringBuffer
cleared b = record b { bytes = replicate b.size 0; head = 0 }

-- `to_string` is the text.
pub to_string-Holds : (b : CircularStringBuffer) (text : List ℕ) → Holds b text → to_string b ≡ text
unfolding to_string
to_string-Holds b text h = rw (h.counted, h.filled) (take_length text h.spare)
  where
    take_length : (xs ys : List ℕ) → take (length xs) (xs ++ ys) ≡ xs
    take_length [] ys = refl
    take_length (x ∷ xs) ys = ap (λ l. x ∷ l) (take_length xs ys)
