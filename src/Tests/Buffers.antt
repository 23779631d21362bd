-- ===== src/Tests/Buffers.antt =====
-- A buffer of four characters that holds two.
use matte_os.Base.{◌≡◌, refl, [], ◌∷◌, arith}
use matte_os.Buffers.{CircularStringBuffer, to_string}
use matte_os.Buffers.Contents.{Holds, to_string-Holds}

abbrev four_characters : CircularStringBuffer
four_characters = record { bytes = 1 ∷ 2 ∷ 0 ∷ 0 ∷ []; size = 4; head = 2 }

four_characters-Holds : Holds four_characters (1 ∷ 2 ∷ [])
four_characters-Holds = record {
  spare = 0 ∷ 0 ∷ [];
  filled = refl;
  counted = refl;
  capacity = refl;
  room = omega arith;
}

to_string_run : to_string four_characters ≡ 1 ∷ 2 ∷ []
to_string_run = to_string-Holds four_characters (1 ∷ 2 ∷ []) four_characters-Holds
