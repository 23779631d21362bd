-- ===== src/Tests/Strings.antt =====
-- Comparing short strings.
use matte_os.Base.{[], ◌∷◌}
use matte_os.Strings.{String}
use matte_os.Strings.Loops.{NoNul}

abbrev small_letters : String
small_letters = 97 ∷ 98 ∷ []

abbrev capitals : String
capitals = 65 ∷ 66 ∷ []

capitals-NoNul : NoNul capitals
unfolding NoNul
capitals-NoNul = (λ e. cc, (λ e. cc, tt))
