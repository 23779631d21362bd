-- ===== src/Tests/Maps.antt =====
-- A map from numbers to numbers whose hash is the key itself.
use matte_os.Base.{◌≡◌, refl, ℕ, ◌==◌, update, Bool, none, some, [], ◌∷◌}
use matte_os.Maps.{HashMap, create, set, set_bucket}
use matte_os.Maps.Changes.{created, by_set, Reachable-set}

abbrev same_number : ℕ → ℕ
same_number n = n

abbrev equal_numbers : ℕ → ℕ → Bool
equal_numbers a b = a == b

-- The key 23 is in bucket 3.
abbrev one_entry : HashMap ℕ ℕ
one_entry = record { entries = update (λ i. []) 3 (record { key = 23; item = 7 } ∷ []) }

first_set : set same_number equal_numbers 23 7 create ≡ some one_entry
unfolding set set_bucket
first_set = refl

Reachable-set_example : set same_number equal_numbers 3 8 one_entry ≡ none
Reachable-set_example =
    Reachable-set same_number equal_numbers one_entry 3 8 (by_set 23 7 created first_set) (λ e. cc)
