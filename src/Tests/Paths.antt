-- ===== src/Tests/Paths.antt =====
-- Paths and mounts.
use matte_os.Base.{ℕ, ◌≡◌, refl, some, List, [], ◌∷◌, arith, drop, Bool, true, false}
use matte_os.Errors.{ErrorOr, value}
use matte_os.Strings.{String}
use matte_os.Paths.{split, longest_common_prefix, relative_path, open_path}
use matte_os.Paths.Splitting.{EndsWithout, parts, split-parts}
use matte_os.Paths.Prefix.{best_mount, opened, open_path-best_mount}
use matte_os.Paths.Joining.{NoSlash, Names, split-relative_path}

-- "/a//bc"
abbrev path : String
path = 47 ∷ 97 ∷ 47 ∷ 47 ∷ 98 ∷ 99 ∷ []

two_parts : split 47 path ≡ (97 ∷ []) ∷ (98 ∷ 99 ∷ []) ∷ []
unfolding split
two_parts = refl

-- The last part of "/a/b/" is lost.
last_part_lost : split 47 (47 ∷ 97 ∷ 47 ∷ 98 ∷ 47 ∷ []) ≡ (97 ∷ []) ∷ []
unfolding split
last_part_lost = refl

split-parts_example : split 47 path ≡ parts 47 [] path
unfolding EndsWithout
split-parts_example = split-parts 47 path (λ e. omega arith)

-- The file systems 1 at "/", 2 at "/a" and 3 at "/a/d".
abbrev mounts : List (String × ℕ)
mounts = (47 ∷ [], 1) ∷ (47 ∷ 97 ∷ [], 2) ∷ (47 ∷ 97 ∷ 47 ∷ 100 ∷ [], 3) ∷ []

second_chosen : longest_common_prefix (some 1) mounts (split 47 path) ≡ value (2, 1)
unfolding longest_common_prefix split
second_chosen = refl

abbrev one_mount : List (String × ℕ)
one_mount = (47 ∷ 97 ∷ 47 ∷ 100 ∷ [], 3) ∷ []

-- A mount is chosen for a path that is not below it.
not_below : longest_common_prefix (some 1) one_mount (split 47 path) ≡ value (3, 1)
unfolding longest_common_prefix split
not_below = refl

-- A file system that has every file and opens it as its own number.
abbrev every : ℕ → String → Bool
every fs name = true

abbrev itself : ℕ → String → ErrorOr ℕ
itself fs name = value fs

open_path-best_mount_example :
    open_path every itself (some 1) mounts false path
    ≡ opened every itself false (split 47 path) (best_mount (split 47 path) mounts (1, 0))
open_path-best_mount_example = open_path-best_mount every itself 1 mounts false path

abbrev three_parts : List String
three_parts = (97 ∷ []) ∷ (98 ∷ 99 ∷ []) ∷ (97 ∷ []) ∷ []

split-relative_path_example : split 47 (relative_path three_parts 1) ≡ drop 1 three_parts
unfolding Names NoSlash
split-relative_path_example =
    split-relative_path three_parts 1 (98 ∷ 99 ∷ []) ((97 ∷ []) ∷ []) refl
      (((λ e. omega arith), ((λ e. omega arith), tt)), (((λ e. omega arith), tt), tt))
