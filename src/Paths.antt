-- ===== src/Paths.antt =====
-- Paths: `String::split` of Utils/Strings/String.cpp for separators of one character, which are the only ones in
-- use, and `longest_common_prefix` and `open` of Kernel/FileSystem/VirtualFileSystem.cpp.
-- A file system is named by an element of `F`. The mounts stand in the order in which `for_each` visits them.
pub mod Splitting
pub mod Prefix
pub mod Joining
use matte_os.Base.{
  ℕ, zero, suc, ◌+◌, ◌-◌, ◌<◌, Bool, true, false, not, ◌||◌, ◌&&◌, Option, none, some, List, [],
  ◌∷◌, ◌++◌, ◌==◌, ltb, if◌then◌else◌, get_or, take, drop, length,
}
use matte_os.Errors.{ErrorOr, value, error, create_from_string}
use matte_os.Strings.{String, equals}

-- The loop of `split` over the rounds left, and the part that is added behind it.
unfoldable pub split_loop : ℕ → String → ℕ → ℕ → ℕ → List String
split_loop separator s zero i last_index =
    if ltb last_index (length s) then drop last_index s ∷ [] else []
split_loop separator s (suc n) i last_index =
    let skip = split_loop separator s n (i + 1) (i + 1) in
    let on = split_loop separator s n (i + 1) last_index in
    if get_or s i 0 == separator
    then (if i == 0 || i + 1 == length s
        then skip
        else if i == last_index
        then skip
        else take (i - last_index) (drop last_index s) ∷ skip)
    else on

unfoldable pub split : ℕ → String → List String
unfolding split_loop
split separator s = split_loop separator s (length s) 0 0

module _ {ℓ} {F : Type ℓ} where
  -- for(u32 i = 0; ...): `i`, the rest of both paths, and the best file system so far with its length.
  unfoldable pub prefix_loop : F → List String → List String → ℕ → F × ℕ → F × ℕ
  unfolding equals
  prefix_loop fs [] mount i best = best
  prefix_loop fs (p ∷ path) [] i best = best
  prefix_loop fs (p ∷ path) (m ∷ mount) i (found, longest) =
      let more = prefix_loop fs path mount (i + 1) (fs, i + 1) in
      let same = prefix_loop fs path mount (i + 1) (found, longest) in
      if not (equals p m) then (found, longest) else if ltb longest (i + 1) then more else same

  -- m_mounts.for_each(...)
  unfoldable pub visit_mounts : List String → List (String × F) → F × ℕ → F × ℕ
  unfolding split prefix_loop
  visit_mounts path [] best = best
  visit_mounts path ((mount_point, fs) ∷ mounts) best =
      visit_mounts path mounts (prefix_loop fs path (split 47 mount_point) 0 best)

  -- `none` is a root inode that is not set.
  unfoldable pub longest_common_prefix :
      Option F → List (String × F) → List String → ErrorOr (F × ℕ)
  unfolding visit_mounts
  longest_common_prefix none mounts path = error (create_from_string "No root filesystem mounted!")
  longest_common_prefix (some root) mounts path = value (visit_mounts path mounts (root, 0))

-- The parts behind the mount, joined: the loop of `open`.
unfoldable pub join : List String → String
join [] = []
join (p ∷ []) = p
join (p ∷ q ∷ ps) = p ++ 47 ∷ join (q ∷ ps)

abbrev pub relative_path : List String → ℕ → String
relative_path path_parts longest = 47 ∷ join (drop longest path_parts)

-- `exists` and `open_in` are the two virtual functions of the file system that is chosen; no mount holds a
-- null pointer.
module _ {ℓ κ} {F : Type ℓ} {A : Type κ} (exists : F → String → Bool)
    (open_in : F → String → ErrorOr A) where
  unfoldable pub open_path : Option F → List (String × F) → Bool → String → ErrorOr A
  unfolding longest_common_prefix split join
  open_path root mounts exclusive path =
      let path_parts = split 47 path in
      elim (longest_common_prefix root mounts path_parts) [
        | error e ↦ error e
        | value (fs, longest) ↦
            let relative = relative_path path_parts longest in
            if exists fs relative && exclusive
            then error
                (create_from_string "Cannot open file in exclusive mode! File already exists!")
            else open_in fs relative
      ]
