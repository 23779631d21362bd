-- ===== src/Paths/Prefix.antt =====
-- `longest_common_prefix` chooses a mount by the parts that its path shares with the wanted one.
use matte_os.Base.{
  ◌∙◌, ap, sym, ℕ, suc, ◌+◌, ◌<◌, ◌≤◌, ◌≡◌, refl, Bool, true, false, List, [], ◌∷◌, ltb, lt→ltb,
  if◌then◌else◌, arith, inl, inr, some, Bool-cases, dec_lt, ◌&&◌,
}
use matte_os.Errors.{ErrorOr, value, error, create_from_string}
use matte_os.Strings.{String, equals}
use matte_os.Paths.{
  split, prefix_loop, visit_mounts, longest_common_prefix, relative_path, open_path,
}

-- The number of leading parts that two paths share.
unfoldable pub shared : List String → List String → ℕ
shared [] mount = 0
shared (p ∷ path) [] = 0
shared (p ∷ path) (m ∷ mount) = let rest = shared path mount in if equals p m then suc rest else 0

module _ {ℓ} {F : Type ℓ} where
  -- A mount that shares more parts than the best so far takes its place.
  abbrev pub better : F → ℕ → F × ℕ → F × ℕ
  better fs n (found, longest) = if ltb longest n then (fs, n) else (found, longest)

  unfoldable pub best_mount : List String → List (String × F) → F × ℕ → F × ℕ
  best_mount path [] best = best
  best_mount path ((mount_point, fs) ∷ mounts) best =
      best_mount path mounts (better fs (shared path (split 47 mount_point)) best)

  module _ (fs : F) where
    differ :
        (p m : String) (path mount : List String) (i longest : ℕ) (found : F)
        → equals p m ≡ false
        → prefix_loop fs (p ∷ path) (m ∷ mount) i (found, longest) ≡ (found, longest)
    unfolding prefix_loop
    differ p m path mount i longest found e = rw (prefix_loop, e) refl

    longer :
        (p m : String) (path mount : List String) (i longest : ℕ) (found : F)
        → equals p m ≡ true
        → ltb longest (i + 1) ≡ true
        → prefix_loop fs (p ∷ path) (m ∷ mount) i (found, longest)
          ≡ prefix_loop fs path mount (i + 1) (fs, i + 1)
    unfolding prefix_loop
    longer p m path mount i longest found e l = rw (prefix_loop, e, l) refl

    no_longer :
        (p m : String) (path mount : List String) (i longest : ℕ) (found : F)
        → equals p m ≡ true
        → ltb longest (i + 1) ≡ false
        → prefix_loop fs (p ∷ path) (m ∷ mount) i (found, longest)
          ≡ prefix_loop fs path mount (i + 1) (found, longest)
    unfolding prefix_loop
    no_longer p m path mount i longest found e l = rw (prefix_loop, e, l) refl

    shared_same :
        (p m : String) (path mount : List String)
        → equals p m ≡ true
        → shared (p ∷ path) (m ∷ mount) ≡ suc (shared path mount)
    unfolding shared
    shared_same p m path mount e = rw e refl

    shared_other :
        (p m : String) (path mount : List String)
        → equals p m ≡ false
        → shared (p ∷ path) (m ∷ mount) ≡ 0
    unfolding shared
    shared_other p m path mount e = rw e refl

    keep :
        (n longest : ℕ) (found : F) → n ≤ longest → better fs n (found, longest) ≡ (found, longest)
    keep n longest found le = let e : ltb longest n ≡ false = ground arith in rw e refl

    take_over : (n longest : ℕ) (found : F) → longest < n → better fs n (found, longest) ≡ (fs, n)
    take_over n longest found lt = let e : ltb longest n ≡ true = ground arith in rw e refl

    -- The loop from `i` on, once the mount's own file system is the best with `i` parts.
    prefix_own :
        (path mount : List String) (i : ℕ)
        → prefix_loop fs path mount i (fs, i) ≡ (fs, i + shared path mount)
    prefix_own [] mount i = unfold prefix_loop shared in ap (λ n. (fs, n)) (omega arith)
    prefix_own (p ∷ path) [] i = unfold prefix_loop shared in ap (λ n. (fs, n)) (omega arith)
    prefix_own (p ∷ path) (m ∷ mount) i = elim (Bool-cases (equals p m)) [
      | inl same ↦
          longer p m path mount i i fs same (lt→ltb i (i + 1) (omega arith))
          ∙ (prefix_own path mount (i + 1)
              ∙ ap (λ n. (fs, n)) (omega (arith, shared_same p m path mount same)))
      | inr other ↦
          differ p m path mount i i fs other
          ∙ ap (λ n. (fs, n)) (omega (arith, shared_other p m path mount other))
    ]

    prefix_lem :
        (path mount : List String) (i longest : ℕ) (found : F)
        → i ≤ longest
        → prefix_loop fs path mount i (found, longest)
          ≡ better fs (i + shared path mount) (found, longest)
    prefix_lem [] mount i longest found le =
        unfold prefix_loop shared in sym (keep (i + 0) longest found (omega arith))
    prefix_lem (p ∷ path) [] i longest found le =
        unfold prefix_loop shared in sym (keep (i + 0) longest found (omega arith))
    prefix_lem (p ∷ path) (m ∷ mount) i longest found le = elim (Bool-cases (equals p m)) [
      | inl same ↦
          let count = shared_same p m path mount same in
          elim (dec_lt longest (i + 1)) [
            | yes lt ↦
                longer p m path mount i longest found same (lt→ltb longest (i + 1) lt)
                ∙ (prefix_own path mount (i + 1)
                    ∙ (ap (λ n. (fs, n)) (omega (arith, count))
                        ∙ sym (
                            take_over (i + shared (p ∷ path) (m ∷ mount)) longest found
                              (omega (arith, count)))))
            | no ge ↦
                no_longer p m path mount i longest found same (ground arith)
                ∙ (prefix_lem path mount (i + 1) longest found (omega arith)
                    ∙ ap (λ n. better fs n (found, longest)) (omega (arith, count)))
          ]
      | inr other ↦
          let count = shared_other p m path mount other in
          differ p m path mount i longest found other
          ∙ sym (keep (i + shared (p ∷ path) (m ∷ mount)) longest found (omega (arith, count)))
    ]

  visit_lem :
      (path : List String) (mounts : List (String × F)) (best : F × ℕ)
      → visit_mounts path mounts best ≡ best_mount path mounts best
  unfolding visit_mounts best_mount
  visit_lem path [] best = refl
  visit_lem path ((mount_point, fs) ∷ mounts) (found, longest) =
      ap (visit_mounts path mounts) (
        prefix_lem fs path (split 47 mount_point) 0 longest found (omega arith)
        ∙ ap (λ n. better fs n (found, longest)) (omega arith))
      ∙ visit_lem path mounts (better fs (shared path (split 47 mount_point)) (found, longest))

  longest_common_prefix-best_mount :
      (root : F) (mounts : List (String × F)) (path : List String)
      → longest_common_prefix (some root) mounts path ≡ value (best_mount path mounts (root, 0))
  unfolding longest_common_prefix
  longest_common_prefix-best_mount root mounts path = ap value (visit_lem path mounts (root, 0))

module _ {ℓ κ} {F : Type ℓ} {A : Type κ} (exists : F → String → Bool)
    (open_in : F → String → ErrorOr A) where
  -- The answer for a file system and the number of leading parts that are left out of the path.
  abbrev pub opened : Bool → List String → F × ℕ → ErrorOr A
  opened exclusive path_parts (fs, longest) =
      if exists fs (relative_path path_parts longest) && exclusive
      then error (create_from_string "Cannot open file in exclusive mode! File already exists!")
      else open_in fs (relative_path path_parts longest)

  outcome : Bool → List String → ErrorOr (F × ℕ) → ErrorOr A
  outcome exclusive path_parts (error e) = error e
  outcome exclusive path_parts (value found) = opened exclusive path_parts found

  -- With a root file system, `open` opens the path in the first of the mounts that share the most parts with
  -- it, or in the root when no mount shares its first part: the path without the shared parts, and an error
  -- when that exists and the mode is exclusive.
  pub open_path-best_mount :
      (root : F) (mounts : List (String × F)) (exclusive : Bool) (path : String)
      → open_path exists open_in (some root) mounts exclusive path
        ≡ opened exclusive (split 47 path) (best_mount (split 47 path) mounts (root, 0))
  unfolding open_path outcome
  open_path-best_mount root mounts exclusive path =
      ap (outcome exclusive (split 47 path))
        (longest_common_prefix-best_mount root mounts (split 47 path))
