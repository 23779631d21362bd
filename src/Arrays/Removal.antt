-- ===== src/Arrays/Removal.antt =====
-- Removing an element: those behind it move down by one.
use matte_os.Base.{
  ◌∙◌, ap, ℕ, suc, ◌+◌, ◌-◌, ◌%◌, ◌<◌, ◌≡◌, refl, Option, none, some, List, [], ◌∷◌, ◌++◌, map,
  arith, length, set, length-append, length-set, lt→ltb,
}
use mathlib.Core.List.{append_assoc, append-nil}
use matte_os.Pages.{u64_mod}
use matte_os.Arrays.{ArrayList, load, store, shift, remove}
use matte_os.Arrays.Cells.{Holds, length_cells, split_cells, store-append, set-append, length-snoc}
use matte_os.Arrays.Growth.{bounded}

module _ {ℓ} {A : Type ℓ} where
  shift_step :
      (n i : ℕ) (cells cells' : List (Option A)) (y : A)
      → load cells (i + 1) ≡ some y
      → store cells i y ≡ some cells'
      → shift (suc n) i cells ≡ shift n (i + 1) cells'
  unfolding shift
  shift_step n i cells cells' y read write = rw (shift, read, write)

  load_next :
      (xs : List A) (c : Option A) (y : A) (rest : List (Option A))
      → load (map some xs ++ c ∷ some y ∷ rest) (length xs + 1) ≡ some y
  unfolding load
  load_next [] c y rest = refl
  load_next (x ∷ xs) c y rest =
      let e : suc (length xs) + 1 ≡ suc (length xs + 1) = omega arith in
      rw e (load_next xs c y rest)

  -- The loop of `remove`; the last cell it reads keeps its value.
  shift_lem :
      (ys xs : List A) (i : ℕ) (c : Option A) (spare : List (Option A))
      → length xs ≡ i
      → (d : Option A) × (shift (length ys) i (map some xs ++ c ∷ (map some ys ++ spare))
          ≡ some (map some (xs ++ ys) ++ d ∷ spare))
  shift_lem [] xs i c spare e = (c, unfold shift in rw (append-nil xs) refl)
  shift_lem (y ∷ ys) xs i c spare e =
      let rest = map some ys ++ spare in
      let read : load (map some xs ++ c ∷ some y ∷ rest) (i + 1) ≡ some y =
        rw (← e) (load_next xs c y rest) in
      let write : store (map some xs ++ c ∷ some y ∷ rest) i y
          ≡ some (map some (xs ++ y ∷ []) ++ some y ∷ rest) =
        rw (← e) (store-append xs y c (some y ∷ rest)) in
      let (d, run) =
        shift_lem ys (xs ++ y ∷ []) (i + 1) (some y) spare (omega (arith, length-snoc xs y)) in
      (
        d,
        shift_step (length ys) i _ _ y read write
            ∙ run
            ∙ ap (λ zs. some (map some zs ++ d ∷ spare)) (append_assoc xs (y ∷ []) ys),
      )

  with_end : ArrayList A → List (Option A) → ℕ → ArrayList A
  with_end a cells end = record a { cells = set cells end none; ptr = end }

  remove_step :
      (a : ArrayList A) (i n end : ℕ) (cells : List (Option A))
      → (a.ptr + u64_mod - 1) % u64_mod ≡ end
      → end - i ≡ n
      → i < a.size
      → shift n i (set a.cells i none) ≡ some cells
      → remove a i ≡ some (with_end a cells end)
  unfolding remove with_end
  remove_step a i n end cells e rounds lt run = rw (remove, lt→ltb _ _ lt, e, rounds, run, e) refl

  -- `remove` of the index of an element takes that element out and keeps the others in order; the
  -- capacity, which must fit a `size_t`, stays.
  pub remove-Holds :
      (a : ArrayList A) (xs ys : List A) (x : A)
      → Holds a (xs ++ x ∷ ys)
      → a.size < u64_mod
      → (a' : ArrayList A) × (remove a (length xs) ≡ some a')
        × Holds a' (xs ++ ys)
        × (a'.size ≡ a.size)
  unfolding with_end
  remove-Holds a xs ys x h fits =
      let total = length-append xs (x ∷ ys) in
      let count = length-append xs ys in
      let cleared : set a.cells (length xs) none ≡ map some xs ++ none ∷ (map some ys ++ h.spare) =
        ap (λ l. set l (length xs) none) (h.filled ∙ split_cells xs x ys h.spare)
        ∙ set-append xs (some x) none (map some ys ++ h.spare) in
      let (d, run) = shift_lem ys xs (length xs) none h.spare refl in
      let end_lt : set (map some (xs ++ ys) ++ d ∷ h.spare) (length (xs ++ ys)) none
          ≡ map some (xs ++ ys) ++ none ∷ h.spare =
        set-append (xs ++ ys) d none h.spare in
      (
        with_end a (map some (xs ++ ys) ++ d ∷ h.spare) (length (xs ++ ys)),
        remove_step a (length xs) (length ys) (length (xs ++ ys)) _
            (omega (arith, h.counted, bounded h, total, count)) (omega (arith, count))
            (omega (arith, bounded h, total)) (rw cleared run),
        record {
          spare = none ∷ h.spare;
          filled = end_lt;
          counted = refl;
          capacity = omega (
            arith,
            h.capacity,
            ap length h.filled,
            length_cells (xs ++ x ∷ ys) h.spare,
            total,
            count,
            length-set (map some (xs ++ ys) ++ d ∷ h.spare) (length (xs ++ ys)) none,
            length_cells (xs ++ ys) (d ∷ h.spare),
          );
          room = h.room;
        },
        refl,
      )
