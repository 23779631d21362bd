-- ===== src/Arrays/Cells.antt =====
-- A list in its cells, and the reads and writes there.
use matte_os.Base.{
  ap, sym, ◌∙◌, ℕ, suc, ◌+◌, ◌<◌, ◌≡◌, refl, Option, none, some, List, [], ◌∷◌, ◌++◌, map, arith,
  length, set, replicate, length-append, length-map, lt→ltb,
}
use mathlib.Core.List.{append_assoc, append-nil}
use matte_os.Arrays.{ArrayList, load, store, copy_cells}

module _ {ℓ} {A : Type ℓ} where
  -- The list holds `xs`: they fill its first cells, and the capacity is not zero.
  pub record Holds (a : ArrayList A) (xs : List A) : Type ℓ where
    pub spare : List (Option A)
    pub filled : a.cells ≡ map some xs ++ spare
    pub counted : a.ptr ≡ length xs
    pub capacity : length a.cells ≡ a.size
    pub room : 0 < a.size

  pub length_cells :
      (xs : List A) (spare : List (Option A))
      → length (map some xs ++ spare) ≡ length xs + length spare
  length_cells xs spare = omega (arith, length-append (map some xs) spare, length-map xs some)

  pub split_cells :
      (xs : List A) (y : A) (ys : List A) (spare : List (Option A))
      → map some (xs ++ y ∷ ys) ++ spare ≡ map some xs ++ some y ∷ (map some ys ++ spare)
  split_cells [] y ys spare = refl
  split_cells (x ∷ xs) y ys spare = ap (λ l. some x ∷ l) (split_cells xs y ys spare)

  pub load-append :
      (xs : List A) (v : A) (rest : List (Option A))
      → load (map some xs ++ some v ∷ rest) (length xs) ≡ some v
  unfolding load
  load-append [] v rest = refl
  load-append (x ∷ xs) v rest = load-append xs v rest

  pub set-append :
      (xs : List A) (c d : Option A) (rest : List (Option A))
      → set (map some xs ++ c ∷ rest) (length xs) d ≡ map some xs ++ d ∷ rest
  set-append [] c d rest = refl
  set-append (x ∷ xs) c d rest = ap (λ l. some x ∷ l) (set-append xs c d rest)

  pub map-snoc :
      (xs : List A) (v : A) (rest : List (Option A))
      → map some (xs ++ v ∷ []) ++ rest ≡ map some xs ++ some v ∷ rest
  map-snoc [] v rest = refl
  map-snoc (x ∷ xs) v rest = ap (λ l. some x ∷ l) (map-snoc xs v rest)

  pub store-append :
      (xs : List A) (v : A) (c : Option A) (rest : List (Option A))
      → store (map some xs ++ c ∷ rest) (length xs) v ≡ some (map some (xs ++ v ∷ []) ++ rest)
  unfolding store
  store-append xs v c rest =
      let lt : length xs < length (map some xs ++ c ∷ rest) =
        omega (arith, length-append (map some xs) (c ∷ rest), length-map xs some) in
      rw (lt→ltb _ _ lt) (ap some (set-append xs c (some v) rest ∙ sym (map-snoc xs v rest)))

  pub length-snoc : (xs : List A) (v : A) → length (xs ++ v ∷ []) ≡ length xs + 1
  length-snoc xs v = omega (arith, length-append xs (v ∷ []))

  load_middle :
      (xs : List A) (y : A) (ys : List A) (spare : List (Option A))
      → load (map some (xs ++ y ∷ ys) ++ spare) (length xs) ≡ some y
  unfolding load
  load_middle [] y ys spare = refl
  load_middle (x ∷ xs) y ys spare = load_middle xs y ys spare

  copy_step :
      (n i : ℕ) (from to to' : List (Option A)) (y : A)
      → load from i ≡ some y
      → store to i y ≡ some to'
      → copy_cells (suc n) i from to ≡ copy_cells n (i + 1) from to'
  unfolding copy_cells
  copy_step n i from to to' y read write = rw (copy_cells, read, write)

  -- Copying the filled cells.
  pub copy_cells_lem :
      (ys xs : List A) (i : ℕ) (spare : List (Option A)) (k : ℕ)
      → length xs ≡ i
      → copy_cells
          (length ys)
          i
          (map some (xs ++ ys) ++ spare)
          (map some xs ++ replicate (length ys + k) none)
        ≡ some (map some (xs ++ ys) ++ replicate k none)
  copy_cells_lem [] xs i spare k e =
      let none_left : 0 + k ≡ k = omega arith in
      unfold copy_cells in rw (append-nil xs, none_left) refl
  copy_cells_lem (y ∷ ys) xs i spare k e =
      let split : xs ++ y ∷ ys ≡ (xs ++ y ∷ []) ++ ys = sym (append_assoc xs (y ∷ []) ys) in
      let read : load (map some (xs ++ y ∷ ys) ++ spare) i ≡ some y =
        rw (← e) (load_middle xs y ys spare) in
      let write : store (map some xs ++ none ∷ replicate (length ys + k) none) i y
          ≡ some (map some (xs ++ y ∷ []) ++ replicate (length ys + k) none) =
        rw (← e) (store-append xs y none (replicate (length ys + k) none)) in
      let rest = copy_cells_lem ys (xs ++ y ∷ []) (i + 1) spare k (rw (length-snoc xs y, e) refl) in
      let one_more : suc (length ys) + k ≡ suc (length ys + k) = omega arith in
      rw one_more (copy_step (length ys) i _ _ _ y read write ∙ rw split rest)
