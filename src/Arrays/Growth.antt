-- ===== src/Arrays/Growth.antt =====
-- Adding to a list and copying one.
use matte_os.Base.{
  ◌∙◌, ap, ℕ, ◌+◌, ◌-◌, ◌*◌, ◌%◌, ◌≤◌, ◌<◌, ◌≡◌, refl, Option, none, some, List, [], ◌∷◌, ◌++◌, map,
  arith, length, replicate, length-append, length-map, length-replicate, dec_lt, lt→not_leb, le→leb,
}
use matte_os.Pages.{u64_mod}
use matte_os.Arrays.{ArrayList, store, copy_cells, allocate, grow, place, add, copy, create}
use matte_os.Arrays.Cells.{Holds, store-append, length-snoc, copy_cells_lem}

module _ {ℓ} {A : Type ℓ} where
  -- A new list is empty.
  pub create-Holds : Holds (create {A = A}) []
  unfolding create
  create-Holds = record {
    spare = allocate 8;
    filled = refl;
    counted = refl;
    capacity = refl;
    room = omega arith;
  }

  copied :
      (xs : List A) (cells spare : List (Option A)) (size : ℕ)
      → cells ≡ map some xs ++ spare
      → length xs ≤ size
      → copy_cells (length xs) 0 cells (allocate size)
        ≡ some (map some xs ++ replicate (size - length xs) none)
  copied xs cells spare size e le =
      let fill : size ≡ length xs + (size - length xs) = omega arith in
      rw e (
        ap (λ n. copy_cells (length xs) 0 (map some xs ++ spare) (replicate n none)) fill
        ∙ copy_cells_lem xs [] 0 spare (size - length xs) refl)

  fresh : List A → ℕ → ℕ → ArrayList A
  fresh xs size ptr = record {
    cells = map some xs ++ replicate (size - length xs) none;
    size = size;
    ptr = ptr;
  }

  fresh-Holds :
      (xs : List A) (size ptr : ℕ)
      → ptr ≡ length xs
      → length xs ≤ size
      → 0 < size
      → Holds (fresh xs size ptr) xs
  unfolding fresh
  fresh-Holds xs size ptr e le room = record {
    spare = replicate (size - length xs) none;
    filled = refl;
    counted = e;
    capacity = omega (
      arith,
      length-append (map some xs) (replicate (size - length xs) none),
      length-map xs some,
      length-replicate {A = Option A} (size - length xs) none,
    );
    room = room;
  }

  pub bounded : {a : ArrayList A} {xs : List A} → Holds a xs → length xs ≤ a.size
  bounded {xs = xs} h = omega (
    arith,
    h.capacity,
    ap length h.filled,
    length-append (map some xs) h.spare,
    length-map xs some,
  )

  grow_step :
      (a : ArrayList A) (xs : List A) (n : ℕ)
      → a.size * 2 % u64_mod ≡ n
      → copy_cells a.ptr 0 a.cells (allocate n)
        ≡ some (map some xs ++ replicate (n - length xs) none)
      → grow a ≡ some (fresh xs n a.ptr)
  unfolding grow fresh
  grow_step a xs n e run = rw (grow, e, run, e) refl

  copy_step :
      (a : ArrayList A) (xs : List A)
      → copy_cells a.ptr 0 a.cells (allocate a.size)
        ≡ some (map some xs ++ replicate (a.size - length xs) none)
      → copy a ≡ some (fresh xs a.size a.ptr)
  unfolding copy fresh
  copy_step a xs run = rw (copy, run) refl

  fresh_copied :
      (a : ArrayList A) (xs : List A) (n : ℕ)
      → Holds a xs
      → length xs ≤ n
      → copy_cells a.ptr 0 a.cells (allocate n)
        ≡ some (map some xs ++ replicate (n - length xs) none)
  fresh_copied a xs n h le =
      ap (λ k. copy_cells k 0 a.cells (allocate n)) h.counted
      ∙ copied xs a.cells h.spare n h.filled le

  grow-Holds :
      (a : ArrayList A) (xs : List A)
      → Holds a xs
      → a.size * 2 < u64_mod
      → (a' : ArrayList A) × (grow a ≡ some a') × Holds a' xs × (a'.ptr < a'.size)
  unfolding fresh
  grow-Holds a xs h fits =
      let le : length xs ≤ a.size * 2 = omega (arith, bounded h) in
      (
        fresh xs (a.size * 2) a.ptr,
        grow_step a xs _ (omega arith) (fresh_copied a xs _ h le),
        fresh-Holds xs _ _ h.counted le (omega (arith, h.room)),
        omega (arith, h.room, h.counted, bounded h),
      )

  -- The copy constructor does not fail: the copy holds what the list holds, with the same capacity.
  pub copy-Holds :
      (a : ArrayList A) (xs : List A)
      → Holds a xs
      → (a' : ArrayList A) × (copy a ≡ some a') × Holds a' xs × (a'.size ≡ a.size)
  unfolding fresh
  copy-Holds a xs h = (
    fresh xs a.size a.ptr,
    copy_step a xs (fresh_copied a xs _ h (bounded h)),
    fresh-Holds xs _ _ h.counted (bounded h) h.room,
    refl,
  )

  with_place : ArrayList A → List (Option A) → ArrayList A
  with_place a cells = record a { cells = cells; ptr = a.ptr + 1 }

  place_step :
      (v : A) (a : ArrayList A) (cells : List (Option A))
      → store a.cells a.ptr v ≡ some cells
      → place v a ≡ some (a.ptr, with_place a cells)
  unfolding place with_place
  place_step v a cells run = rw (place, run) refl

  place-Holds :
      (v : A) (a : ArrayList A) (xs : List A) (spare : List (Option A))
      → a.cells ≡ map some xs ++ spare
      → a.ptr ≡ length xs
      → length a.cells ≡ a.size
      → a.ptr < a.size
      → (a' : ArrayList A) × (place v a ≡ some (a.ptr, a')) × Holds a' (xs ++ v ∷ [])
  unfolding with_place
  place-Holds v a xs [] e counted capacity lt =
      absurd (omega (arith, ap length e, length-append (map some xs) [], length-map xs some))
  place-Holds v a xs (c ∷ rest) e counted capacity lt =
      let run : store a.cells a.ptr v ≡ some (map some (xs ++ v ∷ []) ++ rest) =
        rw (e, counted) (store-append xs v c rest) in
      (
        with_place a (map some (xs ++ v ∷ []) ++ rest),
        place_step v a _ run,
        record {
          spare = rest;
          filled = refl;
          counted = omega (arith, length-snoc xs v);
          capacity = omega (
            arith,
            ap length e,
            length-append (map some xs) (c ∷ rest),
            length-map xs some,
            length-append (map some (xs ++ v ∷ [])) rest,
            length-map (xs ++ v ∷ []) some,
            length-snoc xs v,
          );
          room = omega arith;
        },
      )

  add_free : (v : A) (a : ArrayList A) → a.ptr < a.size → add v a ≡ place v a
  unfolding add
  add_free v a lt = rw (add, lt→not_leb _ _ lt) refl

  add_full : (v : A) (a a' : ArrayList A) → a.size ≤ a.ptr → grow a ≡ some a' → add v a ≡ place v a'
  unfolding add
  add_full v a a' le run = rw (add, le→leb _ _ le, run) refl

  place_in :
      (v : A) (a : ArrayList A) (xs : List A)
      → Holds a xs
      → a.ptr < a.size
      → (a' : ArrayList A) × (place v a ≡ some (length xs, a')) × Holds a' (xs ++ v ∷ [])
  place_in v a xs h lt =
      let (a', run, h') = place-Holds v a xs h.spare h.filled h.counted h.capacity lt in
      (a', run ∙ ap (λ n. some (n, a')) h.counted, h')

  -- `add` puts the value behind the others, growing the array when its cells are full, and returns
  -- its index. Twice the capacity must fit a `size_t`.
  pub add-Holds :
      (v : A) (a : ArrayList A) (xs : List A)
      → Holds a xs
      → a.size * 2 < u64_mod
      → (a' : ArrayList A) × (add v a ≡ some (length xs, a')) × Holds a' (xs ++ v ∷ [])
  add-Holds v a xs h fits = elim (dec_lt a.ptr a.size) [
    | yes lt ↦ let (a', run, h') = place_in v a xs h lt in (a', add_free v a lt ∙ run, h')
    | no ge ↦
        let (b, grown, hb, lt) = grow-Holds a xs h fits in
        let (a', run, h') = place_in v b xs hb lt in
        (a', add_full v a b (omega arith) grown ∙ run, h')
  ]
