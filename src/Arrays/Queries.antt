-- ===== src/Arrays/Queries.antt =====
-- Reading a list: `get` and the searches.
use matte_os.Base.{
  ◌∙◌, ap, ℕ, zero, suc, ◌+◌, ◌<◌, ◌≡◌, refl, Bool, true, false, Option, none, some, List, [], ◌∷◌,
  ◌++◌, map, arith, inl, inr, if◌then◌else◌, length, get_elem?, length-append, Bool-cases, lt→ltb,
}
use mathlib.Core.List.{append_assoc}
use matte_os.Errors.{ErrorOr, value, error, create_from_string}
use matte_os.Arrays.{ArrayList, load, get, search_from, find_first_match, contains, index_of}
use matte_os.Arrays.Cells.{Holds, length-snoc}
use matte_os.Arrays.Growth.{bounded}

module _ {ℓ} {A : Type ℓ} where
  load-get_elem? :
      (xs : List A) (spare : List (Option A)) (i : ℕ)
      → i < length xs
      → load (map some xs ++ spare) i ≡ get_elem? xs i
  unfolding load
  load-get_elem? [] spare i lt = absurd (omega arith)
  load-get_elem? (x ∷ xs) spare zero lt = refl
  load-get_elem? (x ∷ xs) spare (suc i) lt = load-get_elem? xs spare i (omega arith)

  -- `get` of an index below the number of elements is the element there: it does not fail.
  pub get-get_elem? :
      (a : ArrayList A) (xs : List A) (i : ℕ)
      → Holds a xs
      → i < length xs
      → get a i ≡ get_elem? xs i
  unfolding get
  get-get_elem? a xs i h lt =
      let below : i < a.size = omega (arith, bounded h) in
      rw (lt→ltb _ _ below, h.filled) (load-get_elem? xs h.spare i lt)

  -- The first match in a list, with its index: `i` is that of the list's head.
  unfoldable pub first_match : (A → Bool) → List A → ℕ → Option (ℕ × A)
  first_match p [] i = none
  first_match p (x ∷ xs) i = if p x then some (i, x) else first_match p xs (i + 1)

  get_elem?-append :
      (xs : List A) (y : A) (ys : List A) → get_elem? (xs ++ y ∷ ys) (length xs) ≡ some y
  get_elem?-append [] y ys = refl
  get_elem?-append (x ∷ xs) y ys = get_elem?-append xs y ys

  get_middle :
      (a : ArrayList A) (xs : List A) (y : A) (ys : List A) (i : ℕ)
      → Holds a (xs ++ y ∷ ys)
      → length xs ≡ i
      → get a i ≡ some y
  get_middle a xs y ys i h e =
      get-get_elem? a (xs ++ y ∷ ys) i h (omega (arith, length-append xs (y ∷ ys)))
      ∙ rw (← e) (get_elem?-append xs y ys)

  search_hit :
      (p : A → Bool) (a : ArrayList A) (n i : ℕ) (y : A)
      → get a i ≡ some y
      → p y ≡ true
      → search_from p a (suc n) i ≡ some (some (i, y))
  unfolding search_from
  search_hit p a n i y read hit = rw (search_from, read, hit) refl

  search_miss :
      (p : A → Bool) (a : ArrayList A) (n i : ℕ) (y : A)
      → get a i ≡ some y
      → p y ≡ false
      → search_from p a (suc n) i ≡ search_from p a n (i + 1)
  unfolding search_from
  search_miss p a n i y read miss = rw (search_from, read, miss) refl

  search_lem :
      (p : A → Bool) (a : ArrayList A) (ys xs : List A) (i : ℕ)
      → Holds a (xs ++ ys)
      → length xs ≡ i
      → search_from p a (length ys) i ≡ some (first_match p ys i)
  search_lem p a [] xs i h e = unfold search_from first_match in refl
  search_lem p a (y ∷ ys) xs i h e =
      let read = get_middle a xs y ys i h e in
      elim (Bool-cases (p y)) [
        | inl hit ↦ search_hit p a (length ys) i y read hit ∙ unfold first_match in rw hit refl
        | inr miss ↦
            let h' : Holds a ((xs ++ y ∷ []) ++ ys) = rw (append_assoc xs (y ∷ []) ys) h in
            search_miss p a (length ys) i y read miss
            ∙ search_lem p a ys (xs ++ y ∷ []) (i + 1) h' (omega (arith, length-snoc xs y))
            ∙ unfold first_match in rw miss refl
      ]

  searched :
      (p : A → Bool) (a : ArrayList A) (xs : List A)
      → Holds a xs
      → search_from p a a.ptr 0 ≡ some (first_match p xs 0)
  searched p a xs h = ap (λ n. search_from p a n 0) h.counted ∙ search_lem p a xs [] 0 h refl

  -- What the three searches return for a result of the loop.
  unfoldable pub match_result : Option (ℕ × A) → ErrorOr A
  match_result none = error (create_from_string "No match found!")
  match_result (some (i, v)) = value v

  pub is_match : Option (ℕ × A) → Bool
  is_match none = false
  is_match (some x) = true

  pub match_index : Option (ℕ × A) → Option ℕ
  match_index none = none
  match_index (some (i, v)) = some i

  find_step :
      (p : A → Bool) (a : ArrayList A) (o : Option (ℕ × A))
      → search_from p a a.ptr 0 ≡ some o
      → find_first_match p a ≡ some (match_result o)
  unfolding find_first_match match_result
  find_step p a none run = rw (find_first_match, run) refl
  find_step p a (some (i, v)) run = rw (find_first_match, run) refl

  contains_step :
      (p : A → Bool) (a : ArrayList A) (o : Option (ℕ × A))
      → search_from p a a.ptr 0 ≡ some o
      → contains p a ≡ some (is_match o)
  unfolding contains is_match
  contains_step p a none run = rw (contains, run) refl
  contains_step p a (some x) run = rw (contains, run) refl

  index_step :
      (p : A → Bool) (a : ArrayList A) (o : Option (ℕ × A))
      → search_from p a a.ptr 0 ≡ some o
      → index_of p a ≡ some (match_index o)
  unfolding index_of match_index
  index_step p a none run = rw (index_of, run) refl
  index_step p a (some (i, v)) run = rw (index_of, run) refl

  -- The searches never read a raw cell; they agree with the first match in the list: its value or
  -- the error, whether there is one, and its index or -1.
  pub searches-first_match :
      (p : A → Bool) (a : ArrayList A) (xs : List A)
      → Holds a xs
      → let found = first_match p xs 0 in
        (find_first_match p a ≡ some (match_result found))
        × (contains p a ≡ some (is_match found))
        × (index_of p a ≡ some (match_index found))
  searches-first_match p a xs h =
      let run = searched p a xs h in
      (find_step p a _ run, contains_step p a _ run, index_step p a _ run)
