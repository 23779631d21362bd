-- ===== src/Arrays.antt =====
-- Utils/Arrays/ArrayList.h: the growing array.
-- A cell holds an object or raw memory. A write outside the cells, a read of a raw cell and a failed
-- assertion are faults, `none`. An object that was moved from keeps its value until it is destroyed.
pub mod Cells
pub mod Growth
pub mod Queries
pub mod Removal
use matte_os.Base.{
  ℕ, zero, suc, ◌+◌, ◌-◌, ◌*◌, ◌%◌, Bool, true, false, Option, none, some, List, [], ◌∷◌, ltb, leb,
  ◌==◌, if◌then◌else◌, length, get_elem?, set, replicate,
}
use matte_os.Errors.{ErrorOr, value, error, create_from_string}
use matte_os.Pages.{u64_mod}

abbrev pub default_size : ℕ
default_size = 8

-- `cells` is the memory behind `m_array`, `size` is `m_size` and `ptr` is `m_ptr`.
pub record ArrayList {ℓ} (A : Type ℓ) : Type ℓ where
  pub cells : List (Option A)
  pub size : ℕ
  pub ptr : ℕ

module _ {ℓ} {A : Type ℓ} where
  -- `kmalloc<T>(sizeof(T) * n)`: raw cells.
  abbrev pub allocate : ℕ → List (Option A)
  allocate n = replicate n none

  unfoldable pub create : ArrayList A
  create = record { cells = allocate default_size; size = default_size; ptr = 0 }

  -- The read of `m_array[i]`.
  unfoldable pub load : List (Option A) → ℕ → Option A
  load cells i = elim (get_elem? cells i) [ none ↦ none | some c ↦ c ]

  -- A write to `m_array[i]`: construction or assignment.
  unfoldable pub store : List (Option A) → ℕ → A → Option (List (Option A))
  store cells i v = if ltb i (length cells) then some (set cells i (some v)) else none

  -- The loop of `grow` and of the copy constructor, over the rounds left.
  unfoldable pub copy_cells : ℕ → ℕ → List (Option A) → List (Option A) → Option (List (Option A))
  unfolding load store
  copy_cells zero i from to = some to
  copy_cells (suc n) i from to = elim (load from i) [
    | none ↦ none
    | some v ↦ elim (store to i v) [ none ↦ none | some to' ↦ copy_cells n (i + 1) from to' ]
  ]

  unfoldable pub grow : ArrayList A → Option (ArrayList A)
  unfolding copy_cells
  grow a =
      let new_size = a.size * 2 % u64_mod in
      elim (copy_cells a.ptr 0 a.cells (allocate new_size)) [
        | none ↦ none
        | some cells ↦ some (record { cells = cells; size = new_size; ptr = a.ptr })
      ]

  unfoldable pub place : A → ArrayList A → Option (ℕ × ArrayList A)
  unfolding store
  place v a = elim (store a.cells a.ptr v) [
    | none ↦ none
    | some cells ↦ some (a.ptr, record a { cells = cells; ptr = a.ptr + 1 })
  ]

  unfoldable pub add : A → ArrayList A → Option (ℕ × ArrayList A)
  unfolding grow place
  add v a = elim (leb a.size a.ptr) [
    | false ↦ place v a
    | true ↦ elim (grow a) [ none ↦ none | some a' ↦ place v a' ]
  ]

  -- The assertion compares with the capacity, not with the number of elements.
  unfoldable pub get : ArrayList A → ℕ → Option A
  unfolding load
  get a i = if ltb i a.size then load a.cells i else none

  -- for(i = index; i < m_ptr - 1; i++) m_array[i] = move(m_array[i + 1]);
  unfoldable pub shift : ℕ → ℕ → List (Option A) → Option (List (Option A))
  unfolding load store
  shift zero i cells = some cells
  shift (suc n) i cells = elim (load cells (i + 1)) [
    | none ↦ none
    | some v ↦ elim (store cells i v) [ none ↦ none | some cells' ↦ shift n (i + 1) cells' ]
  ]

  -- `m_ptr - 1` wraps.
  unfoldable pub remove : ArrayList A → ℕ → Option (ArrayList A)
  unfolding shift
  remove a index =
      let end = (a.ptr + u64_mod - 1) % u64_mod in
      elim (ltb index a.size) [
        | false ↦ none
        | true ↦ elim (shift (end - index) index (set a.cells index none)) [
          | none ↦ none
          | some cells ↦ some (record a { cells = set cells end none; ptr = end })
        ]
      ]

  -- The copy constructor, and copy assignment to another list.
  unfoldable pub copy : ArrayList A → Option (ArrayList A)
  unfolding copy_cells
  copy other = elim (copy_cells other.ptr 0 other.cells (allocate other.size)) [
    | none ↦ none
    | some cells ↦ some (record { cells = cells; size = other.size; ptr = other.ptr })
  ]

  -- The move constructor, and move assignment to another list: the new list and what is left of the
  -- other.
  unfoldable pub move : ArrayList A → ArrayList A × ArrayList A
  move other = (other, record { cells = []; size = 0; ptr = 0 })

  unfoldable pub reset : ArrayList A → ArrayList A
  unfolding create
  reset a = create

  -- The searches: the loop over the rounds left, from `i` on.
  unfoldable pub search_from : (A → Bool) → ArrayList A → ℕ → ℕ → Option (Option (ℕ × A))
  unfolding get
  search_from p a zero i = some none
  search_from p a (suc n) i = elim (get a i) [
    | none ↦ none
    | some v ↦ elim (p v) [ true ↦ some (some (i, v)) | false ↦ search_from p a n (i + 1) ]
  ]

  unfoldable pub find_first_match : (A → Bool) → ArrayList A → Option (ErrorOr A)
  unfolding search_from
  find_first_match p a = elim (search_from p a a.ptr 0) [
    | none ↦ none
    | some none ↦ some (error (create_from_string "No match found!"))
    | some (some (i, v)) ↦ some (value v)
  ]

  unfoldable pub contains : (A → Bool) → ArrayList A → Option Bool
  unfolding search_from
  contains p a = elim (search_from p a a.ptr 0) [
    | none ↦ none
    | some none ↦ some false
    | some (some x) ↦ some true
  ]

  -- `none` inside is the result -1.
  unfoldable pub index_of : (A → Bool) → ArrayList A → Option (Option ℕ)
  unfolding search_from
  index_of is_element a = elim (search_from is_element a a.ptr 0) [
    | none ↦ none
    | some none ↦ some none
    | some (some (i, v)) ↦ some (some i)
  ]

  -- The loop of `find_all_matches`, which adds to a list of its own.
  unfoldable pub collect : (A → Bool) → ArrayList A → ℕ → ℕ → ArrayList A → Option (ArrayList A)
  unfolding get add
  collect p a zero i matches = some matches
  collect p a (suc n) i matches = elim (get a i) [
    | none ↦ none
    | some v ↦ elim (p v) [
      | true ↦ elim (add v matches) [ none ↦ none | some (k, m) ↦ collect p a n (i + 1) m ]
      | false ↦ collect p a n (i + 1) matches
    ]
  ]

  unfoldable pub find_all_matches : (A → Bool) → ArrayList A → Option (ArrayList A)
  unfolding collect create
  find_all_matches p a = collect p a a.ptr 0 create
