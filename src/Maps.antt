-- ===== src/Maps.antt =====
-- Utils/Maps/HashMap.h: the hash map with chained buckets.
-- The hash function and the equality of keys are the parameters of the template. A bucket is the chain
-- of its entries, and a null pointer that is followed is a fault, `none`.
pub mod Lookup
pub mod Changes
use matte_os.Base.{
  ℕ, ◌%◌, Bool, true, false, Option, none, some, List, [], ◌∷◌, if◌then◌else◌, update,
}
use matte_os.Errors.{ErrorOr, value, error, create_from_string}

abbrev pub default_size : ℕ
default_size = 20

abbrev pub index_of_key {ℓ} : {K : Type ℓ} → (K → ℕ) → K → ℕ
index_of_key hash key = hash key % default_size

pub record Entry {ℓ κ} (K : Type ℓ) (V : Type κ) : Type (ℓ ⊔ κ) where
  pub key : K
  pub item : V

pub record HashMap {ℓ κ} (K : Type ℓ) (V : Type κ) : Type (ℓ ⊔ κ) where
  pub entries : ℕ → List (Entry K V)

module _ {ℓ κ} {K : Type ℓ} {V : Type κ} where
  abbrev pub create : HashMap K V
  create = record { entries = λ i. [] }

  -- The walk of `set` on a bucket that is not empty, `while(!entry->next) entry = entry->next;`, and
  -- the link behind it. A last entry makes the walk follow a null pointer; any other stops it at once,
  -- and the link drops the entries behind.
  unfoldable pub link_entry : Entry K V → List (Entry K V) → Entry K V → Option (List (Entry K V))
  link_entry first [] new_entry = none
  link_entry first (next ∷ rest) new_entry = some (first ∷ new_entry ∷ [])

  unfoldable pub set_bucket : List (Entry K V) → Entry K V → Option (List (Entry K V))
  unfolding link_entry
  set_bucket [] new_entry = some (new_entry ∷ [])
  set_bucket (first ∷ rest) new_entry = link_entry first rest new_entry

  -- `while(!entry)`: the body follows the null pointer, and an entry ends the loop at once.
  unfoldable pub remove_bucket : List (Entry K V) → Option (List (Entry K V))
  remove_bucket [] = none
  remove_bucket (first ∷ rest) = some (first ∷ rest)

  module _ (hash : K → ℕ) (equals : K → K → Bool) where
    unfoldable pub get_bucket : K → List (Entry K V) → ErrorOr V
    get_bucket key [] = error (create_from_string "Key not found in map!")
    get_bucket key (e ∷ rest) = if equals e.key key then value e.item else get_bucket key rest

    unfoldable pub get : K → HashMap K V → ErrorOr V
    unfolding get_bucket
    get key m = get_bucket key (m.entries (index_of_key hash key))

    unfoldable pub has_key_bucket : K → List (Entry K V) → Bool
    has_key_bucket key [] = false
    has_key_bucket key (e ∷ rest) = if equals e.key key then true else has_key_bucket key rest

    unfoldable pub has_key : K → HashMap K V → Bool
    unfolding has_key_bucket
    has_key key m = has_key_bucket key (m.entries (index_of_key hash key))

    unfoldable pub set : K → V → HashMap K V → Option (HashMap K V)
    unfolding set_bucket
    set key v m =
        let index = index_of_key hash key in
        elim (set_bucket (m.entries index) (record { key = key; item = v })) [
          | none ↦ none
          | some bucket ↦ some (record { entries = update m.entries index bucket })
        ]

    unfoldable pub remove : K → HashMap K V → Option (HashMap K V)
    unfolding remove_bucket
    remove key m =
        let index = index_of_key hash key in
        elim (remove_bucket (m.entries index)) [
          | none ↦ none
          | some bucket ↦ some (record { entries = update m.entries index bucket })
        ]
