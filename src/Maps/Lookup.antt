-- ===== src/Maps/Lookup.antt =====
-- Looking up keys.
use matte_os.Base.{inl, inr, Bool, true, false, List, [], ◌∷◌, Bool-cases, ℕ}
use matte_os.Errors.{ErrorOr, value, error, create_from_string}
use matte_os.Maps.{Entry, HashMap, get_bucket, get, has_key_bucket, has_key}

module _ {ℓ κ} {K : Type ℓ} {V : Type κ} (hash : K → ℕ) (equals : K → K → Bool) where
  -- The answers of `has_key` and `get` side by side.
  pub data Agree : Bool → ErrorOr V → Type κ where
    found : (v : V) → Agree true (value v)
    missing : Agree false (error (create_from_string "Key not found in map!"))

  bucket-Agree :
      (key : K) (bucket : List (Entry K V))
      → Agree (has_key_bucket hash equals key bucket) (get_bucket hash equals key bucket)
  unfolding has_key_bucket get_bucket
  bucket-Agree key [] = missing
  bucket-Agree key (e ∷ rest) = elim (Bool-cases (equals e.key key)) [
    | inl hit ↦ rw hit (found e.item)
    | inr miss ↦ rw miss (bucket-Agree key rest)
  ]

  -- `has_key` says true exactly where `get` returns a value, and `get` returns its error elsewhere.
  pub has_key-Agree :
      (key : K) (m : HashMap K V) → Agree (has_key hash equals key m) (get hash equals key m)
  unfolding has_key get
  has_key-Agree key m = bucket-Agree key (m.entries _)
