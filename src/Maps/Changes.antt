-- ===== src/Maps/Changes.antt =====
-- What `set` and `remove` do to a map.
use mathlib.Core.Option.{some-injective}
use mathlib.Core.Path.{subst}
use matte_os.Base.{
  ◌≡◌, ◌≢◌, ◌↔◌, ◌∙◌, sym, refl, ap, ℕ, Bool, true, none, some, List, [], ◌∷◌, Bool-cases, update,
  arith, ℕ_discrete, inl, inr, ◌⊎◌,
}
use matte_os.Errors.{value}
use matte_os.Maps.{
  Entry, HashMap, create, index_of_key, link_entry, set_bucket, remove_bucket, get_bucket, get, set,
  remove,
}

none_ne_some {ℓ} : {A : Type ℓ} {a : A} → none ≡ some a → ⊥
none_ne_some h = cc

module _ {ℓ κ} {K : Type ℓ} {V : Type κ} (hash : K → ℕ) (equals : K → K → Bool) where
  abbrev new_entry : K → V → Entry K V
  new_entry key v = record { key = key; item = v }

  with_bucket : HashMap K V → ℕ → List (Entry K V) → HashMap K V
  with_bucket m i bucket = record { entries = update m.entries i bucket }

  set_step :
      (key : K) (v : V) (m : HashMap K V) (old new : List (Entry K V))
      → m.entries (index_of_key hash key) ≡ old
      → set_bucket old (new_entry key v) ≡ some new
      → set hash equals key v m ≡ some (with_bucket m (index_of_key hash key) new)
  unfolding set with_bucket
  set_step key v m old new e run = rw (set, e, run) refl

  set_fails :
      (key : K) (v : V) (m : HashMap K V) (e : Entry K V)
      → m.entries (index_of_key hash key) ≡ e ∷ []
      → set hash equals key v m ≡ none
  unfolding set set_bucket link_entry
  set_fails key v m e at = rw (set, at) refl

  get_at :
      (key : K) (m : HashMap K V) (bucket : List (Entry K V))
      → m.entries (index_of_key hash key) ≡ bucket
      → get hash equals key m ≡ get_bucket hash equals key bucket
  unfolding get
  get_at key m bucket e = rw (get, e) refl

  bucket_here :
      (m : HashMap K V) (i : ℕ) (bucket : List (Entry K V))
      → (with_bucket m i bucket).entries i ≡ bucket
  unfolding with_bucket
  bucket_here m i bucket = ground arith

  bucket_there :
      (m : HashMap K V) (i j : ℕ) (bucket : List (Entry K V))
      → j ≢ i
      → (with_bucket m i bucket).entries j ≡ m.entries j
  unfolding with_bucket
  bucket_there m i j bucket ne = ground arith

  -- a bucket with the new entry alone
  get_alone :
      (key other : K) (v : V)
      → ((a b : K) → (equals a b ≡ true) ↔ (a ≡ b))
      → (get_bucket hash equals key (new_entry key v ∷ []) ≡ value v)
        × (other ≢ key
            → get_bucket hash equals other (new_entry key v ∷ []) ≡ get_bucket hash equals other [])
  unfolding get_bucket
  get_alone key other v lawful = (
    rw ((lawful key key).1 refl) refl,
    λ ne. elim (Bool-cases (equals key other)) [
      | inl same ↦ absurd (ne (sym ((lawful key other).0 same)))
      | inr differ ↦ rw differ refl
    ],
  )

  -- `set` into an empty bucket: `get` then returns the value for the key, and for any other key what it
  -- returned before. Equality of keys must be decided by the map's test.
  pub get-set :
      (key other : K) (v : V) (m : HashMap K V)
      → ((a b : K) → (equals a b ≡ true) ↔ (a ≡ b))
      → m.entries (index_of_key hash key) ≡ []
      → other ≢ key
      → (m' : HashMap K V) × (set hash equals key v m ≡ some m')
        × (get hash equals key m' ≡ value v)
        × (get hash equals other m' ≡ get hash equals other m)
  unfolding set_bucket
  get-set key other v m lawful empty ne =
      let i = index_of_key hash key in
      let bucket = new_entry key v ∷ [] in
      let (here, there) = get_alone key other v lawful in
      (
        with_bucket m i bucket,
        set_step key v m [] bucket empty refl,
        get_at key (with_bucket m i bucket) bucket (bucket_here m i bucket) ∙ here,
        elim (ℕ_discrete (index_of_key hash other) i) [
          | yes same ↦
              get_at other (with_bucket m i bucket) bucket
                (ap (with_bucket m i bucket).entries same ∙ bucket_here m i bucket)
              ∙ there ne
              ∙ sym (get_at other m [] (ap m.entries same ∙ empty))
          | no apart ↦
              get_at other (with_bucket m i bucket) (m.entries (index_of_key hash other))
                (bucket_there m i (index_of_key hash other) bucket apart)
              ∙ sym (get_at other m (m.entries (index_of_key hash other)) refl)
        ],
      )

  -- The maps that a sequence of `set` and `remove` makes of a new one.
  pub data Reachable : HashMap K V → Type (ℓ ⊔ κ) where
    created : Reachable create
    by_set :
        {m m' : HashMap K V} (key : K) (v : V)
        → Reachable m
        → set hash equals key v m ≡ some m'
        → Reachable m'
    by_remove :
        {m m' : HashMap K V} (key : K)
        → Reachable m
        → remove hash equals key m ≡ some m'
        → Reachable m'

  remove_fails :
      (key : K) (m : HashMap K V)
      → m.entries (index_of_key hash key) ≡ []
      → remove hash equals key m ≡ none
  unfolding remove remove_bucket
  remove_fails key m at = rw (remove, at) refl

  remove_step :
      (key : K) (m : HashMap K V) (e : Entry K V) (rest : List (Entry K V))
      → m.entries (index_of_key hash key) ≡ e ∷ rest
      → remove hash equals key m ≡ some (with_bucket m (index_of_key hash key) (e ∷ rest))
  unfolding remove remove_bucket with_bucket
  remove_step key m e rest at = rw (remove, at) refl

  same_buckets :
      (m : HashMap K V) (i : ℕ) (bucket : List (Entry K V))
      → m.entries i ≡ bucket
      → (j : ℕ) → (with_bucket m i bucket).entries j ≡ m.entries j
  same_buckets m i bucket at j = elim (ℕ_discrete j i) [
    | yes e ↦
        ap (with_bucket m i bucket).entries e ∙ bucket_here m i bucket ∙ sym (ap m.entries e ∙ at)
    | no ne ↦ bucket_there m i j bucket ne
  ]

  -- `remove` takes nothing out: where the bucket of the key has an entry, of this key or another, every
  -- bucket stays as it was.
  pub remove_keeps :
      (key : K) (m : HashMap K V) (e : Entry K V) (rest : List (Entry K V))
      → m.entries (index_of_key hash key) ≡ e ∷ rest
      → (m' : HashMap K V) × (remove hash equals key m ≡ some m')
        × ((j : ℕ) → m'.entries j ≡ m.entries j)
  remove_keeps key m e rest at = (
    with_bucket m (index_of_key hash key) (e ∷ rest),
    remove_step key m e rest at,
    same_buckets m (index_of_key hash key) (e ∷ rest) at,
  )

  -- at most one entry
  abbrev Small : List (Entry K V) → Type (ℓ ⊔ κ)
  Small bucket = (bucket ≡ []) ⊎ ((e : Entry K V) × (bucket ≡ e ∷ []))

  Small-with_bucket :
      (m : HashMap K V) (i j : ℕ) (bucket : List (Entry K V))
      → ((k : ℕ) → Small (m.entries k))
      → Small bucket
      → Small ((with_bucket m i bucket).entries j)
  Small-with_bucket m i j bucket small new = elim (ℕ_discrete j i) [
    | yes e ↦ rw (ap (with_bucket m i bucket).entries e ∙ bucket_here m i bucket) new
    | no ne ↦ rw (bucket_there m i j bucket ne) (small j)
  ]

  set-Small :
      (key : K) (v : V) (m m' : HashMap K V)
      → ((k : ℕ) → Small (m.entries k))
      → set hash equals key v m ≡ some m'
      → (j : ℕ) → Small (m'.entries j)
  unfolding set_bucket
  set-Small key v m m' small run j = elim (small (index_of_key hash key)) [
    | inl empty ↦
        let e =
          some-injective _ _ (sym (set_step key v m [] (new_entry key v ∷ []) empty refl) ∙ run) in
        subst (λ (x : HashMap K V). Small (x.entries j)) e
          (Small-with_bucket m (index_of_key hash key) j (new_entry key v ∷ []) small
            (inr (new_entry key v, refl)))
    | inr (x, full) ↦ absurd (none_ne_some (sym (set_fails key v m x full) ∙ run))
  ]

  remove-Small :
      (key : K) (m m' : HashMap K V)
      → ((k : ℕ) → Small (m.entries k))
      → remove hash equals key m ≡ some m'
      → (j : ℕ) → Small (m'.entries j)
  remove-Small key m m' small run j = elim (small (index_of_key hash key)) [
    | inl empty ↦ absurd (none_ne_some (sym (remove_fails key m empty) ∙ run))
    | inr (x, full) ↦
        let e = some-injective _ _ (sym (remove_step key m x [] full) ∙ run) in
        subst (λ (y : HashMap K V). Small (y.entries j)) e
          (Small-with_bucket m (index_of_key hash key) j (x ∷ []) small (inr (x, refl)))
  ]

  Reachable-Small : {m : HashMap K V} → Reachable m → (j : ℕ) → Small (m.entries j)
  Reachable-Small created j = inl refl
  Reachable-Small (by_set {m = m} {m' = m'} key v r run) j =
      set-Small key v m m' (Reachable-Small r) run j
  Reachable-Small (by_remove {m = m} {m' = m'} key r run) j =
      remove-Small key m m' (Reachable-Small r) run j

  -- On every map that a program can build, a second `set` in one bucket fails: the walk to the end of
  -- the chain follows the null pointer behind the one entry that is there.
  pub Reachable-set :
      (m : HashMap K V) (key : K) (v : V)
      → Reachable m
      → m.entries (index_of_key hash key) ≢ []
      → set hash equals key v m ≡ none
  Reachable-set m key v r occupied = elim (Reachable-Small r (index_of_key hash key)) [
    | inl empty ↦ absurd (occupied empty)
    | inr (x, full) ↦ set_fails key v m x full
  ]
