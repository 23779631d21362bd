-- ===== src/Queue/Links.antt =====
-- The chain of elements that a queue's pointers make.
use matte_os.Base.{
  sym, ◌∙◌, ap, ℕ, ◌+◌, ◌<◌, ◌≡◌, ◌≢◌, refl, Option, none, some, List, [], ◌∷◌, ◌++◌, arith,
}
use mathlib.Core.Option.{some-injective}
use matte_os.Queue.{QueueElement, created}

abbrev pub Memory {ℓ} : Type ℓ → Type ℓ
Memory A = ℕ → Option (QueueElement A)

-- From a pointer on, the elements at the given addresses hold the given values.
pub data Linked {ℓ} {A : Type ℓ} (m : Memory A) : Option ℕ → List (ℕ × A) → Type ℓ where
  nothing : Linked m none []
  element :
      {a : ℕ} {v : A} {next : Option ℕ} {rest : List (ℕ × A)}
      → m a ≡ some (record { element = v; next = next })
      → Linked m next rest
      → Linked m (some a) ((a, v) ∷ rest)

module _ {ℓ} {A : Type ℓ} where
  -- The address `a` is none of theirs.
  unfoldable pub Away : ℕ → List (ℕ × A) → Type 0
  Away a [] = Unit
  Away a ((b, v) ∷ rest) = (b ≢ a) × Away a rest

  unfoldable pub Distinct : List (ℕ × A) → Type 0
  Distinct [] = Unit
  Distinct ((a, v) ∷ rest) = Away a rest × Distinct rest

  unfoldable pub last_address : List (ℕ × A) → Option ℕ
  last_address [] = none
  last_address ((a, v) ∷ []) = some a
  last_address ((a, v) ∷ x ∷ rest) = last_address (x ∷ rest)

  pub last-Away :
      (a t : ℕ) (items : List (ℕ × A)) → Away a items → last_address items ≡ some t → t ≢ a
  unfolding Away last_address
  last-Away a t [] away e = cc
  last-Away a t ((b, v) ∷ []) away e = λ h. away.0 (some-injective _ _ e ∙ h)
  last-Away a t ((b, v) ∷ x ∷ rest) away e = last-Away a t (x ∷ rest) away.1 e

  -- The last element points nowhere.
  pub tail_element :
      (m : Memory A) (p : Option ℕ) (items : List (ℕ × A)) (t : ℕ)
      → Linked m p items
      → last_address items ≡ some t
      → (v : A) × (m t ≡ created v)
  unfolding last_address
  tail_element m p [] t l e = cc
  tail_element m p ((a, v) ∷ []) t (element at nothing) e =
      (v, ap m (sym (some-injective _ _ e)) ∙ at)
  tail_element m p ((a, v) ∷ x ∷ items) t (element at rest) e =
      tail_element m _ (x ∷ items) t rest e

  -- Writes elsewhere do not matter.
  pub frame :
      (m m' : Memory A) (p : Option ℕ) (items : List (ℕ × A)) (b : ℕ)
      → Linked m p items
      → Away b items
      → ((k : ℕ) → k ≢ b → m' k ≡ m k)
      → Linked m' p items
  unfolding Away
  frame m m' p [] b nothing away same = nothing
  frame m m' p ((a, v) ∷ items) b (element at rest) away same =
      element (same a away.0 ∙ at) (frame m m' _ items b rest away.1 same)

  -- A new element behind the last.
  pub join :
      (m m' : Memory A) (p : Option ℕ) (items : List (ℕ × A)) (t f : ℕ) (w : A)
      → Linked m p items
      → Distinct items
      → Away f items
      → last_address items ≡ some t
      → m' f ≡ created w
      → ((u : A) → m t ≡ created u → m' t ≡ some (record { element = u; next = some f }))
      → ((k : ℕ) → k ≢ t → k ≢ f → m' k ≡ m k)
      → Linked m' p (items ++ (f, w) ∷ [])
  unfolding Away Distinct last_address
  join m m' p [] t f w l d away e new behind same = cc
  join m m' p ((a, v) ∷ []) t f w (element at nothing) d away e new behind same =
      let same_a : a ≡ t = some-injective _ _ e in
      let at' : m t ≡ created v = ap m (sym same_a) ∙ at in
      element (ap m' same_a ∙ behind v at') (element new nothing)
  join m m' p ((a, v) ∷ x ∷ items) t f w (element at rest) d away e new behind same =
      let apart : a ≢ t = λ h. last-Away a t (x ∷ items) d.0 e (sym h) in
      element (same a apart away.0 ∙ at)
        (join m m' _ (x ∷ items) t f w rest d.1 away.1 e new behind same)

  unfoldable pub Below : ℕ → List (ℕ × A) → Type 0
  Below n [] = Unit
  Below n ((a, v) ∷ rest) = (a < n) × Below n rest

  pub Below-Away : (n : ℕ) (items : List (ℕ × A)) → Below n items → Away n items
  unfolding Below Away
  Below-Away n [] b = b
  Below-Away n ((a, v) ∷ rest) b = ((λ e. omega (arith, e, b.0)), Below-Away n rest b.1)

  pub Below-snoc :
      (n a : ℕ) (w : A) (items : List (ℕ × A))
      → Below n items
      → a < n
      → Below n (items ++ (a, w) ∷ [])
  unfolding Below
  Below-snoc n a w [] b lt = (lt, b)
  Below-snoc n a w ((c, v) ∷ rest) b lt = (b.0, Below-snoc n a w rest b.1 lt)

  pub Below-suc : (n : ℕ) (items : List (ℕ × A)) → Below n items → Below (n + 1) items
  unfolding Below
  Below-suc n [] b = b
  Below-suc n ((a, v) ∷ rest) b = (omega (arith, b.0), Below-suc n rest b.1)

  Away-snoc :
      (a f : ℕ) (w : A) (items : List (ℕ × A))
      → Away a items
      → f ≢ a
      → Away a (items ++ (f, w) ∷ [])
  unfolding Away
  Away-snoc a f w [] away ne = (ne, away)
  Away-snoc a f w ((c, v) ∷ rest) away ne = (away.0, Away-snoc a f w rest away.1 ne)

  pub Distinct-snoc :
      (f : ℕ) (w : A) (items : List (ℕ × A))
      → Distinct items
      → Away f items
      → Distinct (items ++ (f, w) ∷ [])
  unfolding Distinct Away
  Distinct-snoc f w [] d away = (away, away)
  Distinct-snoc f w ((a, v) ∷ rest) d away =
      (Away-snoc a f w rest d.0 (λ e. away.0 (sym e)), Distinct-snoc f w rest d.1 away.1)

  pub last_address-snoc :
      (f : ℕ) (w : A) (items : List (ℕ × A)) → last_address (items ++ (f, w) ∷ []) ≡ some f
  unfolding last_address
  last_address-snoc f w [] = refl
  last_address-snoc f w ((a, v) ∷ []) = refl
  last_address-snoc f w ((a, v) ∷ x ∷ rest) = last_address-snoc f w (x ∷ rest)

  pub some_last : (x : ℕ × A) (items : List (ℕ × A)) → (t : ℕ) × (last_address (x ∷ items) ≡ some t)
  unfolding last_address
  some_last (a, v) [] = (a, refl)
  some_last (a, v) (y ∷ items) = some_last y items

  unfoldable pub values : List (ℕ × A) → List A
  values [] = []
  values ((a, v) ∷ rest) = v ∷ values rest

  pub values-snoc :
      (f : ℕ) (w : A) (items : List (ℕ × A))
      → values (items ++ (f, w) ∷ []) ≡ values items ++ w ∷ []
  unfolding values
  values-snoc f w [] = refl
  values-snoc f w ((a, v) ∷ rest) = ap (λ l. v ∷ l) (values-snoc f w rest)
