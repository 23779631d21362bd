-- ===== src/Queue/Laws.antt =====
-- The queue's operations on the list of its values.
use matte_os.Base.{
  sym, ◌∙◌, ap, ℕ, ◌+◌, ◌≡◌, ◌≢◌, refl, Option, none, some, List, [], ◌∷◌, ◌++◌, arith, update,
}
use mathlib.Core.Option.{some-injective}
use matte_os.Queue.{QueueElement, LinkedQueue, created, link, append}
use matte_os.Queue.Links.{
  Memory, Linked, nothing, element, Distinct, Below, last_address, values, tail_element, join,
  Below-Away, last-Away, Below-snoc, Below-suc, Distinct-snoc, last_address-snoc, some_last,
  values-snoc,
}

module _ {ℓ} {A : Type ℓ} where
  -- The queue's memory, read from the head on, is a chain of separate elements with the values `xs`
  -- that ends at the tail.
  pub record IsQueue (q : LinkedQueue A) (xs : List A) : Type ℓ where
    pub items : List (ℕ × A)
    pub content : values items ≡ xs
    pub linked : Linked q.memory q.head items
    pub distinct : Distinct items
    pub below : Below q.fresh items
    pub ends : q.tail ≡ last_address items

  abbrev pub queue : Memory A → ℕ → Option ℕ → Option ℕ → LinkedQueue A
  queue m fresh head tail = record { memory = m; fresh = fresh; head = head; tail = tail }

  pub write_other :
      (m : Memory A) (a : ℕ) (c : Option (QueueElement A)) (k : ℕ) → k ≢ a → update m a c k ≡ m k
  write_other m a c k ne = ground arith

  pub write_same : (m : Memory A) (a : ℕ) (c : Option (QueueElement A)) → update m a c a ≡ c
  write_same m a c = ground arith

  append_first :
      (v : A) (m : Memory A) (fresh : ℕ) (tail : Option ℕ)
      → append v (queue m fresh none tail)
        ≡ some (queue (update m fresh (created v)) (fresh + 1) (some fresh) (some fresh))
  unfolding append
  append_first v m fresh tail = refl

  -- the memory after a link from the element of `u` at `t`
  linked_at : Memory A → ℕ → A → ℕ → Memory A
  linked_at m t u f = update m t (some (record { element = u; next = some f }))

  append_behind :
      (v : A) (m : Memory A) (fresh p t : ℕ) (u : A) (next : Option ℕ)
      → update m fresh (created v) t ≡ some (record { element = u; next = next })
      → append v (queue m fresh (some p) (some t))
        ≡ some (
            queue
              (linked_at (update m fresh (created v)) t u fresh)
              (fresh + 1)
              (some p)
              (some fresh))
  unfolding append link linked_at
  append_behind v m fresh p t u next at = rw (append, link, at) refl

  pub same_element : (u u' : A) → created u ≡ created u' → u ≡ u'
  same_element u u' e = ap (λ (x : QueueElement A). x.element) (some-injective _ _ e)

  linked_new :
      (m : Memory A) (t f : ℕ) (u v : A)
      → t ≢ f
      → linked_at (update m f (created v)) t u f f ≡ created v
  unfolding linked_at
  linked_new m t f u v ne =
      write_other (update m f (created v)) t _ f (λ e. ne (sym e)) ∙ write_same m f (created v)

  linked_last :
      (m : Memory A) (t f : ℕ) (u u' : A)
      → created u ≡ created u'
      → linked_at m t u f t ≡ some (record { element = u'; next = some f })
  unfolding linked_at
  linked_last m t f u u' e =
      write_same m t _
      ∙ ap (λ w. some (record { element = w; next = some f })) (same_element u u' e)

  linked_same :
      (m : Memory A) (t f : ℕ) (u v : A) (k : ℕ)
      → k ≢ t
      → k ≢ f
      → linked_at (update m f (created v)) t u f k ≡ m k
  unfolding linked_at
  linked_same m t f u v k ne_t ne_f =
      write_other (update m f (created v)) t _ k ne_t ∙ write_other m f _ k ne_f

  append_items :
      (v : A) (m : Memory A) (fresh : ℕ) (head tail : Option ℕ) (items : List (ℕ × A))
      → Linked m head items
      → Distinct items
      → Below fresh items
      → tail ≡ last_address items
      → (q' : LinkedQueue A) × (append v (queue m fresh head tail) ≡ some q')
        × IsQueue q' (values items ++ v ∷ [])
  append_items v m fresh head tail [] nothing d b e = (
    queue (update m fresh (created v)) (fresh + 1) (some fresh) (some fresh),
    append_first v m fresh tail,
    record {
      items = (fresh, v) ∷ [];
      content = values-snoc fresh v [];
      linked = element (write_same m fresh (created v)) nothing;
      distinct = Distinct-snoc fresh v [] d (Below-Away fresh [] b);
      below = Below-snoc (fresh + 1) fresh v [] (Below-suc fresh [] b) (omega arith);
      ends = sym (last_address-snoc fresh v []);
    },
  )
  append_items v m fresh head tail ((a, w) ∷ rest) (element at l) d b e =
      let items = (a, w) ∷ rest in
      let (t, last) = some_last (a, w) rest in
      let (u, at_t) = tail_element m (some a) items t (element at l) last in
      let away = Below-Away fresh items b in
      let ne = last-Away fresh t items away last in
      let before = write_other m fresh (created v) t ne ∙ at_t in
      (
        queue (linked_at (update m fresh (created v)) t u fresh) (fresh + 1) (some a) (some fresh),
        ap (λ end. append v (queue m fresh (some a) end)) (e ∙ last)
            ∙ append_behind v m fresh a t u none before,
        record {
          items = items ++ (fresh, v) ∷ [];
          content = values-snoc fresh v items;
          linked =
              join m _ (some a) items t fresh v (element at l) d away last
                (linked_new m t fresh u v ne)
                (λ u' h. linked_last (update m fresh (created v)) t fresh u u' (sym at_t ∙ h))
                (linked_same m t fresh u v);
          distinct = Distinct-snoc fresh v items d away;
          below = Below-snoc (fresh + 1) fresh v items (Below-suc fresh items b) (omega arith);
          ends = sym (last_address-snoc fresh v items);
        },
      )

  -- `append` puts the value behind the others.
  pub append-IsQueue :
      (v : A) (q : LinkedQueue A) (xs : List A)
      → IsQueue q xs
      → (q' : LinkedQueue A) × (append v q ≡ some q') × IsQueue q' (xs ++ v ∷ [])
  append-IsQueue v q xs h =
      let (q', run, h') =
        append_items v q.memory q.fresh q.head q.tail h.items h.linked h.distinct h.below h.ends in
      (q', run, rw (h.content) at h')
