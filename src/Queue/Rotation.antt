-- ===== src/Queue/Rotation.antt =====
-- `rotate_left`: the first element goes behind the last, with no copy.
use matte_os.Base.{sym, ◌∙◌, ap, ℕ, ◌≡◌, ◌≢◌, refl, Option, some, List, [], ◌∷◌, ◌++◌, update}
use matte_os.Queue.{LinkedQueue, created, link, turn, rotate_left}
use matte_os.Queue.Links.{
  Memory, Linked, nothing, element, Distinct, Below, last_address, values, tail_element, last-Away,
  join, Below-snoc, Distinct-snoc, last_address-snoc, some_last, values-snoc,
}
use matte_os.Queue.Laws.{IsQueue, queue, write_other, write_same, same_element}

module _ {ℓ} {A : Type ℓ} where
  -- the memory after the two links of `rotate_left`
  turned : Memory A → ℕ → A → ℕ → A → Memory A
  turned m t u a w =
      update (update m t (some (record { element = u; next = some a }))) a (created w)

  turn_step :
      (m : Memory A) (fresh a n t : ℕ) (u w : A) (next : Option ℕ)
      → m a ≡ some (record { element = w; next = some n })
      → m t ≡ created u
      → update m t (some (record { element = u; next = some a })) a
        ≡ some (record { element = w; next = next })
      → rotate_left (queue m fresh (some a) (some t))
        ≡ some (queue (turned m t u a w) fresh (some n) (some a))
  unfolding rotate_left turn link turned
  turn_step m fresh a n t u w next at at_t at_a = rw (rotate_left, at, turn, link, at_t, at_a) refl

  stay_step :
      (m : Memory A) (fresh a : ℕ) (tail : Option ℕ) (w : A)
      → m a ≡ created w
      → rotate_left (queue m fresh (some a) tail) ≡ some (queue m fresh (some a) tail)
  unfolding rotate_left
  stay_step m fresh a tail w at = rw (rotate_left, at) refl

  turned_new : (m : Memory A) (t a : ℕ) (u w : A) → turned m t u a w a ≡ created w
  unfolding turned
  turned_new m t a u w = write_same (update m t _) a (created w)

  turned_last :
      (m : Memory A) (t a : ℕ) (u u' w : A)
      → t ≢ a
      → created u ≡ created u'
      → turned m t u a w t ≡ some (record { element = u'; next = some a })
  unfolding turned
  turned_last m t a u u' w ne e =
      write_other (update m t _) a (created w) t ne
      ∙ write_same m t _
      ∙ ap (λ v. some (record { element = v; next = some a })) (same_element u u' e)

  turned_same :
      (m : Memory A) (t a : ℕ) (u w : A) (k : ℕ) → k ≢ t → k ≢ a → turned m t u a w k ≡ m k
  unfolding turned
  turned_same m t a u w k ne_t ne_a =
      write_other (update m t _) a (created w) k ne_a ∙ write_other m t _ k ne_t

  rotate_items :
      (m : Memory A) (fresh : ℕ) (head tail : Option ℕ) (a : ℕ) (w : A) (rest : List (ℕ × A))
      → Linked m head ((a, w) ∷ rest)
      → Distinct ((a, w) ∷ rest)
      → Below fresh ((a, w) ∷ rest)
      → tail ≡ last_address ((a, w) ∷ rest)
      → (q' : LinkedQueue A) × (rotate_left (queue m fresh head tail) ≡ some q')
        × IsQueue q' (values rest ++ w ∷ [])
  unfolding Distinct Below last_address
  rotate_items m fresh head tail a w [] (element at nothing) d b e = (
    queue m fresh (some a) tail,
    stay_step m fresh a tail w at,
    record {
      items = (a, w) ∷ [];
      content = values-snoc a w [];
      linked = element at nothing;
      distinct = d;
      below = b;
      ends = e;
    },
  )
  rotate_items m fresh head tail a w ((n, y) ∷ rest) (element at (element at_n l)) d b e =
      let items = (n, y) ∷ rest in
      let (t, last) = some_last (n, y) rest in
      let (u, at_t) = tail_element m (some n) items t (element at_n l) last in
      let ne = last-Away a t items d.0 last in
      let before =
        write_other m t (some (record { element = u; next = some a })) a (λ h. ne (sym h)) ∙ at in
      (
        queue (turned m t u a w) fresh (some n) (some a),
        ap (λ end. rotate_left (queue m fresh (some a) end)) (e ∙ last)
            ∙ turn_step m fresh a n t u w (some n) at at_t before,
        record {
          items = items ++ (a, w) ∷ [];
          content = values-snoc a w items;
          linked =
              join m _ (some n) items t a w (element at_n l) d.1 d.0 last (turned_new m t a u w)
                (λ u' h. turned_last m t a u u' w ne (sym at_t ∙ h)) (turned_same m t a u w);
          distinct = Distinct-snoc a w items d.1 d.0;
          below = Below-snoc fresh a w items b.1 b.0;
          ends = sym (last_address-snoc a w items);
        },
      )

  rotate_content :
      (q : LinkedQueue A) (x : A) (xs : List A) (items : List (ℕ × A))
      → values items ≡ x ∷ xs
      → Linked q.memory q.head items
      → Distinct items
      → Below q.fresh items
      → q.tail ≡ last_address items
      → (q' : LinkedQueue A) × (rotate_left q ≡ some q') × IsQueue q' (xs ++ x ∷ [])
  unfolding values
  rotate_content q x xs [] e l d b end = cc
  rotate_content q x xs ((a, w) ∷ rest) e l d b end =
      let (q', run, h) = rotate_items q.memory q.fresh q.head q.tail a w rest l d b end in
      let same : w ≡ x = cc in
      let others : values rest ≡ xs = cc in (q', run, rw (others, same) at h)

  -- `rotate_left` puts the first value behind the others; a queue of one value stays as it is.
  pub rotate_left-IsQueue :
      (q : LinkedQueue A) (x : A) (xs : List A)
      → IsQueue q (x ∷ xs)
      → (q' : LinkedQueue A) × (rotate_left q ≡ some q') × IsQueue q' (xs ++ x ∷ [])
  rotate_left-IsQueue q x xs h =
      rotate_content q x xs h.items h.content h.linked h.distinct h.below h.ends
