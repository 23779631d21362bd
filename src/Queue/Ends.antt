-- ===== src/Queue/Ends.antt =====
-- Taking and reading the ends of a queue.
use mathlib.Core.Path.{subst}
use matte_os.Base.{sym, ◌∙◌, ap, ℕ, ◌≡◌, refl, true, Option, none, some, List, [], ◌∷◌, update}
use matte_os.Queue.{LinkedQueue, is_empty, pop, peek_first, peek_last, rotate_left}
use matte_os.Queue.Links.{
  Memory, Linked, nothing, element, Distinct, Below, last_address, values, frame,
}
use matte_os.Queue.Laws.{IsQueue, queue, write_other}

new_tail : Option ℕ → Option ℕ → Option ℕ
new_tail none tail = none
new_tail (some n) tail = tail

module _ {ℓ} {A : Type ℓ} where
  pop_step :
      (m : Memory A) (fresh a : ℕ) (tail next : Option ℕ) (w : A)
      → m a ≡ some (record { element = w; next = next })
      → pop (queue m fresh (some a) tail)
        ≡ some (w, queue (update m a none) fresh next (new_tail next tail))
  unfolding pop new_tail
  pop_step m fresh a tail none w at = rw (pop, at) refl
  pop_step m fresh a tail (some n) w at = rw (pop, at) refl

  tail_after :
      (m : Memory A) (a : ℕ) (w : A) (next tail : Option ℕ) (rest : List (ℕ × A))
      → Linked m next rest
      → tail ≡ last_address ((a, w) ∷ rest)
      → new_tail next tail ≡ last_address rest
  unfolding new_tail last_address
  tail_after m a w next tail [] nothing e = refl
  tail_after m a w next tail (x ∷ rest) (element at l) e = e

  pop_items :
      (m : Memory A) (fresh : ℕ) (head tail : Option ℕ) (a : ℕ) (w : A) (rest : List (ℕ × A))
      → Linked m head ((a, w) ∷ rest)
      → Distinct ((a, w) ∷ rest)
      → Below fresh ((a, w) ∷ rest)
      → tail ≡ last_address ((a, w) ∷ rest)
      → (q' : LinkedQueue A) × (pop (queue m fresh head tail) ≡ some (w, q'))
        × IsQueue q' (values rest)
  unfolding Distinct Below
  pop_items m fresh head tail a w rest (element {next = next} at l) d b e = (
    queue (update m a none) fresh next (new_tail next tail),
    pop_step m fresh a tail next w at,
    record {
      items = rest;
      content = refl;
      linked = frame m _ next rest a l d.0 (write_other m a none);
      distinct = d.1;
      below = b.1;
      ends = tail_after m a w next tail rest l e;
    },
  )

  pop_content :
      (q : LinkedQueue A) (x : A) (xs : List A) (items : List (ℕ × A))
      → values items ≡ x ∷ xs
      → Linked q.memory q.head items
      → Distinct items
      → Below q.fresh items
      → q.tail ≡ last_address items
      → (q' : LinkedQueue A) × (pop q ≡ some (x, q')) × IsQueue q' xs
  unfolding values
  pop_content q x xs [] e l d b end = cc
  pop_content q x xs ((a, w) ∷ rest) e l d b end =
      let (q', run, h) = pop_items q.memory q.fresh q.head q.tail a w rest l d b end in
      let same : w ≡ x = cc in
      let others : values rest ≡ xs = cc in (q', run ∙ ap (λ y. some (y, q')) same, rw others at h)

  -- `pop` takes the first value of a queue that has one; the other values stay, in order.
  pub pop-IsQueue :
      (q : LinkedQueue A) (x : A) (xs : List A)
      → IsQueue q (x ∷ xs)
      → (q' : LinkedQueue A) × (pop q ≡ some (x, q')) × IsQueue q' xs
  pop-IsQueue q x xs h = pop_content q x xs h.items h.content h.linked h.distinct h.below h.ends

  peek_first_step :
      (m : Memory A) (fresh a : ℕ) (tail next : Option ℕ) (w : A)
      → m a ≡ some (record { element = w; next = next })
      → peek_first (queue m fresh (some a) tail) ≡ some w
  unfolding peek_first
  peek_first_step m fresh a tail next w at = rw (peek_first, at) refl

  first-Linked :
      (m : Memory A) (fresh : ℕ) (head tail : Option ℕ) (a : ℕ) (w : A) (rest : List (ℕ × A))
      → Linked m head ((a, w) ∷ rest)
      → peek_first (queue m fresh head tail) ≡ some w
  first-Linked m fresh head tail a w rest (element {next = next} at l) =
      peek_first_step m fresh a tail next w at

  first_content :
      (q : LinkedQueue A) (x : A) (xs : List A) (items : List (ℕ × A))
      → values items ≡ x ∷ xs
      → Linked q.memory q.head items
      → peek_first q ≡ some x
  unfolding values
  first_content q x xs [] e l = cc
  first_content q x xs ((a, w) ∷ rest) e l =
      let same : w ≡ x = cc in first-Linked q.memory q.fresh q.head q.tail a w rest l ∙ ap some same

  -- On a queue that is not empty `peek_first` reads the value that `pop` takes.
  pub peek_first-pop :
      (q : LinkedQueue A) (x : A) (xs : List A)
      → IsQueue q (x ∷ xs)
      → (q' : LinkedQueue A) × (peek_first q ≡ some x) × (pop q ≡ some (x, q'))
  peek_first-pop q x xs h =
      let (q', run, h') = pop-IsQueue q x xs h in
      (q', first_content q x xs h.items h.content h.linked, run)

  no_head :
      (m : Memory A) (head : Option ℕ) (items : List (ℕ × A))
      → values items ≡ []
      → Linked m head items
      → head ≡ none
  unfolding values
  no_head m head [] e nothing = refl
  no_head m head ((a, w) ∷ rest) e l = cc

  rotate_empty :
      (m : Memory A) (fresh : ℕ) (head tail : Option ℕ)
      → head ≡ none
      → rotate_left (queue m fresh head tail) ≡ some (queue m fresh head tail)
  unfolding rotate_left
  rotate_empty m fresh head tail e =
      subst (λ h. rotate_left (queue m fresh h tail) ≡ some (queue m fresh h tail)) (sym e) refl

  empty_steps :
      (q : LinkedQueue A)
      → q.head ≡ none
      → (is_empty q ≡ true)
        × (pop q ≡ none)
        × (peek_first q ≡ none)
        × (peek_last q ≡ none)
        × (rotate_left q ≡ some q)
  unfolding is_empty pop peek_first peek_last
  empty_steps q e = (
    rw (is_empty, e) refl,
    rw (pop, e) refl,
    rw (peek_first, e) refl,
    rw (peek_last, e) refl,
    rotate_empty q.memory q.fresh q.head q.tail e,
  )

  -- On an empty queue `pop` and the peeks fail their assertion, and `rotate_left` changes nothing.
  pub IsQueue-empty :
      (q : LinkedQueue A)
      → IsQueue q []
      → (is_empty q ≡ true)
        × (pop q ≡ none)
        × (peek_first q ≡ none)
        × (peek_last q ≡ none)
        × (rotate_left q ≡ some q)
  IsQueue-empty q h = empty_steps q (no_head q.memory q.head h.items h.content h.linked)
