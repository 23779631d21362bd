-- ===== src/Queue/Copies.antt =====
-- Copying and clearing a queue.
use mathlib.Core.List.{append_assoc, append-nil}
use matte_os.Base.{
  ap, ◌∙◌, ℕ, zero, suc, ◌<◌, ◌≡◌, refl, Option, none, some, List, [], ◌∷◌, ◌++◌, arith, length,
  update,
}
use matte_os.Queue.{LinkedQueue, append, create, append_all, copy, delete_all, clear, assign}
use matte_os.Queue.Links.{
  Memory, Linked, nothing, element, Distinct, Below, last_address, values, frame,
}
use matte_os.Queue.Laws.{IsQueue, queue, append-IsQueue, write_other}

module _ {ℓ} {A : Type ℓ} where
  -- A queue without a head is empty.
  headless : (m : Memory A) (fresh : ℕ) → IsQueue (queue m fresh none none) []
  unfolding values Distinct Below last_address
  headless m fresh = record {
    items = [];
    content = refl;
    linked = nothing;
    distinct = tt;
    below = tt;
    ends = refl;
  }

  append_all_step :
      (fuel p : ℕ) (other : Memory A) (q q' : LinkedQueue A) (v : A) (next : Option ℕ)
      → other p ≡ some (record { element = v; next = next })
      → append v q ≡ some q'
      → append_all (suc fuel) other (some p) q ≡ append_all fuel other next q'
  unfolding append_all
  append_all_step fuel p other q q' v next at run = rw (append_all, at, run) refl

  pub append_all-IsQueue :
      (items : List (ℕ × A)) (fuel : ℕ) (other : Memory A) (p : Option ℕ) (q : LinkedQueue A)
      (ys : List A)
      → Linked other p items
      → IsQueue q ys
      → length items < fuel
      → (q' : LinkedQueue A) × (append_all fuel other p q ≡ some q')
        × IsQueue q' (ys ++ values items)
  unfolding values
  append_all-IsQueue items zero other p q ys l h enough = absurd (omega arith)
  append_all-IsQueue [] (suc fuel) other p q ys nothing h enough =
      (q, unfold append_all in refl, rw (append-nil ys) h)
  append_all-IsQueue ((a, v) ∷ items) (suc fuel) other p q ys (element {next = next} at l) h
        enough =
      let (q1, run, h1) = append-IsQueue v q ys h in
      let (q', rest, h') =
        append_all-IsQueue items fuel other next q1 (ys ++ v ∷ []) l h1 (omega arith) in
      (
        q',
        append_all_step fuel a other q q1 v next at run ∙ rest,
        rw (append_assoc ys (v ∷ []) (values items)) at h',
      )

  length-values : (items : List (ℕ × A)) → length (values items) ≡ length items
  unfolding values
  length-values [] = refl
  length-values ((a, v) ∷ items) = ap suc (length-values items)

  -- The copy of a queue holds its values. One round for each value, and one more, is enough fuel.
  pub copy-IsQueue :
      (fuel : ℕ) (other : LinkedQueue A) (xs : List A)
      → IsQueue other xs
      → length xs < fuel
      → (q' : LinkedQueue A) × (copy fuel other ≡ some q') × IsQueue q' xs
  unfolding copy create
  copy-IsQueue fuel other xs h enough =
      let few : length h.items < fuel = omega (arith, length-values h.items, ap length h.content) in
      let (q', run, h') =
        append_all-IsQueue h.items fuel other.memory other.head create [] h.linked
          (headless (λ p. none) 0) few in
      (q', run, rw h.content at h')

  delete_step :
      (fuel p : ℕ) (m : Memory A) (v : A) (next : Option ℕ)
      → m p ≡ some (record { element = v; next = next })
      → delete_all (suc fuel) m (some p) ≡ delete_all fuel (update m p none) next
  unfolding delete_all
  delete_step fuel p m v next at = rw (delete_all, at) refl

  delete_all-Linked :
      (items : List (ℕ × A)) (fuel : ℕ) (m : Memory A) (p : Option ℕ)
      → Linked m p items
      → Distinct items
      → length items < fuel
      → (m' : Memory A) × (delete_all fuel m p ≡ some m')
  unfolding Distinct
  delete_all-Linked items zero m p l d enough = absurd (omega arith)
  delete_all-Linked [] (suc fuel) m p nothing d enough = (m, unfold delete_all in refl)
  delete_all-Linked ((a, v) ∷ items) (suc fuel) m p (element {next = next} at l) d enough =
      let (m', run) =
        delete_all-Linked items fuel (update m a none) next
          (frame m (update m a none) next items a l d.0 (write_other m a none)) d.1 (omega arith) in
      (m', delete_step fuel a m v next at ∙ run)

  clear_step :
      (fuel : ℕ) (q : LinkedQueue A) (m' : Memory A)
      → delete_all fuel q.memory q.head ≡ some m'
      → clear fuel q ≡ some (queue m' q.fresh none none)
  unfolding clear
  clear_step fuel q m' run = rw (clear, run) refl

  -- `clear` deletes every element once and leaves an empty queue, with a round for each value and one more.
  pub clear-IsQueue :
      (fuel : ℕ) (q : LinkedQueue A) (xs : List A)
      → IsQueue q xs
      → length xs < fuel
      → (q' : LinkedQueue A) × (clear fuel q ≡ some q') × IsQueue q' []
  clear-IsQueue fuel q xs h enough =
      let few : length h.items < fuel = omega (arith, length-values h.items, ap length h.content) in
      let (m', run) = delete_all-Linked h.items fuel q.memory q.head h.linked h.distinct few in
      (queue m' q.fresh none none, clear_step fuel q m' run, headless m' q.fresh)

  assign_step :
      (fuel : ℕ) (q q1 other : LinkedQueue A)
      → clear fuel q ≡ some q1
      → assign fuel q other ≡ append_all fuel other.memory other.head q1
  unfolding assign
  assign_step fuel q q1 other run = rw (assign, run) refl

  -- Assigning one queue to another leaves it with the values of that other. One round for each value of
  -- the longer, and one more, is enough fuel.
  pub assign-IsQueue :
      (fuel : ℕ) (q other : LinkedQueue A) (xs ys : List A)
      → IsQueue q xs
      → IsQueue other ys
      → length xs < fuel
      → length ys < fuel
      → (q' : LinkedQueue A) × (assign fuel q other ≡ some q') × IsQueue q' ys
  assign-IsQueue fuel q other xs ys h ho enough enough' =
      let few : length ho.items < fuel =
        omega (arith, length-values ho.items, ap length ho.content) in
      let (q1, cleared, h1) = clear-IsQueue fuel q xs h enough in
      let (q', run, h') =
        append_all-IsQueue ho.items fuel other.memory other.head q1 [] ho.linked h1 few in
      (q', assign_step fuel q q1 other cleared ∙ run, rw ho.content at h')
