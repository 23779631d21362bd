-- ===== src/Queue.antt =====
-- Utils/Arrays/Queue.h: the linked queue, with its elements in memory.
-- `new` returns an address that was never used: the allocator is modelled in Heap. A null or dangling
-- pointer and a failed assertion are faults, `none`.
pub mod Links
pub mod Laws
pub mod Ends
pub mod Rotation
pub mod Copies
use matte_os.Base.{
  ℕ, zero, suc, ◌+◌, Bool, true, false, Option, none, some, ◌==◌, if◌then◌else◌, update,
}

pub record QueueElement {ℓ} (A : Type ℓ) : Type ℓ where
  pub element : A
  pub next : Option ℕ

-- The addresses from `fresh` on were never used.
pub record LinkedQueue {ℓ} (A : Type ℓ) : Type ℓ where
  pub memory : ℕ → Option (QueueElement A)
  pub fresh : ℕ
  pub head : Option ℕ
  pub tail : Option ℕ

module _ {ℓ} {A : Type ℓ} where
  abbrev pub created : A → Option (QueueElement A)
  created v = some (record { element = v; next = none })

  unfoldable pub is_empty : LinkedQueue A → Bool
  is_empty q = elim q.head [ none ↦ true | some p ↦ false ]

  -- A write to `p->m_next`.
  unfoldable pub link :
      (ℕ → Option (QueueElement A)) → ℕ → Option ℕ → Option (ℕ → Option (QueueElement A))
  link memory p next = elim (memory p) [
    | none ↦ none
    | some e ↦ some (update memory p (some (record e { next = next })))
  ]

  unfoldable pub append : A → LinkedQueue A → Option (LinkedQueue A)
  unfolding link
  append v q =
      let memory = update q.memory q.fresh (created v) in
      elim q.head [
        | none ↦ some (record {
          memory = memory;
          fresh = q.fresh + 1;
          head = some q.fresh;
          tail = some q.fresh;
        })
        | some p ↦ elim q.tail [
          | none ↦ none
          | some t ↦ elim (link memory t (some q.fresh)) [
            | none ↦ none
            | some linked ↦ some (record {
              memory = linked;
              fresh = q.fresh + 1;
              head = some p;
              tail = some q.fresh;
            })
          ]
        ]
      ]

  unfoldable pub pop : LinkedQueue A → Option (A × LinkedQueue A)
  pop q = elim q.head [
    | none ↦ none
    | some p ↦ elim (q.memory p) [
      | none ↦ none
      | some e ↦
          let tail : Option ℕ = elim e.next [ none ↦ none | some n ↦ q.tail ] in
          some (e.element, record q { memory = update q.memory p none; head = e.next; tail = tail })
    ]
  ]

  unfoldable pub peek_first : LinkedQueue A → Option A
  peek_first q = elim q.head [
    | none ↦ none
    | some p ↦ elim (q.memory p) [ none ↦ none | some e ↦ some e.element ]
  ]

  unfoldable pub peek_last : LinkedQueue A → Option A
  peek_last q = elim q.head [
    | none ↦ none
    | some p ↦ elim q.tail [
      | none ↦ none
      | some t ↦ elim (q.memory t) [ none ↦ none | some e ↦ some e.element ]
    ]
  ]

  -- The writes of `rotate_left` behind its early return.
  unfoldable pub turn : LinkedQueue A → ℕ → ℕ → ℕ → Option (LinkedQueue A)
  unfolding link
  turn q old_head next t = elim (link q.memory t (some old_head)) [
    | none ↦ none
    | some memory ↦ elim (link memory old_head none) [
      | none ↦ none
      | some memory' ↦ some (record q { memory = memory'; head = some next; tail = some old_head })
    ]
  ]

  unfoldable pub rotate_left : LinkedQueue A → Option (LinkedQueue A)
  unfolding turn
  rotate_left q = elim q.head [
    | none ↦ some q
    | some p ↦ elim (q.memory p) [
      | none ↦ none
      | some e ↦ elim e.next [
        | none ↦ some q
        | some n ↦ elim q.tail [ none ↦ none | some t ↦ turn q p n t ]
      ]
    ]
  ]

  -- A queue in a memory of its own.
  unfoldable pub create : LinkedQueue A
  create = record { memory = λ p. none; fresh = 0; head = none; tail = none }

  -- for(current = other.m_head; current != nullptr; current = current->m_next) append(...);
  unfoldable pub append_all :
      ℕ → (ℕ → Option (QueueElement A)) → Option ℕ → LinkedQueue A → Option (LinkedQueue A)
  unfolding append
  append_all zero other current q = none
  append_all (suc fuel) other none q = some q
  append_all (suc fuel) other (some p) q = elim (other p) [
    | none ↦ none
    | some e ↦ elim (append e.element q) [ none ↦ none | some q' ↦ append_all fuel other e.next q' ]
  ]

  -- The copy constructor. `none` is a fault or fuel that ran out, here and below.
  unfoldable pub copy : ℕ → LinkedQueue A → Option (LinkedQueue A)
  unfolding append_all create
  copy fuel other = append_all fuel other.memory other.head create

  -- The loop of `clear`, which deletes the elements from a pointer on.
  unfoldable pub delete_all :
      ℕ → (ℕ → Option (QueueElement A)) → Option ℕ → Option (ℕ → Option (QueueElement A))
  delete_all zero memory current = none
  delete_all (suc fuel) memory none = some memory
  delete_all (suc fuel) memory (some p) = elim (memory p) [
    | none ↦ none
    | some e ↦ delete_all fuel (update memory p none) e.next
  ]

  unfoldable pub clear : ℕ → LinkedQueue A → Option (LinkedQueue A)
  unfolding delete_all
  clear fuel q = elim (delete_all fuel q.memory q.head) [
    | none ↦ none
    | some memory ↦ some (record q { memory = memory; head = none; tail = none })
  ]

  -- Copy assignment from another queue.
  unfoldable pub assign : ℕ → LinkedQueue A → LinkedQueue A → Option (LinkedQueue A)
  unfolding clear append_all
  assign fuel q other = elim (clear fuel q) [
    | none ↦ none
    | some q' ↦ append_all fuel other.memory other.head q'
  ]
