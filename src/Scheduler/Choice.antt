-- ===== src/Scheduler/Choice.antt =====
-- The loop of `schedule` turns the run queue to the next running thread.
use mathlib.Core.List.{append_assoc, append-nil}
use matte_os.Base.{
  ◌∙◌, sym, Option-cases, Bool-cases, inl, inr, ℕ, zero, suc, ◌<◌, ◌≡◌, refl, Bool, true, false,
  none, some, List, [], ◌∷◌, ◌++◌, arith, length,
}
use matte_os.Queue.{LinkedQueue, rotate_left, peek_first}
use matte_os.Queue.Laws.{IsQueue}
use matte_os.Queue.Ends.{peek_first-pop}
use matte_os.Queue.Rotation.{rotate_left-IsQueue}
use matte_os.Scheduler.{Thread, is_running, choose}

module _ (threads : ℕ → Thread) where
  abbrev pub runs : ℕ → Bool
  runs t = is_running (threads t).state

  -- None of the threads is running.
  unfoldable pub Idle : List ℕ → Type 0
  Idle [] = Unit
  Idle (t ∷ ts) = (runs t ≡ false) × Idle ts

  choose_hit :
      (fuel t : ℕ) (q q1 : LinkedQueue ℕ)
      → rotate_left q ≡ some q1
      → peek_first q1 ≡ some t
      → runs t ≡ true
      → choose (suc fuel) threads q ≡ some (some (t, q1))
  unfolding choose
  choose_hit fuel t q q1 turn first hit = rw (choose, turn, first, hit) refl

  choose_miss :
      (fuel t : ℕ) (q q1 : LinkedQueue ℕ)
      → rotate_left q ≡ some q1
      → peek_first q1 ≡ some t
      → runs t ≡ false
      → choose (suc fuel) threads q ≡ choose fuel threads q1
  unfolding choose
  choose_miss fuel t q q1 turn first miss = rw (choose, turn, first, miss) refl

  choose_fault :
      (fuel : ℕ) (q : LinkedQueue ℕ) → rotate_left q ≡ none → choose (suc fuel) threads q ≡ none
  unfolding choose
  choose_fault fuel q turn = rw (choose, turn) refl

  choose_empty :
      (fuel : ℕ) (q q1 : LinkedQueue ℕ)
      → rotate_left q ≡ some q1
      → peek_first q1 ≡ none
      → choose (suc fuel) threads q ≡ none
  unfolding choose
  choose_empty fuel q q1 turn first = rw (choose, turn, first) refl

  -- Whatever the queue, the thread that is chosen is running.
  pub choose-runs :
      (fuel u : ℕ) (q q' : LinkedQueue ℕ)
      → choose fuel threads q ≡ some (some (u, q'))
      → runs u ≡ true
  choose-runs zero u q q' run = unfold choose in cc
  choose-runs (suc fuel) u q q' run = elim (Option-cases (rotate_left q)) [
    | inl e ↦ let stuck = choose_fault fuel q e in cc
    | inr (q1, turn) ↦ elim (Option-cases (peek_first q1)) [
      | inl e ↦ let stuck = choose_empty fuel q q1 turn e in cc
      | inr (t, first) ↦ elim (Bool-cases (runs t)) [
        | inl hit ↦ let found = choose_hit fuel t q q1 turn first hit in cc
        | inr miss ↦ choose-runs fuel u q1 q' (sym (choose_miss fuel t q q1 turn first miss) ∙ run)
      ]
    ]
  ]

  turned :
      (q : LinkedQueue ℕ) (x : ℕ) (xs : List ℕ) (y : ℕ) (ys : List ℕ)
      → IsQueue q (x ∷ xs)
      → xs ++ x ∷ [] ≡ y ∷ ys
      → (q1 : LinkedQueue ℕ) × (rotate_left q ≡ some q1)
        × (peek_first q1 ≡ some y)
        × IsQueue q1 (y ∷ ys)
  turned q x xs y ys h e =
      let (q1, turn, h1) = rotate_left-IsQueue q x xs h in
      let h2 : IsQueue q1 (y ∷ ys) = rw e at h1 in
      let (q2, first, _) = peek_first-pop q1 y ys h2 in (q1, turn, first, h2)

  -- From a queue whose rotation is `before`, then `t`, then `after`.
  pub choose-Idle :
      (before : List ℕ) (fuel : ℕ) (q : LinkedQueue ℕ) (x : ℕ) (xs : List ℕ) (t : ℕ)
      (after : List ℕ)
      → IsQueue q (x ∷ xs)
      → xs ++ x ∷ [] ≡ before ++ t ∷ after
      → Idle before
      → runs t ≡ true
      → length before < fuel
      → (q' : LinkedQueue ℕ) × (choose fuel threads q ≡ some (some (t, q')))
        × IsQueue q' (t ∷ (after ++ before))
  unfolding Idle
  choose-Idle before zero q x xs t after h e idle hit enough = absurd (omega arith)
  choose-Idle [] (suc fuel) q x xs t after h e idle hit enough =
      let (q1, turn, first, h1) = turned q x xs t after h e in
      (q1, choose_hit fuel t q q1 turn first hit, rw (append-nil after) h1)
  choose-Idle (b ∷ bs) (suc fuel) q x xs t after h e idle hit enough =
      let (q1, turn, first, h1) = turned q x xs b (bs ++ t ∷ after) h e in
      let (q', run, h') =
        choose-Idle bs fuel q1 b (bs ++ t ∷ after) t (after ++ b ∷ []) h1
          (append_assoc bs (t ∷ after) (b ∷ [])) idle.1 hit (omega arith) in
      (
        q',
        choose_miss fuel b q q1 turn first idle.0 ∙ run,
        rw (append_assoc after (b ∷ []) bs) at h',
      )

  Idle-snoc : (xs : List ℕ) (x : ℕ) → Idle xs → runs x ≡ false → Idle (xs ++ x ∷ [])
  unfolding Idle
  Idle-snoc [] x idle miss = (miss, idle)
  Idle-snoc (y ∷ ys) x idle miss = (idle.0, Idle-snoc ys x idle.1 miss)

  -- When no thread of a run queue that is not empty is running, the loop of `schedule` goes on for ever: after any
  -- number of rounds it has met no fault, and it has chosen no thread.
  pub choose_spins :
      (fuel : ℕ) (q : LinkedQueue ℕ) (xs : List ℕ) (x : ℕ)
      → IsQueue q (x ∷ xs)
      → Idle (x ∷ xs)
      → choose fuel threads q ≡ some none
  unfolding Idle
  choose_spins zero q xs x h idle = unfold choose in refl
  choose_spins (suc fuel) q [] x h idle =
      let (q1, turn, first, h1) = turned q x [] x [] h refl in
      choose_miss fuel x q q1 turn first idle.0 ∙ choose_spins fuel q1 [] x h1 idle
  choose_spins (suc fuel) q (y ∷ ys) x h idle =
      let (q1, turn, first, h1) = turned q x (y ∷ ys) y (ys ++ x ∷ []) h refl in
      choose_miss fuel y q q1 turn first idle.1.0
      ∙ choose_spins fuel q1 (ys ++ x ∷ []) y h1 (idle.1.0, Idle-snoc ys x idle.1.1 idle.0)
