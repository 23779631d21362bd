-- ===== src/Descriptors/Slots.antt =====
-- The slots of the table.
use mathlib.Core.Option.{some-injective}
use matte_os.Base.{
  ap, sym, ℕ, zero, suc, ◌+◌, ◌<◌, ◌≡◌, ◌≢◌, refl, Option, none, some, List, [], ◌∷◌, arith, length,
  get_elem?, set,
}
use matte_os.Descriptors.{free_slot, clear_slots}

module _ {ℓ} {A : Type ℓ} where
  -- `k` is the first empty slot.
  pub record FirstFree (fds : List (Option A)) (k : ℕ) : Type ℓ where
    pub empty : get_elem? fds k ≡ some none
    pub first : (j : ℕ) → j < k → get_elem? fds j ≢ some none

  FirstFree-cons :
      (d : A) (fds : List (Option A)) (k : ℕ) → FirstFree fds k → FirstFree (some d ∷ fds) (suc k)
  FirstFree-cons d fds k f = record {
    empty = f.empty;
    first = elim [ zero ↦ λ lt e. cc | suc j ↦ λ lt. f.first j (omega arith) ];
  }

  pub free_slot-FirstFree :
      (fds : List (Option A)) (i n : ℕ)
      → free_slot fds i ≡ some n
      → (k : ℕ) × (n ≡ i + k) × FirstFree fds k
  unfolding free_slot
  free_slot-FirstFree [] i n e = cc
  free_slot-FirstFree (none ∷ fds) i n e = (
    zero,
    omega (arith, some-injective _ _ e),
    record { empty = refl; first = λ j lt. absurd (omega arith) },
  )
  free_slot-FirstFree (some d ∷ fds) i n e =
      let (k, same, f) = free_slot-FirstFree fds (i + 1) n e in
      (suc k, omega arith, FirstFree-cons d fds k f)

  pub free_slot_full :
      (fds : List (Option A)) (i k : ℕ) → free_slot fds i ≡ none → get_elem? fds k ≢ some none
  unfolding free_slot
  free_slot_full [] i k e = λ h. cc
  free_slot_full (none ∷ fds) i k e = cc
  free_slot_full (some d ∷ fds) i zero e = λ h. cc
  free_slot_full (some d ∷ fds) i (suc k) e = free_slot_full fds (i + 1) k e

  pub set_back :
      (fds : List (Option A)) (k : ℕ) (d : A)
      → get_elem? fds k ≡ some none
      → set (set fds k (some d)) k none ≡ fds
  set_back [] k d e = cc
  set_back (x ∷ fds) zero d e = ap (λ y. y ∷ fds) (sym (some-injective _ _ e))
  set_back (x ∷ fds) (suc k) d e = ap (λ l. x ∷ l) (set_back fds k d e)

  pub in_range :
      (fds : List (Option A)) (k : ℕ) (x : Option A) → get_elem? fds k ≡ some x → k < length fds
  in_range [] k x e = cc
  in_range (y ∷ fds) zero x e = omega arith
  in_range (y ∷ fds) (suc k) x e = omega (arith, in_range fds k x e)

  pub get_elem?-clear_slots :
      (fds : List (Option A)) (k : ℕ) → k < length fds → get_elem? (clear_slots fds) k ≡ some none
  unfolding clear_slots
  get_elem?-clear_slots [] k lt = absurd (omega arith)
  get_elem?-clear_slots (none ∷ fds) zero lt = refl
  get_elem?-clear_slots (some d ∷ fds) zero lt = refl
  get_elem?-clear_slots (none ∷ fds) (suc k) lt = get_elem?-clear_slots fds k (omega arith)
  get_elem?-clear_slots (some d ∷ fds) (suc k) lt = get_elem?-clear_slots fds k (omega arith)
