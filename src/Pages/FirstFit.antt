-- ===== src/Pages/FirstFit.antt =====
-- `MemoryManager::alloc` takes the first run of free pages.
use mathlib.Core.Option.{some-injective}
use mathlib.Core.Path.{subst}
use matte_os.Base.{
  true_ne_false, ℕ, zero, suc, ◌+◌, ◌*◌, ◌%◌, ◌<◌, ◌≡◌, refl, true, false, Option, none, some, inl,
  inr, arith, Bool-cases, ℕ_discrete,
}
use matte_os.Pages.{u64_mod, page_size, MemoryManager, found_at, claim_at, alloc_from, alloc}
use matte_os.Pages.Runs.{Run, claimed, found_at_iff, claim_at_lem}

-- What a successful `alloc` returns: the page `i` begins the run, and no page before it begins one.
pub record Claims (m : MemoryManager) (pages i ptr : ℕ) (r : MemoryManager) : Type 0 where
  pub page : i < m.number_of_pages
  pub address : ptr ≡ (m.alloc_start + page_size * i) % u64_mod
  pub was_free : Run m.first_page i pages
  pub first : (j : ℕ) → j < i → ¬ (Run m.first_page j pages)
  pub marked : (k : ℕ) → r.first_page k ≡ claimed m.first_page i pages k
  pub same_start : r.alloc_start ≡ m.alloc_start
  pub same_heap : r.heap_start ≡ m.heap_start
  pub same_number : r.number_of_pages ≡ m.number_of_pages

-- The two ends of `alloc`.
pub data AllocOutcome (m : MemoryManager) (pages : ℕ) : Option (ℕ × MemoryManager) → Type 0 where
  full :
      ((j : ℕ) → j < m.number_of_pages → ¬ (Run m.first_page j pages)) → AllocOutcome m pages none
  claims :
      (i : ℕ) {ptr : ℕ} {r : MemoryManager}
      → Claims m pages i ptr r
      → AllocOutcome m pages (some (ptr, r))

module _ (m : MemoryManager) (pages : ℕ) (pos : 0 < pages)
    (fits : m.number_of_pages + pages < u64_mod) where
  claim_of : ℕ → MemoryManager
  claim_of i = record m { first_page = claim_at m.first_page pages i }

  alloc_from_found :
      (rounds i : ℕ)
      → found_at m.first_page pages i ≡ true
      → alloc_from m pages (suc rounds) i
        ≡ some ((m.alloc_start + page_size * i) % u64_mod, claim_of i)
  unfolding alloc_from claim_of
  alloc_from_found rounds i h = rw h

  alloc_from_skip :
      (rounds i : ℕ)
      → found_at m.first_page pages i ≡ false
      → alloc_from m pages (suc rounds) i ≡ alloc_from m pages rounds (i + 1)
  unfolding alloc_from
  alloc_from_skip rounds i h = rw h

  claim-Claims :
      (i : ℕ)
      → i < m.number_of_pages
      → Run m.first_page i pages
      → ((j : ℕ) → j < i → ¬ (Run m.first_page j pages))
      → Claims m pages i ((m.alloc_start + page_size * i) % u64_mod) (claim_of i)
  unfolding claim_of
  claim-Claims i lt run none_before = record {
    page = lt;
    address = refl;
    was_free = run;
    first = none_before;
    marked = λ k. claim_at_lem m.first_page pages i k pos (omega arith);
    same_start = refl;
    same_heap = refl;
    same_number = refl;
  }

  extend :
      (i : ℕ)
      → ((j : ℕ) → j < i → ¬ (Run m.first_page j pages))
      → ¬ (Run m.first_page i pages)
      → (j : ℕ) → j < i + 1
      → ¬ (Run m.first_page j pages)
  extend i before here j lt = elim (ℕ_discrete j i) [
    | yes e ↦ rw e here
    | no ne ↦ before j (omega arith)
  ]

  alloc_from_outcome :
      (rounds i : ℕ)
      → i + rounds ≡ m.number_of_pages
      → ((j : ℕ) → j < i → ¬ (Run m.first_page j pages))
      → AllocOutcome m pages (alloc_from m pages rounds i)
  alloc_from_outcome zero i e before = unfold alloc_from in full (λ j lt. before j (omega arith))
  alloc_from_outcome (suc rounds) i e before =
      let iff = found_at_iff m.first_page pages i pos (omega arith) in
      elim (Bool-cases (found_at m.first_page pages i)) [
        | inl h ↦
            rw (alloc_from_found rounds i h)
              (claims i (claim-Claims i (omega arith) (iff.0 h) before))
        | inr h ↦ rw (alloc_from_skip rounds i h) (
            alloc_from_outcome rounds (i + 1) (omega arith)
              (extend i before λ r. true_ne_false (iff.1 r) h))
      ]

  -- `alloc` of a positive number of pages fails exactly when no page of the heap begins a run of
  -- that many free descriptors; otherwise it takes the first such run, returns its address and
  -- marks its pages and nothing else. (A run may reach past the last page: the code tests only
  -- where it begins.) The page numbers must not wrap.
  pub alloc-AllocOutcome : AllocOutcome m pages (alloc m pages)
  unfolding alloc
  alloc-AllocOutcome =
      alloc_from_outcome m.number_of_pages 0 (omega arith) (λ j lt. absurd (omega arith))

  AllocOutcome-Claims :
      {o : Option (ℕ × MemoryManager)} {ptr : ℕ} {r : MemoryManager}
      → AllocOutcome m pages o
      → o ≡ some (ptr, r)
      → (i : ℕ) × Claims m pages i ptr r
  AllocOutcome-Claims (full _) e = cc
  AllocOutcome-Claims (claims i c) e =
      (i, subst (λ (x : ℕ × MemoryManager). Claims m pages i x.0 x.1) (some-injective _ _ e) c)

  pub alloc-Claims :
      {ptr : ℕ} {r : MemoryManager}
      → alloc m pages ≡ some (ptr, r)
      → (i : ℕ) × Claims m pages i ptr r
  alloc-Claims = AllocOutcome-Claims alloc-AllocOutcome
