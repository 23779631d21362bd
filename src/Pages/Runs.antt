-- ===== src/Pages/Runs.antt =====
-- The loops of the page allocator against a description of a run of pages.
use matte_os.Base.{
  ℕ, zero, suc, ◌+◌, ◌-◌, ◌%◌, ◌≤◌, ◌<◌, ◌≡◌, ◌↔◌, refl, true, ◌&&◌, arith, ltb, leb, inl, inr,
  Bool-cases, ℕ_discrete, ◌==◌, if◌then◌else◌, update,
}
use matte_os.Pages.{u64_mod, Pages, PageStatus, is_free, run_free, mark_taken, found_at, claim_at}

-- `n` free pages from `i` on
abbrev pub Run : Pages → ℕ → ℕ → Type 0
Run p i n = (k : ℕ) → i ≤ k → k < i + n → p k ≡ PageStatus.free

-- the descriptors after a claim of `n` pages from `i` on
unfoldable pub claimed : Pages → ℕ → ℕ → Pages
claimed p i n k =
    if leb i k && ltb k (i + n - 1)
    then PageStatus.taken
    else if k == i + n - 1
    then PageStatus.last
    else p k

pub is_free_iff : (s : PageStatus) → (is_free s ≡ true) ↔ (s ≡ PageStatus.free)
unfolding is_free
is_free_iff PageStatus.free = (λ _. refl, λ _. refl)
is_free_iff PageStatus.taken = (λ h. cc, λ h. cc)
is_free_iff PageStatus.last = (λ h. cc, λ h. cc)

Run-step : (p : Pages) (n j : ℕ) → p j ≡ PageStatus.free → Run p (j + 1) n → Run p j (suc n)
Run-step p n j here rest k lo hi = elim (ℕ_discrete j k) [
  | yes e ↦ rw (← e) here
  | no ne ↦ rest k (omega arith) (omega arith)
]

pub run_free-Run : (p : Pages) (n j : ℕ) → run_free p n j ≡ true → Run p j n
unfolding run_free
run_free-Run p zero j h = λ k lo hi. absurd (omega arith)
run_free-Run p (suc n) j h = elim (Bool-cases (is_free (p j))) [
  | inl e ↦ Run-step p n j ((is_free_iff _).0 e) (run_free-Run p n (j + 1) (rw e at h))
  | inr e ↦ absurd (ground arith)
]

pub Run-run_free : (p : Pages) (n j : ℕ) → Run p j n → run_free p n j ≡ true
unfolding run_free
Run-run_free p zero j h = refl
Run-run_free p (suc n) j h =
    rw ((is_free_iff (p j)).1 (h j (omega arith) (omega arith)))
      (Run-run_free p n (j + 1) (λ k lo hi. h k (omega arith) (omega arith)))

pub mark_taken_lem :
    (p : Pages) (n k q : ℕ)
    → mark_taken p n k q ≡ (if leb k q && ltb q (k + n) then PageStatus.taken else p q)
unfolding mark_taken
mark_taken_lem p zero k q = ground arith
mark_taken_lem p (suc n) k q =
    ground (arith, mark_taken_lem (update p k PageStatus.taken) n (k + 1) q)

-- With a positive count and no wrap a round finds exactly a run.
pub found_at_iff :
    (p : Pages) (pages i : ℕ)
    → 0 < pages
    → i + pages < u64_mod
    → (found_at p pages i ≡ true) ↔ Run p i pages
unfolding found_at
found_at_iff p pages i pos fits =
    let e : (i + pages) % u64_mod - i ≡ pages = omega arith in rw e (to, back)
  where
    to : (is_free (p i) && run_free p pages i) ≡ true → Run p i pages
    to h = run_free-Run p pages i (ground arith)

    back : Run p i pages → (is_free (p i) && run_free p pages i) ≡ true
    back r = rw ((is_free_iff (p i)).1 (r i (omega arith) (omega arith)), Run-run_free p pages i r)

pub claim_at_lem :
    (p : Pages) (pages i k : ℕ)
    → 0 < pages
    → i + pages < u64_mod
    → claim_at p pages i k ≡ claimed p i pages k
unfolding claim_at claimed
claim_at_lem p pages i k pos fits =
    let e : (i + pages + u64_mod - 1) % u64_mod ≡ i + pages - 1 = omega arith in
    rw e (ground (arith, mark_taken_lem p (i + pages - 1 - i) i k))
