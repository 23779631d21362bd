-- ===== src/Pages/RoundTrip.antt =====
-- `MemoryManager::dealloc` after `alloc`, and two claims side by side.
use matte_os.Base.{
  ℕ, zero, suc, ◌+◌, ◌-◌, ◌*◌, ◌/◌, ◌%◌, ◌≤◌, ◌<◌, ◌≡◌, some, ◌&&◌, ◌⊎◌, arith, leb, update, sym,
  ◌∙◌, dec_lt, ◌≢◌, if◌then◌else◌,
}
use matte_os.Pages.{u64_mod, page_size, Pages, PageStatus, MemoryManager, release, alloc, dealloc}
use matte_os.Pages.Runs.{Run, claimed}
use matte_os.Pages.FirstFit.{Claims, alloc-Claims}

-- the descriptors after the pages from `j` to `j + n` are cleared
abbrev cleared : Pages → ℕ → ℕ → Pages
cleared p j n k = if leb j k && leb k (j + n) then PageStatus.free else p k

release_run :
    (n fuel : ℕ) (p : Pages) (j : ℕ)
    → n < fuel
    → ((k : ℕ) → j ≤ k → k < j + n → p k ≡ PageStatus.taken)
    → p (j + n) ≡ PageStatus.last
    → (q : Pages) × (release fuel p j ≡ some q) × ((k : ℕ) → q k ≡ cleared p j n k)
unfolding release
release_run n zero p j lt run end = absurd (omega arith)
release_run zero (suc fuel) p j lt run end =
    let same : j + 0 ≡ j = omega arith in
    let here : p j ≡ PageStatus.last = rw same at end in
    (update p j PageStatus.free, rw (here, release), λ k. ground arith)
release_run (suc n) (suc fuel) p j lt run end =
    let here = run j (omega arith) (omega arith) in
    let end' : p (j + 1 + n) ≡ PageStatus.last =
      let e : j + suc n ≡ j + 1 + n = omega arith in rw e at end in
    let (q, e, h) =
      release_run n fuel (update p j PageStatus.free) (j + 1) (omega arith)
        (λ k lo hi. ground (arith, run k)) (ground (arith, end')) in
    (q, rw (here, release) e, λ k. ground (arith, h k))

dealloc-release :
    (fuel page ptr : ℕ) (m : MemoryManager) (q : Pages)
    → ((ptr + u64_mod - m.alloc_start) % u64_mod) / page_size ≡ page
    → release fuel m.first_page page ≡ some q
    → dealloc fuel m (some ptr) ≡ some (record m { first_page = q })
unfolding dealloc
dealloc-release fuel page ptr m q e walk = rw (e, walk, dealloc)

claimed_taken :
    (p : Pages) (i n k : ℕ) → i ≤ k → k < i + (n - 1) → claimed p i n k ≡ PageStatus.taken
unfolding claimed
claimed_taken p i n k lo hi = ground arith

claimed_last : (p : Pages) (i n : ℕ) → 0 < n → claimed p i n (i + (n - 1)) ≡ PageStatus.last
unfolding claimed
claimed_last p i n pos = ground arith

pub claimed_else : (p : Pages) (i n k : ℕ) → 0 < n → (k < i) ⊎ (i + n ≤ k) → claimed p i n k ≡ p k
unfolding claimed
claimed_else p i n k pos h = ground arith

pub claimed_busy :
    (p : Pages) (i n k : ℕ) → 0 < n → i ≤ k → k < i + n → claimed p i n k ≢ PageStatus.free
unfolding claimed
claimed_busy p i n k pos lo hi = ground arith

module _ (m : MemoryManager) (pages fuel i ptr : ℕ) (r : MemoryManager) (pos : 0 < pages) where
  restored :
      (q : Pages)
      → Claims m pages i ptr r
      → ((k : ℕ) → q k ≡ cleared r.first_page i (pages - 1) k)
      → (k : ℕ) → q k ≡ m.first_page k
  restored q c h k =
      ground (arith, h k, c.marked k, c.was_free k, claimed_else m.first_page i pages k)

  dealloc-Claims :
      m.alloc_start + page_size * m.number_of_pages ≤ u64_mod
      → pages ≤ fuel
      → Claims m pages i ptr r
      → (s : MemoryManager) × (dealloc fuel r (some ptr) ≡ some s)
        × ((k : ℕ) → s.first_page k ≡ m.first_page k)
  dealloc-Claims space enough c =
      let e : ((ptr + u64_mod - r.alloc_start) % u64_mod) / page_size ≡ i =
        omega (arith, c.page, c.address, c.same_start) in
      let (q, walk, h) =
        release_run (pages - 1) fuel r.first_page i (omega arith)
          (λ k lo hi. c.marked k ∙ claimed_taken m.first_page i pages k lo hi)
          (c.marked _ ∙ claimed_last m.first_page i pages pos) in
      (record r { first_page = q }, dealloc-release fuel i ptr r q e walk, restored q c h)

-- What `alloc` returned, `dealloc` gives back: every descriptor is as it was before the claim.
-- The page numbers and the addresses of the heap must not wrap, and the walk makes at most one
-- round for each page.
pub dealloc-alloc :
    (m : MemoryManager) (pages fuel ptr : ℕ) (r : MemoryManager)
    → 0 < pages
    → m.number_of_pages + pages < u64_mod
    → m.alloc_start + page_size * m.number_of_pages ≤ u64_mod
    → pages ≤ fuel
    → alloc m pages ≡ some (ptr, r)
    → (s : MemoryManager) × (dealloc fuel r (some ptr) ≡ some s)
      × ((k : ℕ) → s.first_page k ≡ m.first_page k)
dealloc-alloc m pages fuel ptr r pos fits space enough run =
    let (i, c) = alloc-Claims m pages pos fits run in
    dealloc-Claims m pages fuel i ptr r pos space enough c

disjoint_runs :
    (m : MemoryManager) (a i p1 : ℕ) (r : MemoryManager)
    → Claims m a i p1 r
    → (b j : ℕ) → 0 < a
    → 0 < b
    → Run r.first_page j b
    → (i + a ≤ j) ⊎ (j + b ≤ i)
disjoint_runs m a i p1 r c b j pos_a pos_b run = elim (dec_lt j (i + a)) [
  | no away ↦ omega arith
  | yes low ↦ elim (dec_lt i (j + b)) [
    | no away ↦ omega arith
    | yes high ↦ elim (dec_lt i j) [
      | yes lt ↦ absurd (
          claimed_busy m.first_page i a j pos_a (omega arith) (omega arith)
            (sym (c.marked j) ∙ run j (omega arith) (omega arith)))
      | no ge ↦ absurd (
          claimed_busy m.first_page i a i pos_a (omega arith) (omega arith)
            (sym (c.marked i) ∙ run i (omega arith) (omega arith)))
    ]
  ]
]

disjoint_addresses :
    (m r : MemoryManager) (a b i j p1 p2 : ℕ) {s : MemoryManager}
    → m.alloc_start + page_size * m.number_of_pages ≤ u64_mod
    → Claims m a i p1 r
    → Claims r b j p2 s
    → (i + a ≤ j) ⊎ (j + b ≤ i)
    → (p1 + page_size * a ≤ p2) ⊎ (p2 + page_size * b ≤ p1)
disjoint_addresses m r a b i j p1 p2 space c d h =
    omega (arith, c.page, c.address, c.same_start, c.same_number, d.page, d.address)

-- Two claims in a row never share a page: the addresses of one run lie before those of the other.
-- Both are of a positive number of pages, and the page numbers and the addresses must not wrap.
pub alloc_disjoint :
    (m : MemoryManager) (a b p1 p2 : ℕ) (r s : MemoryManager)
    → 0 < a
    → 0 < b
    → m.number_of_pages + a < u64_mod
    → m.number_of_pages + b < u64_mod
    → m.alloc_start + page_size * m.number_of_pages ≤ u64_mod
    → alloc m a ≡ some (p1, r)
    → alloc r b ≡ some (p2, s)
    → (p1 + page_size * a ≤ p2) ⊎ (p2 + page_size * b ≤ p1)
alloc_disjoint m a b p1 p2 r s pos_a pos_b fits_a fits_b space first second =
    let (i, c) = alloc-Claims m a pos_a fits_a first in
    let (j, d) = alloc-Claims r b pos_b (rw c.same_number fits_b) second in
    disjoint_addresses m r a b i j p1 p2 space c d
      (disjoint_runs m a i p1 r c b j pos_a pos_b d.was_free)
