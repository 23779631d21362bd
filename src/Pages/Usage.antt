-- ===== src/Pages/Usage.antt =====
-- `MemoryManager::get_statistics`: the pages in use.
use matte_os.Base.{
  ℕ, zero, suc, ◌+◌, ◌-◌, ◌*◌, ◌≤◌, ◌<◌, ◌≡◌, ◌≢◌, ◌∙◌, sym, ap, refl, some, arith, not,
  if◌then◌else◌,
}
use matte_os.Pages.{
  u64_mod, page_size, Pages, PageStatus, MemoryManager, is_free, alloc, count_allocated,
  get_statistics,
}
use matte_os.Pages.Runs.{Run, claimed, is_free_iff}
use matte_os.Pages.FirstFit.{Claims, alloc-Claims}
use matte_os.Pages.RoundTrip.{claimed_busy, claimed_else}

-- the pages in use among the `n` from `i` on
pub busy : Pages → ℕ → ℕ → ℕ
unfolding is_free
busy p zero i = 0
busy p (suc n) i = (if is_free (p i) then 0 else 1) + busy p n (i + 1)

count_allocated-busy : (p : Pages) (n i acc : ℕ) → count_allocated p n i acc ≡ acc + busy p n i
unfolding count_allocated busy
count_allocated-busy p zero i acc = omega arith
count_allocated-busy p (suc n) i acc =
    ground (arith, count_allocated-busy p n (i + 1) (if not (is_free (p i)) then acc + 1 else acc))

busy-le : (p : Pages) (n i : ℕ) → busy p n i ≤ n
unfolding busy
busy-le p zero i = omega arith
busy-le p (suc n) i = ground (arith, busy-le p n (i + 1))

busy-suc :
    (p : Pages) (n i : ℕ) → busy p (suc n) i ≡ (if is_free (p i) then 0 else 1) + busy p n (i + 1)
unfolding busy
busy-suc p n i = refl

busy-add : (p : Pages) (a b i : ℕ) → busy p (a + b) i ≡ busy p a i + busy p b (i + a)
busy-add p zero b i =
    let e : zero + b ≡ b = omega arith in
    let f : i + zero ≡ i = omega arith in rw (e, f) (unfold busy in omega arith)
busy-add p (suc a) b i =
    let e : suc a + b ≡ suc (a + b) = omega arith in
    let f : i + suc a ≡ i + 1 + a = omega arith in
    rw (e, f) (omega (arith, busy-suc p (a + b) i, busy-suc p a i, busy-add p a b (i + 1)))

busy_congr :
    (p q : Pages) (n i : ℕ) → ((k : ℕ) → i ≤ k → k < i + n → p k ≡ q k) → busy p n i ≡ busy q n i
unfolding busy
busy_congr p q zero i h = refl
busy_congr p q (suc n) i h = rw (
  h i (omega arith) (omega arith),
  busy_congr p q n (i + 1) (λ k lo hi. h k (omega arith) (omega arith)),
)

busy-Run : (p : Pages) (n i : ℕ) → Run p i n → busy p n i ≡ 0
unfolding busy
busy-Run p zero i h = refl
busy-Run p (suc n) i h = rw (
  (is_free_iff (p i)).1 (h i (omega arith) (omega arith)),
  busy-Run p n (i + 1) (λ k lo hi. h k (omega arith) (omega arith)),
)

busy_full :
    (p : Pages) (n i : ℕ) → ((k : ℕ) → i ≤ k → k < i + n → p k ≢ PageStatus.free) → busy p n i ≡ n
unfolding busy
busy_full p zero i h = refl
busy_full p (suc n) i h =
    let rest = busy_full p n (i + 1) (λ k lo hi. h k (omega arith) (omega arith)) in
    ground (arith, rest, h i, is_free_iff (p i))

used_pages-busy :
    (m : MemoryManager) → (get_statistics m).used_pages ≡ busy m.first_page m.number_of_pages 0
unfolding get_statistics
used_pages-busy m = omega (arith, count_allocated-busy m.first_page m.number_of_pages 0 0)

free_pages-busy :
    (m : MemoryManager)
    → m.number_of_pages < u64_mod
    → (get_statistics m).free_pages + (get_statistics m).used_pages ≡ m.number_of_pages
unfolding get_statistics
free_pages-busy m fits = omega (
  arith,
  count_allocated-busy m.first_page m.number_of_pages 0 0,
  busy-le m.first_page m.number_of_pages 0,
)

-- `get_statistics` reports the number of pages, and as used the pages that are not free; its free and
-- used pages add up to the total. The number of pages must fit 64 bits.
pub get_statistics_total :
    (m : MemoryManager)
    → m.number_of_pages < u64_mod
    → let s = get_statistics m in
      (s.total_pages ≡ m.number_of_pages)
      × (s.free_pages + s.used_pages ≡ s.total_pages)
      × (s.used_pages ≡ busy m.first_page m.number_of_pages 0)
unfolding get_statistics
get_statistics_total m fits = (
  refl,
  free_pages-busy m fits,
  omega (arith, count_allocated-busy m.first_page m.number_of_pages 0 0),
)

busy-claimed :
    (p q : Pages) (i pages rest : ℕ)
    → 0 < pages
    → ((k : ℕ) → q k ≡ claimed p i pages k)
    → Run p i pages
    → busy q (i + (pages + rest)) 0 ≡ busy p (i + (pages + rest)) 0 + pages
busy-claimed p q i pages rest pos h run = omega (
  arith,
  busy-add p i (pages + rest) 0,
  busy-add p pages rest (0 + i),
  busy-add q i (pages + rest) 0,
  busy-add q pages rest (0 + i),
  busy_congr q p i 0 (λ k lo hi. h k ∙ claimed_else p i pages k pos (omega arith)),
  busy_congr q p rest (0 + i + pages) (λ k lo hi. h k ∙ claimed_else p i pages k pos (omega arith)),
  busy-Run p pages (0 + i) (λ k lo hi. run k (omega arith) (omega arith)),
  busy_full q pages (0 + i)
      (λ k lo hi e. claimed_busy p i pages k pos (omega arith) (omega arith) (sym (h k) ∙ e)),
)

busy-Claims :
    (m : MemoryManager) (pages i ptr : ℕ) (r : MemoryManager)
    → 0 < pages
    → i + pages ≤ m.number_of_pages
    → Claims m pages i ptr r
    → busy r.first_page r.number_of_pages 0 ≡ busy m.first_page m.number_of_pages 0 + pages
busy-Claims m pages i ptr r pos inside c =
    let e : m.number_of_pages ≡ i + (pages + (m.number_of_pages - i - pages)) = omega arith in
    let same : r.number_of_pages ≡ i + (pages + (m.number_of_pages - i - pages)) =
      c.same_number ∙ e in
    ap (λ n. busy r.first_page n 0) same
    ∙ busy-claimed m.first_page r.first_page i pages (m.number_of_pages - i - pages) pos c.marked
        c.was_free
    ∙ ap (λ n. busy m.first_page n 0 + pages) (sym e)

-- A claim that stays inside the heap moves its pages from the free to the used ones. The number of
-- pages is positive, and the page numbers and the addresses of the heap must not wrap.
pub get_statistics-alloc :
    (m : MemoryManager) (pages ptr : ℕ) (r : MemoryManager)
    → 0 < pages
    → m.number_of_pages + pages < u64_mod
    → m.alloc_start + page_size * m.number_of_pages ≤ u64_mod
    → ptr + page_size * pages ≤ m.alloc_start + page_size * m.number_of_pages
    → alloc m pages ≡ some (ptr, r)
    → ((get_statistics r).used_pages ≡ (get_statistics m).used_pages + pages)
      × ((get_statistics r).free_pages + pages ≡ (get_statistics m).free_pages)
get_statistics-alloc m pages ptr r pos fits space inside run =
    let (i, c) = alloc-Claims m pages pos fits run in
    let more = busy-Claims m pages i ptr r pos (omega (arith, c.page, c.address)) c in
    omega (
      arith,
      more,
      c.same_number,
      used_pages-busy m,
      used_pages-busy r,
      free_pages-busy m (omega arith),
      free_pages-busy r (omega (arith, c.same_number)),
    )
