-- ===== src/Tests/Pages.antt =====
-- The page allocator on eight pages.
use matte_os.Base.{◌==◌, leb, if◌then◌else◌, ℕ, ◌≡◌, refl, some, arith}
use matte_os.Pages.{Pages, PageStatus, MemoryManager, claim_at, alloc, dealloc}
use matte_os.Pages.FirstFit.{AllocOutcome, alloc-AllocOutcome}
use matte_os.Pages.RoundTrip.{dealloc-alloc}

-- The first descriptor is `Last`, the pages 1 and 2 are taken by a run.
abbrev descriptors : Pages
descriptors k =
    if k == 1 then PageStatus.taken else if leb k 2 then PageStatus.last else PageStatus.free

abbrev eight_pages : MemoryManager
eight_pages = record {
  heap_start = 4096;
  heap_size = 32768;
  first_page = descriptors;
  number_of_pages = 8;
  alloc_start = 8192;
}

abbrev after_claim : MemoryManager → ℕ → ℕ → MemoryManager
after_claim m pages i = record m { first_page = claim_at m.first_page pages i }

first_claim : alloc eight_pages 2 ≡ some (20480, after_claim eight_pages 2 3)
unfolding alloc
first_claim = refl

second_claim :
    alloc (after_claim eight_pages 2 3) 3
    ≡ some (28672, after_claim (after_claim eight_pages 2 3) 3 5)
unfolding alloc
second_claim = refl

-- A run may reach past the last page.
past_the_end : alloc eight_pages 6 ≡ some (20480, after_claim eight_pages 6 3)
unfolding alloc
past_the_end = refl

alloc-AllocOutcome_example : AllocOutcome eight_pages 2 (alloc eight_pages 2)
alloc-AllocOutcome_example = alloc-AllocOutcome eight_pages 2 (omega arith) (omega arith)

dealloc-alloc_example :
    (s : MemoryManager) × (dealloc 2 (after_claim eight_pages 2 3) (some 20480) ≡ some s)
    × ((k : ℕ) → s.first_page k ≡ eight_pages.first_page k)
dealloc-alloc_example =
    dealloc-alloc eight_pages 2 2 20480 (after_claim eight_pages 2 3) (omega arith) (omega arith)
      (omega arith) (omega arith) first_claim
