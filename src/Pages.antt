-- ===== src/Pages.antt =====
-- The page allocator: Kernel/Memory/MemoryManager.cpp and Kernel/Memory/Page.cpp.
-- Descriptors are bytes from `m_heap_start` on; `m_first_page` is that address after `init`.
-- Loops over a counter recur on the rounds left; the walk of `dealloc` takes fuel.
pub mod Runs
pub mod FirstFit
pub mod RoundTrip
pub mod Usage
pub mod Zeroing
use matte_os.Base.{
  ℕ, zero, suc, ◌+◌, ◌-◌, ◌*◌, ◌/◌, ◌%◌, ◌^◌, Bool, true, false, not, Option, none, some, ◌&&◌,
  ◌==◌, if◌then◌else◌, update,
}

abbrev pub u64_mod : ℕ
u64_mod = 2 ^ 64

abbrev pub page_size : ℕ
page_size = 4096

-- `last` stands for every byte that is neither `Free` nor `Taken`: the allocator tests no other.
pub data PageStatus : Type 0 where
  free taken last : PageStatus

unfoldable pub is_free : PageStatus → Bool
is_free PageStatus.free = true
is_free PageStatus.taken = false
is_free PageStatus.last = false

unfoldable pub is_taken : PageStatus → Bool
is_taken PageStatus.free = false
is_taken PageStatus.taken = true
is_taken PageStatus.last = false

abbrev pub Pages : Type 0
Pages = ℕ → PageStatus

-- The descriptors are memory: an index past `number_of_pages` reads the byte that stands there.
pub record MemoryManager : Type 0 where
  pub heap_start : ℕ
  pub heap_size : ℕ
  pub first_page : Pages
  pub number_of_pages : ℕ
  pub alloc_start : ℕ

-- `(value + o) & ~o` with `o = (1 << order) - 1` drops the low bits of a sum that wraps.
unfoldable pub align_value : ℕ → ℕ → ℕ
align_value value order = let sum = (value + (2 ^ order - 1)) % u64_mod in sum - sum % 2 ^ order

-- for(i = k; i < k + n; i++) m_first_page[i].clear();
unfoldable pub clear_from : Pages → ℕ → ℕ → Pages
clear_from p zero k = p
clear_from p (suc n) k = clear_from (update p k PageStatus.free) n (k + 1)

-- The linker's `_heap_start` and `_heap_size`, and the bytes that memory holds at start.
unfoldable pub init : ℕ → ℕ → Pages → MemoryManager
unfolding align_value clear_from
init start size bytes =
    let n = size / page_size in
    record {
      heap_start = start;
      heap_size = size;
      first_page = clear_from (update bytes 0 PageStatus.last) (n - 1) 1;
      number_of_pages = n;
      alloc_start = align_value (start + n) 12;
    }

-- The inner loop of `alloc`, over the rounds left.
unfoldable pub run_free : Pages → ℕ → ℕ → Bool
unfolding is_free
run_free p zero j = true
run_free p (suc n) j = if is_free (p j) then run_free p n (j + 1) else false

unfoldable pub mark_taken : Pages → ℕ → ℕ → Pages
mark_taken p zero k = p
mark_taken p (suc n) k = mark_taken (update p k PageStatus.taken) n (k + 1)

-- One round of the outer loop. `i + pages` and `i + pages - 1` are taken modulo 2 ^ 64.
unfoldable pub found_at : Pages → ℕ → ℕ → Bool
unfolding run_free
found_at p pages i = is_free (p i) && run_free p ((i + pages) % u64_mod - i) i

unfoldable pub claim_at : Pages → ℕ → ℕ → Pages
unfolding mark_taken
claim_at p pages i =
    let end = (i + pages + u64_mod - 1) % u64_mod in
    update (mark_taken p (end - i) i) end PageStatus.last

unfoldable pub alloc_from : MemoryManager → ℕ → ℕ → ℕ → Option (ℕ × MemoryManager)
unfolding found_at claim_at
alloc_from m pages zero i = none
alloc_from m pages (suc rounds) i =
    let rest = alloc_from m pages rounds (i + 1) in
    if found_at m.first_page pages i
    then some (
      (m.alloc_start + page_size * i) % u64_mod,
      record m { first_page = claim_at m.first_page pages i },
    )
    else rest

-- `none` is the null pointer.
unfoldable pub alloc : MemoryManager → ℕ → Option (ℕ × MemoryManager)
unfolding alloc_from
alloc m pages = alloc_from m pages m.number_of_pages 0

-- The loop of `zalloc`, over the words left from the address `k` on.
unfoldable pub zero_words : ℕ → (ℕ → ℕ) → ℕ → ℕ → ℕ
zero_words zero words k = words
zero_words (suc n) words k = zero_words n (update words k 0) ((k + 8) % u64_mod)

-- `words` is the memory, as 64-bit words by their address.
unfoldable pub zalloc : MemoryManager → (ℕ → ℕ) → ℕ → Option (ℕ × MemoryManager × (ℕ → ℕ))
unfolding alloc zero_words
zalloc m words pages = elim (alloc m pages) [
  | none ↦ none
  | some (ptr, m') ↦ some (ptr, m', zero_words ((page_size * pages) % u64_mod / 8) words ptr)
]

-- while(page->is_taken()) { page->clear(); page++; } page->clear();
unfoldable pub release : ℕ → Pages → ℕ → Option Pages
unfolding is_taken
release zero p j = none
release (suc fuel) p j = elim (is_taken (p j)) [
  | true ↦ release fuel (update p j PageStatus.free) (j + 1)
  | false ↦ some (update p j PageStatus.free)
]

-- The outer `none` says that the fuel ran out; the argument's `none` is the null pointer.
unfoldable pub dealloc : ℕ → MemoryManager → Option ℕ → Option MemoryManager
unfolding release
dealloc fuel m none = some m
dealloc fuel m (some ptr) =
    let page = ((ptr + u64_mod - m.alloc_start) % u64_mod) / page_size in
    elim (release fuel m.first_page page) [
      | none ↦ none
      | some p ↦ some (record m { first_page = p })
    ]

pub record Statistics : Type 0 where
  pub total_pages : ℕ
  pub free_pages : ℕ
  pub used_pages : ℕ

-- The loop of `get_statistics` and of `debug_output`.
unfoldable pub count_allocated : Pages → ℕ → ℕ → ℕ → ℕ
unfolding is_free
count_allocated p zero i allocated = allocated
count_allocated p (suc n) i allocated =
    count_allocated p n (i + 1) (if not (is_free (p i)) then allocated + 1 else allocated)

unfoldable pub get_statistics : MemoryManager → Statistics
unfolding count_allocated
get_statistics m =
    let allocated = count_allocated m.first_page m.number_of_pages 0 0 in
    record {
      total_pages = m.number_of_pages;
      free_pages = (m.number_of_pages + u64_mod - allocated) % u64_mod;
      used_pages = allocated;
    }
