-- ===== src/Tests/Heap.antt =====
-- The kernel heap with three blocks, two of them free.
use matte_os.Base.{
  ℕ, ◌==◌, if◌then◌else◌, ◌≡◌, refl, Bool, true, false, none, some, List, [], ◌∷◌, arith, inl,
}
use matte_os.Heap.{AllocHeader, Headers, KernelMemoryAllocator, kmalloc, kfree, get_statistics}
use matte_os.Heap.Blocks.{first_fit, free_at, join_free}
use matte_os.Heap.Alloc.{IsHeap, SameExtent, block_size, kmalloc-first_fit, kmalloc_full-loops}
use matte_os.Heap.Free.{kfree-join_free}
use matte_os.Heap.Usage.{kfree-kmalloc}

abbrev block : ℕ → Bool → AllocHeader
block size taken = record { size = size; taken = taken }

abbrev headers : Headers
headers p =
    if p == 4096
    then block 24 true
    else if p == 4120
    then block 32 false
    else if p == 4152
    then block 40 false
    else block 0 false

abbrev small_heap : KernelMemoryAllocator
small_heap = record { mem = headers; head = 4096; total_size = 96 }

abbrev three_blocks : List AllocHeader
three_blocks = block 24 true ∷ block 32 false ∷ block 40 false ∷ []

small_heap-IsHeap : IsHeap small_heap three_blocks
small_heap-IsHeap = record {
  tiles = (refl, omega arith, (refl, omega arith, (refl, omega arith, refl)));
  fits = omega arith;
}

abbrev after_split : List AllocHeader
after_split = block 24 true ∷ block 16 true ∷ block 16 false ∷ block 40 false ∷ []

fits_second : first_fit (block_size 4) 4096 three_blocks ≡ some (4120, after_split)
unfolding first_fit
fits_second = refl

fits_nowhere : first_fit (block_size 40) 4096 three_blocks ≡ none
unfolding first_fit
fits_nowhere = refl

kmalloc-first_fit_example :
    (a' : KernelMemoryAllocator) × (kmalloc 3 small_heap 4 ≡ some (some 4128, a'))
    × IsHeap a' after_split
    × SameExtent small_heap a'
kmalloc-first_fit_example =
    kmalloc-first_fit small_heap three_blocks after_split 3 4 4120 small_heap-IsHeap (omega arith)
      (omega arith) (omega arith) fits_second

kmalloc_full-loops_example : kmalloc 1000 small_heap 40 ≡ none
kmalloc_full-loops_example =
    kmalloc_full-loops small_heap three_blocks 1000 40 small_heap-IsHeap (omega arith) (omega arith)
      (omega arith) fits_nowhere refl

kfree-join_free_example :
    (a' : KernelMemoryAllocator) × (kfree 4 small_heap (some 4104) ≡ some a')
    × IsHeap a' (join_free (free_at 4096 4096 three_blocks))
    × SameExtent small_heap a'
kfree-join_free_example =
    kfree-join_free small_heap three_blocks 4 4096 small_heap-IsHeap (inl refl) (omega arith)

-- One pass leaves two free blocks side by side.
joined : join_free (free_at 4096 4096 three_blocks) ≡ block 56 false ∷ block 40 false ∷ []
unfolding join_free free_at
joined = refl

kfree-kmalloc_example :
    (ptr : ℕ) × (a1 : KernelMemoryAllocator) × (a2 : KernelMemoryAllocator) × (kmalloc 5 small_heap
        4
      ≡ some (some ptr, a1))
    × (kfree 5 a1 (some ptr) ≡ some a2)
    × (get_statistics 5 a2 ≡ get_statistics 5 small_heap)
kfree-kmalloc_example =
    kfree-kmalloc small_heap three_blocks after_split 5 4 4120 small_heap-IsHeap (omega arith)
      (omega arith) (omega arith) fits_second
