-- ===== src/Heap/Usage.antt =====
-- `get_statistics` and `is_in_freed_memory` against the list of blocks.
use mathlib.Core.Option.{some-injective}
use mathlib.Core.Path.{subst}
use matte_os.Base.{
  ap, ℕ, zero, suc, ◌+◌, ◌-◌, ◌%◌, ◌^◌, ◌≤◌, ◌<◌, ◌≡◌, ◌∙◌, sym, refl, inl, inr, true, false, some,
  List, [], ◌∷◌, ◌++◌, ◌&&◌, arith, ltb, leb, if◌then◌else◌, Bool-cases, length, lt→ltb,
}
use matte_os.Pages.{u64_mod}
use matte_os.Heap.{
  AllocHeader, Headers, KernelMemoryAllocator, header_size, is_free, offset, heap_tail, kmalloc,
  kfree, get_statistics, statistics_walk,
}
use matte_os.Heap.Blocks.{Tiles, split_block, first_fit, free_at, join_free, Begins, Tiles-le}
use matte_os.Heap.Alloc.{IsHeap, SameExtent, block_size, kmalloc-first_fit, behind-eq-some}
use matte_os.Heap.Free.{
  length-free_at, kfree-join_free, join_free_both, join_free_else, free_at_later,
}

abbrev pub taken_bytes : List AllocHeader → ℕ
taken_bytes [] = 0
taken_bytes (b ∷ bs) = (if b.taken then b.size else 0) + taken_bytes bs

abbrev pub free_bytes : List AllocHeader → ℕ
free_bytes [] = 0
free_bytes (b ∷ bs) = (if b.taken then 0 else b.size) + free_bytes bs

bytes-Tiles :
    (bs : List AllocHeader) (mem : Headers) (p t : ℕ)
    → Tiles mem p bs t
    → p + (free_bytes bs + taken_bytes bs) ≡ t
bytes-Tiles [] mem p t h = omega arith
bytes-Tiles (b ∷ bs) mem p t h = ground (arith, bytes-Tiles bs mem (p + b.size) t h.2)

statistics_step :
    (fuel : ℕ) (mem : Headers) (p tail taken free : ℕ) (b : AllocHeader) (n : ℕ)
    → mem p ≡ b
    → p < tail
    → offset p b.size ≡ n
    → statistics_walk (suc fuel) mem p tail taken free
      ≡ statistics_walk fuel mem n tail
          (if b.taken then (taken + b.size) % u64_mod else taken)
          (if b.taken then free else (free + b.size) % u64_mod)
unfolding statistics_walk
statistics_step fuel mem p tail taken free b n here lt e =
    rw (lt→ltb p tail lt, here, e, statistics_walk)

statistics_walk_lem :
    (bs : List AllocHeader) (fuel : ℕ) (mem : Headers) (p tail taken free : ℕ)
    → tail < 2 ^ 63
    → taken + free ≤ p
    → length bs < fuel
    → Tiles mem p bs tail
    → statistics_walk fuel mem p tail taken free
      ≡ some (taken + taken_bytes bs, free + free_bytes bs)
statistics_walk_lem bs zero mem p tail taken free fits small enough h = absurd (omega arith)
statistics_walk_lem [] (suc fuel) mem p tail taken free fits small enough h =
    let e : ltb p tail ≡ false = ground arith in
    unfold statistics_walk in rw (e, statistics_walk) (ground arith)
statistics_walk_lem (b ∷ bs) (suc fuel) mem p tail taken free fits small enough h =
    let end = Tiles-le mem (p + b.size) tail bs h.2 in
    statistics_step fuel mem p tail taken free b (p + b.size) h.0 (omega arith) (omega arith)
    ∙ statistics_walk_lem bs fuel mem (p + b.size) tail _ _ fits (ground arith) (omega arith) h.2
    ∙ ground arith

get_statistics-walk :
    (fuel : ℕ) (a : KernelMemoryAllocator) (tail taken free : ℕ)
    → heap_tail a ≡ tail
    → statistics_walk fuel a.mem a.head tail 0 0 ≡ some (taken, free)
    → get_statistics fuel a
      ≡ some (record { total_size = a.total_size; free_size = free; used_size = taken })
unfolding get_statistics
get_statistics-walk fuel a tail taken free e run = rw (e, run, get_statistics)

-- On a heap tiled with blocks, `get_statistics` ends and counts the bytes of the free and of the taken
-- blocks, which together fill the heap. One round for each block, and one for the end, is enough fuel.
pub get_statistics-bytes :
    (a : KernelMemoryAllocator) (bs : List AllocHeader) (fuel : ℕ)
    → IsHeap a bs
    → length bs < fuel
    → (get_statistics fuel a
        ≡ some (record {
          total_size = a.total_size;
          free_size = free_bytes bs;
          used_size = taken_bytes bs;
        }))
      × (free_bytes bs + taken_bytes bs ≡ a.total_size)
get_statistics-bytes a bs fuel heap enough = (
  get_statistics-walk fuel a (a.head + a.total_size) (taken_bytes bs) (free_bytes bs)
      (omega (arith, heap.fits))
      (statistics_walk_lem bs fuel a.mem a.head (a.head + a.total_size) 0 0
          (omega (arith, heap.fits)) (omega arith) enough heap.tiles
        ∙ ground arith),
  omega (arith, bytes-Tiles bs a.mem a.head (a.head + a.total_size) heap.tiles),
)

taken_bytes-join_free : (bs : List AllocHeader) → taken_bytes (join_free bs) ≡ taken_bytes bs
taken_bytes-join_free [] = unfold join_free in refl
taken_bytes-join_free (b ∷ []) = unfold join_free in refl
taken_bytes-join_free (b ∷ c ∷ bs) = elim (Bool-cases (is_free b && is_free c)) [
  | inl both ↦ rw (join_free_both b c bs both) (ground (arith, taken_bytes-join_free bs))
  | inr not_both ↦
      rw (join_free_else b c bs not_both) (ground (arith, taken_bytes-join_free (c ∷ bs)))
]

-- A block of `bs'` begins at `q`; freeing it leaves the taken bytes of `bs`.
abbrev Freed : ℕ → ℕ → List AllocHeader → List AllocHeader → Type 0
Freed p q bs bs' =
    Begins q p bs'
    × (taken_bytes (free_at q p bs') ≡ taken_bytes bs)
    × (p ≤ q)
    × (length bs' ≤ length bs + 1)

split-Freed :
    (b : AllocHeader) (bs : List AllocHeader) (size p : ℕ)
    → (is_free b && leb size b.size) ≡ true
    → Freed p p (b ∷ bs) (split_block size b ++ bs)
unfolding free_at
split-Freed b bs size p serves = elim (Bool-cases (ltb header_size (b.size - size))) [
  | inl e ↦ rw e (inl refl, ground arith, omega arith, omega arith)
  | inr e ↦ rw e (inl refl, ground arith, omega arith, omega arith)
]

behind-Freed :
    (b : AllocHeader) (bs l : List AllocHeader) (p q : ℕ)
    → header_size ≤ b.size
    → Freed (p + b.size) q bs l
    → Freed p q (b ∷ bs) (b ∷ l)
behind-Freed b bs l p q lo (begins, same, far, short) = (
  inr begins,
  rw (free_at_later b l p q (omega arith)) (omega (arith, same)),
  omega arith,
  omega arith,
)

first_fit-Freed :
    (bs bs' : List AllocHeader) (size p q : ℕ) (mem : Headers) (t : ℕ)
    → Tiles mem p bs t
    → first_fit size p bs ≡ some (q, bs')
    → Freed p q bs bs'
unfolding first_fit
first_fit-Freed [] bs' size p q mem t h e = cc
first_fit-Freed (b ∷ bs) bs' size p q mem t h e = elim (Bool-cases (is_free b && leb size b.size)) [
  | inl serves ↦
      subst (λ (x : ℕ × List AllocHeader). Freed p x.0 (b ∷ bs) x.1)
        (some-injective _ _ (rw serves at e)) (split-Freed b bs size p serves)
  | inr skips ↦
      let (l, found, same) = behind-eq-some b (first_fit size (p + b.size) bs) (rw skips at e) in
      subst (λ x. Freed p q (b ∷ bs) x) same
        (behind-Freed b bs l p q h.1 (first_fit-Freed bs l size (p + b.size) q mem t h.2 found))
]

length-join_free : (bs : List AllocHeader) → length (join_free bs) ≤ length bs
length-join_free [] = unfold join_free in omega arith
length-join_free (b ∷ []) = unfold join_free in omega arith
length-join_free (b ∷ c ∷ bs) = elim (Bool-cases (is_free b && is_free c)) [
  | inl both ↦ rw (join_free_both b c bs both) (omega (arith, length-join_free bs))
  | inr not_both ↦ rw (join_free_else b c bs not_both) (omega (arith, length-join_free (c ∷ bs)))
]

same_statistics :
    (a a2 : KernelMemoryAllocator) (bs cs : List AllocHeader) (fuel : ℕ)
    → IsHeap a bs
    → IsHeap a2 cs
    → a2.total_size ≡ a.total_size
    → taken_bytes cs ≡ taken_bytes bs
    → length bs < fuel
    → length cs < fuel
    → get_statistics fuel a2 ≡ get_statistics fuel a
same_statistics a a2 bs cs fuel heap heap2 extent same few few2 =
    let (e, total) = get_statistics-bytes a bs fuel heap few in
    let (e2, total2) = get_statistics-bytes a2 cs fuel heap2 few2 in
    let free : free_bytes cs ≡ free_bytes bs = omega arith in e2 ∙ rw (same, free, extent) (sym e)

kfree-Freed :
    (a a1 : KernelMemoryAllocator) (bs bs' : List AllocHeader) (fuel q : ℕ)
    → IsHeap a bs
    → IsHeap a1 bs'
    → SameExtent a a1
    → Freed a.head q bs bs'
    → length bs + 1 < fuel
    → (a2 : KernelMemoryAllocator) × (kfree fuel a1 (some (q + header_size)) ≡ some a2)
      × (get_statistics fuel a2 ≡ get_statistics fuel a)
kfree-Freed a a1 bs bs' fuel q heap heap1 extent (begins, same, far, short) enough =
    let (a2, run, heap2, extent2) =
      kfree-join_free a1 bs' fuel q heap1 (rw extent.0 begins) (omega arith) in
    let cs = free_at q a1.head bs' in
    let taken : taken_bytes (join_free cs) ≡ taken_bytes bs =
      taken_bytes-join_free cs ∙ ap (λ h. taken_bytes (free_at q h bs')) extent.0 ∙ same in
    (
      a2,
      run,
      same_statistics a a2 bs (join_free cs) fuel heap heap2 (extent2.1 ∙ extent.1) taken
          (omega arith) (omega (arith, length-join_free cs, length-free_at bs' q a1.head)),
    )

-- On a heap tiled with blocks, a `kmalloc` that finds one, then `kfree` of what it returned, leaves as
-- many used and as many free bytes as before. The request must be positive and below 2 ^ 63; two
-- rounds more than there are blocks are enough fuel.
pub kfree-kmalloc :
    (a : KernelMemoryAllocator) (bs bs' : List AllocHeader) (fuel sz q : ℕ)
    → IsHeap a bs
    → 0 < sz
    → sz < 2 ^ 63
    → length bs + 1 < fuel
    → first_fit (block_size sz) a.head bs ≡ some (q, bs')
    → (ptr : ℕ) × (a1 : KernelMemoryAllocator) × (a2 : KernelMemoryAllocator) × (kmalloc fuel a sz
        ≡ some (some ptr, a1))
      × (kfree fuel a1 (some ptr) ≡ some a2)
      × (get_statistics fuel a2 ≡ get_statistics fuel a)
kfree-kmalloc a bs bs' fuel sz q heap pos small enough found =
    let freed =
      first_fit-Freed bs bs' (block_size sz) a.head q a.mem (a.head + a.total_size) heap.tiles
        found in
    let (a1, run1, heap1, extent) =
      kmalloc-first_fit a bs bs' fuel sz q heap pos small (omega arith) found in
    let (a2, run2, counts) = kfree-Freed a a1 bs bs' fuel q heap heap1 extent freed enough in
    (q + header_size, a1, a2, run1, run2, counts)
