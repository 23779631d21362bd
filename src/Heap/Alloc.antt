-- ===== src/Heap/Alloc.antt =====
-- `kmalloc` serves a request by first fit.
use mathlib.Core.Option
use mathlib.Core.Option.{some-injective}
use mathlib.Core.Path.{subst}
use matte_os.Base.{
  ap, ℕ, zero, suc, ◌+◌, ◌-◌, ◌*◌, ◌/◌, ◌%◌, ◌^◌, ◌≤◌, ◌<◌, ◌≡◌, ◌∙◌, refl, inl, inr, true, false,
  Option, none, some, List, [], ◌∷◌, ◌++◌, ◌&&◌, ◌==◌, arith, ltb, leb, if◌then◌else◌, Bool-cases,
  length, lt→ltb,
}
use matte_os.Pages.{u64_mod, align_value}
use matte_os.Heap.{
  AllocHeader, Headers, KernelMemoryAllocator, header_size, is_free, offset, split, kmalloc_walk,
  kmalloc_tail, kmalloc,
}
use matte_os.Heap.Blocks.{Tiles, split_block, behind, first_fit, Tiles-le, Tiles-congr}

-- What `split` writes: the header of the served block, that of the rest, and nothing else.
module _ (mem : Headers) (p size : ℕ) (b : AllocHeader) (here : mem p ≡ b) (lo : header_size ≤ size)
    (hi : size ≤ b.size) (fits : p + b.size < 2 ^ 63) where
  split_start :
      split mem p size p
      ≡ record { size = if ltb header_size (b.size - size) then size else b.size; taken = true }
  unfolding split
  split_start = ground arith

  split_rest :
      ltb header_size (b.size - size) ≡ true
      → split mem p size (p + size) ≡ record { size = b.size - size; taken = false }
  unfolding split
  split_rest e = ground arith

  split_above : (k : ℕ) → p + b.size ≤ k → split mem p size k ≡ mem k
  unfolding split
  split_above k le = ground arith

  split_below : (k : ℕ) → k < p → split mem p size k ≡ mem k
  unfolding split
  split_below k lt = ground arith

split-Tiles :
    (mem : Headers) (p size t : ℕ) (b : AllocHeader) (bs : List AllocHeader)
    → header_size ≤ size
    → size ≤ b.size
    → t < 2 ^ 63
    → Tiles mem p (b ∷ bs) t
    → Tiles (split mem p size) p (split_block size b ++ bs) t
split-Tiles mem p size t b bs lo hi fits h =
    let end : p + b.size < 2 ^ 63 = omega (arith, Tiles-le mem (p + b.size) t bs h.2) in
    let start = split_start mem p size b h.0 lo hi end in
    let rest =
      Tiles-congr mem (split mem p size) (p + b.size) t bs (split_above mem p size b h.0 lo hi end)
        h.2 in
    elim (Bool-cases (ltb header_size (b.size - size))) [
      | inl e ↦
          let sum : p + size + (b.size - size) ≡ p + b.size = omega arith in
          rw e (
            rw e at start,
            lo,
            (split_rest mem p size b h.0 lo hi end e, ground arith, rw sum rest),
          )
      | inr e ↦ rw e (rw e at start, h.1, rest)
    ]

pub behind-eq-some :
    (b : AllocHeader) (o : Option (ℕ × List AllocHeader)) {q : ℕ} {bs' : List AllocHeader}
    → behind b o ≡ some (q, bs')
    → (l : List AllocHeader) × (o ≡ some (q, l)) × (b ∷ l ≡ bs')
behind-eq-some b none e = cc
behind-eq-some b (some (q, l)) e = (l, ground arith, ground arith)

behind-eq-none :
    (b : AllocHeader) (o : Option (ℕ × List AllocHeader)) → behind b o ≡ none → o ≡ none
behind-eq-none b none e = refl
behind-eq-none b (some (q, l)) e = cc

-- The walk of `kmalloc` over a chain in which some block serves the request.
module _ (size tail : ℕ) (lo : header_size ≤ size) where
  abbrev Served : ℕ → Headers → ℕ → ℕ → ℕ → List AllocHeader → Type 0
  Served fuel mem p t q bs' =
      (mem' : Headers) × (kmalloc_walk fuel mem size p tail ≡ some (some (q + header_size), mem'))
      × Tiles mem' p bs' t
      × ((k : ℕ) → k < p → mem' k ≡ mem k)

  walk_serves :
      (fuel : ℕ) (mem : Headers) (p : ℕ)
      → p < tail
      → (is_free (mem p) && leb size (mem p).size) ≡ true
      → kmalloc_walk (suc fuel) mem size p tail
        ≡ some (some (offset p header_size), split mem p size)
  unfolding kmalloc_walk
  walk_serves fuel mem p lt h = rw (lt→ltb p tail lt, h, kmalloc_walk)

  walk_skips :
      (fuel : ℕ) (mem : Headers) (p : ℕ)
      → p < tail
      → (is_free (mem p) && leb size (mem p).size) ≡ false
      → kmalloc_walk (suc fuel) mem size p tail
        ≡ kmalloc_walk fuel mem size (offset p (mem p).size) tail
  unfolding kmalloc_walk
  walk_skips fuel mem p lt h = rw (lt→ltb p tail lt, h, kmalloc_walk)

  module _ (fuel : ℕ) (mem : Headers) (p t : ℕ) where
    served :
        (b : AllocHeader) (bs : List AllocHeader)
        → t < 2 ^ 63
        → t ≤ tail
        → Tiles mem p (b ∷ bs) t
        → (is_free b && leb size b.size) ≡ true
        → Served (suc fuel) mem p t p (split_block size b ++ bs)
    served b bs fits reach h serves =
        let end = Tiles-le mem (p + b.size) t bs h.2 in
        let hi : size ≤ b.size = ground arith in
        let e : offset p header_size ≡ p + header_size = omega arith in
        (
          split mem p size,
          rw (← e) (walk_serves fuel mem p (omega arith) (rw h.0 serves)),
          split-Tiles mem p size t b bs lo hi fits h,
          split_below mem p size b h.0 lo hi (omega arith),
        )

    skipped :
        (q : ℕ) (b : AllocHeader) (bs bs' : List AllocHeader)
        → t < 2 ^ 63
        → t ≤ tail
        → Tiles mem p (b ∷ bs) t
        → (is_free b && leb size b.size) ≡ false
        → (l : List AllocHeader) → b ∷ l ≡ bs'
        → Served fuel mem (p + b.size) t q l
        → Served (suc fuel) mem p t q bs'
    skipped q b bs bs' fits reach h skips l same (mem', run, tiles, below) =
        let end = Tiles-le mem (p + b.size) t bs h.2 in
        let e : offset p (mem p).size ≡ p + b.size = rw h.0 (omega arith) in
        (
          mem',
          walk_skips fuel mem p (omega arith) (rw h.0 skips)
              ∙ ap (λ x. kmalloc_walk fuel mem size x tail) e
              ∙ run,
          subst (λ x. Tiles mem' p x t) same (below p (omega arith) ∙ h.0, h.1, tiles),
          λ k lt. below k (omega arith),
        )

  kmalloc_walk-first_fit :
      (bs : List AllocHeader) (fuel : ℕ) (mem : Headers) (p t q : ℕ) (bs' : List AllocHeader)
      → t < 2 ^ 63
      → t ≤ tail
      → length bs ≤ fuel
      → Tiles mem p bs t
      → first_fit size p bs ≡ some (q, bs')
      → Served fuel mem p t q bs'
  unfolding first_fit
  kmalloc_walk-first_fit [] fuel mem p t q bs' fits reach enough h e = cc
  kmalloc_walk-first_fit (b ∷ bs) zero mem p t q bs' fits reach enough h e = absurd (omega arith)
  kmalloc_walk-first_fit (b ∷ bs) (suc fuel) mem p t q bs' fits reach enough h e =
      elim (Bool-cases (is_free b && leb size b.size)) [
        | inl serves ↦
            subst (λ (x : ℕ × List AllocHeader). Served (suc fuel) mem p t x.0 x.1)
              (some-injective _ _ (rw serves at e)) (served fuel mem p t b bs fits reach h serves)
        | inr skips ↦
            let (l, found, same) =
              behind-eq-some b (first_fit size (p + b.size) bs) (rw skips at e) in
            skipped fuel mem p t q b bs bs' fits reach h skips l same (
              kmalloc_walk-first_fit bs fuel mem (p + b.size) t q l fits reach (omega arith) h.2
                found)
      ]

  -- A free header of size zero before the tail holds the walk for ever.
  walk_stuck :
      (fuel : ℕ) (mem : Headers) (p : ℕ)
      → (mem p).size ≡ 0
      → p < tail
      → p < 2 ^ 63
      → kmalloc_walk fuel mem size p tail ≡ none
  walk_stuck zero mem p empty before fits = unfold kmalloc_walk in refl
  walk_stuck (suc fuel) mem p empty before fits =
      let e : offset p (mem p).size ≡ p = rw empty (omega arith) in
      walk_skips fuel mem p before (ground arith)
      ∙ ap (λ x. kmalloc_walk fuel mem size x tail) e
      ∙ walk_stuck fuel mem p empty before fits

  kmalloc_walk_full :
      (bs : List AllocHeader) (fuel : ℕ) (mem : Headers) (p t : ℕ)
      → t < 2 ^ 63
      → t < tail
      → Tiles mem p bs t
      → first_fit size p bs ≡ none
      → (mem t).size ≡ 0
      → kmalloc_walk fuel mem size p tail ≡ none
  unfolding first_fit
  kmalloc_walk_full [] fuel mem p t fits reach h e empty =
      walk_stuck fuel mem p (rw (← h) at empty) (omega arith) (omega arith)
  kmalloc_walk_full (b ∷ bs) zero mem p t fits reach h e empty = unfold kmalloc_walk in refl
  kmalloc_walk_full (b ∷ bs) (suc fuel) mem p t fits reach h e empty =
      let end = Tiles-le mem (p + b.size) t bs h.2 in
      let skips : (is_free b && leb size b.size) ≡ false = ground arith in
      let rest : first_fit size (p + b.size) bs ≡ none = behind-eq-none b _ (rw skips at e) in
      let next : offset p (mem p).size ≡ p + b.size = rw h.0 (omega arith) in
      walk_skips fuel mem p (omega arith) (rw h.0 skips)
      ∙ ap (λ x. kmalloc_walk fuel mem size x tail) next
      ∙ kmalloc_walk_full bs fuel mem (p + b.size) t fits reach h.2 rest empty

-- A heap whose headers tile it with the blocks `bs`, and whose addresses are small enough that no
-- pointer of any walk wraps.
pub record IsHeap (a : KernelMemoryAllocator) (bs : List AllocHeader) : Type 0 where
  pub tiles : Tiles a.mem a.head bs (a.head + a.total_size)
  pub fits : a.head + header_size * a.total_size < 2 ^ 63

abbrev pub SameExtent : KernelMemoryAllocator → KernelMemoryAllocator → Type 0
SameExtent a a' = (a'.head ≡ a.head) × (a'.total_size ≡ a.total_size)

-- The bytes that `kmalloc` looks for: the request rounded up to eight, and a header.
abbrev pub block_size : ℕ → ℕ
block_size sz = (sz + 7) / 8 * 8 + header_size

block_size_lem : (sz : ℕ) → sz < 2 ^ 63 → (align_value sz 3 + header_size) % u64_mod ≡ block_size sz
unfolding align_value
block_size_lem sz h = omega arith

kmalloc_tail_lem :
    (a : KernelMemoryAllocator)
    → a.head + header_size * a.total_size < 2 ^ 63
    → kmalloc_tail a ≡ a.head + header_size * a.total_size
unfolding kmalloc_tail
kmalloc_tail_lem a h = omega arith

kmalloc-walk :
    (fuel : ℕ) (a : KernelMemoryAllocator) (sz size tail : ℕ) (o : Option (Option ℕ × Headers))
    → 0 < sz
    → (align_value sz 3 + header_size) % u64_mod ≡ size
    → kmalloc_tail a ≡ tail
    → kmalloc_walk fuel a.mem size a.head tail ≡ o
    → kmalloc fuel a sz ≡ Option.map (λ (x : Option ℕ × Headers). (x.0, record a { mem = x.1 })) o
unfolding kmalloc
kmalloc-walk fuel a sz size tail o pos e f run =
    let nonzero : (sz == 0) ≡ false = ground arith in rw (nonzero, e, f, run, kmalloc)

-- On a heap tiled with blocks: when some block serves the request, `kmalloc` returns the payload of the first one and
-- leaves the heap tiled by that block split: the abstract first fit. One round for each block is
-- enough fuel. The request must be positive and below 2 ^ 63.
pub kmalloc-first_fit :
    (a : KernelMemoryAllocator) (bs bs' : List AllocHeader) (fuel sz q : ℕ)
    → IsHeap a bs
    → 0 < sz
    → sz < 2 ^ 63
    → length bs ≤ fuel
    → first_fit (block_size sz) a.head bs ≡ some (q, bs')
    → (a' : KernelMemoryAllocator) × (kmalloc fuel a sz ≡ some (some (q + header_size), a'))
      × IsHeap a' bs'
      × SameExtent a a'
kmalloc-first_fit a bs bs' fuel sz q heap pos small enough found =
    let (mem, run, tiles, _) =
      kmalloc_walk-first_fit (block_size sz) (a.head + header_size * a.total_size) (omega arith) bs
        fuel a.mem a.head (a.head + a.total_size) q bs' (omega arith) (omega arith) enough
        heap.tiles found in
    (
      record a { mem = mem },
      kmalloc-walk fuel a sz _ _ _ pos (block_size_lem sz small) (kmalloc_tail_lem a heap.fits) run,
      record { tiles = tiles; fits = heap.fits },
      (refl, refl),
    )

-- On a heap tiled with blocks, when none serves the request, `kmalloc` gives no null pointer: its tail
-- lies eight times too far, so it walks on behind the heap. If the memory there reads as zero it
-- never ends: no fuel is enough. The request must be positive and below 2 ^ 63, and the heap not empty.
pub kmalloc_full-loops :
    (a : KernelMemoryAllocator) (bs : List AllocHeader) (fuel sz : ℕ)
    → IsHeap a bs
    → 0 < sz
    → sz < 2 ^ 63
    → 0 < a.total_size
    → first_fit (block_size sz) a.head bs ≡ none
    → (a.mem (a.head + a.total_size)).size ≡ 0
    → kmalloc fuel a sz ≡ none
kmalloc_full-loops a bs fuel sz heap pos small some_bytes full empty =
    kmalloc-walk fuel a sz _ _ _ pos (block_size_lem sz small) (kmalloc_tail_lem a heap.fits) (
      kmalloc_walk_full (block_size sz) (a.head + header_size * a.total_size) (omega arith) bs fuel
        a.mem a.head (a.head + a.total_size) (omega arith) (omega arith) heap.tiles full empty)
