-- ===== src/Heap/Free.antt =====
-- `kfree`: the block is made free, and one pass joins free neighbours.
use matte_os.Base.{
  ap, ℕ, zero, suc, ◌+◌, ◌-◌, ◌%◌, ◌^◌, ◌≤◌, ◌<◌, ◌≡◌, ◌≢◌, ◌∙◌, sym, refl, inl, inr, true, false,
  some, List, [], ◌∷◌, ◌&&◌, ◌||◌, ◌==◌, arith, ltb, leb, Bool-cases, length, lt→ltb,
}
use matte_os.Pages.{u64_mod}
use matte_os.Heap.{
  AllocHeader, Headers, KernelMemoryAllocator, header_size, is_free, offset, set_size, set_free,
  coalesce_walk, coalesce, kfree, heap_tail,
}
use matte_os.Heap.Blocks.{Tiles, free_at, join_free, Begins, Tiles-le, Tiles-congr}
use matte_os.Heap.Alloc.{IsHeap, SameExtent}

module _ (tail fuel : ℕ) (mem : Headers) (p : ℕ) where
  walk_ends : tail ≤ p → coalesce_walk (suc fuel) mem p tail ≡ some mem
  unfolding coalesce_walk
  walk_ends h = let e : ltb p tail ≡ false = ground arith in rw (e, coalesce_walk)

  walk_last :
      p < tail → tail ≤ offset p (mem p).size → coalesce_walk (suc fuel) mem p tail ≡ some mem
  unfolding coalesce_walk
  walk_last lt h =
      let e : leb tail (offset p (mem p).size) ≡ true = ground arith in
      rw (lt→ltb p tail lt, e, coalesce_walk)

  module _ (n : ℕ) (lt : p < tail) (e : offset p (mem p).size ≡ n) (inside : n < tail)
      (some_bytes : (mem p).size ≢ 0) where
    inner : (leb tail n || (mem p).size == 0) ≡ false
    inner = ground arith

    walk_joins :
        (is_free (mem p) && is_free (mem n)) ≡ true
        → (sum : ℕ) → ((mem p).size + (mem n).size) % u64_mod ≡ sum
        → coalesce_walk (suc fuel) mem p tail
          ≡ coalesce_walk fuel (set_size mem p sum) (offset p (sum % 2 ^ 63)) tail
    unfolding coalesce_walk
    walk_joins both sum f = ground (arith, inner)

    walk_keeps :
        (is_free (mem p) && is_free (mem n)) ≡ false
        → coalesce_walk (suc fuel) mem p tail ≡ coalesce_walk fuel mem n tail
    unfolding coalesce_walk
    walk_keeps not_both = ground (arith, inner)

pub join_free_both :
    (b c : AllocHeader) (bs : List AllocHeader)
    → (is_free b && is_free c) ≡ true
    → join_free (b ∷ c ∷ bs) ≡ record { size = b.size + c.size; taken = false } ∷ join_free bs
unfolding join_free
join_free_both b c bs e = ground arith

pub join_free_else :
    (b c : AllocHeader) (bs : List AllocHeader)
    → (is_free b && is_free c) ≡ false
    → join_free (b ∷ c ∷ bs) ≡ b ∷ join_free (c ∷ bs)
unfolding join_free
join_free_else b c bs e = ground arith

abbrev Joined : ℕ → ℕ → Headers → ℕ → List AllocHeader → Type 0
Joined tail fuel mem p bs' =
    (mem' : Headers) × (coalesce_walk fuel mem p tail ≡ some mem')
    × Tiles mem' p bs' tail
    × ((k : ℕ) → k < p → mem' k ≡ mem k)

module _ (tail : ℕ) (fits : tail < 2 ^ 63) (fuel : ℕ) (mem : Headers) (p : ℕ) (b c : AllocHeader)
    (bs : List AllocHeader) (h : Tiles mem p (b ∷ c ∷ bs) tail) where
  inside : p + b.size + c.size ≤ tail
  inside = Tiles-le mem (p + b.size + c.size) tail bs h.2.2

  next_lem : offset p (mem p).size ≡ p + b.size
  next_lem = rw h.0 (omega (arith, inside))

  merged : Headers
  merged = set_size mem p (b.size + c.size)

  merged-Tiles : Tiles merged (p + b.size + c.size) bs tail
  unfolding merged
  merged-Tiles = Tiles-congr mem merged (p + b.size + c.size) tail bs (λ k lo. ground arith) h.2.2

  merged_start :
      (is_free b && is_free c) ≡ true → merged p ≡ record { size = b.size + c.size; taken = false }
  unfolding merged
  merged_start both = ground (arith, inside, h.0)

  merged_below : (k : ℕ) → k < p → merged k ≡ mem k
  unfolding merged
  merged_below k lt = ground arith

  walk_merged :
      (is_free b && is_free c) ≡ true
      → coalesce_walk (suc fuel) mem p tail ≡ coalesce_walk fuel merged (p + b.size + c.size) tail
  unfolding merged
  walk_merged both =
      let e : offset p ((b.size + c.size) % 2 ^ 63) ≡ p + b.size + c.size = omega (arith, inside) in
      walk_joins tail fuel mem p (p + b.size) (omega (arith, inside)) next_lem
        (omega (arith, inside)) (rw h.0 (omega arith)) (rw (h.0, h.2.0) both) (b.size + c.size)
        (rw (h.0, h.2.0) (omega (arith, inside)))
      ∙ ap (λ x. coalesce_walk fuel (set_size mem p (b.size + c.size)) x tail) e

  joins :
      (is_free b && is_free c) ≡ true
      → Joined tail fuel merged (p + b.size + c.size) (join_free bs)
      → Joined tail
          (suc fuel)
          mem
          p
          (record { size = b.size + c.size; taken = false } ∷ join_free bs)
  joins both (mem', run, tiles, below) =
      let e : p + b.size + c.size ≡ p + (b.size + c.size) = omega arith in
      (
        mem',
        walk_merged both ∙ run,
        (below p (omega arith) ∙ merged_start both, omega arith, rw (← e) tiles),
        λ k lt. below k (omega arith) ∙ merged_below k lt,
      )

  keeps :
      (is_free b && is_free c) ≡ false
      → Joined tail fuel mem (p + b.size) (join_free (c ∷ bs))
      → Joined tail (suc fuel) mem p (b ∷ join_free (c ∷ bs))
  keeps not_both (mem', run, tiles, below) = (
    mem',
    walk_keeps tail fuel mem p (p + b.size) (omega (arith, inside)) next_lem (omega (arith, inside))
          (rw h.0 (omega arith)) (rw (h.0, h.2.0) not_both)
        ∙ run,
    (below p (omega arith) ∙ h.0, h.1, tiles),
    λ k lt. below k (omega arith),
  )

coalesce_walk-join_free :
    (bs : List AllocHeader) (tail fuel : ℕ) (mem : Headers) (p : ℕ)
    → tail < 2 ^ 63
    → length bs < fuel
    → Tiles mem p bs tail
    → Joined tail fuel mem p (join_free bs)
coalesce_walk-join_free bs tail zero mem p fits enough h = absurd (omega arith)
coalesce_walk-join_free [] tail (suc fuel) mem p fits enough h =
    unfold join_free in (mem, walk_ends tail fuel mem p (omega arith), h, λ k lt. refl)
coalesce_walk-join_free (b ∷ []) tail (suc fuel) mem p fits enough h =
    let e : offset p (mem p).size ≡ tail = rw h.0 (omega arith) in
    unfold join_free in
    (mem, walk_last tail fuel mem p (omega arith) (omega arith), h, λ k lt. refl)
coalesce_walk-join_free (b ∷ c ∷ bs) tail (suc fuel) mem p fits enough h =
    elim (Bool-cases (is_free b && is_free c)) [
      | inl both ↦ rw (join_free_both b c bs both) (
          joins tail fits fuel mem p b c bs h both (
            coalesce_walk-join_free bs tail fuel (merged tail fits fuel mem p b c bs h)
              (p + b.size + c.size) fits (omega arith)
              (merged-Tiles tail fits fuel mem p b c bs h)))
      | inr not_both ↦ rw (join_free_else b c bs not_both) (
          keeps tail fits fuel mem p b c bs h not_both
            (coalesce_walk-join_free (c ∷ bs) tail fuel mem (p + b.size) fits (omega arith) h.2))
    ]

Begins-le :
    (bs : List AllocHeader) (mem : Headers) (p q t : ℕ)
    → Begins q p bs
    → Tiles mem p bs t
    → (p ≤ q) × (q + header_size ≤ t)
Begins-le [] mem p q t here h = elim here [ ]
Begins-le (b ∷ bs) mem p q t (inl e) h = omega (arith, Tiles-le mem (p + b.size) t bs h.2)
Begins-le (b ∷ bs) mem p q t (inr m) h = omega (arith, Begins-le bs mem (p + b.size) q t m h.2)

pub free_at_here :
    (b : AllocHeader) (bs : List AllocHeader) (p q : ℕ)
    → p ≡ q
    → free_at q p (b ∷ bs) ≡ record { size = b.size; taken = false } ∷ bs
unfolding free_at
free_at_here b bs p q e = ground arith

pub free_at_later :
    (b : AllocHeader) (bs : List AllocHeader) (p q : ℕ)
    → p < q
    → free_at q p (b ∷ bs) ≡ b ∷ free_at q (p + b.size) bs
unfolding free_at
free_at_later b bs p q lt = ground arith

-- Clearing the taken bit at `q` frees the block that begins there.
set_free-Tiles :
    (bs : List AllocHeader) (mem : Headers) (p q t : ℕ)
    → Begins q p bs
    → Tiles mem p bs t
    → Tiles (set_free mem q) p (free_at q p bs) t
set_free-Tiles [] mem p q t here h = elim here [ ]
set_free-Tiles (b ∷ bs) mem p q t (inl e) h = rw (free_at_here b bs p q (sym e)) (
  ground (arith, h.0),
  h.1,
  Tiles-congr mem (set_free mem q) (p + b.size) t bs (λ k lo. ground arith) h.2,
)
set_free-Tiles (b ∷ bs) mem p q t (inr m) h =
    let far = Begins-le bs mem (p + b.size) q t m h.2 in
    rw (free_at_later b bs p q (omega (arith, far)))
      (ground (arith, h.0, far), h.1, set_free-Tiles bs mem (p + b.size) q t m h.2)

pub length-free_at : (bs : List AllocHeader) (q p : ℕ) → length (free_at q p bs) ≡ length bs
unfolding free_at
length-free_at [] q p = refl
length-free_at (b ∷ bs) q p = ground (arith, length-free_at bs q (p + b.size))

kfree-walk :
    (fuel : ℕ) (a : KernelMemoryAllocator) (q ptr tail : ℕ) (mem : Headers)
    → (ptr + u64_mod - header_size) % u64_mod ≡ q
    → heap_tail a ≡ tail
    → coalesce_walk fuel (set_free a.mem q) a.head tail ≡ some mem
    → kfree fuel a (some ptr) ≡ some (record a { mem = mem })
unfolding kfree
kfree-walk fuel a q ptr tail mem e f run = rw (e, f, run, kfree, coalesce)

-- On a heap tiled with blocks, `kfree` of the payload of one makes it free and leaves the heap tiled by one joining
-- pass over the result. One round for each block, and one for the end, is enough fuel.
pub kfree-join_free :
    (a : KernelMemoryAllocator) (bs : List AllocHeader) (fuel q : ℕ)
    → IsHeap a bs
    → Begins q a.head bs
    → length bs < fuel
    → (a' : KernelMemoryAllocator) × (kfree fuel a (some (q + header_size)) ≡ some a')
      × IsHeap a' (join_free (free_at q a.head bs))
      × SameExtent a a'
kfree-join_free a bs fuel q heap begins enough =
    let tail = a.head + a.total_size in
    let far = Begins-le bs a.mem a.head q tail begins heap.tiles in
    let (mem, run, tiles, _) =
      coalesce_walk-join_free (free_at q a.head bs) tail fuel (set_free a.mem q) a.head
        (omega (arith, heap.fits)) (rw length-free_at enough)
        (set_free-Tiles bs a.mem a.head q tail begins heap.tiles) in
    (
      record a { mem = mem },
      kfree-walk fuel a q (q + header_size) tail mem (omega (arith, far, heap.fits))
          (omega (arith, heap.fits)) run,
      record { tiles = tiles; fits = heap.fits },
      (refl, refl),
    )
