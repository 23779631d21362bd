-- ===== src/Heap/Freed.antt =====
-- `is_in_freed_memory` decides whether an address lies in a free block.
use matte_os.Base.{
  true_ne_false, ap, ℕ, zero, suc, ◌+◌, ◌^◌, ◌≤◌, ◌<◌, ◌≡◌, ◌∙◌, refl, ◌⊎◌, inl, inr, Bool, true,
  false, some, List, [], ◌∷◌, ◌&&◌, arith, ltb, leb, if◌then◌else◌, Bool-cases, length, lt→ltb, ◌↔◌,
}
use matte_os.Heap.{
  AllocHeader, Headers, KernelMemoryAllocator, is_free, offset, heap_tail, is_in_freed_memory,
  freed_walk,
}
use matte_os.Heap.Blocks.{Tiles, Tiles-le}
use matte_os.Heap.Alloc.{IsHeap}

-- `potential_ptr` lies in a free block of the chain.
abbrev pub InFree : ℕ → ℕ → List AllocHeader → Type 0
InFree x p [] = ⊥
InFree x p (b ∷ bs) = ((p ≤ x) × (x < p + b.size) × (b.taken ≡ false)) ⊎ InFree x (p + b.size) bs

-- The same as a test.
unfoldable pub in_free : ℕ → ℕ → List AllocHeader → Bool
in_free x p [] = false
in_free x p (b ∷ bs) =
    if leb p x && ltb x (p + b.size) && is_free b then true else in_free x (p + b.size) bs

free_here :
    (x p : ℕ) (b : AllocHeader)
    → ((leb p x && ltb x (p + b.size) && is_free b) ≡ true)
      ↔ ((p ≤ x) × (x < p + b.size) × (b.taken ≡ false))
free_here x p b = (λ h. ground arith, λ h. ground arith)

in_free_iff : (bs : List AllocHeader) (x p : ℕ) → (in_free x p bs ≡ true) ↔ InFree x p bs
unfolding in_free
in_free_iff [] x p = (λ h. cc, λ h. elim h [ ])
in_free_iff (b ∷ bs) x p =
    let (to, back) = in_free_iff bs x (p + b.size) in
    let (here, there) = free_here x p b in
    elim (Bool-cases (leb p x && ltb x (p + b.size) && is_free b)) [
      | inl e ↦ rw e (λ _. inl (here e), λ _. refl)
      | inr e ↦
          rw e
            (λ h. inr (to h), elim [ inl h ↦ absurd (true_ne_false (there h) e) | inr h ↦ back h ])
    ]

module _ (fuel : ℕ) (mem : Headers) (x p tail : ℕ) (b : AllocHeader) (here : mem p ≡ b)
    (lt : p < tail) (e : offset p b.size ≡ p + b.size) where
  freed_hit :
      (leb p x && ltb x (p + b.size) && is_free b) ≡ true
      → freed_walk (suc fuel) mem x p tail ≡ some true
  unfolding freed_walk
  freed_hit h = rw (lt→ltb p tail lt, here, e, h, freed_walk)

  freed_miss :
      (leb p x && ltb x (p + b.size) && is_free b) ≡ false
      → freed_walk (suc fuel) mem x p tail ≡ freed_walk fuel mem x (p + b.size) tail
  unfolding freed_walk
  freed_miss h =
      let next : offset p (mem p).size ≡ p + b.size = rw here e in
      let test : (leb p x && ltb x (offset p (mem p).size) && is_free (mem p)) ≡ false =
        rw (here, e) h in
      rw (lt→ltb p tail lt, test, next, freed_walk)

freed_walk-in_free :
    (bs : List AllocHeader) (fuel : ℕ) (mem : Headers) (x p tail : ℕ)
    → tail < 2 ^ 63
    → length bs < fuel
    → Tiles mem p bs tail
    → freed_walk fuel mem x p tail ≡ some (in_free x p bs)
unfolding in_free
freed_walk-in_free bs zero mem x p tail fits enough h = absurd (omega arith)
freed_walk-in_free [] (suc fuel) mem x p tail fits enough h =
    let e : ltb p tail ≡ false = ground arith in unfold freed_walk in rw (e, freed_walk)
freed_walk-in_free (b ∷ bs) (suc fuel) mem x p tail fits enough h =
    let end = Tiles-le mem (p + b.size) tail bs h.2 in
    elim (Bool-cases (leb p x && ltb x (p + b.size) && is_free b)) [
      | inl e ↦ rw e (freed_hit fuel mem x p tail b h.0 (omega arith) (omega arith) e)
      | inr e ↦ rw e (
          freed_miss fuel mem x p tail b h.0 (omega arith) (omega arith) e
          ∙ freed_walk-in_free bs fuel mem x (p + b.size) tail fits (omega arith) h.2)
    ]

-- On a heap tiled with blocks, `is_in_freed_memory` ends, and says true exactly for the addresses inside
-- a free block. One round for each block, and one for the end, is enough fuel.
pub is_in_freed_memory_iff :
    (a : KernelMemoryAllocator) (bs : List AllocHeader) (fuel x : ℕ)
    → IsHeap a bs
    → length bs < fuel
    → (r : Bool) × (is_in_freed_memory fuel a x ≡ some r) × ((r ≡ true) ↔ InFree x a.head bs)
unfolding is_in_freed_memory
is_in_freed_memory_iff a bs fuel x heap enough =
    let e : heap_tail a ≡ a.head + a.total_size = omega (arith, heap.fits) in
    (
      in_free x a.head bs,
      ap (λ t. freed_walk fuel a.mem x a.head t) e
          ∙ freed_walk-in_free bs fuel a.mem x a.head (a.head + a.total_size)
              (omega (arith, heap.fits)) enough heap.tiles,
      in_free_iff bs x a.head,
    )
