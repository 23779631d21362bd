-- ===== src/Heap/Blocks.antt =====
-- The heap as a list of blocks: the abstract view of the header chain.
use matte_os.Base.{
  ℕ, ◌+◌, ◌-◌, ◌≤◌, ◌≡◌, ◌⊎◌, ◌∙◌, true, false, Option, none, some, List, [], ◌∷◌, ◌++◌, ◌&&◌, ◌==◌,
  arith, ltb, leb, if◌then◌else◌,
}
use matte_os.Heap.{AllocHeader, Headers, header_size, is_free}

-- The headers from `p` on are those of `bs`, back to back, and the chain ends at `t`.
abbrev pub Tiles : Headers → ℕ → List AllocHeader → ℕ → Type 0
Tiles mem p [] t = p ≡ t
Tiles mem p (b ∷ bs) t = (mem p ≡ b) × (header_size ≤ b.size) × Tiles mem (p + b.size) bs t

-- First fit: where the block that serves `size` begins, and the blocks after the split.
abbrev pub split_block : ℕ → AllocHeader → List AllocHeader
split_block size b =
    if ltb header_size (b.size - size)
    then record { size = size; taken = true } ∷ record { size = b.size - size; taken = false } ∷ []
    else record { size = b.size; taken = true } ∷ []

abbrev pub behind : AllocHeader → Option (ℕ × List AllocHeader) → Option (ℕ × List AllocHeader)
behind b none = none
behind b (some (q, l)) = some (q, b ∷ l)

unfoldable pub first_fit : ℕ → ℕ → List AllocHeader → Option (ℕ × List AllocHeader)
first_fit size p [] = none
first_fit size p (b ∷ bs) =
    if is_free b && leb size b.size
    then some (p, split_block size b ++ bs)
    else behind b (first_fit size (p + b.size) bs)

-- The block that begins at `q` made free.
unfoldable pub free_at : ℕ → ℕ → List AllocHeader → List AllocHeader
free_at q p [] = []
free_at q p (b ∷ bs) =
    if p == q then record { size = b.size; taken = false } ∷ bs else b ∷ free_at q (p + b.size) bs

-- One pass that joins a free block with a free successor, and goes on behind the pair.
unfoldable pub join_free : List AllocHeader → List AllocHeader
join_free [] = []
join_free (b ∷ []) = b ∷ []
join_free (b ∷ c ∷ bs) = elim (is_free b && is_free c) [
  | true ↦ record { size = b.size + c.size; taken = false } ∷ join_free bs
  | false ↦ b ∷ join_free (c ∷ bs)
]

-- `q` is where some block of the chain begins.
abbrev pub Begins : ℕ → ℕ → List AllocHeader → Type 0
Begins q p [] = ⊥
Begins q p (b ∷ bs) = (q ≡ p) ⊎ Begins q (p + b.size) bs

pub Tiles-le : (mem : Headers) (p t : ℕ) (bs : List AllocHeader) → Tiles mem p bs t → p ≤ t
Tiles-le mem p t [] h = omega arith
Tiles-le mem p t (b ∷ bs) h = omega (arith, Tiles-le mem (p + b.size) t bs h.2)

-- A chain depends on the headers from its start on.
pub Tiles-congr :
    (mem mem' : Headers) (p t : ℕ) (bs : List AllocHeader)
    → ((k : ℕ) → p ≤ k → mem' k ≡ mem k)
    → Tiles mem p bs t
    → Tiles mem' p bs t
Tiles-congr mem mem' p t [] h tiles = tiles
Tiles-congr mem mem' p t (b ∷ bs) h tiles = (
  h p (omega arith) ∙ tiles.0,
  tiles.1,
  Tiles-congr mem mem' (p + b.size) t bs (λ k lo. h k (omega arith)) tiles.2,
)
