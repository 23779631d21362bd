-- ===== src/Numerals/Reversal.antt =====
-- The exchange of characters from both ends reverses what stands between.
use mathlib.Core.List.{append_assoc}
use matte_os.Base.{
  get_or-append, ◌∙◌, ap, sym, ℕ, zero, suc, ◌+◌, ◌-◌, ◌<◌, ◌≡◌, ◌⊎◌, inl, inr, refl, true, false,
  some, List, [], ◌∷◌, ◌++◌, arith, ltb, lt→ltb, get_or, set, length, length-append,
}
use matte_os.Numerals.{swap_loop}

unfoldable pub reversed : List ℕ → List ℕ
reversed [] = []
reversed (x ∷ xs) = reversed xs ++ x ∷ []

set_at :
    (pre : List ℕ) (x v : ℕ) (post : List ℕ) (i : ℕ)
    → length pre ≡ i
    → set (pre ++ x ∷ post) i v ≡ pre ++ v ∷ post
set_at [] x v post zero e = refl
set_at [] x v post (suc i) e = absurd (omega arith)
set_at (p ∷ pre) x v post zero e = absurd (omega arith)
set_at (p ∷ pre) x v post (suc i) e = ap (λ l. p ∷ l) (set_at pre x v post i (omega arith))

pub reversed_snoc : (xs : List ℕ) (y : ℕ) → reversed (xs ++ y ∷ []) ≡ y ∷ reversed xs
unfolding reversed
reversed_snoc [] y = refl
reversed_snoc (x ∷ xs) y = ap (λ l. l ++ x ∷ []) (reversed_snoc xs y)

pub length-reversed : (xs : List ℕ) → length (reversed xs) ≡ length xs
unfolding reversed
length-reversed [] = refl
length-reversed (x ∷ xs) = omega (arith, length-append (reversed xs) (x ∷ []), length-reversed xs)

-- A list is empty or has a last element.
pub last_of : (xs : List ℕ) → (xs ≡ []) ⊎ ((ys : List ℕ) × (y : ℕ) × (xs ≡ ys ++ y ∷ []))
last_of [] = inl refl
last_of (x ∷ xs) = elim (last_of xs) [
  | inl e ↦ inr ([], x, ap (λ l. x ∷ l) e)
  | inr (ys, y, e) ↦ inr (x ∷ ys, y, ap (λ l. x ∷ l) e)
]

swap_end : (fuel j i : ℕ) (buf : List ℕ) → ltb j i ≡ false → swap_loop (suc fuel) j i buf ≡ some buf
unfolding swap_loop
swap_end fuel j i buf over = rw (swap_loop, over) refl

swap_step :
    (fuel j i : ℕ) (buf buf' : List ℕ)
    → ltb j i ≡ true
    → set (set buf j (get_or buf i 0)) i (get_or buf j 0) ≡ buf'
    → swap_loop (suc fuel) j i buf ≡ swap_loop fuel (j + 1) (i - 1) buf'
unfolding swap_loop
swap_step fuel j i buf buf' below e = rw (swap_loop, below, e) refl

-- One round on a stretch of two characters and what is between them.
swapped :
    (pre mid post : List ℕ) (x y j i : ℕ)
    → length pre ≡ j
    → length pre + length mid + 1 ≡ i
    → let buf = pre ++ x ∷ (mid ++ y ∷ post) in
      set (set buf j (get_or buf i 0)) i (get_or buf j 0) ≡ pre ++ y ∷ (mid ++ x ∷ post)
swapped pre mid post x y j i ej ei =
    let buf = pre ++ x ∷ (mid ++ y ∷ post) in
    let far : get_or buf i 0 ≡ y =
      ap (λ l. get_or l i 0) (sym (append_assoc pre (x ∷ mid) (y ∷ post)))
      ∙ get_or-append (pre ++ x ∷ mid) y 0 post i (omega (arith, length-append pre (x ∷ mid))) in
    ap (λ v. set (set buf j v) i (get_or buf j 0)) far
    ∙ (ap (set (set buf j y) i) (get_or-append pre x 0 (mid ++ y ∷ post) j ej)
        ∙ (ap (λ l. set l i x)
              (set_at pre x y (mid ++ y ∷ post) j ej ∙ sym (append_assoc pre (y ∷ mid) (y ∷ post)))
            ∙ (set_at (pre ++ y ∷ mid) y x post i (omega (arith, length-append pre (y ∷ mid)))
                ∙ append_assoc pre (y ∷ mid) (x ∷ post))))

turned :
    (pre m post : List ℕ) (x y : ℕ)
    → (pre ++ y ∷ []) ++ (reversed m ++ x ∷ post) ≡ pre ++ (reversed (x ∷ (m ++ y ∷ [])) ++ post)
unfolding reversed
turned pre m post x y =
    append_assoc pre (y ∷ []) (reversed m ++ x ∷ post)
    ∙ ap (λ l. pre ++ l)
        (ap (λ l. y ∷ l) (sym (append_assoc (reversed m) (x ∷ []) post))
          ∙ ap (λ l. (l ++ x ∷ []) ++ post) (sym (reversed_snoc m y)))

-- The loop reverses the stretch `mid` where `j` and `i` are its first and its last index. Half as many rounds
-- as there are characters, and one more, are enough.
pub swap_loop-reversed :
    (fuel : ℕ) (mid pre post : List ℕ) (j i : ℕ)
    → length pre ≡ j
    → length pre + length mid ≡ i + 1
    → length mid < fuel + fuel
    → swap_loop fuel j i (pre ++ (mid ++ post)) ≡ some (pre ++ (reversed mid ++ post))
unfolding reversed
swap_loop-reversed zero mid pre post j i ej ei enough = absurd (omega arith)
swap_loop-reversed (suc fuel) [] pre post j i ej ei enough =
    swap_end fuel j i (pre ++ post) (ground arith)
swap_loop-reversed (suc fuel) (x ∷ rest) pre post j i ej ei enough = elim (last_of rest) [
  | inl e ↦
      let one : swap_loop (suc fuel) j i (pre ++ x ∷ (rest ++ post))
          ≡ some (pre ++ x ∷ (rest ++ post)) =
        swap_end fuel j i (pre ++ x ∷ (rest ++ post)) (ground (arith, ap length e)) in
      one ∙ rw e refl
  | inr (m, y, e) ↦
      let sizes : length rest ≡ length m + 1 =
        omega (arith, ap length e, length-append m (y ∷ [])) in
      let split : pre ++ x ∷ (rest ++ post) ≡ pre ++ x ∷ (m ++ y ∷ post) =
        ap (λ l. pre ++ x ∷ l) (ap (λ l. l ++ post) e ∙ append_assoc m (y ∷ []) post) in
      let next : i - 1 + 1 ≡ i = omega arith in
      ap (swap_loop (suc fuel) j i) split
      ∙ (swap_step fuel j i (pre ++ x ∷ (m ++ y ∷ post)) (pre ++ y ∷ (m ++ x ∷ post))
            (lt→ltb j i (omega arith)) (swapped pre m post x y j i ej (omega arith))
          ∙ (ap (swap_loop fuel (j + 1) (i - 1)) (sym (append_assoc pre (y ∷ []) (m ++ x ∷ post)))
              ∙ (swap_loop-reversed fuel m (pre ++ y ∷ []) (x ∷ post) (j + 1) (i - 1)
                    (omega (arith, length-append pre (y ∷ [])))
                    (omega (arith, length-append pre (y ∷ []))) (omega arith)
                  ∙ ap some (
                      turned pre m post x y
                      ∙ ap (λ l. pre ++ (reversed (x ∷ l) ++ post)) (sym e)))))
]
