-- ===== src/Paths/Splitting.antt =====
-- `split` against a recursion on the characters.
use mathlib.Core.List.{append_assoc, append-nil}
use matte_os.Base.{
  get_or-append, ◌∙◌, ap, sym, ℕ, zero, suc, ◌+◌, ◌-◌, ◌<◌, ◌≡◌, ◌≢◌, refl, true, false, List, [],
  ◌∷◌, ◌++◌, ◌==◌, ltb, if◌then◌else◌, ◌||◌, arith, inl, inr, get_or, take, drop, length,
  length-append, drop-length-append, take_append_le, take_all, Bool-cases, lt→ltb,
}
use matte_os.Strings.{String}
use matte_os.Paths.{split, split_loop}

-- What stands before the next separator, if it is something, is a part.
unfoldable pub with_part : String → List String → List String
with_part [] rest = rest
with_part (c ∷ cs) rest = (c ∷ cs) ∷ rest

-- The parts of a string, behind the characters of a part that was begun.
unfoldable pub parts : ℕ → String → String → List String
unfolding with_part
parts separator begun [] = with_part begun []
parts separator begun (c ∷ cs) =
    if c == separator
    then with_part begun (parts separator [] cs)
    else parts separator (begun ++ c ∷ []) cs

unfoldable pub EndsWithout : ℕ → String → Type 0
EndsWithout separator [] = Unit
EndsWithout separator (c ∷ []) = c ≢ separator
EndsWithout separator (c ∷ d ∷ cs) = EndsWithout separator (d ∷ cs)

ends_tail :
    (separator c : ℕ) (cs : String) → EndsWithout separator (c ∷ cs) → EndsWithout separator cs
unfolding EndsWithout
ends_tail separator c [] h = tt
ends_tail separator c (d ∷ cs) h = h

ends_more :
    (separator c : ℕ) (cs : String)
    → EndsWithout separator (c ∷ cs)
    → (c == separator) ≡ true
    → 0 < length cs
unfolding EndsWithout
ends_more separator c [] h e = absurd (h (ground arith))
ends_more separator c (d ∷ cs) h e = omega arith

drop_front : (a b : List ℕ) (i : ℕ) → length a ≡ i → drop i (a ++ b) ≡ b
drop_front a b i e =
    let start : i ≡ length a + 0 = omega arith in
    ap (λ k. drop k (a ++ b)) start ∙ drop-length-append a b 0

module _ (separator : ℕ) where
  step_on :
      (s : String) (n i last : ℕ) (c : ℕ)
      → get_or s i 0 ≡ c
      → (c == separator) ≡ false
      → split_loop separator s (suc n) i last ≡ split_loop separator s n (i + 1) last
  unfolding split_loop
  step_on s n i last c at other = rw (split_loop, at, other) refl

  step_empty :
      (s : String) (n i last : ℕ) (c : ℕ)
      → get_or s i 0 ≡ c
      → (c == separator) ≡ true
      → i ≡ last
      → split_loop separator s (suc n) i last ≡ split_loop separator s n (i + 1) (i + 1)
  unfolding split_loop
  step_empty s n i last c at same e = elim (Bool-cases (i == 0 || i + 1 == length s)) [
    | inl edge ↦ rw (split_loop, at, same, edge) refl
    | inr inside ↦
        let t : (i == last) ≡ true = ground arith in rw (split_loop, at, same, inside, t) refl
  ]

  step_part :
      (s : String) (n i last : ℕ) (c : ℕ)
      → get_or s i 0 ≡ c
      → (c == separator) ≡ true
      → (i == 0 || i + 1 == length s) ≡ false
      → i ≢ last
      → split_loop separator s (suc n) i last
        ≡ take (i - last) (drop last s) ∷ split_loop separator s n (i + 1) (i + 1)
  unfolding split_loop
  step_part s n i last c at same inside ne =
      let t : (i == last) ≡ false = ground arith in rw (split_loop, at, same, inside, t) refl

  -- At a separator: the part before it, `begun`, is added unless it is empty.
  step_same :
      (s : String) (n i last c : ℕ) (begun rest : String)
      → drop last s ≡ begun ++ rest
      → get_or s i 0 ≡ c
      → (c == separator) ≡ true
      → last + length begun ≡ i
      → i + 1 < length s
      → split_loop separator s (suc n) i last
        ≡ with_part begun (split_loop separator s n (i + 1) (i + 1))
  unfolding with_part
  step_same s n i last c [] rest front at same pos inside =
      step_empty s n i last c at same (omega arith)
  step_same s n i last c (b ∷ begun) rest front at same pos inside =
      let middle : (i == 0 || i + 1 == length s) ≡ false = ground arith in
      let size : i - last ≡ length (b ∷ begun) = omega arith in
      step_part s n i last c at same middle (λ e. omega arith)
      ∙ ap (λ p. p ∷ split_loop separator s n (i + 1) (i + 1))
          (ap (take (i - last)) front
            ∙ (take_append_le (i - last) (b ∷ begun) rest (omega arith)
                ∙ take_all (i - last) (b ∷ begun) (omega arith)))

  end_part :
      (s a begun : String) (i last : ℕ)
      → s ≡ a ++ begun
      → length a ≡ last
      → split_loop separator s zero i last ≡ with_part begun []
  unfolding split_loop with_part
  end_part s a [] i last split at =
      let over : ltb last (length s) ≡ false =
        ground (arith, ap length split, length-append a []) in
      rw over refl
  end_part s a (c ∷ begun) i last split at =
      let more : ltb last (length s) ≡ true =
        lt→ltb _ _ (omega (arith, ap length split, length-append a (c ∷ begun))) in
      rw more (ap (λ p. p ∷ []) (ap (drop last) split ∙ drop_front a (c ∷ begun) last at))

  split_lem :
      (cs begun a s : String) (i last : ℕ)
      → s ≡ a ++ (begun ++ cs)
      → length a ≡ last
      → last + length begun ≡ i
      → EndsWithout separator cs
      → split_loop separator s (length cs) i last ≡ parts separator begun cs
  unfolding EndsWithout with_part
  split_lem [] begun a s i last split at pos ends =
      end_part s a begun i last (split ∙ ap (λ l. a ++ l) (append-nil begun)) at
      ∙ unfold parts in refl
  split_lem (c ∷ cs) begun a s i last split at pos ends =
      let whole : s ≡ (a ++ begun) ++ c ∷ cs = split ∙ sym (append_assoc a begun (c ∷ cs)) in
      let next : s ≡ ((a ++ begun) ++ c ∷ []) ++ cs =
        whole ∙ sym (append_assoc (a ++ begun) (c ∷ []) cs) in
      let here : get_or s i 0 ≡ c =
        ap (λ l. get_or l i 0) whole
        ∙ get_or-append (a ++ begun) c 0 cs i (omega (arith, length-append a begun)) in
      let later = ends_tail separator c cs ends in
      elim (Bool-cases (c == separator)) [
        | inl same ↦
            step_same s (length cs) i last c begun (c ∷ cs)
              (ap (drop last) split ∙ drop_front a (begun ++ c ∷ cs) last at) here same pos
              (omega (
                arith,
                ap length whole,
                length-append (a ++ begun) (c ∷ cs),
                length-append a begun,
                ends_more separator c cs ends same,
              ))
            ∙ (ap (with_part begun) (
                  split_lem cs [] ((a ++ begun) ++ c ∷ []) s (i + 1) (i + 1) next
                    (omega (arith, length-append (a ++ begun) (c ∷ []), length-append a begun))
                    (omega arith) later)
                ∙ unfold parts in rw same refl)
        | inr other ↦
            step_on s (length cs) i last c here other
            ∙ (split_lem cs (begun ++ c ∷ []) a s (i + 1) last
                  (next
                    ∙ ap (λ l. l ++ cs) (append_assoc a begun (c ∷ []))
                    ∙ append_assoc a (begun ++ c ∷ []) cs)
                  at (omega (arith, length-append begun (c ∷ []))) later
                ∙ unfold parts in rw other refl)
      ]

-- In a string that does not end with the separator, the parts are what stands between separators, without the
-- empty ones, in order.
pub split-parts :
    (separator : ℕ) (s : String)
    → EndsWithout separator s
    → split separator s ≡ parts separator [] s
unfolding split
split-parts separator s ends = split_lem separator s [] [] s 0 0 refl refl refl ends
