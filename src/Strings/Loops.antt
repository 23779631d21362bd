-- ===== src/Strings/Loops.antt =====
-- The comparing loop.
use matte_os.Base.{
  ap, sym, ◌∙◌, ℕ, zero, suc, ◌+◌, ◌≡◌, ◌≢◌, ◌↔◌, refl, Bool, true, false, List, [], ◌∷◌, ◌++◌, map,
  arith, ==_iff, length, get_or, Bool-cases, inl, inr, true_ne_false, if◌then◌else◌,
}
use matte_os.Strings.{
  String, to_cstring, calculate_size, to_lower, equals_loop, same_char, same_letter,
}

-- No character is the terminator.
unfoldable pub NoNul : List ℕ → Type 0
NoNul [] = Unit
NoNul (c ∷ cs) = (c ≢ 0) × NoNul cs

pub calculate_size-to_cstring : (s : String) → NoNul s → calculate_size (to_cstring s) ≡ length s
unfolding calculate_size NoNul
calculate_size-to_cstring [] h = refl
calculate_size-to_cstring (c ∷ cs) h = ground (arith, h.0, calculate_size-to_cstring cs h.1)

pub cons_same : {x y : ℕ} {a b : List ℕ} → x ≡ y → a ≡ b → x ∷ a ≡ y ∷ b
cons_same e h = cc

pub heads_of : {x y : ℕ} {a b : List ℕ} → x ∷ a ≡ y ∷ b → x ≡ y
heads_of h = cc

pub tails : {x y : ℕ} {a b : List ℕ} → x ∷ a ≡ y ∷ b → a ≡ b
tails h = cc

module _ (same : ℕ → ℕ → Bool) where
  loop_shift :
      (n i x y : ℕ) (a b : List ℕ)
      → equals_loop same n (i + 1) (x ∷ a) (y ∷ b) ≡ equals_loop same n i a b
  unfolding equals_loop
  loop_shift zero i x y a b = refl
  loop_shift (suc n) i x y a b =
      let e : i + 1 ≡ suc i = omega arith in
      let rest = loop_shift n (i + 1) x y a b in
      let left : get_or (x ∷ a) (i + 1) 0 ≡ get_or a i 0 = rw e refl in
      let right : get_or (y ∷ b) (i + 1) 0 ≡ get_or b i 0 = rw e refl in rw (rest, left, right) refl

  loop_cons :
      (n x y : ℕ) (a b : List ℕ)
      → equals_loop same (suc n) 0 (x ∷ a) (y ∷ b)
        ≡ (if same x y then equals_loop same n 0 a b else false)
  unfolding equals_loop
  loop_cons n x y a b = ap (λ r. if same x y then r else false) (loop_shift n 0 x y a b)

  pub loop_hit :
      (n x y : ℕ) (a b : List ℕ)
      → same x y ≡ true
      → equals_loop same (suc n) 0 (x ∷ a) (y ∷ b) ≡ equals_loop same n 0 a b
  loop_hit n x y a b hit = loop_cons n x y a b ∙ rw hit refl

  pub loop_miss :
      (n x y : ℕ) (a b : List ℕ)
      → same x y ≡ false
      → equals_loop same (suc n) 0 (x ∷ a) (y ∷ b) ≡ false
  loop_miss n x y a b miss = loop_cons n x y a b ∙ rw miss refl

  module _ (f : ℕ → ℕ) (lawful : (x y : ℕ) → (same x y ≡ true) ↔ (f x ≡ f y)) where
    pub loop_iff :
        (a b rest : List ℕ)
        → length a ≡ length b
        → (equals_loop same (length a) 0 a (b ++ rest) ≡ true) ↔ (map f a ≡ map f b)
    loop_iff [] [] rest e = (λ h. refl, λ h. unfold equals_loop in refl)
    loop_iff [] (y ∷ b) rest e = absurd (omega arith)
    loop_iff (x ∷ a) [] rest e = absurd (omega arith)
    loop_iff (x ∷ a) (y ∷ b) rest e =
        let (to, back) = loop_iff a b rest (omega arith) in
        elim (Bool-cases (same x y)) [
          | inl hit ↦
              let step = loop_hit (length a) x y a (b ++ rest) hit in
              let heads = (lawful x y).0 hit in
              (λ h. cons_same heads (to (sym step ∙ h)), λ h. step ∙ back (tails h))
          | inr miss ↦
              let step = loop_miss (length a) x y a (b ++ rest) miss in
              (
                λ h. absurd (true_ne_false h step),
                λ h. absurd (true_ne_false ((lawful x y).1 (heads_of h)) miss),
              )
        ]

pub same_char_iff : (x y : ℕ) → (same_char x y ≡ true) ↔ (x ≡ y)
same_char_iff x y = ==_iff x y

pub same_letter_iff : (x y : ℕ) → (same_letter x y ≡ true) ↔ (to_lower x ≡ to_lower y)
unfolding same_letter
same_letter_iff x y = ==_iff (to_lower x) (to_lower y)

pub map_id : (a : List ℕ) → map (λ x. x) a ≡ a
map_id [] = refl
map_id (x ∷ a) = ap (λ l. x ∷ l) (map_id a)
