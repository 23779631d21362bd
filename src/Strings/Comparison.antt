-- ===== src/Strings/Comparison.antt =====
-- The comparisons decide what they say.
use matte_os.Base.{
  ap, sym, ◌∙◌, ◌≤◌, ◌≡◌, ◌≢◌, ◌↔◌, refl, true, false, [], ◌∷◌, ◌++◌, map, arith, ◌==◌, ==_iff,
  length, ℕ_discrete, dec_lt, lt→ltb, length-append, length-map, Bool-cases, inl, inr,
  true_ne_false, ltb,
}
use matte_os.Strings.{
  String, to_cstring, calculate_size, to_lower, equals_loop, same_char, same_letter, equals_cstring,
  equals, equals_ignore_case_cstring, equals_ignore_case, starts_with,
}
use matte_os.Strings.Loops.{
  NoNul, calculate_size-to_cstring, loop_hit, loop_miss, loop_iff, same_char_iff, same_letter_iff,
  map_id, cons_same, heads_of, tails,
}

equals_same :
    (s other : String)
    → NoNul other
    → length s ≡ length other
    → equals s other ≡ equals_loop same_char (length s) 0 s (to_cstring other)
unfolding equals equals_cstring
equals_same s other clean e =
    let sizes : (length s == calculate_size (to_cstring other)) ≡ true =
      (==_iff _ _).1 (e ∙ sym (calculate_size-to_cstring other clean)) in
    rw sizes refl

equals_longer : (s other : String) → NoNul other → length s ≢ length other → equals s other ≡ false
unfolding equals equals_cstring
equals_longer s other clean ne =
    let sizes : (length s == calculate_size (to_cstring other)) ≡ false =
      ground (arith, ne, calculate_size-to_cstring other clean) in
    rw sizes refl

-- `equals` decides equality of strings, when the argument holds no terminator inside.
pub equals_iff : (s other : String) → NoNul other → (equals s other ≡ true) ↔ (s ≡ other)
equals_iff s other clean = elim (ℕ_discrete (length s) (length other)) [
  | yes e ↦
      let (to, back) = loop_iff same_char (λ x. x) same_char_iff s other (0 ∷ []) e in
      let step = equals_same s other clean e in
      (
        λ h. sym (map_id s) ∙ to (sym step ∙ h) ∙ map_id other,
        λ h. step ∙ back (ap (map (λ x. x)) h),
      )
  | no ne ↦ (
    λ h. absurd (true_ne_false h (equals_longer s other clean ne)),
    λ h. absurd (ne (ap length h)),
  )
]

ignore_same :
    (s other : String)
    → NoNul other
    → length s ≡ length other
    → equals_ignore_case s other ≡ equals_loop same_letter (length s) 0 s (to_cstring other)
unfolding equals_ignore_case equals_ignore_case_cstring
ignore_same s other clean e =
    let sizes : (length s == calculate_size (to_cstring other)) ≡ true =
      (==_iff _ _).1 (e ∙ sym (calculate_size-to_cstring other clean)) in
    rw sizes refl

ignore_longer :
    (s other : String) → NoNul other → length s ≢ length other → equals_ignore_case s other ≡ false
unfolding equals_ignore_case equals_ignore_case_cstring
ignore_longer s other clean ne =
    let sizes : (length s == calculate_size (to_cstring other)) ≡ false =
      ground (arith, ne, calculate_size-to_cstring other clean) in
    rw sizes refl

-- `equals_ignore_case` decides whether two strings are equal once every letter is made small, when the
-- argument holds no terminator inside.
pub equals_ignore_case_iff :
    (s other : String)
    → NoNul other
    → (equals_ignore_case s other ≡ true) ↔ (map to_lower s ≡ map to_lower other)
equals_ignore_case_iff s other clean = elim (ℕ_discrete (length s) (length other)) [
  | yes e ↦
      let (to, back) = loop_iff same_letter to_lower same_letter_iff s other (0 ∷ []) e in
      let step = ignore_same s other clean e in (λ h. to (sym step ∙ h), λ h. step ∙ back h)
  | no ne ↦
      (λ h. absurd (true_ne_false h (ignore_longer s other clean ne)), λ h. absurd (ne (lengths h)))
]
  where
    lengths : map to_lower s ≡ map to_lower other → length s ≡ length other
    lengths h = sym (length-map s to_lower) ∙ ap length h ∙ length-map other to_lower

prefix_iff :
    (other s : String)
    → length other ≤ length s
    → (equals_loop same_char (length other) 0 s other ≡ true)
      ↔ ((rest : String) × (s ≡ other ++ rest))
prefix_iff [] s le = (λ h. (s, refl), λ h. unfold equals_loop in refl)
prefix_iff (y ∷ other) [] le = absurd (omega arith)
prefix_iff (y ∷ other) (x ∷ s) le =
    let (to, back) = prefix_iff other s (omega arith) in
    elim (Bool-cases (same_char x y)) [
      | inl hit ↦
          let step = loop_hit same_char (length other) x y s other hit in
          let heads = (same_char_iff x y).0 hit in
          (
            λ h. let (rest, e) = to (sym step ∙ h) in (rest, cons_same heads e),
            λ h. step ∙ back (h.0, tails h.1),
          )
      | inr miss ↦
          let step = loop_miss same_char (length other) x y s other miss in
          (
            λ h. absurd (true_ne_false h step),
            λ h. absurd (true_ne_false ((same_char_iff x y).1 (heads_of h.1)) miss),
          )
    ]

-- `starts_with` decides whether one string begins with the other.
pub starts_with_iff :
    (s other : String) → (starts_with s other ≡ true) ↔ ((rest : String) × (s ≡ other ++ rest))
unfolding starts_with
starts_with_iff s other = elim (dec_lt (length s) (length other)) [
  | yes short ↦
      rw (lt→ltb _ _ short)
        (λ h. cc, λ h. absurd (omega (arith, ap length h.1, length-append other h.0)))
  | no long ↦
      let e : ltb (length s) (length other) ≡ false = ground arith in
      rw e (prefix_iff other s (omega arith))
]
