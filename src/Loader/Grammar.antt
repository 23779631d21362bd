-- ===== src/Loader/Grammar.antt =====
-- What `parse_modinfo` accepts.
use mathlib.Core.List.{append_assoc, append-nil}
use matte_os.Base.{
  ℕ, ◌≡◌, ◌≢◌, refl, sym, ap, ◌∙◌, true, List, [], ◌∷◌, ◌++◌, ◌==◌, arith, length, inl, inr, ◌⊎◌,
  Bool-cases,
}
use matte_os.Errors.{ErrorOr, value, error}
use matte_os.Strings.{String}
use matte_os.Loader.{
  is_printable, ModuleProperty, Modinfo, modinfo_start, modinfo_next, modinfo_step, modinfo_end,
  parse_modinfo,
}
use matte_os.Loader.Run.{
  modinfo_run, IsKey, IsText, AreProperties, encode, in_key, in_value, run_step, loop-run,
}

-- A step that succeeds took a character of the key, or its end; and so for a value.
key_step :
    (out : List ModuleProperty) (p : ModuleProperty) (s : String) (c : ℕ) (m : Modinfo)
    → modinfo_step (in_key out p s) c ≡ value m
    → ((c ≡ 61) × (m ≡ in_value out (s, p.1) []))
      ⊎ ((is_printable c ≡ true) × (c ≢ 61) × (m ≡ in_key out p (s ++ c ∷ [])))
unfolding modinfo_step
key_step out p s c m e = elim (Bool-cases (c == 61)) [
  | inl same ↦ inl (ground arith, ground arith)
  | inr other ↦ elim (Bool-cases (c == 0)) [
    | inl nul ↦ absurd (ground arith)
    | inr more ↦ elim (Bool-cases (is_printable c)) [
      | inl good ↦ inr (good, ground arith, ground arith)
      | inr bad ↦ absurd (ground arith)
    ]
  ]
]

value_step :
    (out : List ModuleProperty) (p : ModuleProperty) (s : String) (c : ℕ) (m : Modinfo)
    → modinfo_step (in_value out p s) c ≡ value m
    → ((c ≡ 0) × (m ≡ modinfo_start (out ++ (p.0, s) ∷ [])))
      ⊎ ((is_printable c ≡ true) × (m ≡ in_value out p (s ++ c ∷ [])))
unfolding modinfo_step
value_step out p s c m e = elim (Bool-cases (c == 0)) [
  | inl same ↦ inl (ground arith, ground arith)
  | inr other ↦ elim (Bool-cases (is_printable c)) [
    | inl good ↦ inr (good, ground arith)
    | inr bad ↦ absurd (ground arith)
  ]
]

-- A run that succeeds made a step that succeeded.
run_value :
    (c : ℕ) (cs : List ℕ) (m : Modinfo) (out : List ModuleProperty)
    → modinfo_run (c ∷ cs) m ≡ (out, value tt)
    → (m' : Modinfo) × (modinfo_step m c ≡ value m') × (modinfo_run cs m' ≡ (out, value tt))
run_value c cs m out e = taken (modinfo_step m c) refl (sym (run_step c cs m) ∙ e)
  where
    taken :
        (r : ErrorOr Modinfo)
        → modinfo_step m c ≡ r
        → modinfo_next m.out_properties (modinfo_run cs) r ≡ (out, value tt)
        → (m' : Modinfo) × (modinfo_step m c ≡ value m') × (modinfo_run cs m' ≡ (out, value tt))
    taken (error x) at f = absurd (unfold modinfo_next in cc f)
    taken (value m') at f = (m', at, unfold modinfo_next in f)

IsKey-concat : (s : String) (c : ℕ) → IsKey s → is_printable c ≡ true → c ≢ 61 → IsKey (s ++ c ∷ [])
unfolding IsKey
IsKey-concat [] c h good ne = (good, ne, tt)
IsKey-concat (d ∷ s) c (hd, nd, h) good ne = (hd, nd, IsKey-concat s c h good ne)

IsText-concat : (s : String) (c : ℕ) → IsText s → is_printable c ≡ true → IsText (s ++ c ∷ [])
unfolding IsText
IsText-concat [] c h good = (good, tt)
IsText-concat (d ∷ s) c (hd, h) good = (hd, IsText-concat s c h good)

-- The key that was begun and the text behind it are properties and the begin of a key.
abbrev FromKey : String → List ℕ → List ModuleProperty → List ModuleProperty → Type 0
FromKey s text out found =
    (es : List ModuleProperty) × (partial : String) × AreProperties es
    × IsKey partial
    × (s ++ text ≡ encode es ++ partial)
    × (found ≡ out ++ es)

-- The value that was begun and the text behind it are a value, properties, and the begin of a key.
abbrev FromValue : String → String → List ℕ → List ModuleProperty → List ModuleProperty → Type 0
FromValue k s text out found =
    (v : String) × (es : List ModuleProperty) × (partial : String) × IsText v
    × AreProperties es
    × IsKey partial
    × (s ++ text ≡ v ++ (0 ∷ (encode es ++ partial)))
    × (found ≡ out ++ (k, v) ∷ es)

from_char :
    (s : String) (c : ℕ) (cs rest : List ℕ) → (s ++ c ∷ []) ++ cs ≡ rest → s ++ c ∷ cs ≡ rest
from_char s c cs rest e = sym (append_assoc s (c ∷ []) cs) ∙ e

mutual
  unfolding modinfo_run modinfo_end IsKey IsText AreProperties encode

  from_key :
      (text : List ℕ) (out found : List ModuleProperty) (p : ModuleProperty) (s : String)
      → IsKey s
      → modinfo_run text (in_key out p s) ≡ (found, value tt)
      → FromKey s text out found
  from_key [] out found p s h e = ([], s, tt, h, append-nil s ∙ refl, cc (e, append-nil out))
  from_key (c ∷ cs) out found p s h e =
      let (m, at, later) = run_value c cs (in_key out p s) found e in
      elim (key_step out p s c m at) [
        | inl (is, next) ↦
            let (v, es, partial, hv, hs, hp, split, all) =
              from_value cs out found s p.1 [] (tt)
                (ap (λ n. modinfo_run cs n) (sym next) ∙ later) in
            (
              (s, v) ∷ es,
              partial,
              (h, hv, hs),
              hp,
              ap (λ d. s ++ d ∷ cs) is
                  ∙ ap (λ l. s ++ 61 ∷ l) split
                  ∙ (ap (λ l. s ++ 61 ∷ l) (sym (append_assoc v (0 ∷ encode es) partial))
                      ∙ sym (append_assoc s (61 ∷ (v ++ (0 ∷ encode es))) partial)
                      ∙ refl),
              all,
            )
        | inr (good, ne, next) ↦
            let (es, partial, hs, hp, split, all) =
              from_key cs out found p (s ++ c ∷ []) (IsKey-concat s c h good ne)
                (ap (λ n. modinfo_run cs n) (sym next) ∙ later) in
            (es, partial, hs, hp, from_char s c cs _ split, all)
      ]

  from_value :
      (text : List ℕ) (out found : List ModuleProperty) (k q s : String)
      → IsText s
      → modinfo_run text (in_value out (k, q) s) ≡ (found, value tt)
      → FromValue k s text out found
  from_value [] out found k q s h e = absurd (cc e)
  from_value (c ∷ cs) out found k q s h e =
      let (m, at, later) = run_value c cs (in_value out (k, q) s) found e in
      elim (value_step out (k, q) s c m at) [
        | inl (is, next) ↦
            let (es, partial, hs, hp, split, all) =
              from_key cs (out ++ (k, s) ∷ []) found ([], []) [] (tt)
                (ap (λ n. modinfo_run cs n) (sym next) ∙ later) in
            (
              s,
              es,
              partial,
              h,
              hs,
              hp,
              ap (λ d. s ++ d ∷ cs) is ∙ ap (λ l. s ++ 0 ∷ l) split,
              all ∙ append_assoc out ((k, s) ∷ []) es,
            )
        | inr (good, next) ↦
            let (v, es, partial, hv, hs, hp, split, all) =
              from_value cs out found k q (s ++ c ∷ []) (IsText-concat s c h good)
                (ap (λ n. modinfo_run cs n) (sym next) ∙ later) in
            (v, es, partial, hv, hs, hp, from_char s c cs _ split, all)
      ]

-- When `parse_modinfo` succeeds on a section of the buffer, that section is "key=value\0" for each of the properties
-- that it added, in order, with printable keys and values and no '=' in a key, and then possibly the begin of a key.
pub parse_modinfo_sound :
    (before text after : List ℕ) (out found : List ModuleProperty)
    → parse_modinfo (before ++ (text ++ after)) (length before) (length text) out
      ≡ (found, value tt)
    → (es : List ModuleProperty) × (partial : String) × AreProperties es
      × IsKey partial
      × (text ≡ encode es ++ partial)
      × (found ≡ out ++ es)
unfolding parse_modinfo
parse_modinfo_sound before text after out found e =
    from_key text out found ([], []) [] (unfold IsKey in tt)
      (sym (loop-run before text after _ (modinfo_start out) refl) ∙ e)
