-- ===== src/Loader/Run.antt =====
-- `parse_modinfo` on the characters of its section, and on well-formed properties.
use mathlib.Core.List.{append_assoc, append-nil}
use matte_os.Base.{
  ℕ, suc, ◌+◌, ◌≡◌, ◌≢◌, refl, sym, ap, ◌∙◌, true, List, [], ◌∷◌, ◌++◌, arith, length,
  length-append, get_or, get_or-append,
}
use matte_os.Errors.{ErrorOr, value, error}
use matte_os.Strings.{String}
use matte_os.Loader.{
  is_printable, ModuleProperty, key_state, value_state, Modinfo, modinfo_start, modinfo_next,
  modinfo_step, modinfo_end, modinfo_loop, parse_modinfo,
}

-- The loop as a recursion on the characters.
unfoldable pub modinfo_run : List ℕ → Modinfo → List ModuleProperty × ErrorOr (Unit {0})
unfolding modinfo_step modinfo_next modinfo_end
modinfo_run [] m = (m.out_properties, modinfo_end m.state)
modinfo_run (c ∷ cs) m = modinfo_next m.out_properties (modinfo_run cs) (modinfo_step m c)

loop_step :
    (bytes : List ℕ) (n i : ℕ) (m : Modinfo) (c : ℕ)
    → get_or bytes i 0 ≡ c
    → modinfo_loop bytes (suc n) i m
      ≡ modinfo_next m.out_properties (modinfo_loop bytes n (i + 1)) (modinfo_step m c)
unfolding modinfo_loop modinfo_next
loop_step bytes n i m c at =
    ap (λ (d : ℕ). modinfo_next m.out_properties (modinfo_loop bytes n (i + 1)) (modinfo_step m d))
      at

pub run_step :
    (c : ℕ) (cs : List ℕ) (m : Modinfo)
    → modinfo_run (c ∷ cs) m ≡ modinfo_next m.out_properties (modinfo_run cs) (modinfo_step m c)
run_step c cs m = unfold modinfo_run in refl

next_same :
    (out : List ModuleProperty) (f g : Modinfo → List ModuleProperty × ErrorOr (Unit {0}))
    → ((m : Modinfo) → f m ≡ g m)
    → (r : ErrorOr Modinfo) → modinfo_next out f r ≡ modinfo_next out g r
unfolding modinfo_next
next_same out f g same (error e) = refl
next_same out f g same (value m) = same m

-- Where the section lies in the buffer, the loop reads its characters.
pub loop-run :
    (before text after bytes : List ℕ) (m : Modinfo)
    → bytes ≡ before ++ (text ++ after)
    → modinfo_loop bytes (length text) (length before) m ≡ modinfo_run text m
loop-run before [] after bytes m split = unfold modinfo_loop modinfo_run in refl
loop-run before (c ∷ cs) after bytes m split =
    let here : get_or bytes (length before) 0 ≡ c =
      ap (λ l. get_or l (length before) 0) split
      ∙ get_or-append before c 0 (cs ++ after) (length before) refl in
    let moved : length before + 1 ≡ length (before ++ c ∷ []) =
      omega (arith, length-append before (c ∷ [])) in
    loop_step bytes (length cs) (length before) m c here
    ∙ (next_same m.out_properties _ _
          (λ m'.
            ap (λ i. modinfo_loop bytes (length cs) i m') moved
            ∙ loop-run (before ++ c ∷ []) cs after bytes m'
                (split ∙ sym (append_assoc before (c ∷ []) (cs ++ after))))
          (modinfo_step m c)
        ∙ sym (run_step c cs m))

-- The characters of a key, and of a value.
unfoldable pub IsKey : String → Type 0
IsKey [] = Unit
IsKey (c ∷ cs) = (is_printable c ≡ true) × (c ≢ 61) × IsKey cs

unfoldable pub IsText : String → Type 0
IsText [] = Unit
IsText (c ∷ cs) = (is_printable c ≡ true) × IsText cs

unfoldable pub AreProperties : List ModuleProperty → Type 0
AreProperties [] = Unit
AreProperties ((k, v) ∷ es) = IsKey k × IsText v × AreProperties es

-- "key=value\0" for each property.
unfoldable pub encode : List ModuleProperty → List ℕ
encode [] = []
encode ((k, v) ∷ es) = k ++ (61 ∷ (v ++ (0 ∷ encode es)))

abbrev pub in_key : List ModuleProperty → ModuleProperty → String → Modinfo
in_key out p s = record {
  state = key_state;
  current_string = s;
  current_property = p;
  out_properties = out;
}

abbrev pub in_value : List ModuleProperty → ModuleProperty → String → Modinfo
in_value out p s = record {
  state = value_state;
  current_string = s;
  current_property = p;
  out_properties = out;
}

module _ (out : List ModuleProperty) (p : ModuleProperty) (s : String) where
  key_char :
      (c : ℕ)
      → is_printable c ≡ true
      → c ≢ 61
      → modinfo_step (in_key out p s) c ≡ value (in_key out p (s ++ c ∷ []))
  unfolding modinfo_step is_printable
  key_char c h ne = ground arith

  key_end : modinfo_step (in_key out p s) 61 ≡ value (in_value out (s, p.1) [])
  unfolding modinfo_step
  key_end = refl

  value_char :
      (c : ℕ)
      → is_printable c ≡ true
      → modinfo_step (in_value out p s) c ≡ value (in_value out p (s ++ c ∷ []))
  unfolding modinfo_step is_printable
  value_char c h = ground arith

  value_end : modinfo_step (in_value out p s) 0 ≡ value (modinfo_start (out ++ (p.0, s) ∷ []))
  unfolding modinfo_step
  value_end = refl

run_on :
    (c : ℕ) (cs : List ℕ) (m m' : Modinfo)
    → modinfo_step m c ≡ value m'
    → modinfo_run (c ∷ cs) m ≡ modinfo_run cs m'
run_on c cs m m' e =
    run_step c cs m
    ∙ (ap (modinfo_next m.out_properties (modinfo_run cs)) e ∙ unfold modinfo_next in refl)

run-IsKey :
    (k rest : String) (out : List ModuleProperty) (p : ModuleProperty) (s : String)
    → IsKey k
    → modinfo_run (k ++ rest) (in_key out p s) ≡ modinfo_run rest (in_key out p (s ++ k))
unfolding IsKey
run-IsKey [] rest out p s h = ap (λ t. modinfo_run rest (in_key out p t)) (sym (append-nil s))
run-IsKey (c ∷ cs) rest out p s (h, ne, hs) =
    run_on c (cs ++ rest) _ _ (key_char out p s c h ne)
    ∙ (run-IsKey cs rest out p (s ++ c ∷ []) hs
        ∙ ap (λ t. modinfo_run rest (in_key out p t)) (append_assoc s (c ∷ []) cs))

run-IsText :
    (v rest : String) (out : List ModuleProperty) (p : ModuleProperty) (s : String)
    → IsText v
    → modinfo_run (v ++ rest) (in_value out p s) ≡ modinfo_run rest (in_value out p (s ++ v))
unfolding IsText
run-IsText [] rest out p s h = ap (λ t. modinfo_run rest (in_value out p t)) (sym (append-nil s))
run-IsText (c ∷ cs) rest out p s (h, hs) =
    run_on c (cs ++ rest) _ _ (value_char out p s c h)
    ∙ (run-IsText cs rest out p (s ++ c ∷ []) hs
        ∙ ap (λ t. modinfo_run rest (in_value out p t)) (append_assoc s (c ∷ []) cs))

run-encode :
    (es out : List ModuleProperty) (rest : List ℕ)
    → AreProperties es
    → modinfo_run (encode es ++ rest) (modinfo_start out)
      ≡ modinfo_run rest (modinfo_start (out ++ es))
unfolding encode AreProperties
run-encode [] out rest h = ap (λ o. modinfo_run rest (modinfo_start o)) (sym (append-nil out))
run-encode ((k, v) ∷ es) out rest (hk, hv, hs) =
    ap (λ l. modinfo_run l (modinfo_start out))
      (append_assoc k (61 ∷ (v ++ (0 ∷ encode es))) rest
        ∙ ap (λ l. k ++ 61 ∷ l) (append_assoc v (0 ∷ encode es) rest))
    ∙ run-IsKey k _ out ([], []) [] hk
    ∙ run_on 61 _ _ _ (key_end out ([], []) k)
    ∙ run-IsText v _ out (k, []) [] hv
    ∙ run_on 0 _ _ _ (value_end out (k, []) v)
    ∙ run-encode es (out ++ (k, v) ∷ []) rest hs
    ∙ ap (λ o. modinfo_run rest (modinfo_start o)) (append_assoc out ((k, v) ∷ []) es)

-- What `parse_modinfo` makes of a section that lies in the buffer and holds "key=value\0" for each property, keys
-- and values of printable characters and keys without '=', is those properties in order, behind the ones that
-- were there. A last key without its '=' is dropped without an error.
pub parse_modinfo-encode :
    (es out : List ModuleProperty) (partial : String) (before after : List ℕ)
    → AreProperties es
    → IsKey partial
    → parse_modinfo
        (before ++ ((encode es ++ partial) ++ after))
        (length before)
        (length (encode es ++ partial))
        out
      ≡ (out ++ es, value tt)
unfolding parse_modinfo
parse_modinfo-encode es out partial before after h hp =
    loop-run before (encode es ++ partial) after _ (modinfo_start out) refl
    ∙ run-encode es out partial h
    ∙ ap (λ l. modinfo_run l (modinfo_start (out ++ es))) (sym (append-nil partial))
    ∙ run-IsKey partial [] (out ++ es) ([], []) [] hp
    ∙ unfold modinfo_run in refl
