-- ===== src/DeviceTree/Rounds.antt =====
-- What the rounds of `parse_node` read of an encoded node: its properties and its name.
use mathlib.Core.List.{append_assoc, append-nil}
use matte_os.Base.{
  ℕ, suc, ◌+◌, ◌-◌, ◌%◌, ◌^◌, ◌≤◌, ◌<◌, ◌≡◌, refl, sym, ap, ◌∙◌, List, [], ◌∷◌, ◌++◌, drop, length,
  length-append, arith, ℕ_discrete, replicate,
}
use matte_os.Strings.{String}
use matte_os.DeviceTree.{Property, Nodes, no_nodes, align_to, Blob, size_dt_struct}
use matte_os.DeviceTree.Parser.{
  at_begin_node, at_node_name, at_prop, NodeParser, continued, switch, after_round, parse_loop,
}
use matte_os.DeviceTree.Words.{be_word, padding, IsName, drop_past, align-lem}
use matte_os.DeviceTree.Encoding.{
  encode_name, encode_property, encode_properties, IsStored, AreStored, count_properties,
  length-encode_property, aligned_property, length-encode_name,
}
use matte_os.DeviceTree.Fields.{
  parser_at, loop_step, switch_name, switch_zero, switch_property, switch_stored,
}

module _ (b : Blob) (low : b.header + size_dt_struct b < 2 ^ 32) where
  -- A round that goes on.
  pub go_on :
      (f : ℕ) (p q : NodeParser)
      → b.header ≤ p.current_offset
      → p.current_offset < b.header + size_dt_struct b
      → switch b p.state p ≡ continued q
      → parse_loop b (suc f) p ≡ parse_loop b f q
  go_on f p q from to e = loop_step b f p (continued q) low from to e ∙ unfold after_round in refl

  module _ (offset_of : String → ℕ) where
    property_rounds :
        (f : ℕ) (name : String) (ps : List Property) (cs : Nodes) (a : ℕ) (p : Property)
        (rest : List ℕ)
        → drop a b.memory ≡ encode_property offset_of p ++ rest
        → a % 4 ≡ 0
        → b.header ≤ a
        → a + length (encode_property offset_of p) ≤ b.header + size_dt_struct b
        → IsStored offset_of b p
        → parse_loop b (suc (suc f)) (parser_at at_node_name name ps cs a)
          ≡ parse_loop b f (
              parser_at at_node_name name
                (ps ++ p ∷ [])
                cs
                (a + length (encode_property offset_of p)))
    property_rounds f name ps cs a (key, text) rest e aligned from to s =
        let size = length-encode_property offset_of (key, text) in
        let layout : drop a b.memory
            ≡ be_word 3
              ++ (be_word (length text)
                  ++ (be_word (offset_of key) ++ (text ++ (padding (length text) ++ rest)))) =
          e
          ∙ unfold encode_property in
            ap (λ l. be_word 3 ++ (be_word (length text) ++ (be_word (offset_of key) ++ l)))
              (append_assoc text (padding (length text)) rest) in
        let next = drop_past a b.memory (be_word 3) _ 4 layout refl in
        let target : align_to 4 (a + 4 + 8 + length text)
            ≡ a + length (encode_property offset_of (key, text)) =
          align-lem (a + 4 + 8) (length text) (omega arith) (omega (arith, size))
          ∙ omega (arith, size) in
        go_on (suc f) _ (parser_at at_prop name ps cs (a + 4)) from (omega (arith, size))
          (switch_property b name ps cs a _ layout)
        ∙ (go_on f _ _ (omega arith) (omega (arith, size))
              (switch_stored b offset_of name ps cs (a + 4) (key, text) _ next s)
            ∙ ap (λ c. parse_loop b f (parser_at at_node_name name (ps ++ (key, text) ∷ []) cs c))
                target)

    pub properties_rounds :
        (qs : List Property) (f : ℕ) (name : String) (ps : List Property) (cs : Nodes) (a : ℕ)
        (rest : List ℕ)
        → drop a b.memory ≡ encode_properties offset_of qs ++ rest
        → a % 4 ≡ 0
        → b.header ≤ a
        → a + length (encode_properties offset_of qs) ≤ b.header + size_dt_struct b
        → AreStored offset_of b qs
        → parse_loop b (count_properties qs + f) (parser_at at_node_name name ps cs a)
          ≡ parse_loop b f (
              parser_at at_node_name name
                (ps ++ qs)
                cs
                (a + length (encode_properties offset_of qs)))
    unfolding encode_properties AreStored count_properties
    properties_rounds [] f name ps cs a rest e aligned from to h =
        let same : a ≡ a + 0 = omega arith in
        ap (λ (g : ℕ). parse_loop b g (parser_at at_node_name name ps cs a)) (omega arith)
        ∙ (ap (λ (qs : List Property). parse_loop b f (parser_at at_node_name name qs cs a))
              (sym (append-nil ps))
            ∙ ap (λ (c : ℕ). parse_loop b f (parser_at at_node_name name (ps ++ []) cs c)) same)
    properties_rounds (q ∷ qs) f name ps cs a rest e aligned from to (h, hs) =
        let one = encode_property offset_of q in
        let more = encode_properties offset_of qs in
        let both = length-append one more in
        let layout : drop a b.memory ≡ one ++ (more ++ rest) = e ∙ append_assoc one more rest in
        let fuel : suc (suc (count_properties qs)) + f ≡ suc (suc (count_properties qs + f)) =
          omega arith in
        ap (λ (g : ℕ). parse_loop b g (parser_at at_node_name name ps cs a)) fuel
        ∙ (property_rounds (count_properties qs + f) name ps cs a q (more ++ rest) layout aligned
              from (omega (arith, both)) h
            ∙ (properties_rounds qs f name (ps ++ q ∷ []) cs (a + length one) rest
                  (drop_past a b.memory one (more ++ rest) (length one) layout refl)
                  (omega (arith, aligned_property offset_of q)) (omega arith) (omega (arith, both))
                  hs
                ∙ (ap
                      (λ (rs : List Property).
                        parse_loop b f
                          (parser_at at_node_name name rs cs (a + length one + length more)))
                      (append_assoc ps (q ∷ []) qs)
                    ∙ ap
                        (λ (c : ℕ).
                          parse_loop b f (parser_at at_node_name name (ps ++ q ∷ qs) cs c))
                        (omega (arith, both)))))

  -- The name, with the zeros behind it, takes one round or two.
  pub name_rounds :
      (f a : ℕ) (name : String) (rest : List ℕ)
      → drop a b.memory ≡ encode_name name ++ rest
      → a % 4 ≡ 0
      → b.header ≤ a
      → a + length (encode_name name) ≤ b.header + size_dt_struct b
      → IsName name
      → (g : ℕ) × (f ≤ g)
        × (parse_loop b (suc (suc f)) (parser_at at_begin_node [] [] no_nodes a)
            ≡ parse_loop b g
                (parser_at at_node_name name [] no_nodes (a + length (encode_name name))))
  name_rounds f a name rest e aligned from to h =
      let size = length-encode_name name in
      let zeros = padding (length name + 1) in
      let layout : drop a b.memory ≡ name ++ (0 ∷ (zeros ++ rest)) =
        e ∙ append_assoc name (0 ∷ zeros) rest in
      let first =
        go_on (suc f) (parser_at at_begin_node [] [] no_nodes a) _ from (omega (arith, size))
          (switch_name b a name (zeros ++ rest) layout h) in
      let reached = align-lem a (length name) aligned (omega (arith, size)) in
      elim (ℕ_discrete (length name % 4) 0) [
        | yes whole ↦
            let at_zeros : align_to 4 (a + length name) ≡ a + length name = reached ∙ omega arith in
            let left : (4 - (length name + 1) % 4) % 4 ≡ 3 = omega arith in
            let three : zeros ≡ 0 ∷ 0 ∷ 0 ∷ [] =
              unfold padding in ap (λ (k : ℕ). replicate k 0) left in
            let here : drop (a + length name) b.memory ≡ be_word 0 ++ rest =
              drop_past a b.memory name (0 ∷ (zeros ++ rest)) (length name) layout refl
              ∙ ap (λ (l : List ℕ). 0 ∷ (l ++ rest)) three in
            (
              f,
              omega arith,
              first
                  ∙ (ap
                        (λ (c : ℕ).
                          parse_loop b (suc f) (parser_at at_node_name name [] no_nodes c))
                        at_zeros
                      ∙ (go_on f (parser_at at_node_name name [] no_nodes (a + length name)) _
                            (omega arith) (omega (arith, size))
                            (switch_zero b name [] no_nodes (a + length name) rest here)
                          ∙ ap
                              (λ (c : ℕ).
                                parse_loop b f (parser_at at_node_name name [] no_nodes c))
                              (omega (arith, size)))),
            )
        | no inside ↦ (
          suc f,
          omega arith,
          first
              ∙ ap (λ (c : ℕ). parse_loop b (suc f) (parser_at at_node_name name [] no_nodes c))
                  (reached ∙ omega (arith, size)),
        )
      ]
