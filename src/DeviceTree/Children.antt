-- ===== src/DeviceTree/Children.antt =====
-- The children of an encoded node, where each of them is read.
use mathlib.Core.List.{append_assoc}
use matte_os.Base.{
  ℕ, suc, ◌+◌, ◌-◌, ◌%◌, ◌^◌, ◌≤◌, ◌<◌, ◌≡◌, refl, sym, ap, ◌∙◌, List, ◌++◌, drop, length,
  length-append, arith,
}
use matte_os.Strings.{String}
use matte_os.DeviceTree.{
  Property, Node, Nodes, node, no_nodes, with_node, add_node, Blob, size_dt_struct,
}
use matte_os.DeviceTree.Parser.{
  at_node_name, node_parser, parsed, descend, after_child, after_round, parse_loop,
}
use matte_os.DeviceTree.Words.{be_word, drop_past}
use matte_os.DeviceTree.Encoding.{
  encode_name, encode_properties, encode, encode_nodes, IsTree, AreTrees, count_nodes, rounds,
  rounds_nodes, rounds-length, encode-aligned,
}
use matte_os.DeviceTree.Fields.{parser_at, loop_step, switch_child}

abbrev pub append_nodes : Nodes → Nodes → Nodes
append_nodes no_nodes ns = ns
append_nodes (with_node m ms) ns = with_node m (append_nodes ms ns)

pub append_nodes-add_node :
    (ms : Nodes) (n : Node) (ns : Nodes)
    → append_nodes (add_node ms n) ns ≡ append_nodes ms (with_node n ns)
unfolding add_node
append_nodes-add_node no_nodes n ns = refl
append_nodes-add_node (with_node m ms) n ns =
    ap (λ (ks : Nodes). with_node m ks) (append_nodes-add_node ms n ns)

pub append_no_nodes : (ms : Nodes) → append_nodes ms no_nodes ≡ ms
append_no_nodes no_nodes = refl
append_no_nodes (with_node m ms) = ap (λ (ks : Nodes). with_node m ks) (append_no_nodes ms)

module _ (b : Blob) (low : b.header + size_dt_struct b < 2 ^ 32) (offset_of : String → ℕ) where
  -- With enough rounds, the node that stands at an address is read, up to its last token.
  abbrev pub ReadsNode : Node → Type 0
  ReadsNode n =
      (f a stop : ℕ) (rest : List ℕ)
      → drop a b.memory ≡ encode offset_of n ++ rest
      → a % 4 ≡ 0
      → b.header ≤ a
      → a + length (encode offset_of n) ≤ b.header + size_dt_struct b
      → a + length (encode offset_of n) ≡ stop + 4
      → IsTree offset_of b n
      → rounds n ≤ f
      → parse_loop b f (node_parser a) ≡ parsed n stop

  abbrev pub ReadsNodes : Nodes → Type 0
  ReadsNodes ns =
      (f : ℕ) (name : String) (ps : List Property) (cs : Nodes) (a : ℕ) (rest : List ℕ)
      → drop a b.memory ≡ encode_nodes offset_of ns ++ rest
      → a % 4 ≡ 0
      → b.header ≤ a
      → a + length (encode_nodes offset_of ns) ≤ b.header + size_dt_struct b
      → AreTrees offset_of b ns
      → rounds_nodes ns ≤ count_nodes ns + f
      → parse_loop b (count_nodes ns + f) (parser_at at_node_name name ps cs a)
        ≡ parse_loop b f (
            parser_at at_node_name name ps (append_nodes cs ns)
              (a + length (encode_nodes offset_of ns)))

  -- A child that is read is added, and the cursor moves over its last token.
  child_round :
      (f a stop : ℕ) (name : String) (ps : List Property) (cs : Nodes) (n : Node) (rest : List ℕ)
      → drop a b.memory ≡ be_word 1 ++ rest
      → b.header ≤ a
      → a < b.header + size_dt_struct b
      → parse_loop b f (node_parser a) ≡ parsed n stop
      → parse_loop b (suc f) (parser_at at_node_name name ps cs a)
        ≡ parse_loop b f (parser_at at_node_name name ps (add_node cs n) (stop + 4))
  child_round f a stop name ps cs n rest e from to read =
      loop_step b f (parser_at at_node_name name ps cs a)
        (descend (parser_at at_node_name name ps cs a)) low from to
        (switch_child b name ps cs a rest e)
      ∙ unfold after_round after_child in
        ap (after_child (parser_at at_node_name name ps cs a) (parse_loop b f)) read

  starts_node : (n : Node) → (tail : List ℕ) × (encode offset_of n ≡ be_word 1 ++ tail)
  unfolding encode
  starts_node (node name ps cs) = (
    encode_name name
        ++ (encode_properties offset_of ps ++ (encode_nodes offset_of cs ++ be_word 2)),
    refl,
  )

  pub no_more : ReadsNodes no_nodes
  unfolding encode_nodes count_nodes
  no_more f name ps cs a rest e aligned from to h enough =
      ap (λ (g : ℕ). parse_loop b g (parser_at at_node_name name ps cs a)) (omega arith)
      ∙ (ap (λ (ks : Nodes). parse_loop b f (parser_at at_node_name name ps ks a))
            (sym (append_no_nodes cs))
          ∙ ap
              (λ (c : ℕ).
                parse_loop b f (parser_at at_node_name name ps (append_nodes cs no_nodes) c))
              (omega arith))

  pub more_nodes :
      (n : Node) (ns : Nodes) → ReadsNode n → ReadsNodes ns → ReadsNodes (with_node n ns)
  unfolding encode_nodes AreTrees rounds_nodes count_nodes
  more_nodes n ns one others f name ps cs a rest e aligned from to (h, hs) enough =
      let it = encode offset_of n in
      let them = encode_nodes offset_of ns in
      let both = length-append it them in
      let words = encode-aligned offset_of n in
      let some_rounds = rounds-length offset_of n in
      let layout : drop a b.memory ≡ it ++ (them ++ rest) = e ∙ append_assoc it them rest in
      let (tail, begin) = starts_node n in
      let fuel : suc (count_nodes ns) + f ≡ suc (count_nodes ns + f) = omega arith in
      let stop = a + length it - 4 in
      let read =
        one (count_nodes ns + f) a stop (them ++ rest) layout aligned from (omega (arith, both))
          (omega (arith, words, some_rounds)) h (omega arith) in
      ap (λ (g : ℕ). parse_loop b g (parser_at at_node_name name ps cs a)) fuel
      ∙ (child_round (count_nodes ns + f) a stop name ps cs n (tail ++ (them ++ rest))
            (layout ∙ ap (λ (l : List ℕ). l ++ (them ++ rest)) begin) from
            (omega (arith, both, words, some_rounds)) read
          ∙ (ap
                (λ (c : ℕ).
                  parse_loop b (count_nodes ns + f)
                    (parser_at at_node_name name ps (add_node cs n) c))
                (omega (arith, words, some_rounds))
              ∙ (others f name ps (add_node cs n) (a + length it) rest
                    (drop_past a b.memory it (them ++ rest) (length it) layout refl)
                    (omega (arith, words)) (omega arith) (omega (arith, both)) hs (omega arith)
                  ∙ (ap
                        (λ (ks : Nodes).
                          parse_loop b f
                            (parser_at at_node_name name ps ks (a + length it + length them)))
                        (append_nodes-add_node cs n ns)
                      ∙ ap
                          (λ (c : ℕ).
                            parse_loop b f
                              (parser_at at_node_name name ps (append_nodes cs (with_node n ns)) c))
                          (omega (arith, both))))))
