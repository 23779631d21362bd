-- ===== src/DeviceTree/RoundTrip.antt =====
-- What is encoded parses back.
use mathlib.Core.List.{append_assoc}
use matte_os.Base.{
  ℕ, suc, ◌+◌, ◌-◌, ◌%◌, ◌^◌, ◌≤◌, ◌<◌, ◌≡◌, refl, sym, ap, ◌∙◌, List, [], ◌++◌, drop, length,
  arith,
}
use matte_os.Strings.{String}
use matte_os.DeviceTree.{
  Property, Node, Nodes, node, no_nodes, with_node, Blob, off_dt_struct, size_dt_struct,
}
use matte_os.DeviceTree.Parser.{
  at_node_name, at_end_node, node_parser, parsed, returned, after_round, parse_loop, parse_node,
  parse_nodes,
}
use matte_os.DeviceTree.Words.{be_word, drop_past}
use matte_os.DeviceTree.Encoding.{
  encode_name, encode_properties, encode, encode_nodes, AreStored, IsTree, AreTrees,
  count_properties, count_nodes, rounds, rounds_nodes, rounds-length, aligned_properties,
  encode-aligned, length-encode_name, length-encode,
}
use matte_os.DeviceTree.Fields.{
  parser_at, loop_step, loop_cut, switch_begin, switch_end, switch_return,
}
use matte_os.DeviceTree.Rounds.{go_on, properties_rounds, name_rounds}
use matte_os.DeviceTree.Children.{append_nodes, ReadsNode, ReadsNodes, no_more, more_nodes}

-- An encoded node by its parts, with what follows it.
encode_layout :
    (offset_of : String → ℕ) (name : String) (ps : List Property) (cs : Nodes) (rest : List ℕ)
    → encode offset_of (node name ps cs) ++ rest
      ≡ be_word 1
        ++ (encode_name name
            ++ (encode_properties offset_of ps
                ++ (encode_nodes offset_of cs ++ (be_word 2 ++ rest))))
unfolding encode
encode_layout offset_of name ps cs rest =
    let these = encode_properties offset_of ps in
    let those = encode_nodes offset_of cs in
    ap (λ (l : List ℕ). be_word 1 ++ l)
      (append_assoc (encode_name name) (these ++ (those ++ be_word 2)) rest
        ∙ ap (λ (l : List ℕ). encode_name name ++ l)
            (append_assoc these (those ++ be_word 2) rest
              ∙ ap (λ (l : List ℕ). these ++ l) (append_assoc those (be_word 2) rest)))

count-le-rounds : (ns : Nodes) → count_nodes ns ≤ rounds_nodes ns
unfolding count_nodes rounds_nodes
count-le-rounds no_nodes = omega arith
count-le-rounds (with_node n ns) = omega (arith, count-le-rounds ns)

module _ (b : Blob) (low : b.header + size_dt_struct b < 2 ^ 32) (offset_of : String → ℕ) where
  -- The last token: two rounds.
  end_rounds :
      (f a : ℕ) (name : String) (ps : List Property) (cs : Nodes) (rest : List ℕ)
      → drop a b.memory ≡ be_word 2 ++ rest
      → b.header ≤ a
      → a < b.header + size_dt_struct b
      → parse_loop b (suc (suc f)) (parser_at at_node_name name ps cs a)
        ≡ parsed (node name ps cs) a
  end_rounds f a name ps cs rest e from to =
      go_on b low (suc f) (parser_at at_node_name name ps cs a) (parser_at at_end_node name ps cs a)
        from to (switch_end b name ps cs a rest e)
      ∙ (loop_step b f (parser_at at_end_node name ps cs a) (returned (parsed (node name ps cs) a))
            low from to (switch_return b name ps cs a)
          ∙ unfold after_round in refl)

  -- Behind the name: the properties and the children.
  body_rounds :
      (g a : ℕ) (name : String) (ps : List Property) (cs : Nodes) (rest : List ℕ)
      → ReadsNodes b low offset_of cs
      → drop a b.memory ≡ encode_properties offset_of ps ++ (encode_nodes offset_of cs ++ rest)
      → a % 4 ≡ 0
      → b.header ≤ a
      → a + length (encode_properties offset_of ps) + length (encode_nodes offset_of cs)
        ≤ b.header + size_dt_struct b
      → AreStored offset_of b ps
      → AreTrees offset_of b cs
      → 2 + (count_properties ps + rounds_nodes cs) ≤ g
      → (h : ℕ) × (parse_loop b g (parser_at at_node_name name [] no_nodes a)
          ≡ parse_loop b (suc (suc h)) (
              parser_at at_node_name name ps cs
                (a + length (encode_properties offset_of ps) + length (encode_nodes offset_of cs))))
  body_rounds g a name ps cs rest others layout aligned from within hp hc enough =
      let less = count-le-rounds cs in
      let these = encode_properties offset_of ps in
      let those = encode_nodes offset_of cs in
      let h : ℕ = g - (count_properties ps + count_nodes cs) - 2 in
      let fuel : g ≡ count_properties ps + (count_nodes cs + suc (suc h)) = omega arith in
      (
        h,
        ap (λ (k : ℕ). parse_loop b k (parser_at at_node_name name [] no_nodes a)) fuel
            ∙ (properties_rounds b low offset_of ps (count_nodes cs + suc (suc h)) name [] no_nodes
                  a (those ++ rest) layout aligned from (omega arith) hp
                ∙ others (suc (suc h)) name ps no_nodes (a + length these) rest
                    (drop_past a b.memory these (those ++ rest) (length these) layout refl)
                    (omega (arith, aligned_properties offset_of ps)) (omega arith) (omega arith) hc
                    (omega arith)),
      )

  -- A node up to its children, or up to some of them.
  open_rounds :
      (f a stop : ℕ) (name : String) (ps : List Property) (cs : Nodes) (rest : List ℕ)
      → ReadsNodes b low offset_of cs
      → drop a b.memory
        ≡ be_word 1
          ++ (encode_name name
              ++ (encode_properties offset_of ps ++ (encode_nodes offset_of cs ++ rest)))
      → a % 4 ≡ 0
      → b.header ≤ a
      → a + length (encode offset_of (node name ps cs)) ≡ stop + 4
      → stop ≤ b.header + size_dt_struct b
      → IsTree offset_of b (node name ps cs)
      → rounds (node name ps cs) ≤ f
      → (h : ℕ) × (parse_loop b f (node_parser a)
          ≡ parse_loop b (suc (suc h)) (parser_at at_node_name name ps cs stop))
        × (drop stop b.memory ≡ rest)
  unfolding IsTree rounds
  open_rounds f a stop name ps cs rest others layout aligned from at within (hn, hp, hc) enough =
      let size = length-encode offset_of name ps cs in
      let name_size = length-encode_name name in
      let f0 : ℕ = f - 3 in
      let fuel : f ≡ suc (suc (suc f0)) = omega arith in
      let named = drop_past a b.memory (be_word 1) _ 4 layout refl in
      let (g, more, read) =
        name_rounds b low f0 (a + 4) name _ named (omega arith) (omega arith) (omega (arith, size))
          hn in
      let (h, body) =
        body_rounds g (a + 4 + length (encode_name name)) name ps cs rest others
          (drop_past (a + 4) b.memory (encode_name name) _ (length (encode_name name)) named refl)
          (omega (arith, name_size)) (omega arith) (omega (arith, size)) hp hc (omega arith) in
      let after_name = a + 4 + length (encode_name name) in
      let these = encode_properties offset_of ps in
      let those = encode_nodes offset_of cs in
      let properties = drop_past (a + 4) b.memory (encode_name name) _ _ named refl in
      let children =
        drop_past after_name b.memory these (those ++ rest) (length these) properties refl in
      let behind =
        drop_past (after_name + length these) b.memory those rest (length those) children refl in
      (
        h,
        ap (λ (k : ℕ). parse_loop b k (node_parser a)) fuel
            ∙ (go_on b low (suc (suc f0)) (node_parser a) _ from (omega (arith, size, name_size))
                  (switch_begin b a _ layout)
                ∙ (read
                    ∙ (body
                        ∙ ap
                            (λ (c : ℕ).
                              parse_loop b (suc (suc h)) (parser_at at_node_name name ps cs c))
                            (omega (arith, size))))),
        ap (λ (c : ℕ). drop c b.memory) (omega (arith, size)) ∙ behind,
      )

  one_node :
      (name : String) (ps : List Property) (cs : Nodes)
      → ReadsNodes b low offset_of cs
      → ReadsNode b low offset_of (node name ps cs)
  one_node name ps cs others f a stop rest e aligned from to at tree enough =
      let layout = e ∙ encode_layout offset_of name ps cs rest in
      let (h, read, here) =
        open_rounds f a stop name ps cs (be_word 2 ++ rest) others layout aligned from at
          (omega arith) tree enough in
      read
      ∙ end_rounds h stop name ps cs rest here (omega (arith, length-encode offset_of name ps cs))
          (omega (arith, length-encode offset_of name ps cs))

  mutual
    node_lem : (n : Node) → ReadsNode b low offset_of n
    node_lem (node name ps cs) = one_node name ps cs (nodes_lem cs)

    nodes_lem : (ns : Nodes) → ReadsNodes b low offset_of ns
    nodes_lem no_nodes = no_more b low offset_of
    nodes_lem (with_node n ns) = more_nodes b low offset_of n ns (node_lem n) (nodes_lem ns)

-- A structure block that holds an encoded tree, its start a multiple of four and its end within the first
-- `size_dt_struct` bytes behind the header, all below 4 GiB, is parsed back to that tree: with as many rounds as that
-- size. Its names must have no NUL inside, the names of its properties stand in the strings block, and offsets and
-- lengths be words.
pub parse_nodes-encode :
    (b : Blob) (offset_of : String → ℕ) (n : Node) (before after : List ℕ) (fuel : ℕ)
    → b.memory ≡ before ++ (encode offset_of n ++ after)
    → length before ≡ b.header + off_dt_struct b
    → length before % 4 ≡ 0
    → off_dt_struct b + length (encode offset_of n) ≤ size_dt_struct b
    → b.header + size_dt_struct b < 2 ^ 32
    → IsTree offset_of b n
    → size_dt_struct b ≤ fuel
    → parse_nodes b fuel ≡ parsed n (length before + length (encode offset_of n) - 4)
unfolding parse_nodes parse_node
parse_nodes-encode b offset_of n before after fuel layout start aligned within low tree enough =
    let size = rounds-length offset_of n in
    let words = encode-aligned offset_of n in
    ap (λ (a : ℕ). parse_loop b fuel (node_parser a)) (sym start)
    ∙ node_lem b low offset_of n fuel (length before)
        (length before + length (encode offset_of n) - 4) after
        (ap (λ (k : ℕ). drop k b.memory) (omega arith)
          ∙ drop_past 0 b.memory before (encode offset_of n ++ after) (length before) layout refl)
        aligned (omega arith) (omega arith) (omega (arith, size, words)) tree (omega (arith, size))

-- The encoding of some children, and then of others.
encode_nodes-append_nodes :
    (offset_of : String → ℕ) (cs ds : Nodes)
    → encode_nodes offset_of (append_nodes cs ds)
      ≡ encode_nodes offset_of cs ++ encode_nodes offset_of ds
unfolding encode_nodes
encode_nodes-append_nodes offset_of no_nodes ds = refl
encode_nodes-append_nodes offset_of (with_node c cs) ds =
    ap (λ (l : List ℕ). encode offset_of c ++ l) (encode_nodes-append_nodes offset_of cs ds)
    ∙ sym
        (append_assoc (encode offset_of c) (encode_nodes offset_of cs) (encode_nodes offset_of ds))

-- The loop measures `size_dt_struct` from the header and not from the start of the structure block. So where that
-- distance falls on the start of a child of the root, that child and all that follow it are lost: the root is
-- returned without them, and without an error.
pub parse_nodes_cut :
    (b : Blob) (offset_of : String → ℕ) (name : String) (ps : List Property) (cs ds : Nodes)
    (before after : List ℕ) (fuel : ℕ)
    → b.memory ≡ before ++ (encode offset_of (node name ps (append_nodes cs ds)) ++ after)
    → length before ≡ b.header + off_dt_struct b
    → length before % 4 ≡ 0
    → off_dt_struct b + length (encode offset_of (node name ps cs)) ≡ size_dt_struct b + 4
    → b.header + size_dt_struct b < 2 ^ 32
    → IsTree offset_of b (node name ps cs)
    → size_dt_struct b + 4 ≤ fuel
    → parse_nodes b fuel ≡ parsed (node name ps cs) (b.header + size_dt_struct b)
unfolding parse_nodes parse_node
parse_nodes_cut b offset_of name ps cs ds before after fuel layout start aligned cut low tree
      enough =
    let size = rounds-length offset_of (node name ps cs) in
    let those = encode_nodes offset_of cs in
    let dropped = encode_nodes offset_of ds in
    let lost = dropped ++ (be_word 2 ++ after) in
    let parted : encode_nodes offset_of (append_nodes cs ds) ++ (be_word 2 ++ after)
        ≡ those ++ lost =
      ap (λ (l : List ℕ). l ++ (be_word 2 ++ after)) (encode_nodes-append_nodes offset_of cs ds)
      ∙ append_assoc those dropped (be_word 2 ++ after) in
    let begin : drop (length before) b.memory
        ≡ encode offset_of (node name ps (append_nodes cs ds)) ++ after =
      ap (λ (k : ℕ). drop k b.memory) (omega arith)
      ∙ drop_past 0 b.memory before _ (length before) layout refl in
    let whole =
      begin
      ∙ (encode_layout offset_of name ps (append_nodes cs ds) after
          ∙ ap
              (λ (l : List ℕ).
                be_word 1 ++ (encode_name name ++ (encode_properties offset_of ps ++ l)))
              parted) in
    let (h, read, here) =
      open_rounds b low offset_of fuel (length before) (b.header + size_dt_struct b) name ps cs lost
        (nodes_lem b low offset_of cs) whole aligned (omega arith) (omega arith) (omega arith) tree
        (omega (arith, size)) in
    ap (λ (a : ℕ). parse_loop b fuel (node_parser a)) (sym start)
    ∙ (read
        ∙ loop_cut b (suc h) (parser_at at_node_name name ps cs (b.header + size_dt_struct b)) low
            refl)
