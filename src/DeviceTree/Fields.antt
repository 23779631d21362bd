-- ===== src/DeviceTree/Fields.antt =====
-- What single rounds of `parse_node` do at the tokens, the name and the properties of an encoded node.
use matte_os.Base.{
  ℕ, suc, ◌+◌, ◌^◌, ◌≤◌, ◌<◌, ◌≡◌, refl, ap, ◌∙◌, true, false, List, [], ◌∷◌, ◌++◌, ltb, take, drop,
  length, arith, lt→ltb, take_append_le, take_all,
}
use matte_os.Strings.{String}
use matte_os.DeviceTree.{
  Property, Nodes, node, no_nodes, be32, string_at, align_to, Blob, off_dt_strings, size_dt_struct,
}
use matte_os.DeviceTree.Parser.{
  ParserState, at_none, at_begin_node, at_node_name, at_end_node, at_prop, NodeParser, current_node,
  node_parser, parsed, Round, returned, continued, descend, token_of, node_name_round, none_round,
  property_at, switch, in_bounds, round, after_round, parse_loop,
}
use matte_os.DeviceTree.Words.{be_word, IsName, be32-be_word, drop_past, string_at-IsName}
use matte_os.DeviceTree.Encoding.{IsStored}

abbrev pub parser_at : ParserState → String → List Property → Nodes → ℕ → NodeParser
parser_at state name ps cs offset = record {
  state = state;
  name = name;
  properties = ps;
  children = cs;
  current_offset = offset;
}

ge→ltb : (m n : ℕ) → n ≤ m → ltb m n ≡ false
ge→ltb m n h = ground arith

module _ (b : Blob) where
  in_bounds_lem :
      (c : ℕ)
      → b.header + size_dt_struct b < 2 ^ 32
      → b.header ≤ c
      → c < b.header + size_dt_struct b
      → in_bounds b c ≡ true
  unfolding in_bounds
  in_bounds_lem c low from to = lt→ltb _ _ (omega arith)

  round_inside :
      (p : NodeParser) → in_bounds b p.current_offset ≡ true → round b p ≡ switch b p.state p
  unfolding round
  round_inside p e = rw e refl

  -- A round in bounds does what `switch` says.
  pub loop_step :
      (f : ℕ) (p : NodeParser) (r : Round)
      → b.header + size_dt_struct b < 2 ^ 32
      → b.header ≤ p.current_offset
      → p.current_offset < b.header + size_dt_struct b
      → switch b p.state p ≡ r
      → parse_loop b (suc f) p ≡ after_round (parse_loop b f) r
  unfolding parse_loop
  loop_step f p r low from to e =
      ap (after_round (parse_loop b f))
        (round_inside p (in_bounds_lem p.current_offset low from to) ∙ e)

  out_of_bounds_lem :
      b.header + size_dt_struct b < 2 ^ 32 → in_bounds b (b.header + size_dt_struct b) ≡ false
  unfolding in_bounds
  out_of_bounds_lem low = ge→ltb _ _ (omega arith)

  round_outside :
      (p : NodeParser)
      → in_bounds b p.current_offset ≡ false
      → round b p ≡ returned (parsed (current_node p) p.current_offset)
  unfolding round
  round_outside p e = rw e refl

  -- Where the cursor is `size_dt_struct` bytes behind the header, what was read is returned.
  pub loop_cut :
      (f : ℕ) (p : NodeParser)
      → b.header + size_dt_struct b < 2 ^ 32
      → p.current_offset ≡ b.header + size_dt_struct b
      → parse_loop b (suc f) p ≡ parsed (current_node p) p.current_offset
  unfolding parse_loop
  loop_cut f p low at =
      ap (after_round (parse_loop b f))
        (round_outside p (ap (in_bounds b) at ∙ out_of_bounds_lem low))

  word_here :
      (a n : ℕ) (rest : List ℕ)
      → drop a b.memory ≡ be_word n ++ rest
      → n < 2 ^ 32
      → be32 (drop a b.memory) ≡ n
  word_here a n rest e h = ap be32 e ∙ be32-be_word n rest h

  pub switch_begin :
      (a : ℕ) (rest : List ℕ)
      → drop a b.memory ≡ be_word 1 ++ rest
      → switch b at_none (node_parser a)
        ≡ continued (parser_at at_begin_node [] [] no_nodes (a + 4))
  unfolding switch
  switch_begin a rest e =
      ap (λ (n : ℕ). none_round (token_of n) (node_parser a)) (word_here a 1 rest e (omega arith))

  pub switch_name :
      (a : ℕ) (name : String) (rest : List ℕ)
      → drop a b.memory ≡ name ++ 0 ∷ rest
      → IsName name
      → switch b at_begin_node (parser_at at_begin_node [] [] no_nodes a)
        ≡ continued (parser_at at_node_name name [] no_nodes (align_to 4 (a + length name)))
  unfolding switch
  switch_name a name rest e h =
      ap
        (λ (s : String).
          continued (parser_at at_node_name s [] no_nodes (align_to 4 (a + length s))))
        (ap string_at e ∙ string_at-IsName name rest h)

  module _ (name : String) (ps : List Property) (cs : Nodes) (a : ℕ) where
    switch_word :
        (n : ℕ) (rest : List ℕ)
        → drop a b.memory ≡ be_word n ++ rest
        → n < 2 ^ 32
        → switch b at_node_name (parser_at at_node_name name ps cs a)
          ≡ node_name_round (token_of n) (parser_at at_node_name name ps cs a)
    unfolding switch
    switch_word n rest e h =
        ap (λ (k : ℕ). node_name_round (token_of k) (parser_at at_node_name name ps cs a))
          (word_here a n rest e h)

    pub switch_zero :
        (rest : List ℕ)
        → drop a b.memory ≡ be_word 0 ++ rest
        → switch b at_node_name (parser_at at_node_name name ps cs a)
          ≡ continued (parser_at at_node_name name ps cs (a + 4))
    switch_zero rest e =
        switch_word 0 rest e (omega arith) ∙ unfold node_name_round token_of in refl

    pub switch_child :
        (rest : List ℕ)
        → drop a b.memory ≡ be_word 1 ++ rest
        → switch b at_node_name (parser_at at_node_name name ps cs a)
          ≡ descend (parser_at at_node_name name ps cs a)
    switch_child rest e =
        switch_word 1 rest e (omega arith) ∙ unfold node_name_round token_of in refl

    pub switch_end :
        (rest : List ℕ)
        → drop a b.memory ≡ be_word 2 ++ rest
        → switch b at_node_name (parser_at at_node_name name ps cs a)
          ≡ continued (parser_at at_end_node name ps cs a)
    switch_end rest e = switch_word 2 rest e (omega arith) ∙ unfold node_name_round token_of in refl

    pub switch_property :
        (rest : List ℕ)
        → drop a b.memory ≡ be_word 3 ++ rest
        → switch b at_node_name (parser_at at_node_name name ps cs a)
          ≡ continued (parser_at at_prop name ps cs (a + 4))
    switch_property rest e =
        switch_word 3 rest e (omega arith) ∙ unfold node_name_round token_of in refl

  pub switch_return :
      (name : String) (ps : List Property) (cs : Nodes) (a : ℕ)
      → switch b at_end_node (parser_at at_end_node name ps cs a)
        ≡ returned (parsed (node name ps cs) a)
  unfolding switch
  switch_return name ps cs a = refl

  property_lem :
      (offset_of : String → ℕ) (a : ℕ) (key text rest : List ℕ)
      → drop a b.memory ≡ be_word (length text) ++ (be_word (offset_of key) ++ (text ++ rest))
      → IsStored offset_of b (key, text)
      → property_at b a ≡ (key, text)
  unfolding property_at
  property_lem offset_of a key text rest e s =
      let next : drop (a + 4) b.memory ≡ be_word (offset_of key) ++ (text ++ rest) =
        drop_past a b.memory (be_word (length text)) _ 4 e refl in
      let body : drop (a + 8) b.memory ≡ text ++ rest =
        drop_past a b.memory (be_word (length text) ++ be_word (offset_of key)) (text ++ rest) 8 e
          refl in
      let first : string_at
            (drop (b.header + off_dt_strings b + be32 (drop (a + 4) b.memory)) b.memory)
          ≡ key =
        ap (λ n. string_at (drop (b.header + off_dt_strings b + n) b.memory))
          (word_here (a + 4) (offset_of key) _ next s.offset_fits)
        ∙ s.stored in
      let second : take (be32 (drop a b.memory)) (drop (a + 8) b.memory) ≡ text =
        ap (λ n. take n (drop (a + 8) b.memory)) (word_here a (length text) _ e s.length_fits)
        ∙ (ap (take (length text)) body
            ∙ (take_append_le (length text) text rest (omega arith)
                ∙ take_all (length text) text (omega arith))) in
      λ i. (first i, second i)

  pub switch_stored :
      (offset_of : String → ℕ) (name : String) (ps : List Property) (cs : Nodes) (a : ℕ)
      (p : Property) (rest : List ℕ)
      → drop a b.memory ≡ be_word (length p.1) ++ (be_word (offset_of p.0) ++ (p.1 ++ rest))
      → IsStored offset_of b p
      → switch b at_prop (parser_at at_prop name ps cs a)
        ≡ continued
            (parser_at at_node_name name (ps ++ p ∷ []) cs (align_to 4 (a + 8 + length p.1)))
  unfolding switch
  switch_stored offset_of name ps cs a (key, text) rest e s =
      let length_e = word_here a (length text) _ e s.length_fits in
      let property_e = property_lem offset_of a key text rest e s in
      λ i.
        continued (
          parser_at at_node_name name (ps ++ property_e i ∷ []) cs
            (align_to 4 (a + 8 + length_e i)))
