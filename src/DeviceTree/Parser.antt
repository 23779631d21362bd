-- ===== src/DeviceTree/Parser.antt =====
-- The structure block: the state machine `parse_node` of Kernel/Firmware/FDT/FDTParser.cpp.
use matte_os.Base.{
  ℕ, zero, suc, ◌+◌, ◌-◌, ◌%◌, ◌^◌, Bool, List, [], ◌∷◌, ◌++◌, ◌==◌, ltb, ◌||◌, if◌then◌else◌, take,
  drop, length,
}
use matte_os.Strings.{String}
use matte_os.DeviceTree.{
  Property, Node, Nodes, node, no_nodes, add_node, be32, string_at, align_to, Blob, off_dt_struct,
  off_dt_strings, size_dt_struct,
}

pub data ParserState : Type 0 where
  at_none at_begin_node at_node_name at_end_node at_prop at_end : ParserState

-- The locals of `parse_node`, `current_node` by its parts.
pub record NodeParser : Type 0 where
  pub state : ParserState
  pub name : String
  pub properties : List Property
  pub children : Nodes
  pub current_offset : ℕ

abbrev pub current_node : NodeParser → Node
current_node p = node p.name p.properties p.children

abbrev pub node_parser : ℕ → NodeParser
node_parser offset = record {
  state = at_none;
  name = [];
  properties = [];
  children = no_nodes;
  current_offset = offset;
}

-- What a call returns: a node and the `*offset` that it leaves, a null pointer, or that the fuel ran out.
pub data Parsed : Type 0 where
  out_of_fuel failed : Parsed
  parsed : Node → ℕ → Parsed

-- What a round of the loop does: it returns, goes on, or parses a child.
pub data Round : Type 0 where
  returned : Parsed → Round
  continued : NodeParser → Round
  descend : NodeParser → Round

-- FDT_BEGIN_NODE, FDT_END_NODE, FDT_PROP, FDT_NOP or 0, FDT_END.
pub data Token : Type 0 where
  begin_token end_node_token prop_token skip_token end_token unknown_token : Token

unfoldable pub token_of : ℕ → Token
token_of type =
    if type == 0 || type == 4
    then skip_token
    else if type == 3
    then prop_token
    else if type == 1
    then begin_token
    else if type == 2
    then end_node_token
    else if type == 9
    then end_token
    else unknown_token

-- The branches of ParserState::NodeName; `current_offset++` moves over a word.
unfoldable pub node_name_round : Token → NodeParser → Round
node_name_round skip_token p = continued (record p { current_offset = p.current_offset + 4 })
node_name_round prop_token p =
    continued (record p { state = at_prop; current_offset = p.current_offset + 4 })
node_name_round begin_token p = descend p
node_name_round end_node_token p = continued (record p { state = at_end_node })
node_name_round end_token p =
    continued (record p { state = at_end; current_offset = p.current_offset + 4 })
node_name_round unknown_token p = returned failed

unfoldable pub none_round : Token → NodeParser → Round
none_round begin_token p =
    continued (record p { state = at_begin_node; current_offset = p.current_offset + 4 })
none_round _ p = returned failed

-- The property at the cursor: FDTProp, its name in the strings block, its value behind it.
unfoldable pub property_at : Blob → ℕ → Property
unfolding string_at be32 off_dt_strings
property_at b offset =
    let len = be32 (drop offset b.memory) in
    let name_offset = be32 (drop (offset + 4) b.memory) in
    (
      string_at (drop (b.header + off_dt_strings b + name_offset) b.memory),
      take len (drop (offset + 8) b.memory),
    )

unfoldable pub switch : Blob → ParserState → NodeParser → Round
unfolding token_of node_name_round none_round string_at align_to property_at be32
switch b at_none p = none_round (token_of (be32 (drop p.current_offset b.memory))) p
switch b at_begin_node p =
    let name = string_at (drop p.current_offset b.memory) in
    continued (record p {
      name = name;
      current_offset = align_to 4 (p.current_offset + length name);
      state = at_node_name;
    })
switch b at_node_name p = node_name_round (token_of (be32 (drop p.current_offset b.memory))) p
switch b at_prop p =
    let len = be32 (drop p.current_offset b.memory) in
    continued (record p {
      properties = p.properties ++ property_at b p.current_offset ∷ [];
      current_offset = align_to 4 (p.current_offset + 8 + len);
      state = at_node_name;
    })
switch b at_end_node p = returned (parsed (current_node p) p.current_offset)
switch b at_end p = continued (record p { current_offset = p.current_offset + 4 })

-- The loop's condition: the distance of the cursor from the header, as a u64.
unfoldable pub in_bounds : Blob → ℕ → Bool
unfolding size_dt_struct
in_bounds b offset = ltb ((offset + 2 ^ 64 - b.header) % 2 ^ 64) (size_dt_struct b)

unfoldable pub round : Blob → NodeParser → Round
unfolding switch in_bounds
round b p =
    if in_bounds b p.current_offset
    then switch b p.state p
    else returned (parsed (current_node p) p.current_offset)

-- After the call for a child: `add`, unless it is null, and `current_offset++`.
unfoldable pub after_child : NodeParser → (NodeParser → Parsed) → Parsed → Parsed
unfolding add_node
after_child p next out_of_fuel = out_of_fuel
after_child p next failed = next (record p { current_offset = p.current_offset + 4 })
after_child p next (parsed child offset) =
    next (record p { children = add_node p.children child; current_offset = offset + 4 })

unfoldable pub after_round : (NodeParser → Parsed) → Round → Parsed
unfolding after_child
after_round next (returned r) = r
after_round next (continued p) = next p
after_round next (descend p) = after_child p next (next (node_parser p.current_offset))

-- The loop of `parse_node` over the rounds left; a child is parsed within them.
unfoldable pub parse_loop : Blob → ℕ → NodeParser → Parsed
unfolding round after_round
parse_loop b zero p = out_of_fuel
parse_loop b (suc fuel) p = after_round (parse_loop b fuel) (round b p)

unfoldable pub parse_node : Blob → ℕ → ℕ → Parsed
unfolding parse_loop
parse_node b fuel offset = parse_loop b fuel (node_parser offset)

unfoldable pub parse_nodes : Blob → ℕ → Parsed
unfolding parse_node off_dt_struct
parse_nodes b fuel = parse_node b fuel (b.header + off_dt_struct b)
