-- ===== src/DeviceTree/Search.antt =====
-- `find_node` and `find_nodes` of Kernel/Firmware/FDT/FDTParser.cpp, and `get_name` and `find_property` of FDTParser.h.
use matte_os.Base.{
  ℕ, zero, suc, ◌+◌, ◌-◌, Bool, ◌&&◌, Option, none, some, List, [], ◌∷◌, ◌++◌, ◌==◌, ltb,
  if◌then◌else◌, get_or, get_elem?, length,
}
use matte_os.Errors.{ErrorOr, value, error, create_from_string}
use matte_os.Strings.{String, equals}
use matte_os.Paths.{split}
use matte_os.DeviceTree.{Property, Node, Nodes, no_nodes, with_node, full_name, children_of}

-- The part of a name before '@'. Where `split` gives no part, an element that is not there is read: a fault, `none`.
unfoldable pub get_name : Node → Option String
unfolding split
get_name n = get_elem? (split 64 (full_name n)) 0

unfoldable pub find_property_in : List Property → String → ErrorOr Property
unfolding equals
find_property_in [] name = error (create_from_string "Property not found")
find_property_in (p ∷ ps) name = if equals p.0 name then value p else find_property_in ps name

-- m_children.size().
unfoldable pub children_size : Nodes → ℕ
children_size no_nodes = 0
children_size (with_node n ns) = suc (children_size ns)

-- m_children[i]; the parser adds no null pointer.
unfoldable pub node_at : Nodes → ℕ → Option Node
node_at no_nodes i = none
node_at (with_node n ns) zero = some n
node_at (with_node n ns) (suc i) = node_at ns i

-- The locals of the loops: `path_array` stays the same.
pub record Search : Type 0 where
  pub current_node : Node
  pub i : ℕ
  pub path_array_index : ℕ
  pub nodes : List Node

abbrev pub search_start : Node → Search
search_start root = record { current_node = root; i = 0; path_array_index = 0; nodes = [] }

abbrev pub search_goes_on : List String → Search → Bool
search_goes_on path_array s =
    ltb s.i (children_size (children_of s.current_node))
    && ltb s.path_array_index (length path_array)

-- name == path_array[path_array_index], within the bounds of the loop.
abbrev pub is_part : List String → Search → String → Bool
is_part path_array s name = equals name (get_or path_array s.path_array_index [])

-- current_node = m_children[i]; i = 0; path_array_index++.
abbrev pub enter : Search → Node → Search
enter s child = record s { current_node = child; i = 0; path_array_index = s.path_array_index + 1 }

-- The body of the loop of `find_node` at a child; `none` is the fault of a name without parts.
unfoldable pub find_body : List String → Search → Node → Option Search
unfolding equals get_name
find_body path_array s child = elim (get_name child) [
  | none ↦ none
  | some name ↦ some (if is_part path_array s name then enter s child else record s { i = s.i + 1 })
]

-- The body of the loop of `find_nodes` at a child.
unfoldable pub find_all_body : List String → Search → Node → Option Search
unfolding equals get_name
find_all_body path_array s child = elim (get_name child) [
  | none ↦ none
  | some name ↦ some (
      if is_part path_array s name
      then (if s.path_array_index == length path_array - 1
          then record s { nodes = s.nodes ++ child ∷ []; i = s.i + 1 }
          else enter s child)
      else record s { i = s.i + 1 })
]

-- A round of a loop with such a body.
pub data SearchRound : Type 0 where
  round_end round_fault : SearchRound
  round_next : Search → SearchRound

unfoldable pub search_step :
    (List String → Search → Node → Option Search) → List String → Search → SearchRound
unfolding children_size node_at
search_step body path_array s =
    if search_goes_on path_array s
    then elim (node_at (children_of s.current_node) s.i) [
      | none ↦ round_fault
      | some child ↦ elim (body path_array s child) [ none ↦ round_fault | some s' ↦ round_next s' ]
    ]
    else round_end

unfoldable pub after_step : Search → (Search → Option Search) → SearchRound → Option Search
after_step s next round_end = some s
after_step s next round_fault = none
after_step s next (round_next s') = next s'

-- The loop over the rounds left; `none` is a fault, or fuel that ran out.
unfoldable pub search_loop :
    (List String → Search → Node → Option Search) → List String → ℕ → Search → Option Search
unfolding search_step after_step
search_loop body path_array zero s = none
search_loop body path_array (suc fuel) s =
    after_step s (search_loop body path_array fuel) (search_step body path_array s)

abbrev pub found_node : List String → Search → ErrorOr Node
found_node path_array s =
    if s.path_array_index == length path_array
    then value s.current_node
    else error (create_from_string "Node not found")

-- The ends of the two functions; `none` is a fault, or fuel that ran out.
unfoldable pub find_result : List String → Option Search → Option (ErrorOr Node)
find_result path_array none = none
find_result path_array (some s) = some (found_node path_array s)

unfoldable pub find_all_result : Option Search → Option (ErrorOr (List Node))
find_all_result none = none
find_all_result (some s) = some (value s.nodes)

unfoldable pub find_node : Node → ℕ → String → Option (ErrorOr Node)
unfolding split find_body search_loop find_result
find_node m_root_node fuel path =
    let path_array = split 47 path in
    find_result path_array (search_loop find_body path_array fuel (search_start m_root_node))

unfoldable pub find_nodes : Node → ℕ → String → Option (ErrorOr (List Node))
unfolding split find_all_body search_loop find_all_result
find_nodes m_root_node fuel path =
    find_all_result (search_loop find_all_body (split 47 path) fuel (search_start m_root_node))
