-- ===== src/Tests/DeviceTree.antt =====
-- The device tree.
use matte_os.Base.{
  ℕ, ◌+◌, ◌-◌, ◌≡◌, refl, inl, none, some, List, [], ◌∷◌, ◌++◌, length, replicate, arith,
}
use matte_os.Errors.{value, error, create_from_string}
use matte_os.Strings.{String}
use matte_os.Paths.{split}
use matte_os.DeviceTree.{
  Node, Nodes, node, no_nodes, with_node, Blob, off_dt_struct, off_dt_strings, off_mem_rsvmap,
  size_dt_struct, string_at,
}
use matte_os.DeviceTree.Collect.{walk_all, find_nodes-walk_all}
use matte_os.DeviceTree.Encoding.{encode, IsTree}
use matte_os.DeviceTree.Lookup.{AreNamed, descendants, walk, or_not_found, find_node-walk}
use matte_os.DeviceTree.Parser.{parsed, parse_nodes}
use matte_os.DeviceTree.Reserved.{
  ReserveEntry, encode_entry, encode_entries, AreEntries, parse_reserve_entries,
  parse_reserve_entries-encode,
}
use matte_os.DeviceTree.Children.{append_nodes}
use matte_os.DeviceTree.RoundTrip.{parse_nodes-encode, parse_nodes_cut}
use matte_os.DeviceTree.Search.{get_name, find_node, find_nodes}
use matte_os.DeviceTree.Words.{be_word, IsName}

-- The header, for a size of the structure block.
abbrev header_of : ℕ → List ℕ
header_of size =
    be_word 0xd00dfeed
    ++ be_word 200
    ++ be_word 72
    ++ be_word 112
    ++ be_word 40
    ++ be_word 17
    ++ be_word 16
    ++ be_word 0
    ++ be_word 2
    ++ be_word size

abbrev reserved : ReserveEntry
reserved = record { address = 4096; size = 512 }

abbrev no_entry : ReserveEntry
no_entry = record { address = 0; size = 0 }

abbrev start_of : ℕ → List ℕ
start_of size = header_of size ++ (encode_entries (reserved ∷ []) ++ encode_entry no_entry)

abbrev offset_of : String → ℕ
offset_of name = 0

-- A root with the property "r" and the child "a@7".
abbrev child : Node
child = node (b'a' ∷ b'@' ∷ b'7' ∷ []) [] no_nodes

abbrev root : Node
root = node [] ((b'r' ∷ [], 1 ∷ 2 ∷ 3 ∷ []) ∷ []) (with_node child no_nodes)

abbrev blob : Blob
blob = record { memory = start_of 112 ++ (encode offset_of root ++ (b'r' ∷ 0 ∷ [])); header = 0 }

parses : parse_nodes blob 60 ≡ parsed root 108
unfolding parse_nodes encode encode_entries
parses = refl

sizes : (size_dt_struct blob ≡ 112) × (off_dt_struct blob ≡ 72)
unfolding size_dt_struct off_dt_struct encode encode_entries
sizes = (refl, refl)

root-IsTree : IsTree offset_of blob root
unfolding IsTree IsName string_at encode encode_entries
root-IsTree = (
  tt,
  (
    record {
      stored = unfold off_dt_strings in refl;
      offset_fits = omega arith;
      length_fits = omega arith;
    },
    tt,
  ),
  ((((omega arith), ((omega arith), ((omega arith), tt))), tt, tt), tt),
)

parse_nodes-encode_example :
    parse_nodes blob 112 ≡ parsed root (length (start_of 112) + length (encode offset_of root) - 4)
parse_nodes-encode_example =
    parse_nodes-encode blob offset_of root (start_of 112) (b'r' ∷ 0 ∷ []) 112 refl
      (unfold off_dt_struct encode encode_entries in refl) (unfold encode_entries in refl)
      (unfold off_dt_struct size_dt_struct encode encode_entries in omega arith)
      (unfold size_dt_struct encode encode_entries in omega arith) root-IsTree
      (unfold size_dt_struct encode encode_entries in omega arith)

-- A blob as the specification lays it out: its size counts the structure block only, and the child "bb…b" is lost.
abbrev long_child : Node
long_child = node (replicate 55 b'b') [] no_nodes

abbrev kept : Nodes
kept = with_node child no_nodes

abbrev lost : Nodes
lost = with_node long_child no_nodes

abbrev full_blob : Blob
full_blob = record {
  memory = start_of 92 ++ (encode offset_of (node [] [] (append_nodes kept lost)) ++ be_word 9);
  header = 0;
}

conforming : length (encode offset_of (node [] [] (append_nodes kept lost)) ++ be_word 9) ≡ 92
unfolding encode
conforming = refl

kept-IsTree : IsTree offset_of full_blob (node [] [] kept)
unfolding IsTree IsName
kept-IsTree = (tt, tt, ((((omega arith), ((omega arith), ((omega arith), tt))), tt, tt), tt))

parse_nodes_cut_example :
    parse_nodes full_blob 96 ≡ parsed (node [] [] kept) (0 + size_dt_struct full_blob)
parse_nodes_cut_example =
    parse_nodes_cut full_blob offset_of [] [] kept lost (start_of 92) (be_word 9) 96 refl
      (unfold off_dt_struct encode encode_entries in refl) (unfold encode_entries in refl)
      (unfold off_dt_struct size_dt_struct encode encode_entries in refl)
      (unfold size_dt_struct encode encode_entries in omega arith) kept-IsTree
      (unfold size_dt_struct encode encode_entries in omega arith)

parse_reserve_entries-encode_example : parse_reserve_entries blob 2 ≡ some (reserved ∷ [])
parse_reserve_entries-encode_example =
    parse_reserve_entries-encode blob (reserved ∷ []) no_entry (header_of 112)
      (encode offset_of root ++ (b'r' ∷ 0 ∷ [])) 2 (unfold encode_entries in refl)
      (unfold off_mem_rsvmap encode encode_entries in refl) (unfold AreEntries in omega arith)
      (omega arith) (omega arith) (inl refl) (omega arith)

root-AreNamed : AreNamed (with_node child no_nodes)
unfolding AreNamed get_name
root-AreNamed = ((b'a' ∷ [], refl), tt, tt)

-- "/a" and "/b".
find_node-walk_example :
    find_node root 2 (47 ∷ b'a' ∷ []) ≡ some (or_not_found (walk root (split 47 (47 ∷ b'a' ∷ []))))
find_node-walk_example =
    find_node-walk root (47 ∷ b'a' ∷ []) 2 root-AreNamed (unfold descendants in omega arith)

finds : find_node root 2 (47 ∷ b'a' ∷ []) ≡ some (value child)
unfolding find_node
finds = refl

finds_none : find_node root 2 (47 ∷ b'b' ∷ []) ≡ some (error (create_from_string "Node not found"))
unfolding find_node
finds_none = refl

find_nodes-walk_all_example :
    find_nodes root 2 (47 ∷ b'a' ∷ [])
    ≡ some (value (walk_all (with_node child no_nodes) (split 47 (47 ∷ b'a' ∷ []))))
find_nodes-walk_all_example =
    find_nodes-walk_all root (47 ∷ b'a' ∷ []) 2 root-AreNamed (unfold descendants in omega arith)

finds_all : find_nodes root 2 (47 ∷ b'a' ∷ []) ≡ some (value (child ∷ []))
unfolding find_nodes
finds_all = refl

-- A child with the name "@" has no part: the search faults.
finds_fault :
    find_node (node [] [] (with_node (node (b'@' ∷ []) [] no_nodes) no_nodes)) 9 (47 ∷ b'a' ∷ [])
    ≡ none
unfolding find_node
finds_fault = refl
