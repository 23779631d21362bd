-- ===== src/DeviceTree/Positions.antt =====
-- The places in the children of a node and in a path that the searches have reached.
use matte_os.Base.{ℕ, zero, suc, ◌≤◌, ◌<◌, ◌≡◌, some, List, [], ◌∷◌, get_or, drop, length, arith}
use matte_os.Strings.{String}
use matte_os.DeviceTree.{Node, Nodes, no_nodes, with_node}
use matte_os.DeviceTree.Search.{children_size, node_at}

abbrev pub drop_nodes : ℕ → Nodes → Nodes
drop_nodes zero ns = ns
drop_nodes (suc i) no_nodes = no_nodes
drop_nodes (suc i) (with_node n ns) = drop_nodes i ns

pub nodes_end : (i : ℕ) (ns : Nodes) → drop_nodes i ns ≡ no_nodes → children_size ns ≤ i
unfolding children_size
nodes_end zero no_nodes e = omega arith
nodes_end zero (with_node n ns) e = absurd (cc e)
nodes_end (suc i) no_nodes e = omega arith
nodes_end (suc i) (with_node n ns) e = omega (arith, nodes_end i ns e)

pub nodes_more :
    (i : ℕ) (ns : Nodes) (m : Node) (ms : Nodes)
    → drop_nodes i ns ≡ with_node m ms
    → (i < children_size ns) × (node_at ns i ≡ some m) × (drop_nodes (suc i) ns ≡ ms)
unfolding children_size node_at
nodes_more zero no_nodes m ms e = absurd (cc e)
nodes_more zero (with_node n ns) m ms e = (omega arith, cc e, cc e)
nodes_more (suc i) no_nodes m ms e = absurd (cc e)
nodes_more (suc i) (with_node n ns) m ms e =
    let (a, b, c) = nodes_more i ns m ms e in (omega (arith, a), b, c)

pub path_end : (k : ℕ) (path : List String) → drop k path ≡ [] → length path ≤ k
path_end zero [] e = omega arith
path_end zero (p ∷ ps) e = absurd (cc e)
path_end (suc k) [] e = omega arith
path_end (suc k) (p ∷ ps) e = omega (arith, path_end k ps e)

pub path_more :
    (k : ℕ) (path : List String) (p : String) (ps : List String)
    → drop k path ≡ p ∷ ps
    → (k < length path) × (get_or path k [] ≡ p) × (drop (suc k) path ≡ ps)
path_more zero [] p ps e = absurd (cc e)
path_more zero (q ∷ path) p ps e = (omega arith, cc e, cc e)
path_more (suc k) [] p ps e = absurd (cc e)
path_more (suc k) (q ∷ path) p ps e =
    let (a, b, c) = path_more k path p ps e in (omega (arith, a), b, c)
