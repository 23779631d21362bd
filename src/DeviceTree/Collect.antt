-- ===== src/DeviceTree/Collect.antt =====
-- `find_nodes` against a recursion on the tree.
use mathlib.Core.List.{append_assoc, append-nil}
use matte_os.Base.{
  ℕ, zero, suc, ◌+◌, ◌-◌, ◌<◌, ◌≡◌, refl, sym, ap, ◌∙◌, true, false, Option, some, List, [], ◌∷◌,
  ◌++◌, ◌==◌, if◌then◌else◌, get_or, drop, length, arith, inl, inr, Bool-cases,
}
use matte_os.Errors.{value}
use matte_os.Strings.{String, equals}
use matte_os.Paths.{split}
use matte_os.DeviceTree.{Node, Nodes, node, no_nodes, with_node, children_of}
use matte_os.DeviceTree.Lookup.{
  has_name, has_name_lem, AreNamed, lookup, on_node, descendants, search_at, step_end, step_child,
  goes_on, stops_children, stops_path, lookup_here, lookup_later,
}
use matte_os.DeviceTree.Positions.{drop_nodes, nodes_end, nodes_more, path_end, path_more}
use matte_os.DeviceTree.Search.{
  get_name, children_size, node_at, Search, find_all_body, search_loop, find_all_result, find_nodes,
}

-- All the children of a name, and all that a path leads to from the children of a node: its last part names them.
unfoldable pub named : Nodes → String → List Node
unfolding has_name
named no_nodes name = []
named (with_node n ns) name = if has_name n name then n ∷ named ns name else named ns name

unfoldable pub walk_all : Nodes → List String → List Node
unfolding named lookup
walk_all ns [] = []
walk_all ns (p ∷ []) = named ns p
walk_all ns (p ∷ q ∷ ps) = on_node [] (λ m. walk_all (children_of m) (q ∷ ps)) (lookup ns p)

module _ (path : List String) (n c : Node) (part : String) (i k : ℕ) (found : List Node)
    (h : get_name c ≡ some part) where
  body_adds :
      equals part (get_or path k []) ≡ true
      → k + 1 ≡ length path
      → find_all_body path (search_at n i k found) c
        ≡ some (search_at n (i + 1) k (found ++ c ∷ []))
  unfolding find_all_body
  body_adds e last =
      let t : (k == length path - 1) ≡ true = ground arith in rw (find_all_body, h, e, t) refl

  body_enters :
      equals part (get_or path k []) ≡ true
      → k + 1 < length path
      → find_all_body path (search_at n i k found) c ≡ some (search_at c 0 (k + 1) found)
  unfolding find_all_body
  body_enters e inside =
      let t : (k == length path - 1) ≡ false = ground arith in rw (find_all_body, h, e, t) refl

  body_skips :
      equals part (get_or path k []) ≡ false
      → find_all_body path (search_at n i k found) c ≡ some (search_at n (i + 1) k found)
  unfolding find_all_body
  body_skips e = rw (find_all_body, h, e) refl

module _ (c : Node) (ms : Nodes) (p : String) where
  named_here : has_name c p ≡ true → named (with_node c ms) p ≡ c ∷ named ms p
  unfolding named
  named_here e = rw e refl

  named_later : has_name c p ≡ false → named (with_node c ms) p ≡ named ms p
  unfolding named
  named_later e = rw e refl

module _ (path : List String) where
  abbrev Collects : Nodes → List String → Node → ℕ → ℕ → ℕ → List Node → Type 0
  Collects ms ps n i k f found =
      (s : Search) × (search_loop find_all_body path f (search_at n i k found) ≡ some s)
      × (s.nodes ≡ found ++ walk_all ms ps)

  collect_step :
      (f : ℕ) (n c : Node) (i k : ℕ) (found : List Node) (s : Search)
      → i < children_size (children_of n)
      → k < length path
      → node_at (children_of n) i ≡ some c
      → find_all_body path (search_at n i k found) c ≡ some s
      → search_loop find_all_body path (suc f) (search_at n i k found)
        ≡ search_loop find_all_body path f s
  collect_step f n c i k found s hi hk at e =
      step_child find_all_body path f (search_at n i k found) s c (goes_on path n i k found hi hk)
        at e

  collect_lem :
      (ms : Nodes) (ps : List String) (n : Node) (i k f : ℕ) (found : List Node)
      → drop_nodes i (children_of n) ≡ ms
      → drop k path ≡ ps
      → descendants ms < f
      → AreNamed ms
      → Collects ms ps n i k f found
  unfolding descendants walk_all AreNamed
  collect_lem ms ps n i k zero found at rest enough names = absurd (omega arith)
  collect_lem no_nodes [] n i k (suc f) found at rest enough names = (
    search_at n i k found,
    step_end find_all_body path f _ (stops_path path n i k found (path_end k path rest)),
    sym (append-nil found),
  )
  collect_lem (with_node c ms) [] n i k (suc f) found at rest enough names = (
    search_at n i k found,
    step_end find_all_body path f _ (stops_path path n i k found (path_end k path rest)),
    sym (append-nil found),
  )
  collect_lem no_nodes (p ∷ []) n i k (suc f) found at rest enough names = (
    search_at n i k found,
    step_end find_all_body path f _
        (stops_children path n i k found (nodes_end i (children_of n) at)),
    unfold named in sym (append-nil found),
  )
  collect_lem no_nodes (p ∷ q ∷ ps) n i k (suc f) found at rest enough names = (
    search_at n i k found,
    step_end find_all_body path f _
        (stops_children path n i k found (nodes_end i (children_of n) at)),
    unfold lookup in sym (append-nil found),
  )
  collect_lem (with_node (node name qs cs) ms) (p ∷ []) n i k (suc f) found at rest enough names =
      let c = node name qs cs in
      let (inside, part, next) = path_more k path p [] rest in
      let over = path_end (suc k) path next in
      let (more, here, later) = nodes_more i (children_of n) c ms at in
      let up_i : i + 1 ≡ suc i = omega arith in
      let later_i = ap (λ (j : ℕ). drop_nodes j (children_of n)) up_i ∙ later in
      let ((name_part, has_part), under, beside) = names in
      let test : equals name_part (get_or path k []) ≡ has_name c p =
        ap (λ (r : String). equals name_part r) part ∙ sym (has_name_lem c name_part p has_part) in
      elim (Bool-cases (has_name c p)) [
        | inl same ↦
            let (s, run, end) =
              collect_lem ms (p ∷ []) n (i + 1) k f (found ++ c ∷ []) later_i rest (omega arith)
                beside in
            (
              s,
              collect_step f n c i k found _ more inside here
                    (body_adds path n c name_part i k found has_part (test ∙ same) (omega arith))
                  ∙ run,
              end
                  ∙ append_assoc found (c ∷ []) (named ms p)
                  ∙ ap (λ (l : List Node). found ++ l) (sym (named_here c ms p same)),
            )
        | inr other ↦
            let (s, run, end) =
              collect_lem ms (p ∷ []) n (i + 1) k f found later_i rest (omega arith) beside in
            (
              s,
              collect_step f n c i k found _ more inside here
                    (body_skips path n c name_part i k found has_part (test ∙ other))
                  ∙ run,
              end ∙ ap (λ (l : List Node). found ++ l) (sym (named_later c ms p other)),
            )
      ]
  collect_lem (with_node (node name qs cs) ms) (p ∷ q ∷ ps) n i k (suc f) found at rest enough
        names =
      let c = node name qs cs in
      let (inside, part, next) = path_more k path p (q ∷ ps) rest in
      let (again, part', next') = path_more (suc k) path q ps next in
      let (more, here, later) = nodes_more i (children_of n) c ms at in
      let up_i : i + 1 ≡ suc i = omega arith in
      let up_k : k + 1 ≡ suc k = omega arith in
      let later_i = ap (λ (j : ℕ). drop_nodes j (children_of n)) up_i ∙ later in
      let ((name_part, has_part), under, beside) = names in
      let test : equals name_part (get_or path k []) ≡ has_name c p =
        ap (λ (r : String). equals name_part r) part ∙ sym (has_name_lem c name_part p has_part) in
      let below = on_node [] (λ m. walk_all (children_of m) (q ∷ ps)) in
      elim (Bool-cases (has_name c p)) [
        | inl same ↦
            let (s, run, end) =
              collect_lem cs (q ∷ ps) c 0 (k + 1) f found refl
                (ap (λ (j : ℕ). drop j path) up_k ∙ next) (omega arith) under in
            (
              s,
              collect_step f n c i k found _ more inside here
                    (body_enters path n c name_part i k found has_part (test ∙ same) (omega arith))
                  ∙ run,
              end ∙ ap (λ (o : Option Node). found ++ below o) (sym (lookup_here c ms p same)),
            )
        | inr other ↦
            let (s, run, end) =
              collect_lem ms (p ∷ q ∷ ps) n (i + 1) k f found later_i rest (omega arith) beside in
            (
              s,
              collect_step f n c i k found _ more inside here
                    (body_skips path n c name_part i k found has_part (test ∙ other))
                  ∙ run,
              end ∙ ap (λ (o : Option Node). found ++ below o) (sym (lookup_later c ms p other)),
            )
      ]

-- In a tree where the name of every node below the root has a part before its '@', and with more fuel than there are
-- such nodes, `find_nodes` returns all the children with the name of the path's last part, in
-- order, of the node to which the parts before lead, and nothing where they lead to none.
pub find_nodes-walk_all :
    (m_root_node : Node) (path : String) (fuel : ℕ)
    → AreNamed (children_of m_root_node)
    → descendants (children_of m_root_node) < fuel
    → find_nodes m_root_node fuel path
      ≡ some (value (walk_all (children_of m_root_node) (split 47 path)))
unfolding find_nodes
find_nodes-walk_all m_root_node path fuel names enough =
    let (s, run, end) =
      collect_lem (split 47 path) (children_of m_root_node) (split 47 path) m_root_node 0 0 fuel []
        refl refl enough names in
    ap find_all_result run ∙ unfold find_all_result in ap (λ (l : List Node). some (value l)) end
