-- ===== src/DeviceTree/Lookup.antt =====
-- `find_node` and `find_nodes` against recursions on the tree.
use matte_os.Base.{
  ℕ, zero, suc, ◌+◌, ◌≤◌, ◌<◌, ◌≡◌, refl, sym, ap, ◌∙◌, Bool, true, false, Option, none, some, List,
  [], ◌∷◌, if◌then◌else◌, get_or, drop, length, arith, inl, inr, Bool-cases,
}
use matte_os.Errors.{ErrorOr, value, error, create_from_string}
use matte_os.Strings.{String, equals}
use matte_os.Paths.{split}
use matte_os.DeviceTree.{Node, Nodes, node, no_nodes, with_node, children_of}
use matte_os.DeviceTree.Positions.{drop_nodes, nodes_end, nodes_more, path_end, path_more}
use matte_os.DeviceTree.Search.{
  get_name, children_size, node_at, Search, search_goes_on, find_body, find_result, search_step,
  after_step, search_loop, found_node, find_node,
}

-- A node's name is there, and is this one.
unfoldable pub has_name : Node → String → Bool
unfolding get_name
has_name n p = elim (get_name n) [ none ↦ false | some name ↦ equals name p ]

-- The names of all nodes below have a part before '@'.
unfoldable pub AreNamed : Nodes → Type 0
AreNamed no_nodes = Unit
AreNamed (with_node (node name properties cs) ns) =
    ((part : String) × (get_name (node name properties cs) ≡ some part)) × AreNamed cs × AreNamed ns

-- The first child of a name, and where a path leads to from a node.
unfoldable pub lookup : Nodes → String → Option Node
unfolding has_name
lookup no_nodes name = none
lookup (with_node n ns) name = if has_name n name then some n else lookup ns name

abbrev pub on_node {ℓ} : {A : Type ℓ} → A → (Node → A) → Option Node → A
on_node missing next none = missing
on_node missing next (some n) = next n

unfoldable pub walk : Node → List String → Option Node
unfolding lookup
walk n [] = some n
walk n (p ∷ ps) = on_node none (λ m. walk m ps) (lookup (children_of n) p)

-- The nodes below.
unfoldable pub descendants : Nodes → ℕ
descendants no_nodes = 0
descendants (with_node (node name properties cs) ns) = suc (descendants cs + descendants ns)

abbrev pub or_not_found : Option Node → ErrorOr Node
or_not_found none = error (create_from_string "Node not found")
or_not_found (some n) = value n

abbrev pub search_at : Node → ℕ → ℕ → List Node → Search
search_at n i k found = record { current_node = n; i = i; path_array_index = k; nodes = found }

module _ (body : List String → Search → Node → Option Search) (path : List String) where
  pub step_end :
      (f : ℕ) (s : Search)
      → search_goes_on path s ≡ false
      → search_loop body path (suc f) s ≡ some s
  unfolding search_loop search_step after_step
  step_end f s e = rw e refl

  pub step_child :
      (f : ℕ) (s s' : Search) (c : Node)
      → search_goes_on path s ≡ true
      → node_at (children_of s.current_node) s.i ≡ some c
      → body path s c ≡ some s'
      → search_loop body path (suc f) s ≡ search_loop body path f s'
  unfolding search_loop search_step after_step
  step_child f s s' c e at next = rw (e, at, next) refl

module _ (path : List String) where
  pub goes_on :
      (n : Node) (i k : ℕ) (found : List Node)
      → i < children_size (children_of n)
      → k < length path
      → search_goes_on path (search_at n i k found) ≡ true
  goes_on n i k found hi hk = ground arith

  pub stops_children :
      (n : Node) (i k : ℕ) (found : List Node)
      → children_size (children_of n) ≤ i
      → search_goes_on path (search_at n i k found) ≡ false
  stops_children n i k found h = ground arith

  pub stops_path :
      (n : Node) (i k : ℕ) (found : List Node)
      → length path ≤ k
      → search_goes_on path (search_at n i k found) ≡ false
  stops_path n i k found h = ground arith

  found_end :
      (n : Node) (i k : ℕ) (found : List Node)
      → length path ≡ k
      → found_node path (search_at n i k found) ≡ value n
  found_end n i k found h = ground arith

  found_not :
      (n : Node) (i k : ℕ) (found : List Node)
      → k < length path
      → found_node path (search_at n i k found) ≡ error (create_from_string "Node not found")
  found_not n i k found h = ground arith

  body_enters :
      (n c : Node) (part : String) (i k : ℕ) (found : List Node)
      → get_name c ≡ some part
      → equals part (get_or path k []) ≡ true
      → find_body path (search_at n i k found) c ≡ some (search_at c 0 (k + 1) found)
  unfolding find_body
  body_enters n c part i k found h e = rw (find_body, h, e) refl

  body_skips :
      (n c : Node) (part : String) (i k : ℕ) (found : List Node)
      → get_name c ≡ some part
      → equals part (get_or path k []) ≡ false
      → find_body path (search_at n i k found) c ≡ some (search_at n (i + 1) k found)
  unfolding find_body
  body_skips n c part i k found h e = rw (find_body, h, e) refl

-- What is left of a path, from the children that are left.
abbrev onward : Nodes → List String → Node → Option Node
onward ms [] n = some n
onward ms (p ∷ ps) n = on_node none (λ m. walk m ps) (lookup ms p)

walk-onward : (n : Node) (ps : List String) → walk n ps ≡ onward (children_of n) ps n
unfolding walk
walk-onward n [] = refl
walk-onward n (p ∷ ps) = refl

pub has_name_lem :
    (c : Node) (part p : String) → get_name c ≡ some part → has_name c p ≡ equals part p
unfolding has_name
has_name_lem c part p h = rw (has_name, h) refl

module _ (c : Node) (ms : Nodes) (p : String) where
  pub lookup_here : has_name c p ≡ true → lookup (with_node c ms) p ≡ some c
  unfolding lookup
  lookup_here e = rw e refl

  pub lookup_later : has_name c p ≡ false → lookup (with_node c ms) p ≡ lookup ms p
  unfolding lookup
  lookup_later e = rw e refl

module _ (path : List String) where
  abbrev Finds : Nodes → List String → Node → ℕ → ℕ → ℕ → List Node → Type 0
  Finds ms ps n i k f found =
      (s : Search) × (search_loop find_body path f (search_at n i k found) ≡ some s)
      × (found_node path s ≡ or_not_found (onward ms ps n))

  find_step :
      (f : ℕ) (n c : Node) (i k : ℕ) (found : List Node) (s : Search)
      → i < children_size (children_of n)
      → k < length path
      → node_at (children_of n) i ≡ some c
      → find_body path (search_at n i k found) c ≡ some s
      → search_loop find_body path (suc f) (search_at n i k found) ≡ search_loop find_body path f s
  find_step f n c i k found s hi hk at e =
      step_child find_body path f (search_at n i k found) s c (goes_on path n i k found hi hk) at e

  find_lem :
      (ms : Nodes) (ps : List String) (n : Node) (i k f : ℕ) (found : List Node)
      → drop_nodes i (children_of n) ≡ ms
      → drop k path ≡ ps
      → k ≤ length path
      → descendants ms < f
      → AreNamed ms
      → Finds ms ps n i k f found
  unfolding descendants AreNamed
  find_lem ms ps n i k zero found at rest low enough names = absurd (omega arith)
  find_lem no_nodes [] n i k (suc f) found at rest low enough names =
      let over = path_end k path rest in
      (
        search_at n i k found,
        step_end find_body path f _ (stops_path path n i k found over),
        found_end path n i k found (omega arith),
      )
  find_lem (with_node c ms) [] n i k (suc f) found at rest low enough names =
      let over = path_end k path rest in
      (
        search_at n i k found,
        step_end find_body path f _ (stops_path path n i k found over),
        found_end path n i k found (omega arith),
      )
  find_lem no_nodes (p ∷ ps) n i k (suc f) found at rest low enough names =
      let (inside, part, next) = path_more k path p ps rest in
      (
        search_at n i k found,
        step_end find_body path f _
            (stops_children path n i k found (nodes_end i (children_of n) at)),
        found_not path n i k found inside ∙ unfold lookup in refl,
      )
  find_lem (with_node (node name qs cs) ms) (p ∷ ps) n i k (suc f) found at rest low enough names =
      let c = node name qs cs in
      let (inside, part, next) = path_more k path p ps rest in
      let (more, here, later) = nodes_more i (children_of n) c ms at in
      let up_k : k + 1 ≡ suc k = omega arith in
      let up_i : i + 1 ≡ suc i = omega arith in
      let ((name_part, has_part), below, beside) = names in
      let test : equals name_part (get_or path k []) ≡ has_name c p =
        ap (λ (q : String). equals name_part q) part ∙ sym (has_name_lem c name_part p has_part) in
      elim (Bool-cases (has_name c p)) [
        | inl same ↦
            let (s, run, end) =
              find_lem cs ps c 0 (k + 1) f found refl (ap (λ (j : ℕ). drop j path) up_k ∙ next)
                (omega arith) (omega arith) below in
            (
              s,
              find_step f n c i k found _ more inside here
                    (body_enters path n c name_part i k found has_part (test ∙ same))
                  ∙ run,
              end
                  ∙ ap or_not_found (
                      sym (walk-onward c ps)
                      ∙ ap (on_node none (λ m. walk m ps)) (sym (lookup_here c ms p same))),
            )
        | inr other ↦
            let (s, run, end) =
              find_lem ms (p ∷ ps) n (i + 1) k f found
                (ap (λ (j : ℕ). drop_nodes j (children_of n)) up_i ∙ later) rest low (omega arith)
                beside in
            (
              s,
              find_step f n c i k found _ more inside here
                    (body_skips path n c name_part i k found has_part (test ∙ other))
                  ∙ run,
              end
                  ∙ ap or_not_found
                      (ap (on_node none (λ m. walk m ps)) (sym (lookup_later c ms p other))),
            )
      ]

-- In a tree where the name of every node below the root has a part before its '@', and with more fuel than there are
-- such nodes, `find_node` returns what following the parts of the path from the root gives,
-- at each node the first child with that name before its '@', or an error where there is none.
pub find_node-walk :
    (m_root_node : Node) (path : String) (fuel : ℕ)
    → AreNamed (children_of m_root_node)
    → descendants (children_of m_root_node) < fuel
    → find_node m_root_node fuel path ≡ some (or_not_found (walk m_root_node (split 47 path)))
unfolding find_node
find_node-walk m_root_node path fuel names enough =
    let (s, run, end) =
      find_lem (split 47 path) (children_of m_root_node) (split 47 path) m_root_node 0 0 fuel []
        refl refl (omega arith) enough names in
    ap (find_result (split 47 path)) run
    ∙ unfold find_result in
      ap some (end ∙ ap or_not_found (sym (walk-onward m_root_node (split 47 path))))
