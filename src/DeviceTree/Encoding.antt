-- ===== src/DeviceTree/Encoding.antt =====
-- The structure block of a tree, as the specification of the format lays it out: for each node its name, its
-- properties and its children.
use matte_os.Base.{
  ℕ, suc, ◌+◌, ◌-◌, ◌%◌, ◌^◌, ◌≤◌, ◌<◌, ◌≡◌, refl, List, [], ◌∷◌, ◌++◌, drop, length, length-append,
  arith,
}
use matte_os.Strings.{String}
use matte_os.DeviceTree.{
  Property, Node, Nodes, node, no_nodes, with_node, string_at, Blob, off_dt_strings,
}
use matte_os.DeviceTree.Words.{be_word, padding, length-padding, IsName}

abbrev pub encode_name : String → List ℕ
encode_name name = name ++ (0 ∷ padding (length name + 1))

module _ (offset_of : String → ℕ) where
  -- `offset_of` is where a property's name stands in the strings block.
  unfoldable pub encode_property : Property → List ℕ
  unfolding padding
  encode_property (name, value) =
      be_word 3
      ++ (be_word (length value) ++ (be_word (offset_of name) ++ (value ++ padding (length value))))

  unfoldable pub encode_properties : List Property → List ℕ
  unfolding encode_property
  encode_properties [] = []
  encode_properties (p ∷ ps) = encode_property p ++ encode_properties ps

  unfoldable mutual
    unfolding encode_properties padding

    pub encode : Node → List ℕ
    encode (node name ps cs) =
        be_word 1 ++ (encode_name name ++ (encode_properties ps ++ (encode_nodes cs ++ be_word 2)))

    pub encode_nodes : Nodes → List ℕ
    encode_nodes no_nodes = []
    encode_nodes (with_node n ns) = encode n ++ encode_nodes ns

  -- The name of the property is in the strings block, and the lengths are words.
  pub record IsStored (b : Blob) (p : Property) : Type 0 where
    pub stored : string_at (drop (b.header + off_dt_strings b + offset_of p.0) b.memory) ≡ p.0
    pub offset_fits : offset_of p.0 < 2 ^ 32
    pub length_fits : length p.1 < 2 ^ 32

  unfoldable pub AreStored : Blob → List Property → Type 0
  AreStored b [] = Unit
  AreStored b (p ∷ ps) = IsStored b p × AreStored b ps

  unfoldable mutual
    unfolding AreStored IsName

    pub IsTree : Blob → Node → Type 0
    IsTree b (node name ps cs) = IsName name × AreStored b ps × AreTrees b cs

    pub AreTrees : Blob → Nodes → Type 0
    AreTrees b no_nodes = Unit
    AreTrees b (with_node n ns) = IsTree b n × AreTrees b ns

-- The rounds of the loop that a node takes.
unfoldable pub count_properties : List Property → ℕ
count_properties [] = 0
count_properties (p ∷ ps) = suc (suc (count_properties ps))

unfoldable pub count_nodes : Nodes → ℕ
count_nodes no_nodes = 0
count_nodes (with_node n ns) = suc (count_nodes ns)

unfoldable mutual
  unfolding count_properties

  pub rounds : Node → ℕ
  rounds (node name ps cs) = 5 + (count_properties ps + rounds_nodes cs)

  pub rounds_nodes : Nodes → ℕ
  rounds_nodes no_nodes = 0
  rounds_nodes (with_node n ns) = suc (rounds n + rounds_nodes ns)

module _ (offset_of : String → ℕ) where
  pub length-encode_property :
      (p : Property)
      → length (encode_property offset_of p) ≡ 12 + (length p.1 + (4 - length p.1 % 4) % 4)
  unfolding encode_property
  length-encode_property (name, value) =
      omega (arith, length-append value (padding (length value)), length-padding (length value))

  properties_rounds :
      (ps : List Property) → count_properties ps ≤ length (encode_properties offset_of ps)
  unfolding count_properties encode_properties
  properties_rounds [] = omega arith
  properties_rounds (p ∷ ps) = omega (
    arith,
    length-append (encode_property offset_of p) (encode_properties offset_of ps),
    length-encode_property p,
    properties_rounds ps,
  )

  mutual
    unfolding rounds encode

    rounds_node-le : (n : Node) → suc (rounds n) ≤ length (encode offset_of n)
    rounds_node-le (node name ps cs) = omega (
      arith,
      length-append name (0 ∷ padding (length name + 1)),
      length-append (encode_name name)
          (encode_properties offset_of ps ++ (encode_nodes offset_of cs ++ be_word 2)),
      length-append (encode_properties offset_of ps) (encode_nodes offset_of cs ++ be_word 2),
      length-append (encode_nodes offset_of cs) (be_word 2),
      length-padding (length name + 1),
      properties_rounds ps,
      rounds_nodes-le cs,
    )

    rounds_nodes-le : (ns : Nodes) → rounds_nodes ns ≤ length (encode_nodes offset_of ns)
    rounds_nodes-le no_nodes = omega arith
    rounds_nodes-le (with_node n ns) = omega (
      arith,
      length-append (encode offset_of n) (encode_nodes offset_of ns),
      rounds_node-le n,
      rounds_nodes-le ns,
    )

  pub rounds-length : (n : Node) → suc (rounds n) ≤ length (encode offset_of n)
  rounds-length n = rounds_node-le n

pub length-encode_name :
    (name : String) → length (encode_name name) ≡ length name + 1 + (4 - (length name + 1) % 4) % 4
length-encode_name name =
    omega
      (arith, length-append name (0 ∷ padding (length name + 1)), length-padding (length name + 1))

-- Every part of the structure block is a number of words.
module _ (offset_of : String → ℕ) where
  pub aligned_property : (p : Property) → length (encode_property offset_of p) % 4 ≡ 0
  aligned_property p = omega (arith, length-encode_property offset_of p)

  pub aligned_properties : (ps : List Property) → length (encode_properties offset_of ps) % 4 ≡ 0
  unfolding encode_properties
  aligned_properties [] = refl
  aligned_properties (p ∷ ps) = omega (
    arith,
    length-append (encode_property offset_of p) (encode_properties offset_of ps),
    aligned_property p,
    aligned_properties ps,
  )

  pub length-encode :
      (name : String) (ps : List Property) (cs : Nodes)
      → length (encode offset_of (node name ps cs))
        ≡ 8
          + length (encode_name name)
          + length (encode_properties offset_of ps)
          + length (encode_nodes offset_of cs)
  unfolding encode
  length-encode name ps cs = omega (
    arith,
    length-append (encode_name name)
        (encode_properties offset_of ps ++ (encode_nodes offset_of cs ++ be_word 2)),
    length-append (encode_properties offset_of ps) (encode_nodes offset_of cs ++ be_word 2),
    length-append (encode_nodes offset_of cs) (be_word 2),
  )

  mutual
    unfolding encode_nodes

    aligned_node : (n : Node) → length (encode offset_of n) % 4 ≡ 0
    aligned_node (node name ps cs) = omega (
      arith,
      length-encode name ps cs,
      length-encode_name name,
      aligned_properties ps,
      aligned_nodes cs,
    )

    aligned_nodes : (ns : Nodes) → length (encode_nodes offset_of ns) % 4 ≡ 0
    aligned_nodes no_nodes = refl
    aligned_nodes (with_node n ns) = omega (
      arith,
      length-append (encode offset_of n) (encode_nodes offset_of ns),
      aligned_node n,
      aligned_nodes ns,
    )

  pub encode-aligned : (n : Node) → length (encode offset_of n) % 4 ≡ 0
  encode-aligned n = aligned_node n
