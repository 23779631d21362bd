-- ===== src/DeviceTree.antt =====
-- The flattened device tree: Kernel/Firmware/FDT/FDTParser.cpp, FDTParser.h and FDT.h, with the big-endian numbers
-- of Utils/Endian.h.
-- Memory is the list of its bytes from address 0 on; what is read behind it is 0. An array of nodes is the list of
-- its elements, `Nodes` where a node holds it.
pub mod Reserved
pub mod Parser
pub mod Words
pub mod Encoding
pub mod Fields
pub mod Rounds
pub mod Children
pub mod RoundTrip
pub mod Search
pub mod Positions
pub mod Lookup
pub mod Collect
use matte_os.Base.{
  ℕ, zero, suc, ◌+◌, ◌-◌, ◌*◌, ◌/◌, ◌%◌, ◌^◌, Bool, true, false, Option, none, some, List, [], ◌∷◌,
  ◌++◌, ◌==◌, ltb, ◌||◌, if◌then◌else◌, get_or, take, drop, length,
}
use matte_os.Errors.{ErrorOr, value, error, create_from_string}
use matte_os.Strings.{String, calculate_size}
use matte_os.Paths.{split}

abbrev pub Property : Type 0
Property = String × String

mutual
  pub data Node : Type 0 where
    node : String → List Property → Nodes → Node

  pub data Nodes : Type 0 where
    no_nodes : Nodes
    with_node : Node → Nodes → Nodes

abbrev pub full_name : Node → String
full_name (node name properties children) = name

abbrev pub children_of : Node → Nodes
children_of (node name properties children) = children

-- m_children.add
unfoldable pub add_node : Nodes → Node → Nodes
add_node no_nodes n = with_node n no_nodes
add_node (with_node m ns) n = with_node m (add_node ns n)

-- A big-endian u32 at the front of the bytes.
unfoldable pub be32 : List ℕ → ℕ
be32 bytes =
    get_or bytes 0 0 * 2 ^ 24
    + (get_or bytes 1 0 * 2 ^ 16 + (get_or bytes 2 0 * 2 ^ 8 + get_or bytes 3 0))

unfoldable pub be64 : List ℕ → ℕ
unfolding be32
be64 bytes = be32 bytes * 2 ^ 32 + be32 (drop 4 bytes)

-- String(char*): the characters up to the terminator.
unfoldable pub string_at : List ℕ → String
unfolding calculate_size
string_at bytes = take (calculate_size bytes) bytes

-- The alignment is a u32, so the mask `~(alignment - 1)` is one too and clears the upper half of the address. This
-- is the result for a power of two; only 4 is in use.
unfoldable pub align_to : ℕ → ℕ → ℕ
align_to alignment address = (address + alignment - 1) % 2 ^ 32 / alignment * alignment

-- m_header, in the memory that holds the blob.
pub record Blob : Type 0 where
  pub memory : List ℕ
  pub header : ℕ

-- The fields of FDTHeader that the parser reads.
unfoldable pub off_dt_struct : Blob → ℕ
unfolding be32
off_dt_struct b = be32 (drop (b.header + 8) b.memory)

unfoldable pub off_dt_strings : Blob → ℕ
unfolding be32
off_dt_strings b = be32 (drop (b.header + 12) b.memory)

unfoldable pub off_mem_rsvmap : Blob → ℕ
unfolding be32
off_mem_rsvmap b = be32 (drop (b.header + 16) b.memory)

unfoldable pub size_dt_struct : Blob → ℕ
unfolding be32
size_dt_struct b = be32 (drop (b.header + 36) b.memory)
