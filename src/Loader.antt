-- ===== src/Loader.antt =====
-- The ELF loader: `validate_elf_header` and `parse_modinfo` of Kernel/Process/Loader/Loader.cpp, the header of
-- Kernel/Process/Loader/ELF.h, `memcmp` of Utils/Memory.cpp and `is_printable` of Utils/Strings/Character.h.
-- A buffer is the list of its bytes; what is read behind it is 0. `char` is unsigned on this machine.
pub mod Run
pub mod Grammar
pub mod Header
use Prim.Native.String.{String as Text}
use matte_os.Base.{
  ℕ, zero, suc, ◌+◌, ◌-◌, ◌*◌, ◌%◌, ◌^◌, Bool, true, false, not, List, [], ◌∷◌, ◌++◌, ◌==◌, ltb,
  leb, ◌&&◌, ◌||◌, if◌then◌else◌, get_or, take, drop, length,
}
use matte_os.Errors.{ErrorOr, value, error, create_from_string}
use matte_os.Strings.{String}

unfoldable pub is_printable : ℕ → Bool
is_printable c =
    (leb 32 c && leb c 126)
    || ((leb 160 c && leb c 55295)
        || ((leb 57344 c && leb c 65533) || (leb 65536 c && leb c 1114111)))

abbrev pub ModuleProperty : Type 0
ModuleProperty = String × String

pub data ParseState : Type 0 where
  key_state value_state : ParseState

-- The locals of `parse_modinfo`, with the list of properties that it fills.
pub record Modinfo : Type 0 where
  pub state : ParseState
  pub current_string : String
  pub current_property : ModuleProperty
  pub out_properties : List ModuleProperty

abbrev pub modinfo_start : List ModuleProperty → Modinfo
modinfo_start out = record {
  state = key_state;
  current_string = [];
  current_property = ([], []);
  out_properties = out;
}

-- One round of the loop, in each of the two states.
unfoldable pub modinfo_step_in : ParseState → Modinfo → ℕ → ErrorOr Modinfo
unfolding is_printable
modinfo_step_in key_state m c =
    if c == 61
    then value (record m {
      current_property = (m.current_string, m.current_property.1);
      current_string = [];
      state = value_state;
    })
    else if c == 0
    then error (create_from_string "Unexpected end of line. Expected '=' separator.")
    else if is_printable c
    then value (record m { current_string = m.current_string ++ c ∷ [] })
    else error (create_from_string "Invalid character in modinfo key.")
modinfo_step_in value_state m c =
    if c == 0
    then value (record m {
      out_properties = m.out_properties ++ (m.current_property.0, m.current_string) ∷ [];
      current_string = [];
      current_property = ([], []);
      state = key_state;
    })
    else if is_printable c
    then value (record m { current_string = m.current_string ++ c ∷ [] })
    else error (create_from_string "Invalid character in modinfo value.")

unfoldable pub modinfo_step : Modinfo → ℕ → ErrorOr Modinfo
unfolding modinfo_step_in
modinfo_step m c = modinfo_step_in m.state m c

unfoldable pub modinfo_end : ParseState → ErrorOr (Unit {0})
modinfo_end key_state = value tt
modinfo_end value_state =
    error (create_from_string "Unexpected end of modinfo. Expected null terminator after value.")

-- An error ends the loop with the properties that are there.
unfoldable pub modinfo_next :
    List ModuleProperty
    → (Modinfo → List ModuleProperty × ErrorOr (Unit {0}))
    → ErrorOr Modinfo
    → List ModuleProperty × ErrorOr (Unit {0})
modinfo_next out next (error e) = (out, error e)
modinfo_next out next (value m) = next m

-- The loop from the index `i` on, `n` rounds.
unfoldable pub modinfo_loop : List ℕ → ℕ → ℕ → Modinfo → List ModuleProperty × ErrorOr (Unit {0})
unfolding modinfo_step modinfo_next modinfo_end
modinfo_loop bytes zero i m = (m.out_properties, modinfo_end m.state)
modinfo_loop bytes (suc n) i m =
    modinfo_next m.out_properties (modinfo_loop bytes n (i + 1)) (modinfo_step m (get_or bytes i 0))

-- The section's offset and size, and the properties there were. The result is the properties and what is
-- returned.
unfoldable pub parse_modinfo :
    List ℕ → ℕ → ℕ → List ModuleProperty → List ModuleProperty × ErrorOr (Unit {0})
unfolding modinfo_loop
parse_modinfo elf_buffer offset size out = modinfo_loop elf_buffer size offset (modinfo_start out)

-- `memcmp` answers whether the bytes are the same: `n` rounds from the front of both.
unfoldable pub memcmp : ℕ → List ℕ → List ℕ → Bool
memcmp zero a b = true
memcmp (suc n) a b =
    if not (get_or a 0 0 == get_or b 0 0) then false else memcmp n (drop 1 a) (drop 1 b)

-- An integer of `n` bytes in the machine's order.
unfoldable pub read_le : ℕ → List ℕ → ℕ → ℕ
read_le zero bytes i = 0
read_le (suc n) bytes i = get_or bytes i 0 + 256 * read_le n bytes (i + 1)

pub record ElfHeader : Type 0 where
  pub ident : List ℕ
  pub type : ℕ
  pub machine : ℕ
  pub version : ℕ
  pub entry : ℕ
  pub program_header_offset : ℕ
  pub section_header_offset : ℕ
  pub flags : ℕ
  pub elf_header_size : ℕ
  pub program_header_entry_size : ℕ
  pub program_header_entry_count : ℕ
  pub section_header_entry_size : ℕ
  pub section_header_entry_count : ℕ
  pub section_header_string_table_index : ℕ

-- reinterpret_cast<ELF::ElfHeader*>: the fields at their places in the packed structure.
unfoldable pub elf_header_at : List ℕ → ElfHeader
unfolding read_le
elf_header_at bytes = record {
  ident = take 16 bytes;
  type = read_le 2 bytes 16;
  machine = read_le 2 bytes 18;
  version = read_le 4 bytes 20;
  entry = read_le 8 bytes 24;
  program_header_offset = read_le 8 bytes 32;
  section_header_offset = read_le 8 bytes 40;
  flags = read_le 4 bytes 48;
  elf_header_size = read_le 2 bytes 52;
  program_header_entry_size = read_le 2 bytes 54;
  program_header_entry_count = read_le 2 bytes 56;
  section_header_entry_size = read_le 2 bytes 58;
  section_header_entry_count = read_le 2 bytes 60;
  section_header_string_table_index = read_le 2 bytes 62;
}

-- The product of the two u16 is an `int`: the machine's, in two's complement, added to a u64.
unfoldable pub int_to_u64 : ℕ → ℕ
int_to_u64 p = if ltb p (2 ^ 31) then p else p + 0xffffffff00000000

-- Where a table of `count` entries of `size` bytes ends, as it is computed.
unfoldable pub table_end : ℕ → ℕ → ℕ → ℕ
unfolding int_to_u64
table_end offset count size = (offset + int_to_u64 (count * size)) % 2 ^ 64

abbrev pub elf_magic : List ℕ
elf_magic = 0x7f ∷ b'E' ∷ b'L' ∷ b'F' ∷ []

-- ET_DYN is let through where ET_EXEC is expected.
unfoldable pub is_unexpected_type : ℕ → ℕ → Bool
is_unexpected_type type expected_type =
    not (type == expected_type) && not (expected_type == 2 && type == 3)

-- if(check) { return Error::create_from_string(message); } for each in order, then the value.
unfoldable pub reject {ℓ} : {A : Type ℓ} → List (Bool × Text) → A → ErrorOr A
reject [] a = value a
reject ((check, message) ∷ checks) a =
    if check then error (create_from_string message) else reject checks a

-- The checks of `validate_elf_header` on the size of the buffer and the header.
unfoldable pub elf_checks : ℕ → ElfHeader → ℕ → List (Bool × Text)
unfolding memcmp table_end is_unexpected_type
elf_checks size h expected_type =
    (ltb size 64, "ELF buffer too small to contain ELF header")
    ∷ ((memcmp 4 h.ident elf_magic, "Invalid ELF magic")
        ∷ ((not (get_or h.ident 4 0 == 2), "Unsupported ELF class")
            ∷ ((not (get_or h.ident 5 0 == 1), "Unsupported ELF data encoding")
                ∷ ((not (h.machine == 243), "Unsupported ELF machine type")
                    ∷ ((not (h.version == 1), "Unsupported ELF version")
                        ∷ ((is_unexpected_type h.type expected_type, "Unexpected ELF type")
                            ∷ ((
                              ltb size (
                                  table_end h.program_header_offset h.program_header_entry_count
                                    h.program_header_entry_size),
                              "ELF program headers exceed ELF buffer size",
                            )
                                ∷ ((
                                  ltb size (
                                      table_end h.section_header_offset h.section_header_entry_count
                                        h.section_header_entry_size),
                                  "ELF section headers exceed ELF buffer size",
                                )
                                    ∷ []))))))))

-- The header is a pointer into the buffer: here, the fields that it points to.
unfoldable pub validate_elf_header : List ℕ → ℕ → ErrorOr ElfHeader
unfolding reject elf_checks elf_header_at
validate_elf_header elf_buffer expected_type =
    let h = elf_header_at elf_buffer in reject (elf_checks (length elf_buffer) h expected_type) h
