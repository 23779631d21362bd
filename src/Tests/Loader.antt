-- ===== src/Tests/Loader.antt =====
-- The ELF loader.
use matte_os.Base.{ℕ, ◌+◌, ◌*◌, ◌≤◌, ◌≡◌, refl, List, [], ◌∷◌, ◌++◌, length, replicate, arith}
use matte_os.Errors.{value, error, create_from_string}
use matte_os.Loader.{
  is_printable, ModuleProperty, elf_header_at, validate_elf_header, parse_modinfo, elf_magic,
}
use matte_os.Loader.Grammar.{parse_modinfo_sound}
use matte_os.Loader.Header.{IsAccepted, validate_elf_header_iff, section_header_within}
use matte_os.Loader.Run.{IsKey, IsText, AreProperties, encode, parse_modinfo-encode}

-- "name=hi" and "v=".
abbrev properties : List ModuleProperty
properties = (b'n' ∷ b'a' ∷ b'm' ∷ b'e' ∷ [], b'h' ∷ b'i' ∷ []) ∷ ((b'v' ∷ [], []) ∷ [])

abbrev section : List ℕ
section = b'n' ∷ b'a' ∷ b'm' ∷ b'e' ∷ b'=' ∷ b'h' ∷ b'i' ∷ 0 ∷ b'v' ∷ b'=' ∷ 0 ∷ b'x' ∷ []

parse-section : parse_modinfo (7 ∷ (section ++ 9 ∷ [])) 1 12 [] ≡ (properties, value tt)
unfolding parse_modinfo
parse-section = refl

parse_no_key :
    parse_modinfo (b'x' ∷ 0 ∷ []) 0 2 []
    ≡ ([], error (create_from_string "Unexpected end of line. Expected '=' separator."))
unfolding parse_modinfo
parse_no_key = refl

-- "n=h".
abbrev short : List ModuleProperty
short = (b'n' ∷ [], b'h' ∷ []) ∷ []

short-AreProperties : AreProperties short
unfolding AreProperties IsKey IsText is_printable
short-AreProperties = ((refl, (omega arith), tt), (refl, tt), tt)

partial-IsKey : IsKey (b'x' ∷ [])
unfolding IsKey is_printable
partial-IsKey = (refl, (omega arith), tt)

parse_modinfo-encode_example :
    parse_modinfo
      (7 ∷ ((encode short ++ b'x' ∷ []) ++ 9 ∷ []))
      1
      (length (encode short ++ b'x' ∷ []))
      properties
    ≡ (properties ++ short, value tt)
parse_modinfo-encode_example =
    parse_modinfo-encode short properties (b'x' ∷ []) (7 ∷ []) (9 ∷ []) short-AreProperties
      partial-IsKey

parse_modinfo_sound_example :
    (es : List ModuleProperty) × (partial : List ℕ) × AreProperties es
    × IsKey partial
    × (section ≡ encode es ++ partial)
    × (properties ≡ [] ++ es)
parse_modinfo_sound_example =
    parse_modinfo_sound (7 ∷ []) section (9 ∷ []) [] properties parse-section

-- A relocatable file with one section header, and with a wrong magic number.
abbrev buffer_of : List ℕ → List ℕ
buffer_of magic =
    magic
    ++ 2
      ∷ 1
      ∷ (replicate 10 0
          ++ 1
            ∷ 0
            ∷ 243
            ∷ 0
            ∷ 1
            ∷ (replicate 19 0 ++ 64 ∷ (replicate 17 0 ++ 64 ∷ 0 ∷ 1 ∷ (replicate 67 0))))

abbrev buffer : List ℕ
buffer = buffer_of (replicate 4 0)

validate-buffer : validate_elf_header buffer 1 ≡ value (elf_header_at buffer)
unfolding validate_elf_header
validate-buffer = refl

-- A right magic number.
validate_elf :
    validate_elf_header (buffer_of elf_magic) 1 ≡ error (create_from_string "Invalid ELF magic")
unfolding validate_elf_header
validate_elf = refl

validate_elf_header_iff_example : IsAccepted 128 (elf_header_at buffer) 1
validate_elf_header_iff_example =
    ((validate_elf_header_iff buffer 1 (elf_header_at buffer)).0 validate-buffer).0

section_header_within_example :
    (elf_header_at buffer).section_header_offset
      + 0 * (elf_header_at buffer).section_header_entry_size
      + (elf_header_at buffer).section_header_entry_size
    ≤ length buffer
section_header_within_example =
    section_header_within buffer 1 (elf_header_at buffer) 0 validate-buffer
      (unfold elf_header_at in omega arith) (unfold elf_header_at in omega arith)
      (unfold elf_header_at in omega arith)
