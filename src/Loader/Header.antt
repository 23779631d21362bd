-- ===== src/Loader/Header.antt =====
-- `validate_elf_header`: what it accepts, and what that is worth.
use Prim.Native.String.{String as Text}
use mathlib.Core.Path.{subst}
use matte_os.Base.{
  ℕ, zero, suc, ◌+◌, ◌-◌, ◌*◌, ◌%◌, ◌^◌, ◌≤◌, ◌<◌, ◌≡◌, ◌≢◌, ◌⊎◌, inl, inr, ◌↔◌, refl, sym, ap, ◌∙◌,
  Bool, true, false, not, List, [], ◌∷◌, ◌==◌, ltb, get_or, take, drop, length, arith, Bool-cases,
  lt→ltb, length-take,
}
use matte_os.Errors.{value}
use matte_os.Loader.{
  memcmp, ElfHeader, elf_header_at, int_to_u64, table_end, elf_magic, is_unexpected_type, reject,
  elf_checks, validate_elf_header,
}

memcmp_same :
    (n x y : ℕ) (a b : List ℕ) → (x == y) ≡ true → memcmp (suc n) (x ∷ a) (y ∷ b) ≡ memcmp n a b
unfolding memcmp
memcmp_same n x y a b e = rw e refl

memcmp_other :
    (n x y : ℕ) (a b : List ℕ) → (x == y) ≡ false → memcmp (suc n) (x ∷ a) (y ∷ b) ≡ false
unfolding memcmp
memcmp_other n x y a b e = rw e refl

-- `memcmp` is true exactly when the bytes are the same.
pub memcmp_iff :
    (n : ℕ) (a b : List ℕ)
    → n ≤ length a
    → n ≤ length b
    → (memcmp n a b ≡ true) ↔ (take n a ≡ take n b)
memcmp_iff zero a b ha hb = ((λ e. refl), (λ e. unfold memcmp in refl))
memcmp_iff (suc n) [] b ha hb = absurd (omega arith)
memcmp_iff (suc n) (x ∷ a) [] ha hb = absurd (omega arith)
memcmp_iff (suc n) (x ∷ a) (y ∷ b) ha hb =
    let (to, from) = memcmp_iff n a b (omega arith) (omega arith) in
    elim (Bool-cases (x == y)) [
      | inl same ↦
          let e : x ≡ y = ground arith in
          (
            (λ r. let t = to (sym (memcmp_same n x y a b same) ∙ r) in cc (t, e)),
            (λ t. memcmp_same n x y a b same ∙ from (ap (drop 1) t)),
          )
      | inr other ↦ (
        (λ r. absurd (cc (memcmp_other n x y a b other, r))),
        (λ t. absurd (ground (arith, ap (λ l. get_or l 0 0) t))),
      )
    ]

-- What is accepted, said on the size of the buffer and on the fields of its header.
pub record IsAccepted (size : ℕ) (h : ElfHeader) (expected_type : ℕ) : Type 0 where
  pub enough : 64 ≤ size
  pub magic : take 4 h.ident ≢ elf_magic
  pub class_64 : get_or h.ident 4 0 ≡ 2
  pub little_endian : get_or h.ident 5 0 ≡ 1
  pub risc_v : h.machine ≡ 243
  pub current : h.version ≡ 1
  pub type_fits : (h.type ≡ expected_type) ⊎ ((expected_type ≡ 2) × (h.type ≡ 3))
  pub programs :
      table_end h.program_header_offset h.program_header_entry_count h.program_header_entry_size
      ≤ size
  pub sections :
      table_end h.section_header_offset h.section_header_entry_count h.section_header_entry_size
      ≤ size

abbrev Passes : List (Bool × Text) → Type 0
Passes [] = Unit
Passes ((check, message) ∷ checks) = (check ≡ false) × Passes checks

module _ {A : Type 0} where
  reject-Passes :
      (checks : List (Bool × Text)) (a b : A) → reject checks a ≡ value b → Passes checks × (a ≡ b)
  unfolding reject
  reject-Passes [] a b e = (tt, cc e)
  reject-Passes ((true, message) ∷ checks) a b e = absurd (cc e)
  reject-Passes ((false, message) ∷ checks) a b e =
      let (p, f) = reject-Passes checks a b e in ((refl, p), f)

  Passes-reject : (checks : List (Bool × Text)) (a : A) → Passes checks → reject checks a ≡ value a
  unfolding reject
  Passes-reject [] a p = refl
  Passes-reject ((true, message) ∷ checks) a (e, p) = absurd (cc e)
  Passes-reject ((false, message) ∷ checks) a (e, p) = Passes-reject checks a p

type_fits :
    (type expected_type : ℕ)
    → is_unexpected_type type expected_type ≡ false
    → (type ≡ expected_type) ⊎ ((expected_type ≡ 2) × (type ≡ 3))
unfolding is_unexpected_type
type_fits type expected_type h = elim (Bool-cases (type == expected_type)) [
  | inl same ↦ inl (ground arith)
  | inr other ↦ inr (ground arith, ground arith)
]

fits_type :
    (type expected_type : ℕ)
    → (type ≡ expected_type) ⊎ ((expected_type ≡ 2) × (type ≡ 3))
    → is_unexpected_type type expected_type ≡ false
unfolding is_unexpected_type
fits_type type expected_type (inl e) = ground arith
fits_type type expected_type (inr (e, f)) = ground arith

not_ltb : (a b : ℕ) → ltb a b ≡ false → b ≤ a
not_ltb a b h = ground arith

ge→ltb : (a b : ℕ) → b ≤ a → ltb a b ≡ false
ge→ltb a b h = ground arith

equal_test : (a b : ℕ) → not (a == b) ≡ false → a ≡ b
equal_test a b h = ground arith

test_equal : (a b : ℕ) → a ≡ b → not (a == b) ≡ false
test_equal a b h = ground arith

module _ (size : ℕ) (h : ElfHeader) (expected_type : ℕ) where
  Passes-IsAccepted :
      (64 ≤ size → 4 ≤ length h.ident)
      → Passes (elf_checks size h expected_type)
      → IsAccepted size h expected_type
  unfolding elf_checks
  Passes-IsAccepted ident (p1, (p2, (p3, (p4, (p5, (p6, (p7, (p8, (p9, end))))))))) =
      let enough = not_ltb size 64 p1 in
      record {
        enough = enough;
        magic = λ e. cc (p2, (memcmp_iff 4 h.ident elf_magic (ident enough) (omega arith)).1 e);
        class_64 = equal_test _ _ p3;
        little_endian = equal_test _ _ p4;
        risc_v = equal_test _ _ p5;
        current = equal_test _ _ p6;
        type_fits = type_fits _ _ p7;
        programs = not_ltb _ _ p8;
        sections = not_ltb _ _ p9;
      }

  other_magic : 4 ≤ length h.ident → take 4 h.ident ≢ elf_magic → memcmp 4 h.ident elf_magic ≡ false
  other_magic ident ne = elim (Bool-cases (memcmp 4 h.ident elf_magic)) [
    | inl same ↦ absurd (ne ((memcmp_iff 4 h.ident elf_magic ident (omega arith)).0 same))
    | inr other ↦ other
  ]

  IsAccepted-Passes :
      4 ≤ length h.ident
      → IsAccepted size h expected_type
      → Passes (elf_checks size h expected_type)
  unfolding elf_checks
  IsAccepted-Passes ident a = (
    ge→ltb size 64 a.enough,
    (
      other_magic ident a.magic,
      (
        test_equal _ _ a.class_64,
        (
          test_equal _ _ a.little_endian,
          (
            test_equal _ _ a.risc_v,
            (
              test_equal _ _ a.current,
              (fits_type _ _ a.type_fits, (ge→ltb _ _ a.programs, (ge→ltb _ _ a.sections, tt))),
            ),
          ),
        ),
      ),
    ),
  )

ident_size :
    (elf_buffer : List ℕ) → 64 ≤ length elf_buffer → 4 ≤ length (elf_header_at elf_buffer).ident
unfolding elf_header_at
ident_size elf_buffer h = omega (arith, length-take 16 elf_buffer)

accepted :
    (elf_buffer : List ℕ) (expected_type : ℕ) (h : ElfHeader)
    → validate_elf_header elf_buffer expected_type ≡ value h
    → IsAccepted (length elf_buffer) h expected_type × (elf_header_at elf_buffer ≡ h)
accepted elf_buffer expected_type h e =
    let (p, same) =
      reject-Passes (elf_checks (length elf_buffer) (elf_header_at elf_buffer) expected_type)
        (elf_header_at elf_buffer) h (unfold validate_elf_header in e) in
    (
      subst (λ (k : ElfHeader). IsAccepted (length elf_buffer) k expected_type) same
          (Passes-IsAccepted (length elf_buffer) (elf_header_at elf_buffer) expected_type
            (ident_size elf_buffer) p),
      same,
    )

accepts :
    (elf_buffer : List ℕ) (expected_type : ℕ)
    → IsAccepted (length elf_buffer) (elf_header_at elf_buffer) expected_type
    → validate_elf_header elf_buffer expected_type ≡ value (elf_header_at elf_buffer)
unfolding validate_elf_header
accepts elf_buffer expected_type a =
    Passes-reject (elf_checks (length elf_buffer) (elf_header_at elf_buffer) expected_type)
      (elf_header_at elf_buffer)
      (IsAccepted-Passes (length elf_buffer) (elf_header_at elf_buffer) expected_type
        (ident_size elf_buffer a.enough) a)

-- `validate_elf_header` returns exactly the header of a buffer of 64 bytes at least, of the class, the encoding, the
-- machine, the version and a type that are supported, whose header tables end in the buffer, as their ends are
-- computed, and whose first four bytes are not 0x7f "ELF": the test of the magic number is the wrong way round.
pub validate_elf_header_iff :
    (elf_buffer : List ℕ) (expected_type : ℕ) (h : ElfHeader)
    → (validate_elf_header elf_buffer expected_type ≡ value h)
      ↔ (IsAccepted (length elf_buffer) h expected_type × (elf_header_at elf_buffer ≡ h))
validate_elf_header_iff elf_buffer expected_type h = (
  accepted elf_buffer expected_type h,
  (λ (a, same).
      accepts elf_buffer expected_type
        (subst (λ (k : ElfHeader). IsAccepted (length elf_buffer) k expected_type) (sym same) a)
      ∙ ap value same),
)

table_end_exact :
    (offset count size limit : ℕ)
    → offset < 2 ^ 63
    → count * size < 2 ^ 31
    → table_end offset count size ≤ limit
    → offset + count * size ≤ limit
unfolding table_end int_to_u64
table_end_exact offset count size limit ho hp h =
    let small : ltb (count * size) (2 ^ 31) ≡ true = lt→ltb _ _ hp in
    let e : (offset + count * size) % 2 ^ 64 ≤ limit = rw small at h in omega arith

entry_end : (i count size : ℕ) → i < count → i * size + size ≤ count * size
entry_end i count size h =
    let e : count ≡ i + 1 + (count - (i + 1)) = omega arith in rw e (grind arith)

-- In a buffer that `validate_elf_header` accepts, every section header lies inside, when the table starts below
-- 2 ^ 63 and the product of the count and the size of its entries, an `int`, does not overflow.
pub section_header_within :
    (elf_buffer : List ℕ) (expected_type : ℕ) (h : ElfHeader) (i : ℕ)
    → validate_elf_header elf_buffer expected_type ≡ value h
    → h.section_header_offset < 2 ^ 63
    → h.section_header_entry_count * h.section_header_entry_size < 2 ^ 31
    → i < h.section_header_entry_count
    → h.section_header_offset + i * h.section_header_entry_size + h.section_header_entry_size
      ≤ length elf_buffer
section_header_within elf_buffer expected_type h i e ho hp hi =
    let (a, same) = accepted elf_buffer expected_type h e in
    omega (
      arith,
      table_end_exact h.section_header_offset h.section_header_entry_count
          h.section_header_entry_size (length elf_buffer) ho hp a.sections,
      entry_end i h.section_header_entry_count h.section_header_entry_size hi,
    )
