-- ===== src/Directories/Short.antt =====
-- Directories of entries that are not read-only: the loops of `get_child` and `list_dir`.
use mathlib.Core.List.{append_assoc}
use matte_os.Base.{
  ◌∙◌, ap, sym, ℕ, zero, suc, ◌+◌, ◌*◌, ◌<◌, ◌≡◌, refl, Bool, true, false, ◌%◌, ◌==◌, get_or,
  Option, none, some, List, [], ◌∷◌, ◌++◌, arith, inl, inr, if◌then◌else◌, length, take, drop,
  concat, ltb, leb, lt→ltb, le→leb, Bool-cases, length-append, drop-length-append, take_append_le,
  take_all,
}
use matte_os.Errors.{ErrorOr, value, error, create_from_string}
use matte_os.Strings.{String, equals}
use matte_os.Fat.{Bytes}
use matte_os.Directories.{
  entry_at, is_free, is_long_name, short_name, named_entry, find_child, list_names,
  FullDirectoryEntry, filled_from,
}

-- The bit of ReadOnly in the attributes, the byte 11 of an entry.
abbrev pub is_read_only : Bytes → Bool
is_read_only e = get_or e 11 0 % 2 == 1

-- Entries of 32 bytes with the bit of ReadOnly clear. `is_long_name` tests this bit: an entry that has it set, also one
-- with a short name, is taken for a part of a long name.
unfoldable pub AreWritable : List Bytes → Type 0
AreWritable [] = Unit
AreWritable (e ∷ es) = (length e ≡ 32) × (is_read_only e ≡ false) × AreWritable es

pub entry_in :
    (bytes pre e rest : Bytes) (i : ℕ)
    → bytes ≡ pre ++ (e ++ rest)
    → length pre ≡ 32 * i
    → length e ≡ 32
    → entry_at bytes i ≡ some e
unfolding entry_at
entry_in bytes pre e rest i split at size =
    let fits : leb (32 * (i + 1)) (length bytes) ≡ true =
      le→leb _ _
        (omega (arith, ap length split, length-append pre (e ++ rest), length-append e rest)) in
    let start : 32 * i ≡ length pre + 0 = omega arith in
    let found : take 32 (drop (32 * i) bytes) ≡ e =
      ap (λ b. take 32 (drop (32 * i) b)) split
      ∙ (ap (λ k. take 32 (drop k (pre ++ (e ++ rest)))) start
          ∙ (ap (take 32) (drop-length-append pre (e ++ rest) 0)
              ∙ (take_append_le 32 e rest (omega arith) ∙ take_all 32 e (omega arith)))) in
    rw fits (ap some found)

-- The first entry in use with the wanted name.
unfoldable pub first_named : String → List Bytes → Option Bytes
first_named wanted [] = none
first_named wanted (e ∷ es) =
    let rest = first_named wanted es in
    if is_free e then rest else if equals (short_name e) wanted then some e else rest

abbrev pub child_result : Option Bytes → ErrorOr FullDirectoryEntry
child_result none = error (create_from_string "Child not found")
child_result (some e) = value (filled_from (short_name e) e)

-- The names of the entries in use.
unfoldable pub names : List Bytes → List String
names [] = []
names (e ∷ es) = let rest = names es in if is_free e then rest else short_name e ∷ rest

module _ (bytes : Bytes) (n : ℕ) where
  find_end :
      (wanted : String) (fuel i : ℕ)
      → ltb i n ≡ false
      → find_child wanted bytes n (suc fuel) i ≡ some (child_result none)
  unfolding find_child
  find_end wanted fuel i over = rw (find_child, over) refl

  find_free :
      (wanted : String) (fuel i : ℕ) (e : Bytes)
      → ltb i n ≡ true
      → entry_at bytes i ≡ some e
      → is_free e ≡ true
      → find_child wanted bytes n (suc fuel) i ≡ find_child wanted bytes n fuel (i + 1)
  unfolding find_child
  find_free wanted fuel i e below at free = rw (find_child, below, at, free) refl

  named_short :
      (i : ℕ) (e : Bytes)
      → is_long_name e ≡ false
      → named_entry bytes i e ≡ some (value (short_name e, e, i))
  unfolding named_entry
  named_short i e short = rw (named_entry, short) refl

  find_hit :
      (wanted : String) (fuel i : ℕ) (e : Bytes)
      → ltb i n ≡ true
      → entry_at bytes i ≡ some e
      → is_free e ≡ false
      → is_long_name e ≡ false
      → equals (short_name e) wanted ≡ true
      → find_child wanted bytes n (suc fuel) i ≡ some (child_result (some e))
  unfolding find_child
  find_hit wanted fuel i e below at used short same =
      rw (find_child, below, at, used, named_short i e short, same) refl

  find_miss :
      (wanted : String) (fuel i : ℕ) (e : Bytes)
      → ltb i n ≡ true
      → entry_at bytes i ≡ some e
      → is_free e ≡ false
      → is_long_name e ≡ false
      → equals (short_name e) wanted ≡ false
      → find_child wanted bytes n (suc fuel) i ≡ find_child wanted bytes n fuel (i + 1)
  unfolding find_child
  find_miss wanted fuel i e below at used short other =
      rw (find_child, below, at, used, named_short i e short, other) refl

  list_end : (fuel i : ℕ) → ltb i n ≡ false → list_names bytes n (suc fuel) i ≡ some []
  unfolding list_names
  list_end fuel i over = rw (list_names, over) refl

  list_free :
      (fuel i : ℕ) (e : Bytes)
      → ltb i n ≡ true
      → entry_at bytes i ≡ some e
      → is_free e ≡ true
      → list_names bytes n (suc fuel) i ≡ list_names bytes n fuel (i + 1)
  unfolding list_names
  list_free fuel i e below at free = rw (list_names, below, at, free) refl

  list_used :
      (fuel i : ℕ) (e : Bytes) (rest : List String)
      → ltb i n ≡ true
      → entry_at bytes i ≡ some e
      → is_free e ≡ false
      → is_long_name e ≡ false
      → list_names bytes n fuel (i + 1) ≡ some rest
      → list_names bytes n (suc fuel) i ≡ some (short_name e ∷ rest)
  unfolding list_names
  list_used fuel i e rest below at used short run =
      rw (list_names, below, at, used, short, run) refl

  pub find_lem :
      (wanted : String) (es : List Bytes) (pre : Bytes) (i fuel : ℕ)
      → bytes ≡ pre ++ concat es
      → length pre ≡ 32 * i
      → AreWritable es
      → n ≡ i + length es
      → length es < fuel
      → find_child wanted bytes n fuel i ≡ some (child_result (first_named wanted es))
  unfolding AreWritable is_long_name
  find_lem wanted es pre i zero split at h count enough = absurd (omega arith)
  find_lem wanted [] pre i (suc fuel) split at h count enough =
      find_end wanted fuel i (ground arith) ∙ unfold first_named in refl
  find_lem wanted (e ∷ es) pre i (suc fuel) split at (size, short, h) count enough =
      let below : ltb i n ≡ true = lt→ltb i n (omega arith) in
      let here = entry_in bytes pre e (concat es) i split at size in
      let rest =
        find_lem wanted es (pre ++ e) (i + 1) fuel (split ∙ sym (append_assoc pre e (concat es)))
          (omega (arith, length-append pre e)) h (omega arith) (omega arith) in
      elim (Bool-cases (is_free e)) [
        | inl free ↦
            find_free wanted fuel i e below here free ∙ rest ∙ unfold first_named in rw free refl
        | inr used ↦ elim (Bool-cases (equals (short_name e) wanted)) [
          | inl same ↦
              find_hit wanted fuel i e below here used short same
              ∙ unfold first_named in rw (used, same) refl
          | inr other ↦
              find_miss wanted fuel i e below here used short other
              ∙ rest
              ∙ unfold first_named in rw (used, other) refl
        ]
      ]

  pub list_lem :
      (es : List Bytes) (pre : Bytes) (i fuel : ℕ)
      → bytes ≡ pre ++ concat es
      → length pre ≡ 32 * i
      → AreWritable es
      → n ≡ i + length es
      → length es < fuel
      → list_names bytes n fuel i ≡ some (names es)
  unfolding AreWritable is_long_name
  list_lem es pre i zero split at h count enough = absurd (omega arith)
  list_lem [] pre i (suc fuel) split at h count enough =
      list_end fuel i (ground arith) ∙ unfold names in refl
  list_lem (e ∷ es) pre i (suc fuel) split at (size, short, h) count enough =
      let below : ltb i n ≡ true = lt→ltb i n (omega arith) in
      let here = entry_in bytes pre e (concat es) i split at size in
      let rest =
        list_lem es (pre ++ e) (i + 1) fuel (split ∙ sym (append_assoc pre e (concat es)))
          (omega (arith, length-append pre e)) h (omega arith) (omega arith) in
      elim (Bool-cases (is_free e)) [
        | inl free ↦ list_free fuel i e below here free ∙ rest ∙ unfold names in rw free refl
        | inr used ↦
            list_used fuel i e (names es) below here used short rest ∙ unfold names in rw used refl
      ]
