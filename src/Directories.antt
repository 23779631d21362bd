-- ===== src/Directories.antt =====
-- Directories of a FAT32 volume: `get_child` and `list_dir` of Kernel/FileSystem/FATFS/FATInode.cpp, `get_name`
-- of FATFileSystem.cpp, and the entries of FAT.h.
-- An entry is the list of its 32 bytes. A read behind the bytes of the cluster is a fault, `none`.
pub mod Short
pub mod Methods
use matte_os.Base.{
  ℕ, zero, suc, ◌+◌, ◌*◌, ◌/◌, ◌%◌, ◌^◌, Bool, true, false, Option, none, some, List, [], ◌∷◌, ◌++◌,
  ◌||◌, ◌==◌, ltb, leb, if◌then◌else◌, take, drop, get_or, length,
}
use matte_os.Errors.{Error, ErrorOr, value, error, create_from_string}
use matte_os.Strings.{String, equals}
use matte_os.Fat.{Bytes, FatFileSystem, DataBlock, word_at, read_cluster_poll}

abbrev pub entry_size : ℕ
entry_size = 32

unfoldable pub entry_at : Bytes → ℕ → Option Bytes
entry_at bytes index =
    if leb (entry_size * (index + 1)) (length bytes)
    then some (take entry_size (drop (entry_size * index) bytes))
    else none

unfoldable pub half_at : Bytes → ℕ → ℕ
half_at bytes i = get_or bytes i 0 + get_or bytes (i + 1) 0 * 2 ^ 8

abbrev pub attributes : Bytes → ℕ
attributes e = get_or e 11 0

unfoldable pub is_free : Bytes → Bool
is_free e = get_or e 0 0 == 0xe5 || get_or e 0 0 == 0

abbrev pub is_directory : ℕ → Bool
is_directory attributes = attributes / 2 ^ 4 % 2 == 1

-- The comparison binds more tightly than `&`, so what is tested is the bit of ReadOnly.
unfoldable pub is_long_name : Bytes → Bool
is_long_name e = attributes e % 2 == 1

unfoldable pub is_final_entry : Bytes → Bool
is_final_entry e = get_or e 0 0 / 2 ^ 6 % 2 == 1

-- `order & 0x00`
abbrev pub long_is_free : Bytes → Bool
long_is_free e = false

-- One of the three loops over the characters of a long entry: the low bytes, up to an end mark.
unfoldable pub name_part : Bytes → ℕ → ℕ → String
unfolding half_at
name_part e zero at = []
name_part e (suc n) at =
    let rest = name_part e n (at + 2) in
    let c = half_at e at in if c == 0 || c == 0xffff then [] else c % 2 ^ 8 ∷ rest

unfoldable pub long_part : Bytes → String
unfolding name_part
long_part e = name_part e 5 1 ++ (name_part e 6 14 ++ name_part e 2 28)

-- while(true) { ... }: the name, and the index of the entry that ended it. Each round reads an entry
-- behind the last one, so that running out of fuel is a read behind the bytes as well.
unfoldable pub long_name : ℕ → Bytes → ℕ → String → Option (String × ℕ)
unfolding entry_at long_part is_final_entry
long_name zero bytes index name = none
long_name (suc fuel) bytes index name = elim (entry_at bytes index) [
  | none ↦ none
  | some e ↦
      let name' = long_part e ++ name in
      elim (is_final_entry e || long_is_free e) [
        | true ↦ some (name', index)
        | false ↦ long_name fuel bytes (index + 1) name'
      ]
]

abbrev pub rounds : Bytes → ℕ
rounds bytes = length bytes / entry_size + 1

abbrev pub short_name : Bytes → String
short_name e = take 11 e

-- `get_name` of the entry at an index.
unfoldable pub get_name : Bytes → ℕ → Option String
unfolding entry_at is_long_name long_name
get_name bytes index = elim (entry_at bytes index) [
  | none ↦ none
  | some e ↦ elim (is_long_name e) [
    | false ↦ some (short_name e)
    | true ↦ elim (long_name (rounds bytes) bytes index []) [
      | none ↦ none
      | some (name, last) ↦ some name
    ]
  ]
]

pub record FullDirectoryEntry : Type 0 where
  pub name : String
  pub size : ℕ
  pub first_cluster : ℕ
  pub entry_attributes : ℕ
  pub creation_time_tenths : ℕ
  pub creation_time : ℕ
  pub creation_date : ℕ
  pub last_access_date : ℕ
  pub last_write_time : ℕ
  pub last_write_date : ℕ

unfoldable pub filled_from : String → Bytes → FullDirectoryEntry
unfolding half_at word_at
filled_from name e = record {
  name = name;
  size = word_at e 28;
  first_cluster = half_at e 20 * 2 ^ 16 + half_at e 26;
  entry_attributes = attributes e;
  creation_time_tenths = get_or e 13 0;
  creation_time = half_at e 14;
  creation_date = half_at e 16;
  last_access_date = half_at e 18;
  last_write_time = half_at e 22;
  last_write_date = half_at e 24;
}

-- What the body of the loop of `get_child` finds: the name, the entry behind it and its index, or an error.
unfoldable pub named_entry : Bytes → ℕ → Bytes → Option (ErrorOr (String × Bytes × ℕ))
unfolding is_long_name long_name entry_at
named_entry bytes index e = elim (is_long_name e) [
  | false ↦ some (value (short_name e, e, index))
  | true ↦ elim (long_name (rounds bytes) bytes index []) [
    | none ↦ none
    | some (name, last) ↦ elim (entry_at bytes (last + 1)) [
      | none ↦ none
      | some standard ↦ elim (is_long_name standard) [
        | true ↦ some (
            error (
              create_from_string
                "Corrupt directory: Last Long name entry not followed by standard entry"))
        | false ↦ some (value (name, standard, last + 1))
      ]
    ]
  ]
]

-- The loop of `get_child` over the indices below `n`.
unfoldable pub find_child : String → Bytes → ℕ → ℕ → ℕ → Option (ErrorOr FullDirectoryEntry)
unfolding entry_at is_free named_entry equals filled_from
find_child wanted bytes n zero index = none
find_child wanted bytes n (suc fuel) index = elim (ltb index n) [
  | false ↦ some (error (create_from_string "Child not found"))
  | true ↦ elim (entry_at bytes index) [
    | none ↦ none
    | some e ↦ elim (is_free e) [
      | true ↦ find_child wanted bytes n fuel (index + 1)
      | false ↦ elim (named_entry bytes index e) [
        | none ↦ none
        | some (error c) ↦ some (error c)
        | some (value (name, standard, at)) ↦ elim (equals name wanted) [
          | true ↦ some (value (filled_from name standard))
          | false ↦ find_child wanted bytes n fuel (at + 1)
        ]
      ]
    ]
  ]
]

-- The loop of `list_dir`; the names come in the order of the entries. Behind a long name it goes on after the
-- next entry, which it does not read.
unfoldable pub list_names : Bytes → ℕ → ℕ → ℕ → Option (List String)
unfolding entry_at is_free is_long_name long_name
list_names bytes n zero index = none
list_names bytes n (suc fuel) index = elim (ltb index n) [
  | false ↦ some []
  | true ↦ elim (entry_at bytes index) [
    | none ↦ none
    | some e ↦ elim (is_free e) [
      | true ↦ list_names bytes n fuel (index + 1)
      | false ↦ elim (is_long_name e) [
        | false ↦ elim (list_names bytes n fuel (index + 1)) [
          | none ↦ none
          | some names ↦ some (short_name e ∷ names)
        ]
        | true ↦ elim (long_name (rounds bytes) bytes index []) [
          | none ↦ none
          | some (name, last) ↦ elim (list_names bytes n fuel (last + 2)) [
            | none ↦ none
            | some names ↦ some (name ∷ names)
          ]
        ]
      ]
    ]
  ]
]

-- The directory's own entry, as far as its methods look at it.
pub record FatDirectory : Type 0 where
  pub directory_attributes : ℕ
  pub first_cluster : ℕ

module _ (read_poll : ℕ → ℕ → ErrorOr Bytes) where
  unfoldable pub get_child :
      FatDirectory → String → FatFileSystem → Option (ErrorOr FullDirectoryEntry × FatFileSystem)
  unfolding read_cluster_poll find_child
  get_child d wanted fs = elim (is_directory d.directory_attributes) [
    | false ↦ some (error (create_from_string "Not a directory"), fs)
    | true ↦
        let (read, fs') = read_cluster_poll read_poll d.first_cluster fs in
        elim read [
          | error e ↦ some (error e, fs')
          | value block ↦
              let n = fs.block_size / entry_size in
              elim (find_child wanted block.bytes n (n + 1) 0) [
                | none ↦ none
                | some answer ↦ some (answer, fs')
              ]
        ]
  ]

  unfoldable pub list_dir :
      FatDirectory → FatFileSystem → Option (ErrorOr (List String) × FatFileSystem)
  unfolding read_cluster_poll list_names
  list_dir d fs = elim (is_directory d.directory_attributes) [
    | false ↦ some (error (create_from_string "Not a directory"), fs)
    | true ↦
        let (read, fs') = read_cluster_poll read_poll d.first_cluster fs in
        elim read [
          | error e ↦ some (error e, fs')
          | value block ↦
              let n = fs.block_size / entry_size in
              elim (list_names block.bytes n (n + 1) 0) [
                | none ↦ none
                | some names ↦ some (value names, fs')
              ]
        ]
  ]
