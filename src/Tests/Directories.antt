-- ===== src/Tests/Directories.antt =====
-- A directory of two short names, and one that begins with a long name.
use matte_os.Base.{ℕ, ◌≡◌, refl, true, false, some, List, [], ◌∷◌, ◌++◌, arith, concat, replicate}
use matte_os.Errors.{ErrorOr, value, error, create_from_string}
use matte_os.Strings.{equals}
use matte_os.Fat.{Bytes, DataBlock, FatFileSystem, read_cluster_poll}
use matte_os.Directories.{
  FatDirectory, get_child, list_dir, is_free, is_long_name, is_final_entry, filled_from,
}
use matte_os.Directories.Short.{AreWritable, first_named, child_result, names}
use matte_os.Directories.Methods.{get_child-AreWritable, get_child_long_name}

-- Eleven equal characters, the attributes, and the first cluster 5 at byte 26.
abbrev short_entry : ℕ → ℕ → Bytes
short_entry c attributes =
    replicate 11 c ++ attributes ∷ (replicate 14 0 ++ 5 ∷ 0 ∷ 100 ∷ 0 ∷ 0 ∷ 0 ∷ [])

-- A part of a long name, with its order.
abbrev long_entry : ℕ → Bytes
long_entry order = order ∷ (replicate 10 65 ++ 0x0f ∷ replicate 20 65)

abbrev on_disk : Bytes → ℕ → ℕ → ErrorOr Bytes
on_disk bytes size offset = value bytes

abbrev volume : FatFileSystem
volume = record {
  block_size = 96;
  bytes_per_cluster = 96;
  fat_start_offset = 0;
  number_of_fat_blocks = 1;
  blocks = [];
}

abbrev directory : FatDirectory
directory = record { directory_attributes = 0x10; first_cluster = 2 }

abbrev read_block : Bytes → DataBlock
read_block bytes = record { block_number = 1; bytes = bytes }

abbrev cached : Bytes → FatFileSystem
cached bytes = record volume { blocks = read_block bytes ∷ [] }

abbrev two_files : List Bytes
two_files = short_entry 66 0x20 ∷ short_entry 0xe5 0x20 ∷ short_entry 67 0x20 ∷ []

two_files-AreWritable : AreWritable two_files
unfolding AreWritable
two_files-AreWritable = (refl, refl, (refl, refl, (refl, refl, tt)))

read_two :
    read_cluster_poll (on_disk (concat two_files)) 2 volume
    ≡ (value (read_block (concat two_files)), cached (concat two_files))
unfolding read_cluster_poll
read_two = refl

-- The deleted entry is passed over.
second_found :
    child_result (first_named (replicate 11 67) two_files)
    ≡ value (filled_from (replicate 11 67) (short_entry 67 0x20))
unfolding first_named is_free filled_from equals
second_found = refl

get_child-AreWritable_example :
    (get_child (on_disk (concat two_files)) directory (replicate 11 67) volume
      ≡ some (child_result (first_named (replicate 11 67) two_files), cached (concat two_files)))
    × (list_dir (on_disk (concat two_files)) directory volume
        ≡ some (value (names two_files), cached (concat two_files)))
get_child-AreWritable_example =
    get_child-AreWritable (on_disk (concat two_files)) directory volume (cached (concat two_files))
      (read_block (concat two_files)) (replicate 11 67) two_files refl read_two refl
      two_files-AreWritable refl

abbrev long_first : Bytes
long_first = long_entry 0x42 ++ (long_entry 1 ++ short_entry 66 0x20)

read_long :
    read_cluster_poll (on_disk long_first) 2 volume
    ≡ (value (read_block long_first), cached long_first)
unfolding read_cluster_poll
read_long = refl

used_entry : is_free (long_entry 0x42) ≡ false
unfolding is_free
used_entry = refl

final_entry : is_final_entry (long_entry 0x42) ≡ true
unfolding is_final_entry
final_entry = refl

long_name_entry : (is_long_name (long_entry 0x42) ≡ true) × (is_long_name (long_entry 1) ≡ true)
unfolding is_long_name
long_name_entry = (refl, refl)

get_child_long_name_example :
    get_child (on_disk long_first) directory (replicate 11 66) volume
    ≡ some (
      error (
          create_from_string
            "Corrupt directory: Last Long name entry not followed by standard entry"),
      cached long_first,
    )
get_child_long_name_example =
    let (long, more) = long_name_entry in
    get_child_long_name (on_disk long_first) directory volume (cached long_first)
      (read_block long_first) (replicate 11 66) (long_entry 0x42) (long_entry 1)
      (short_entry 66 0x20) refl read_long refl refl refl used_entry final_entry long more
      (omega arith)

-- A short name with the attribute ReadOnly is taken for a part of a long name.
read_only : is_long_name (short_entry 66 0x21) ≡ true
unfolding is_long_name
read_only = refl
