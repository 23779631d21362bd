-- ===== src/Directories/Methods.antt =====
-- `FATInode::get_child` and `FATInode::list_dir`.
use matte_os.Base.{
  ◌∙◌, ap, ℕ, zero, suc, ◌+◌, ◌*◌, ◌/◌, ◌≤◌, ◌<◌, ◌≡◌, refl, true, false, some, List, [], ◌++◌,
  arith, length, concat, ltb, lt→ltb,
}
use matte_os.Errors.{ErrorOr, value, error, create_from_string}
use matte_os.Strings.{String}
use matte_os.Fat.{Bytes, DataBlock, FatFileSystem, read_cluster_poll}
use matte_os.Directories.{
  entry_at, is_free, is_directory, is_long_name, is_final_entry, long_name, long_part, rounds,
  named_entry, find_child, list_names, FullDirectoryEntry, FatDirectory, get_child, list_dir,
}
use matte_os.Directories.Short.{
  AreWritable, entry_in, find_lem, list_lem, first_named, child_result, names,
}

module _ (read_poll : ℕ → ℕ → ErrorOr Bytes) (d : FatDirectory) (fs fs' : FatFileSystem)
    (block : DataBlock) where
  get_child_step :
      (wanted : String) (answer : ErrorOr FullDirectoryEntry)
      → is_directory d.directory_attributes ≡ true
      → read_cluster_poll read_poll d.first_cluster fs ≡ (value block, fs')
      → find_child wanted block.bytes (fs.block_size / 32) (fs.block_size / 32 + 1) 0 ≡ some answer
      → get_child read_poll d wanted fs ≡ some (answer, fs')
  unfolding get_child
  get_child_step wanted answer kind read run = rw (get_child, kind, read, run, read) refl

  list_dir_step :
      (found : List String)
      → is_directory d.directory_attributes ≡ true
      → read_cluster_poll read_poll d.first_cluster fs ≡ (value block, fs')
      → list_names block.bytes (fs.block_size / 32) (fs.block_size / 32 + 1) 0 ≡ some found
      → list_dir read_poll d fs ≡ some (value found, fs')
  unfolding list_dir
  list_dir_step found kind read run = rw (list_dir, kind, read, run, read) refl

-- In a directory whose cluster is read and consists of entries of 32 bytes in which the bit of ReadOnly is clear, as
-- many as a block holds, `get_child` returns the first entry in use with the wanted short name, or an error when there
-- is none, and `list_dir` returns the short names of the entries in use, in order. Of entries with that bit set nothing
-- is said, since the code takes them for parts of a long name.
pub get_child-AreWritable :
    (read_poll : ℕ → ℕ → ErrorOr Bytes) (d : FatDirectory) (fs fs' : FatFileSystem)
    (block : DataBlock) (wanted : String) (es : List Bytes)
    → is_directory d.directory_attributes ≡ true
    → read_cluster_poll read_poll d.first_cluster fs ≡ (value block, fs')
    → block.bytes ≡ concat es
    → AreWritable es
    → fs.block_size ≡ 32 * length es
    → (get_child read_poll d wanted fs ≡ some (child_result (first_named wanted es), fs'))
      × (list_dir read_poll d fs ≡ some (value (names es), fs'))
get_child-AreWritable read_poll d fs fs' block wanted es kind read content short full =
    let n = fs.block_size / 32 in
    (
      get_child_step read_poll d fs fs' block wanted _ kind read (
          find_lem block.bytes n wanted es [] 0 (n + 1) content refl short (omega arith)
            (omega arith)),
      list_dir_step read_poll d fs fs' block _ kind read
          (list_lem block.bytes n es [] 0 (n + 1) content refl short (omega arith) (omega arith)),
    )

long_one :
    (fuel : ℕ) (bytes e : Bytes)
    → 0 < fuel
    → entry_at bytes 0 ≡ some e
    → is_final_entry e ≡ true
    → long_name fuel bytes 0 [] ≡ some (long_part e ++ [], 0)
unfolding long_name
long_one zero bytes e pos at final = absurd (omega arith)
long_one (suc fuel) bytes e pos at final = rw (long_name, at, final) refl

named_corrupt :
    (bytes e standard : Bytes)
    → is_long_name e ≡ true
    → long_name (rounds bytes) bytes 0 [] ≡ some (long_part e ++ [], 0)
    → entry_at bytes 1 ≡ some standard
    → is_long_name standard ≡ true
    → named_entry bytes 0 e
      ≡ some (
          error (
            create_from_string
              "Corrupt directory: Last Long name entry not followed by standard entry"))
unfolding named_entry
named_corrupt bytes e standard long name at again = rw (named_entry, long, name, at, again) refl

find_corrupt :
    (wanted : String) (bytes e : Bytes) (n fuel : ℕ)
    → ltb 0 n ≡ true
    → entry_at bytes 0 ≡ some e
    → is_free e ≡ false
    → named_entry bytes 0 e
      ≡ some (
          error (
            create_from_string
              "Corrupt directory: Last Long name entry not followed by standard entry"))
    → find_child wanted bytes n (suc fuel) 0
      ≡ some (
          error (
            create_from_string
              "Corrupt directory: Last Long name entry not followed by standard entry"))
unfolding find_child
find_corrupt wanted bytes e n fuel below at used corrupt =
    rw (find_child, below, at, used, corrupt) refl

-- A long name of more than thirteen characters takes several entries, of which the one with the end mark
-- stands first. In a directory that begins with such a name `get_child` fails for every name, also for those of
-- the files behind it.
pub get_child_long_name :
    (read_poll : ℕ → ℕ → ErrorOr Bytes) (d : FatDirectory) (fs fs' : FatFileSystem)
    (block : DataBlock) (wanted : String) (e more rest : Bytes)
    → is_directory d.directory_attributes ≡ true
    → read_cluster_poll read_poll d.first_cluster fs ≡ (value block, fs')
    → block.bytes ≡ e ++ (more ++ rest)
    → length e ≡ 32
    → length more ≡ 32
    → is_free e ≡ false
    → is_final_entry e ≡ true
    → is_long_name e ≡ true
    → is_long_name more ≡ true
    → 32 ≤ fs.block_size
    → get_child read_poll d wanted fs
      ≡ some (
        error (
            create_from_string
              "Corrupt directory: Last Long name entry not followed by standard entry"),
        fs',
      )
get_child_long_name read_poll d fs fs' block wanted e more rest kind read content size size' used
      final long long' room =
    let n = fs.block_size / 32 in
    let at0 = entry_in block.bytes [] e (more ++ rest) 0 content refl size in
    let at1 = entry_in block.bytes e more rest 1 content (omega arith) size' in
    let corrupt =
      named_corrupt block.bytes e more long
        (long_one (rounds block.bytes) block.bytes e (omega arith) at0 final) at1 long' in
    let fuel : n + 1 ≡ suc n = omega arith in
    get_child_step read_poll d fs fs' block wanted _ kind read (
      ap (λ k. find_child wanted block.bytes n k 0) fuel
      ∙ find_corrupt wanted block.bytes e n n (lt→ltb 0 n (omega arith)) at0 used corrupt)
