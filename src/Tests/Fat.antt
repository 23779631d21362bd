-- ===== src/Tests/Fat.antt =====
-- Reading a file of two clusters of eight bytes.
use matte_os.Base.{ℕ, ◌≡◌, ◌==◌, if◌then◌else◌, refl, List, [], ◌∷◌, arith}
use matte_os.Errors.{ErrorOr, value, error, create_from_string}
use matte_os.Fat.{
  Bytes, FatFileSystem, FatInode, fat_entry_at, word_at, find_block, read_block_poll, read,
}
use matte_os.Fat.Cache.{Coherent, with_block, read_block_poll-Coherent}
use matte_os.Fat.Chain.{Chain, final, link}
use matte_os.Fat.Loop.{Delivers}
use matte_os.Fat.Read.{read-Chain}

abbrev table : Bytes
table = 3 ∷ 0 ∷ 0 ∷ 0 ∷ 255 ∷ 255 ∷ 255 ∷ 15 ∷ []

abbrev first_half : Bytes
first_half = 1 ∷ 2 ∷ 3 ∷ 4 ∷ 5 ∷ 6 ∷ 7 ∷ 8 ∷ []

abbrev second_half : Bytes
second_half = 9 ∷ 10 ∷ 11 ∷ 12 ∷ 13 ∷ 14 ∷ 15 ∷ 16 ∷ []

abbrev device : ℕ → ℕ → ErrorOr Bytes
device size offset =
    if offset == 8
    then value table
    else if offset == 16
    then value first_half
    else if offset == 24
    then value second_half
    else error (create_from_string "no such block")

abbrev volume : FatFileSystem
volume = record {
  block_size = 8;
  bytes_per_cluster = 8;
  fat_start_offset = 0;
  number_of_fat_blocks = 2;
  blocks = [];
}

abbrev file : FatInode
file = record { size = 12; first_cluster = 2 }

abbrev halves : List Bytes
halves = first_half ∷ second_half ∷ []

nothing_cached : Coherent device volume
unfolding find_block
nothing_cached n b e = cc

file-Chain : Chain device volume 2 halves
unfolding fat_entry_at word_at
file-Chain =
    link (record { entry = 3; reserved = 0 }) (refl, refl) (table, refl, refl) refl refl
      (final (record { entry = 0x0FFFFFFF; reserved = 0 }) (refl, refl) (table, refl, refl) refl)

read_block_poll-Coherent_example :
    (read_block_poll device 2 volume ≡ (
      value (record { block_number = 2; bytes = first_half }),
      with_block device volume 2 first_half,
    ))
    × Coherent device (with_block device volume 2 first_half)
read_block_poll-Coherent_example =
    read_block_poll-Coherent device volume 2 first_half nothing_cached refl

read-Chain_example :
    Delivers device volume (read device 7 file 6 5 volume) 6 (6 ∷ 7 ∷ 8 ∷ 9 ∷ 10 ∷ 11 ∷ [])
read-Chain_example =
    read-Chain device volume 7 file 6 5 halves nothing_cached (omega arith) file-Chain (omega arith)
      (omega arith) (omega arith) (omega arith)
