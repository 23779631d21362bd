-- ===== src/Fat.antt =====
-- Reading files of a FAT32 volume: Kernel/FileSystem/FATFS/FATFileSystem.cpp, FATInode.cpp and FAT.h,
-- over the block cache of Kernel/FileSystem/BlockBackedFileSystem.h.
-- The block device is a parameter: `read_poll size offset` is the bytes that it delivers.
pub mod Cache
pub mod Chain
pub mod Position
pub mod Skip
pub mod Loop
pub mod Read
use matte_os.Base.{
  ℕ, zero, suc, ◌+◌, ◌-◌, ◌*◌, ◌/◌, ◌%◌, ◌^◌, min, Bool, true, false, Option, none, some, List, [],
  ◌∷◌, ◌++◌, ◌==◌, ltb, leb, if◌then◌else◌, take, drop, get_or, length,
}
use matte_os.Errors.{Error, ErrorOr, value, error, create_from_string}
use matte_os.Pages.{u64_mod}

abbrev pub Bytes : Type 0
Bytes = List ℕ

pub record DataBlock : Type 0 where
  pub block_number : ℕ
  pub bytes : Bytes

-- `cache` is the linked list of `BlockBackedFileSystem`, newest first.
pub record FatFileSystem : Type 0 where
  pub block_size : ℕ
  pub bytes_per_cluster : ℕ
  pub fat_start_offset : ℕ
  pub number_of_fat_blocks : ℕ
  pub blocks : List DataBlock

-- The bit fields `value : 28` and `reserved : 4`.
pub record FatEntry : Type 0 where
  pub entry : ℕ
  pub reserved : ℕ

abbrev pub is_end_of_chain : FatEntry → Bool
is_end_of_chain e = leb 0x0FFFFFF8 e.entry

abbrev pub max_cache_size : ℕ
max_cache_size = 16

-- The body of `evict_block` is a comment.
unfoldable pub evict_block : FatFileSystem → FatFileSystem
evict_block fs = fs

unfoldable pub cache : FatFileSystem → DataBlock → FatFileSystem
unfolding evict_block
cache fs block =
    let fs1 = if leb max_cache_size (length fs.blocks) then evict_block fs else fs in
    record fs1 { blocks = block ∷ fs1.blocks }

unfoldable pub find_block : ℕ → List DataBlock → Option DataBlock
find_block n [] = none
find_block n (b ∷ bs) = if b.block_number == n then some b else find_block n bs

unfoldable pub get_block_from_cache : FatFileSystem → ℕ → ErrorOr DataBlock
unfolding find_block
get_block_from_cache fs n = elim (find_block n fs.blocks) [
  | some b ↦ value b
  | none ↦ error (create_from_string "Block not found")
]

-- A method of the file system: the answer and the new state.
abbrev pub M {ℓ} : Type ℓ → Type ℓ
M A = FatFileSystem → ErrorOr A × FatFileSystem

-- `TRY`: an error returns at once.
abbrev pub attempt {ℓ κ} :
    {A : Type ℓ} {B : Type κ}
    → ErrorOr A × FatFileSystem
    → (A → FatFileSystem → B)
    → (Error → FatFileSystem → B)
    → B
attempt (value a, fs) next fail = next a fs
attempt (error e, fs) next fail = fail e fs

-- A little-endian 32-bit word at an offset.
unfoldable pub word_at : Bytes → ℕ → ℕ
word_at bytes i =
    get_or bytes i 0
    + get_or bytes (i + 1) 0 * 2 ^ 8
    + get_or bytes (i + 2) 0 * 2 ^ 16
    + get_or bytes (i + 3) 0 * 2 ^ 24

unfoldable pub fat_entry_at : Bytes → ℕ → FatEntry
unfolding word_at
fat_entry_at bytes i = record {
  entry = word_at bytes i % 2 ^ 28;
  reserved = word_at bytes i / 2 ^ 28;
}

-- Where block `n` stands on the device.
abbrev pub block_offset : FatFileSystem → ℕ → ℕ
block_offset fs n = (fs.fat_start_offset + n * fs.block_size) % u64_mod

-- The block that holds the data of a cluster.
abbrev pub cluster_block : FatFileSystem → ℕ → ℕ
cluster_block fs cluster = (fs.number_of_fat_blocks + cluster + u64_mod - 2) % u64_mod

-- The entry of a file in its directory, as far as `read` looks at it.
pub record FatInode : Type 0 where
  pub size : ℕ
  pub first_cluster : ℕ

-- The result of `read`: the count or error, the bytes written to the buffer, and the new state. The
-- outer `none` says that the fuel ran out.
abbrev pub ReadResult : Type 0
ReadResult = Option (ErrorOr ℕ × Bytes × FatFileSystem)

unfoldable pub offset_in_cluster : ℕ → ℕ → ℕ
offset_in_cluster initial done = if done == 0 then initial else 0

-- The bytes that one round copies.
unfoldable pub chunk : ℕ → ℕ → ℕ → ℕ → ℕ
unfolding offset_in_cluster
chunk bytes_per_cluster total initial done =
    min (total - done) (bytes_per_cluster - offset_in_cluster initial done)

module _ (read_poll : ℕ → ℕ → ErrorOr Bytes) where
  unfoldable pub read_block_poll : ℕ → M DataBlock
  unfolding get_block_from_cache cache
  read_block_poll n fs = elim (get_block_from_cache fs n) [
    | value b ↦ (value b, cache fs b)
    | error _ ↦ elim (read_poll fs.block_size (block_offset fs n)) [
      | error e ↦ (error e, fs)
      | value bytes ↦
          let b : DataBlock = record { block_number = n; bytes = bytes } in (value b, cache fs b)
    ]
  ]

  unfoldable pub get_fat_entry : ℕ → M FatEntry
  unfolding read_block_poll fat_entry_at
  get_fat_entry index fs =
      let entry_offset = index * 4 in
      attempt (read_block_poll (entry_offset / fs.block_size) fs)
        (λ block fs1. (value (fat_entry_at block.bytes (entry_offset % fs.block_size)), fs1))
        (λ e fs1. (error e, fs1))

  unfoldable pub read_cluster_poll : ℕ → M DataBlock
  unfolding read_block_poll
  read_cluster_poll cluster fs = read_block_poll (cluster_block fs cluster) fs

  -- The first loop of `read`.
  unfoldable pub skip_clusters : ℕ → ℕ → M ℕ
  unfolding get_fat_entry
  skip_clusters zero current fs = (value current, fs)
  skip_clusters (suc n) current fs =
      attempt (get_fat_entry current fs)
        (λ e fs1. elim (is_end_of_chain e) [
          | true ↦ (error (create_from_string "Corrupt FAT chain: Reached EOF before offset"), fs1)
          | false ↦ skip_clusters n e.entry fs1
        ])
        (λ e fs1. (error e, fs1))

  -- The end of a round of the second loop: `again` is the next round.
  unfoldable pub next_cluster :
      (ℕ → ℕ → Bytes → FatFileSystem → ReadResult) → ℕ → ℕ → ℕ → Bytes → FatFileSystem → ReadResult
  unfolding get_fat_entry
  next_cluster again total current done out fs = elim (ltb done total) [
    | false ↦ again done current out fs
    | true ↦
        attempt (get_fat_entry current fs)
          (λ e fs1. elim (is_end_of_chain e) [
            | true ↦ some (value done, out, fs1)
            | false ↦ again done e.entry out fs1
          ])
          (λ e fs1. some (error e, out, fs1))
  ]

  -- The second loop of `read`: `total` bytes are wanted, `done` are in the buffer, `out` is what they
  -- are.
  unfoldable pub read_loop : ℕ → ℕ → ℕ → ℕ → ℕ → Bytes → FatFileSystem → ReadResult
  unfolding read_cluster_poll next_cluster
  read_loop zero total initial done current out fs = none
  read_loop (suc fuel) total initial done current out fs = elim (ltb done total) [
    | false ↦ some (value done, out, fs)
    | true ↦
        attempt (read_cluster_poll current fs)
          (λ block fs1.
            let n = chunk fs.bytes_per_cluster total initial done in
            next_cluster (read_loop fuel total initial) total current (done + n)
              (out ++ take n (drop (offset_in_cluster initial done) block.bytes)) fs1)
          (λ e fs1. some (error e, out, fs1))
  ]

  -- The size that is read: capped at the end of the file, by a sum that wraps.
  abbrev pub capped : FatInode → ℕ → ℕ → ℕ
  capped inode size offset =
      if ltb inode.size ((offset + size) % u64_mod) then inode.size - offset else size

  unfoldable pub read : ℕ → FatInode → ℕ → ℕ → FatFileSystem → ReadResult
  unfolding skip_clusters read_loop
  read fuel inode size offset fs = elim (leb inode.size offset) [
    | true ↦ some (value 0, [], fs)
    | false ↦
        attempt (skip_clusters (offset / fs.bytes_per_cluster) inode.first_cluster fs)
          (λ cluster fs1.
            read_loop fuel (capped inode size offset) (offset % fs.bytes_per_cluster) 0 cluster []
              fs1)
          (λ e fs1. some (error e, [], fs1))
  ]
