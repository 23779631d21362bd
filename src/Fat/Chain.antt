-- ===== src/Fat/Chain.antt =====
-- A file as a chain of clusters on the device, and the steps of `read` along it.
use matte_os.Base.{
  ℕ, zero, suc, ◌+◌, ◌*◌, ◌/◌, ◌%◌, ◌≤◌, ◌≡◌, ◌∙◌, true, false, List, [], ◌∷◌, arith, length, drop,
  concat, drop-length-append,
}
use matte_os.Errors.{ErrorOr, value}
use matte_os.Fat.{
  Bytes, DataBlock, FatFileSystem, FatEntry, cluster_block, fat_entry_at, get_fat_entry,
  read_cluster_poll, is_end_of_chain,
}
use matte_os.Fat.Cache.{device_block, Coherent, read_block_poll-Coherent}

module _ (read_poll : ℕ → ℕ → ErrorOr Bytes) (fs : FatFileSystem) where
  -- the file system with other blocks in its cache
  abbrev pub with_cache : List DataBlock → FatFileSystem
  with_cache blocks = record fs { blocks = blocks }

  -- the device holds the data of a cluster
  abbrev pub HasData : ℕ → Bytes → Type 0
  HasData cluster bytes =
      (device_block read_poll fs (cluster_block fs cluster) ≡ value bytes)
      × (length bytes ≡ fs.bytes_per_cluster)

  -- the device holds an entry of the file allocation table
  abbrev pub HasEntry : ℕ → FatEntry → Type 0
  HasEntry cluster e =
      (bytes : Bytes) × (device_block read_poll fs (cluster * 4 / fs.block_size) ≡ value bytes)
      × (fat_entry_at bytes (cluster * 4 % fs.block_size) ≡ e)

  -- the clusters of a file from one cluster on, and their data
  pub data Chain : ℕ → List Bytes → Type 0 where
    final :
        {cluster : ℕ} {bytes : Bytes} (e : FatEntry)
        → HasData cluster bytes
        → HasEntry cluster e
        → is_end_of_chain e ≡ true
        → Chain cluster (bytes ∷ [])
    link :
        {cluster : ℕ} {bytes : Bytes} (e : FatEntry) {next : ℕ} {rest : List Bytes}
        → HasData cluster bytes
        → HasEntry cluster e
        → is_end_of_chain e ≡ false
        → e.entry ≡ next
        → Chain next rest
        → Chain cluster (bytes ∷ rest)

  -- A step over a coherent cache answers `a` and leaves the cache coherent.
  abbrev pub Answers {ℓ} : {A : Type ℓ} → ErrorOr A × FatFileSystem → A → Type ℓ
  Answers r a =
      (blocks : List DataBlock) × (r ≡ (value a, with_cache blocks))
      × Coherent read_poll (with_cache blocks)

  pub read_cluster_poll-HasData :
      (cluster : ℕ) (bytes : Bytes) (blocks : List DataBlock)
      → Coherent read_poll (with_cache blocks)
      → HasData cluster bytes
      → Answers
          (read_cluster_poll read_poll cluster (with_cache blocks))
          (record { block_number = cluster_block fs cluster; bytes = bytes })
  unfolding read_cluster_poll
  read_cluster_poll-HasData cluster bytes blocks coherent has =
      let (e, c) =
        read_block_poll-Coherent read_poll (with_cache blocks) (cluster_block fs cluster) bytes
          coherent has.0 in
      (_, e, c)

  pub get_fat_entry-HasEntry :
      (cluster : ℕ) (e : FatEntry) (blocks : List DataBlock)
      → Coherent read_poll (with_cache blocks)
      → HasEntry cluster e
      → Answers (get_fat_entry read_poll cluster (with_cache blocks)) e
  unfolding get_fat_entry
  get_fat_entry-HasEntry cluster e blocks coherent (bytes, held, decodes) =
      let (run, c) =
        read_block_poll-Coherent read_poll (with_cache blocks) (cluster * 4 / fs.block_size) bytes
          coherent held in
      (
        record { block_number = cluster * 4 / fs.block_size; bytes = bytes } ∷ blocks,
        rw (run, decodes, get_fat_entry),
        c,
      )

  -- every cluster of a chain is full
  abbrev pub Full : List Bytes → Type 0
  Full [] = Unit
  Full (bytes ∷ rest) = (length bytes ≡ fs.bytes_per_cluster) × Full rest

  pub Chain-Full : {cluster : ℕ} {ds : List Bytes} → Chain cluster ds → Full ds
  Chain-Full (final e has entry end) = (has.1, tt)
  Chain-Full (link e has entry more same rest) = (has.1, Chain-Full rest)

  pub Chain-HasData :
      {cluster : ℕ} {d : Bytes} {ds : List Bytes} → Chain cluster (d ∷ ds) → HasData cluster d
  Chain-HasData (final e has entry end) = has
  Chain-HasData (link e has entry more same rest) = has

  pub drop-concat :
      (k r : ℕ) (ds : List Bytes)
      → Full ds
      → k ≤ length ds
      → drop (k * fs.bytes_per_cluster + r) (concat ds) ≡ drop r (concat (drop k ds))
  drop-concat zero r ds full short =
      let e : zero * fs.bytes_per_cluster + r ≡ r = omega arith in rw e
  drop-concat (suc k) r [] full short = absurd (omega arith)
  drop-concat (suc k) r (d ∷ ds) full short =
      let e : suc k * fs.bytes_per_cluster + r ≡ length d + (k * fs.bytes_per_cluster + r) =
        omega (arith, full.0) in
      rw e (drop-length-append d (concat ds) _ ∙ drop-concat k r ds full.1 (omega arith))
