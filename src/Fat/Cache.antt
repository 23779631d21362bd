-- ===== src/Fat/Cache.antt =====
-- The block cache is transparent: a block is what the device holds.
use matte_os.Base.{
  ℕ, ◌≡◌, ◌∙◌, sym, ap, ℕ_discrete, inl, inr, none, some, List, [], ◌∷◌, arith, Option-cases,
}
use matte_os.Errors.{Error, ErrorOr, value, error}
use matte_os.Fat.{Bytes, DataBlock, FatFileSystem, find_block, read_block_poll, block_offset}

value_ne_error : {b : Bytes} {e : Error} → value b ≡ error e → ⊥
value_ne_error h = cc

module _ (read_poll : ℕ → ℕ → ErrorOr Bytes) where
  -- what the device holds as block `n` of the volume
  abbrev pub device_block : FatFileSystem → ℕ → ErrorOr Bytes
  device_block fs n = read_poll fs.block_size (block_offset fs n)

  -- every cached block is what the device holds
  abbrev pub Coherent : FatFileSystem → Type 0
  Coherent fs =
      (n : ℕ) (b : DataBlock) → find_block n fs.blocks ≡ some b → device_block fs n ≡ value b.bytes

  abbrev pub with_block : FatFileSystem → ℕ → Bytes → FatFileSystem
  with_block fs n bytes = record fs {
    blocks = record { block_number = n; bytes = bytes } ∷ fs.blocks;
  }

  find_block_number :
      (bs : List DataBlock) (n : ℕ) (b : DataBlock) → find_block n bs ≡ some b → b.block_number ≡ n
  unfolding find_block
  find_block_number [] n b e = cc
  find_block_number (c ∷ bs) n b e = ground (arith, find_block_number bs n b)

  with_block-Coherent :
      (fs : FatFileSystem) (n : ℕ) (bytes : Bytes)
      → Coherent fs
      → device_block fs n ≡ value bytes
      → Coherent (with_block fs n bytes)
  unfolding find_block
  with_block-Coherent fs n bytes coherent held m b e = elim (ℕ_discrete n m) [
    | yes same ↦ ground (arith, held)
    | no other ↦ coherent m b (ground arith)
  ]

  read_hit :
      (fs : FatFileSystem) (n : ℕ) (b : DataBlock)
      → find_block n fs.blocks ≡ some b
      → read_block_poll read_poll n fs ≡ (value b, record fs { blocks = b ∷ fs.blocks })
  unfolding read_block_poll
  read_hit fs n b e = rw (e, read_block_poll) (ground arith)

  read_miss :
      (fs : FatFileSystem) (n : ℕ) (bytes : Bytes)
      → find_block n fs.blocks ≡ none
      → device_block fs n ≡ value bytes
      → read_block_poll read_poll n fs
        ≡ (value (record { block_number = n; bytes = bytes }), with_block fs n bytes)
  unfolding read_block_poll
  read_miss fs n bytes e held = rw (e, held, read_block_poll) (ground arith)

  read_fails :
      (fs : FatFileSystem) (n : ℕ) (e : Error)
      → find_block n fs.blocks ≡ none
      → device_block fs n ≡ error e
      → read_block_poll read_poll n fs ≡ (error e, fs)
  unfolding read_block_poll
  read_fails fs n e absent held = rw (absent, held, read_block_poll)

  module _ (fs : FatFileSystem) (n : ℕ) (coherent : Coherent fs) where
    read_value :
        (bytes : Bytes)
        → device_block fs n ≡ value bytes
        → read_block_poll read_poll n fs
          ≡ (value (record { block_number = n; bytes = bytes }), with_block fs n bytes)
    read_value bytes held = elim (Option-cases (find_block n fs.blocks)) [
      | inl e ↦ read_miss fs n bytes e held
      | inr (b, e) ↦
          let same : b ≡ record { block_number = n; bytes = bytes } =
            ground (arith, find_block_number fs.blocks n b e, coherent n b e, held) in
          read_hit fs n b e
          ∙ ap (λ (x : DataBlock). (value x, record fs { blocks = x ∷ fs.blocks })) same
    ]

    read_error :
        (e : Error) → device_block fs n ≡ error e → read_block_poll read_poll n fs ≡ (error e, fs)
    read_error e held = elim (Option-cases (find_block n fs.blocks)) [
      | inl absent ↦ read_fails fs n e absent held
      | inr (b, found) ↦ absurd (value_ne_error (sym (coherent n b found) ∙ held))
    ]

  -- Over a coherent cache, reading a block that the device holds delivers the device's bytes, whether
  -- or not the block is cached, keeps the cache coherent, and puts the block in front of it: nothing is
  -- ever evicted.
  pub read_block_poll-Coherent :
      (fs : FatFileSystem) (n : ℕ) (bytes : Bytes)
      → Coherent fs
      → device_block fs n ≡ value bytes
      → (read_block_poll read_poll n fs
          ≡ (value (record { block_number = n; bytes = bytes }), with_block fs n bytes))
        × Coherent (with_block fs n bytes)
  read_block_poll-Coherent fs n bytes coherent held =
      (read_value fs n coherent bytes held, with_block-Coherent fs n bytes coherent held)

  -- Where the device fails, its error is passed on and the cache stays as it was, if it was coherent.
  pub read_block_poll-error :
      (fs : FatFileSystem) (n : ℕ) (e : Error)
      → Coherent fs
      → device_block fs n ≡ error e
      → read_block_poll read_poll n fs ≡ (error e, fs)
  read_block_poll-error fs n e coherent held = read_error fs n coherent e held
