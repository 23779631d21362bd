-- ===== src/Fat/Read.antt =====
-- `FATInode::read` delivers the bytes of the file.
use matte_os.Base.{
  ap, ℕ, ◌+◌, ◌-◌, ◌*◌, ◌/◌, ◌%◌, ◌≤◌, ◌<◌, ◌≡◌, ◌∙◌, sym, refl, true, false, some, List, [], arith,
  leb, length, take, drop, concat, length-drop, min, dec_lt,
}
use matte_os.Errors.{ErrorOr, value}
use matte_os.Pages.{u64_mod}
use matte_os.Fat.{Bytes, DataBlock, FatFileSystem, FatInode, skip_clusters, read_loop, capped, read}
use matte_os.Fat.Cache.{Coherent}
use matte_os.Fat.Chain.{with_cache, Chain, Chain-Full, drop-concat}
use matte_os.Fat.Position.{position, position_reached, covered, first_start}
use matte_os.Fat.Skip.{skip_clusters-Skips}
use matte_os.Fat.Loop.{Delivers, read_loop-Chain}

module _ (read_poll : ℕ → ℕ → ErrorOr Bytes) (fs : FatFileSystem) where
  read_enter :
      (fuel : ℕ) (inode : FatInode) (size offset cluster total : ℕ) (blocks : List DataBlock)
      → offset < inode.size
      → capped read_poll inode size offset ≡ total
      → skip_clusters read_poll (offset / fs.bytes_per_cluster) inode.first_cluster fs
        ≡ (value cluster, with_cache read_poll fs blocks)
      → read read_poll fuel inode size offset fs
        ≡ read_loop read_poll fuel total
            (offset % fs.bytes_per_cluster)
            0
            cluster
            []
            (with_cache read_poll fs blocks)
  unfolding read
  read_enter fuel inode size offset cluster total blocks before limit skip =
      let e : leb inode.size offset ≡ false = ground arith in rw (e, skip, limit, read)

  capped_lem :
      (inode : FatInode) (size offset : ℕ)
      → offset < inode.size
      → offset + size < u64_mod
      → capped read_poll inode size offset ≡ min size (inode.size - offset)
  capped_lem inode size offset before fits = ground arith

  read_behind :
      (fuel : ℕ) (inode : FatInode) (size offset : ℕ)
      → inode.size ≤ offset
      → read read_poll fuel inode size offset fs ≡ some (value 0, [], fs)
  unfolding read
  read_behind fuel inode size offset h =
      let e : leb inode.size offset ≡ true = ground arith in rw (e, read)

  -- A read that begins inside the file.
  module _ (fuel : ℕ) (inode : FatInode) (size offset : ℕ) (ds : List Bytes)
      (coherent : Coherent read_poll fs) (cs : 0 < fs.bytes_per_cluster)
      (chain : Chain read_poll fs inode.first_cluster ds)
      (covers : inode.size ≤ length ds * fs.bytes_per_cluster) (some_bytes : 0 < size)
      (enough : size < fuel) (before : offset < inode.size) where
    k : ℕ
    k = offset / fs.bytes_per_cluster

    k-lt : k < length ds
    unfolding k
    k-lt = position_reached offset inode.size (length ds) fs.bytes_per_cluster before covers cs

    same_bytes :
        (n : ℕ)
        → take (n - 0) (drop (offset % fs.bytes_per_cluster) (concat (drop k ds)))
          ≡ take n (drop offset (concat ds))
    unfolding k
    same_bytes n =
        let zero_less : n - 0 ≡ n = omega arith in
        ap (λ m. take m (drop (offset % fs.bytes_per_cluster) (concat (drop k ds)))) zero_less
        ∙ ap (take n) (
            sym (
              ap (λ x. drop x (concat ds)) (sym (position offset fs.bytes_per_cluster))
              ∙ drop-concat read_poll fs k (offset % fs.bytes_per_cluster) ds
                  (Chain-Full read_poll fs chain) (omega (arith, k-lt))))

    read_from :
        (cluster total : ℕ) (blocks : List DataBlock)
        → capped read_poll inode size offset ≡ total
        → min size (inode.size - offset) ≡ total
        → skip_clusters read_poll k inode.first_cluster fs
          ≡ (value cluster, with_cache read_poll fs blocks)
        → Coherent read_poll (with_cache read_poll fs blocks)
        → Chain read_poll fs cluster (drop k ds)
        → Delivers read_poll fs
            (read read_poll fuel inode size offset fs)
            total
            (take total (drop offset (concat ds)))
    read_from cluster total blocks limit e skip c tail =
        let r = offset % fs.bytes_per_cluster in
        let split : k * fs.bytes_per_cluster + r ≡ offset =
          unfold k in position offset fs.bytes_per_cluster in
        let long =
          covered offset inode.size (length ds) k r total fs.bytes_per_cluster split before covers
            k-lt (omega arith) in
        let (after, run, c2) =
          read_loop-Chain read_poll fs tail fuel total r 0 r [] blocks c (first_start r)
            (omega arith) (omega arith) (rw length-drop long) (omega arith) in
        (
          after,
          read_enter fuel inode size offset cluster total blocks before limit (unfold k in skip)
              ∙ run
              ∙ ap (λ (l : Bytes). some (value total, l, with_cache read_poll fs after))
                  (same_bytes total),
          c2,
        )

    read_inside :
        offset + size < u64_mod
        → Delivers read_poll fs
            (read read_poll fuel inode size offset fs)
            (min size (inode.size - offset))
            (take (min size (inode.size - offset)) (drop offset (concat ds)))
    read_inside fits =
        let (cluster, (blocks, skip, c), tail) =
          (skip_clusters-Skips read_poll fs k inode.first_cluster ds fs.blocks coherent chain).0
            k-lt in
        read_from cluster _ blocks (capped_lem inode size offset before fits) refl skip c tail

  -- Over a coherent cache, reading a positive `size` of bytes at `offset` of a file whose clusters, of
  -- a positive number of bytes, hold its data delivers exactly the
  -- bytes of the file from the offset on, as many as are asked for or as the file has, and keeps the
  -- cache coherent; at or behind the end it delivers nothing. The clusters must cover the file, the
  -- sum of offset and size must not wrap, and one round for each byte, and one more, is enough fuel.
  pub read-Chain :
      (fuel : ℕ) (inode : FatInode) (size offset : ℕ) (ds : List Bytes)
      → Coherent read_poll fs
      → 0 < fs.bytes_per_cluster
      → Chain read_poll fs inode.first_cluster ds
      → inode.size ≤ length ds * fs.bytes_per_cluster
      → 0 < size
      → offset + size < u64_mod
      → size < fuel
      → Delivers read_poll fs
          (read read_poll fuel inode size offset fs)
          (min size (inode.size - offset))
          (take (min size (inode.size - offset)) (drop offset (concat ds)))
  read-Chain fuel inode size offset ds coherent cs chain covers some_bytes fits enough =
      elim (dec_lt offset inode.size) [
        | no behind ↦
            let e : min size (inode.size - offset) ≡ 0 = omega arith in
            rw e (fs.blocks, read_behind fuel inode size offset (omega arith), coherent)
        | yes before ↦
            read_inside fuel inode size offset ds coherent cs chain covers some_bytes enough before
              fits
      ]
