-- ===== src/Fat/Loop.antt =====
-- The second loop of `read` along a chain.
use native.Mathlib.Decide.{dec_le}
use matte_os.Base.{
  ap, ℕ, zero, suc, ◌+◌, ◌-◌, ◌*◌, ◌≤◌, ◌<◌, ◌≡◌, ◌∙◌, refl, false, some, List, [], ◌∷◌, ◌++◌,
  arith, ltb, length, take, drop, concat, lt→ltb,
}
use matte_os.Errors.{ErrorOr, value}
use matte_os.Fat.{
  Bytes, DataBlock, FatFileSystem, FatEntry, read_loop, next_cluster, chunk, offset_in_cluster,
  ReadResult, is_end_of_chain,
}
use matte_os.Fat.Cache.{Coherent}
use matte_os.Fat.Chain.{
  with_cache, HasData, HasEntry, Chain, final, link, read_cluster_poll-HasData,
  get_fat_entry-HasEntry,
}
use matte_os.Fat.Position.{chunk_last, chunk_more, later_start, long_rest, bytes_last, bytes_more}

module _ (read_poll : ℕ → ℕ → ErrorOr Bytes) (fs : FatFileSystem) where
  -- one round of the loop, at an offset into a full cluster
  module _ (total initial done off cluster : ℕ) (out d : Bytes) (blocks : List DataBlock)
      (coherent : Coherent read_poll (with_cache read_poll fs blocks))
      (has : HasData read_poll fs cluster d) (start : offset_in_cluster initial done ≡ off)
      (wanted : done < total) where
    enter :
        (fuel n done2 : ℕ) (out2 : Bytes)
        → chunk fs.bytes_per_cluster total initial done ≡ n
        → done + n ≡ done2
        → out ++ take n (drop off d) ≡ out2
        → (after : List DataBlock) × (read_loop read_poll
              (suc fuel)
              total
              initial
              done
              cluster
              out
              (with_cache read_poll fs blocks)
            ≡ next_cluster read_poll
                (read_loop read_poll fuel total initial)
                total
                cluster
                done2
                out2
                (with_cache read_poll fs after))
          × Coherent read_poll (with_cache read_poll fs after)
    unfolding read_loop
    enter fuel n done2 out2 size sum bytes =
        let (after, run, c) =
          read_cluster_poll-HasData read_poll fs cluster d blocks coherent has in
        (after, rw (lt→ltb done total wanted, run, size, start, sum, bytes, read_loop), c)

  stop_here :
      (again : ℕ → ℕ → Bytes → FatFileSystem → ReadResult) (total cluster : ℕ) (out : Bytes)
      (s : FatFileSystem)
      → next_cluster read_poll again total cluster total out s ≡ again total cluster out s
  unfolding next_cluster
  stop_here again total cluster out s =
      let e : ltb total total ≡ false = ground arith in rw (e, next_cluster)

  follow :
      (again : ℕ → ℕ → Bytes → FatFileSystem → ReadResult) (total cluster done : ℕ) (out : Bytes)
      (blocks : List DataBlock) (e : FatEntry)
      → Coherent read_poll (with_cache read_poll fs blocks)
      → done < total
      → HasEntry read_poll fs cluster e
      → is_end_of_chain e ≡ false
      → (after : List DataBlock) × (next_cluster read_poll again total cluster done out
            (with_cache read_poll fs blocks)
          ≡ again done e.entry out (with_cache read_poll fs after))
        × Coherent read_poll (with_cache read_poll fs after)
  unfolding next_cluster
  follow again total cluster done out blocks e coherent less entry more =
      let (after, go, c) = get_fat_entry-HasEntry read_poll fs cluster e blocks coherent entry in
      (after, rw (lt→ltb done total less, go, more, next_cluster), c)

  -- a loop that wants no more bytes ends
  loop_ends :
      (fuel total initial cluster : ℕ) (out : Bytes) (s : FatFileSystem)
      → read_loop read_poll (suc fuel) total initial total cluster out s
        ≡ some (value total, out, s)
  unfolding read_loop
  loop_ends fuel total initial cluster out s =
      let e : ltb total total ≡ false = ground arith in rw (e, read_loop)

  abbrev pub Delivers : ReadResult → ℕ → Bytes → Type 0
  Delivers r total bytes =
      (after : List DataBlock) × (r ≡ some (value total, bytes, with_cache read_poll fs after))
      × Coherent read_poll (with_cache read_poll fs after)

  last_round :
      (fuel total initial done off cluster : ℕ) (out d : Bytes) (rest : List Bytes)
      (blocks : List DataBlock)
      → Coherent read_poll (with_cache read_poll fs blocks)
      → HasData read_poll fs cluster d
      → offset_in_cluster initial done ≡ off
      → done < total
      → total - done + off ≤ fs.bytes_per_cluster
      → Delivers
          (read_loop read_poll
            (suc (suc fuel))
            total
            initial
            done
            cluster
            out
            (with_cache read_poll fs blocks))
          total
          (out ++ take (total - done) (drop off (concat (d ∷ rest))))
  last_round fuel total initial done off cluster out d rest blocks coherent has start wanted
        enough =
      let (after, run, c) =
        enter total initial done off cluster out d blocks coherent has start wanted (suc fuel)
          (total - done) total (out ++ take (total - done) (drop off (concat (d ∷ rest))))
          (chunk_last fs.bytes_per_cluster total initial done off start (omega arith)) (omega arith)
          (ap (λ l. out ++ l)
            (bytes_last d (concat rest) off (total - done) (omega (arith, has.1)))) in
      (after, run ∙ stop_here _ total cluster _ _ ∙ loop_ends fuel total initial cluster _ _, c)

  -- The loop along a chain that is long enough delivers the wanted bytes.
  pub read_loop-Chain :
      {cluster : ℕ} {ds : List Bytes} (chain : Chain read_poll fs cluster ds)
      (fuel total initial done off : ℕ) (out : Bytes) (blocks : List DataBlock)
      → Coherent read_poll (with_cache read_poll fs blocks)
      → offset_in_cluster initial done ≡ off
      → off < fs.bytes_per_cluster
      → done < total
      → total - done + off ≤ length ds * fs.bytes_per_cluster
      → total - done < fuel
      → Delivers
          (read_loop read_poll fuel total initial done cluster out (with_cache read_poll fs blocks))
          total
          (out ++ take (total - done) (drop off (concat ds)))
  read_loop-Chain chain zero total initial done off out blocks coherent start inside wanted long
        enough =
      absurd (omega arith)
  read_loop-Chain chain (suc zero) total initial done off out blocks coherent start inside wanted
        long enough =
      absurd (omega arith)
  read_loop-Chain {cluster} (final {bytes = d} e has entry end) (suc (suc fuel)) total initial done
        off out blocks coherent start inside wanted long enough =
      last_round fuel total initial done off cluster out d [] blocks coherent has start wanted
        (omega arith)
  read_loop-Chain {cluster}
        (link {bytes = d} e {next = next} {rest = rest} has entry more same chain) (suc (suc fuel))
        total initial done off out blocks coherent start inside wanted long enough =
      elim (dec_le (total - done + off) fs.bytes_per_cluster) [
        | yes fits ↦
            last_round fuel total initial done off cluster out d rest blocks coherent has start
              wanted fits
        | no over ↦
            let cs = fs.bytes_per_cluster in
            let done2 = done + (cs - off) in
            let out2 = out ++ take (cs - off) (drop off d) in
            let (mid, run, c) =
              enter total initial done off cluster out d blocks coherent has start wanted (suc fuel)
                (cs - off) done2 out2 (chunk_more cs total initial done off start (omega arith))
                refl refl in
            let (mid2, go, c2) =
              follow (read_loop read_poll (suc fuel) total initial) total cluster done2 out2 mid e c
                (omega arith) entry more in
            let (after, rest_run, c3) =
              read_loop-Chain chain (suc fuel) total initial done2 0 out2 mid2 c2
                (later_start initial done2 (omega arith)) (omega arith) (omega arith)
                (long_rest total done off cs (length rest) long (omega arith)) (omega arith) in
            (
              after,
              run
                  ∙ go
                  ∙ ap
                      (λ x.
                        read_loop read_poll (suc fuel) total initial done2 x out2
                          (with_cache read_poll fs mid2))
                      same
                  ∙ rest_run
                  ∙ ap (λ l. some (value total, l, with_cache read_poll fs after))
                      (bytes_more out d (concat rest) off cs (total - done) (total - done2) has.1
                        (omega arith) (omega arith)),
              c3,
            )
      ]
