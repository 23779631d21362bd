-- ===== src/Fat/Skip.antt =====
-- The first loop of `read` along a chain.
use matte_os.Base.{
  ap, ℕ, zero, suc, ◌≤◌, ◌<◌, ◌≡◌, ◌∙◌, refl, true, false, List, arith, length, drop,
}
use matte_os.Errors.{ErrorOr, error, create_from_string}
use matte_os.Fat.{Bytes, DataBlock, FatFileSystem, FatEntry, skip_clusters, is_end_of_chain}
use matte_os.Fat.Cache.{Coherent}
use matte_os.Fat.Chain.{with_cache, HasEntry, Chain, final, link, Answers, get_fat_entry-HasEntry}

module _ (read_poll : ℕ → ℕ → ErrorOr Bytes) (fs : FatFileSystem) where
  chain_ne_nil : {cluster : ℕ} {ds : List Bytes} → Chain read_poll fs cluster ds → length ds ≤ 0 → ⊥
  chain_ne_nil (final e has entry end) h = omega arith
  chain_ne_nil (link e has entry more same chain) h = omega arith

  -- the skip loop along a chain: as far as the chain goes, then its error
  abbrev pub Skips : ℕ → ℕ → List Bytes → List DataBlock → Type 0
  Skips k cluster ds blocks =
      (k < length ds
        → (next : ℕ) × Answers read_poll fs
            (skip_clusters read_poll k cluster (with_cache read_poll fs blocks)) next
          × Chain read_poll fs next (drop k ds))
      × (length ds ≤ k
          → (after : List DataBlock) × (skip_clusters read_poll k cluster
                (with_cache read_poll fs blocks)
              ≡ (
                error (create_from_string "Corrupt FAT chain: Reached EOF before offset"),
                with_cache read_poll fs after,
              )))

  skip-final :
      (k cluster : ℕ) (blocks : List DataBlock) (e : FatEntry)
      → Coherent read_poll (with_cache read_poll fs blocks)
      → HasEntry read_poll fs cluster e
      → is_end_of_chain e ≡ true
      → (after : List DataBlock) × (skip_clusters read_poll
            (suc k)
            cluster
            (with_cache read_poll fs blocks)
          ≡ (
            error (create_from_string "Corrupt FAT chain: Reached EOF before offset"),
            with_cache read_poll fs after,
          ))
  unfolding skip_clusters
  skip-final k cluster blocks e coherent entry end =
      let (after, run, c) = get_fat_entry-HasEntry read_poll fs cluster e blocks coherent entry in
      (after, rw (run, end, skip_clusters))

  skip-link :
      (k cluster : ℕ) (blocks : List DataBlock) (e : FatEntry)
      → Coherent read_poll (with_cache read_poll fs blocks)
      → HasEntry read_poll fs cluster e
      → is_end_of_chain e ≡ false
      → (after : List DataBlock) × (skip_clusters read_poll
            (suc k)
            cluster
            (with_cache read_poll fs blocks)
          ≡ skip_clusters read_poll k e.entry (with_cache read_poll fs after))
        × Coherent read_poll (with_cache read_poll fs after)
  unfolding skip_clusters
  skip-link k cluster blocks e coherent entry more =
      let (after, run, c) = get_fat_entry-HasEntry read_poll fs cluster e blocks coherent entry in
      (after, rw (run, more, skip_clusters), c)

  -- As long as the chain goes the loop answers the cluster that it reaches, and behind it an error.
  pub skip_clusters-Skips :
      (k cluster : ℕ) (ds : List Bytes) (blocks : List DataBlock)
      → Coherent read_poll (with_cache read_poll fs blocks)
      → Chain read_poll fs cluster ds
      → Skips k cluster ds blocks
  skip_clusters-Skips zero cluster ds blocks coherent chain = (
    λ _. (cluster, (blocks, unfold skip_clusters in refl, coherent), chain),
    λ h. absurd (chain_ne_nil chain h),
  )
  skip_clusters-Skips (suc k) cluster ds blocks coherent (final e has entry end) =
      (λ h. absurd (omega arith), λ h. skip-final k cluster blocks e coherent entry end)
  skip_clusters-Skips (suc k) cluster ds blocks coherent
        (link e {next = next} {rest = rest} has entry more same chain) =
      let (after, run, c) = skip-link k cluster blocks e coherent entry more in
      let (found, broken) = skip_clusters-Skips k next rest after c chain in
      let run' = run ∙ ap (λ x. skip_clusters read_poll k x (with_cache read_poll fs after)) same in
      (
        λ h.
            let (n, (last, go, c2), tail) = found (omega arith) in (n, (last, run' ∙ go, c2), tail),
        λ h. let (last, go) = broken (omega arith) in (last, run' ∙ go),
      )

  -- Skipping as many clusters as the chain has, or more, ends with the error for a corrupt chain.
  pub skip_clusters_corrupt :
      (k cluster : ℕ) (ds : List Bytes)
      → Coherent read_poll fs
      → Chain read_poll fs cluster ds
      → length ds ≤ k
      → (after : List DataBlock) × (skip_clusters read_poll k cluster fs ≡ (
        error (create_from_string "Corrupt FAT chain: Reached EOF before offset"),
        with_cache read_poll fs after,
      ))
  skip_clusters_corrupt k cluster ds coherent chain beyond =
      (skip_clusters-Skips k cluster ds fs.blocks coherent chain).1 beyond
