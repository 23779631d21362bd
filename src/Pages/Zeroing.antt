-- ===== src/Pages/Zeroing.antt =====
-- `MemoryManager::zalloc`: `alloc`, and the pages set to zero.
use matte_os.Base.{
  ap, ℕ, zero, suc, ◌+◌, ◌*◌, ◌/◌, ◌%◌, ◌≤◌, ◌<◌, ◌≡◌, ◌∙◌, ◌⊎◌, inl, refl, some, arith, update,
}
use matte_os.Pages.{u64_mod, page_size, MemoryManager, alloc, zero_words, zalloc}

pub zero_words_else :
    (n k q : ℕ) (words : ℕ → ℕ)
    → k + 8 * n ≤ u64_mod
    → (q < k) ⊎ (k + 8 * n ≤ q)
    → zero_words n words k q ≡ words q
unfolding zero_words
zero_words_else zero k q words fits away = refl
zero_words_else (suc zero) k q words fits away = ground arith
zero_words_else (suc (suc n)) k q words fits away =
    let e : (k + 8) % u64_mod ≡ k + 8 = omega arith in
    rw e (ground (arith, zero_words_else (suc n) (k + 8) q (update words k 0)))

pub zero_words_in :
    (n k j : ℕ) (words : ℕ → ℕ) → k + 8 * n ≤ u64_mod → j < n → zero_words n words k (k + 8 * j) ≡ 0
unfolding zero_words
zero_words_in zero k j words fits lt = absurd (omega arith)
zero_words_in (suc zero) k j words fits lt = ground arith
zero_words_in (suc (suc n)) k zero words fits lt =
    let e : (k + 8) % u64_mod ≡ k + 8 = omega arith in
    rw e (
      zero_words_else (suc n) (k + 8) (k + 8 * zero) (update words k 0) (omega arith)
        (inl (omega arith))
      ∙ ground arith)
zero_words_in (suc (suc n)) k (suc j) words fits lt =
    let e : (k + 8) % u64_mod ≡ k + 8 = omega arith in
    let f : k + 8 * suc j ≡ k + 8 + 8 * j = omega arith in
    rw (e, f) (zero_words_in (suc n) (k + 8) j (update words k 0) (omega arith) (omega arith))

pub zalloc-alloc :
    (m : MemoryManager) (words : ℕ → ℕ) (pages ptr : ℕ) (r : MemoryManager)
    → alloc m pages ≡ some (ptr, r)
    → zalloc m words pages ≡ some (ptr, r, zero_words ((page_size * pages) % u64_mod / 8) words ptr)
unfolding zalloc
zalloc-alloc m words pages ptr r run = rw (zalloc, run) refl

-- `zalloc` claims what `alloc` claims, sets every word `j` of the claimed pages to zero and leaves every
-- address `q` outside them as it was. The addresses of the claimed pages must not wrap.
pub zalloc_zero :
    (m : MemoryManager) (words : ℕ → ℕ) (pages ptr : ℕ) (r : MemoryManager) (j q : ℕ)
    → ptr + page_size * pages < u64_mod
    → alloc m pages ≡ some (ptr, r)
    → j < 512 * pages
    → (q < ptr) ⊎ (ptr + page_size * pages ≤ q)
    → (words' : ℕ → ℕ) × (zalloc m words pages ≡ some (ptr, r, words'))
      × (words' (ptr + 8 * j) ≡ 0)
      × (words' q ≡ words q)
zalloc_zero m words pages ptr r j q fits run inside away =
    let e : (page_size * pages) % u64_mod / 8 ≡ 512 * pages = omega arith in
    (
      zero_words (512 * pages) words ptr,
      zalloc-alloc m words pages ptr r run ∙ ap (λ n. some (ptr, r, zero_words n words ptr)) e,
      zero_words_in (512 * pages) ptr j words (omega arith) inside,
      zero_words_else (512 * pages) ptr q words (omega arith) (omega arith),
    )
