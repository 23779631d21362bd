-- ===== src/Paging/Fresh.antt =====
-- `MemoryManager::map` from an empty entry of the root: two tables are allocated on the way.
use matte_os.Base.{
  ℕ, ◌+◌, ◌*◌, ◌%◌, ◌^◌, ◌≤◌, ◌<◌, ◌≡◌, ◌≢◌, ◌⊎◌, refl, ap, ◌∙◌, arith, update, true, false, some,
}
use matte_os.Errors.{value}
use matte_os.Pages.{MemoryManager, alloc, zero_words}
use matte_os.Pages.Zeroing.{zero_words_else, zero_words_in, zalloc-alloc}
use matte_os.Paging.{
  zalloc_pages, Memory, slot, entry_at, is_valid, is_leaf, get_ppn, translate, map, map_leaf,
  ensure_table, set_page, virtual_address, physical_address, get_value, set_value,
}
use matte_os.Paging.Entries.{Clean, page_of, get_ppn-set_page, get_ppn_stored}
use matte_os.Paging.Leaf.{
  Links, Links-same, Leaf-map_leaf, translate-Links, update_ne, update_self, offset_lt,
  Links-update, map_two, walk_two,
}

-- What `ensure_table` writes at an empty entry for a table at `page`.
abbrev link : ℕ → ℕ
link page = get_value (set_page (set_value 0) (physical_address page))

link_valid : (page : ℕ) → is_valid (set_value (link page)) ≡ true
unfolding is_valid set_value get_value set_page physical_address
link_valid page = ground arith

link_inner : (page : ℕ) → is_leaf (set_value (link page)) ≡ false
unfolding is_leaf set_value get_value set_page physical_address
link_inner page = ground arith

link_next : (page : ℕ) → page % 4096 ≡ 0 → page < 2 ^ 56 → get_ppn (set_value (link page)) ≡ page
unfolding set_value get_value
link_next page aligned small =
    get_ppn_stored (set_page (set_value 0) (physical_address page))
    ∙ (get_ppn-set_page (set_value 0) page refl ∙ omega arith)

-- A page that a table fits: aligned, below 2 ^ 56, and the entry at `v` is not in it.
pub record FreshFor (v page : ℕ) : Type 0 where
  pub aligned : page % 4096 ≡ 0
  pub small : page + 4096 < 2 ^ 56
  pub away : (v < page) ⊎ (page + 4096 ≤ v)

abbrev after : Memory → MemoryManager → ℕ → ℕ → Memory
after s m v page = record {
  manager = m;
  words = update (zero_words 512 s.words page) v (link page);
}

pub zalloc_pages-alloc :
    (s : Memory) (page : ℕ) (m : MemoryManager)
    → alloc s.manager 1 ≡ some (page, m)
    → zalloc_pages s 1 ≡ (page, record { manager = m; words = zero_words 512 s.words page })
unfolding zalloc_pages
zalloc_pages-alloc s page m run =
    rw (zalloc_pages, zalloc-alloc s.manager s.words 1 page m run) refl

ensure_fresh :
    (s : Memory) (v page : ℕ) (m : MemoryManager)
    → s.words v ≡ 0
    → alloc s.manager 1 ≡ some (page, m)
    → FreshFor v page
    → ensure_table s v ≡ after s m v page
unfolding ensure_table
ensure_fresh s v page m empty run fresh =
    let z : zero_words 512 s.words page v ≡ 0 =
      zero_words_else 512 page v s.words (omega arith) (omega arith) ∙ empty in
    rw (empty, zalloc_pages-alloc s page m run, z) refl

after-Links :
    (s : Memory) (v page : ℕ) (m : MemoryManager)
    → FreshFor v page
    → Links (after s m v page).words v page
after-Links s v page m fresh =
    let self = update_self (zero_words 512 s.words page) v (link page) in
    record {
      valid = ap (λ w. is_valid (set_value w)) self ∙ link_valid page;
      inner = ap (λ w. is_leaf (set_value w)) self ∙ link_inner page;
      next =
          ap (λ w. get_ppn (set_value w)) self
          ∙ link_next page fresh.aligned (omega (arith, fresh.small));
    }

after_inside :
    (s : Memory) (v page j : ℕ) (m : MemoryManager)
    → FreshFor v page
    → j < 512
    → (after s m v page).words (slot page j) ≡ 0
after_inside s v page j m fresh lt =
    let e : slot page j ≡ page + 8 * j = omega (arith, fresh.small) in
    update_ne (zero_words 512 s.words page) v (link page) (slot page j)
      (λ c. omega (arith, fresh.away))
    ∙ ap (zero_words 512 s.words page) e
    ∙ zero_words_in 512 page j s.words (omega (arith, fresh.small)) lt

after_else :
    (s : Memory) (v page q : ℕ) (m : MemoryManager)
    → FreshFor v page
    → v ≢ q
    → (q < page) ⊎ (page + 4096 ≤ q)
    → (after s m v page).words q ≡ s.words q
after_else s v page q m fresh ne away =
    update_ne (zero_words 512 s.words page) v (link page) q ne
    ∙ zero_words_else 512 page q s.words (omega (arith, fresh.small)) (omega arith)

Clean-zero : (w : ℕ) → w ≡ 0 → Clean w
Clean-zero w e = record { low = omega arith; rsw = omega arith }

vpn1_lt : (address : ℕ) → (virtual_address address).vpn1 < 512
unfolding virtual_address
vpn1_lt address = omega arith

vpn0_lt : (address : ℕ) → (virtual_address address).vpn0 < 512
unfolding virtual_address
vpn0_lt address = omega arith

-- Where the entry of the root is zero and two pages `p1` and `p2` can be allocated, `map` makes them the
-- tables on the way, and `translate` gives the address of the mapped page with the offset added. The pages
-- are aligned, below 2 ^ 56, apart from each other and from the entry of the root, and the flags are below
-- 2 ^ 9.
pub translate-map_fresh :
    (s : Memory) (root p1 p2 address page bits : ℕ) (m1 m2 : MemoryManager)
    → s.words (slot root (virtual_address address).vpn2) ≡ 0
    → alloc s.manager 1 ≡ some (p1, m1)
    → alloc m1 1 ≡ some (p2, m2)
    → FreshFor (slot root (virtual_address address).vpn2) p1
    → FreshFor (slot root (virtual_address address).vpn2) p2
    → (p1 + 4096 ≤ p2) ⊎ (p2 + 4096 ≤ p1)
    → bits < 2 ^ 9
    → translate
        (map s root (virtual_address address) (physical_address page) bits 0).words
        root
        (virtual_address address)
      ≡ value (page_of page * 2 ^ 12 + (virtual_address address).offset)
translate-map_fresh s root p1 p2 address page bits m1 m2 empty run1 run2 f1 f2 apart small =
    let a = virtual_address address in
    let v2 = slot root a.vpn2 in
    let v1 = slot p1 a.vpn1 in
    let v0 = slot p2 a.vpn0 in
    let lt1 = vpn1_lt address in
    let lt0 = vpn0_lt address in
    let s1 = after s m1 v2 p1 in
    let s2 = after s1 m2 v1 p2 in
    let (at1, at0) : (v1 ≡ p1 + 8 * a.vpn1) × (v0 ≡ p2 + 8 * a.vpn0) =
      (omega (arith, f1.small), omega (arith, f2.small)) in
    let f2' : FreshFor v1 p2 = record {
      aligned = f2.aligned;
      small = f2.small;
      away = omega arith;
    } in
    let empty1 : s1.words v1 ≡ 0 = after_inside s v2 p1 a.vpn1 m1 f1 lt1 in
    let empty0 : s2.words v0 ≡ 0 = after_inside s1 v1 p2 a.vpn0 m2 f2' lt0 in
    let first : Links s2.words v2 p1 =
      Links-same s1.words s2.words v2 p1
        (after_else s1 v1 p2 v2 m2 f2' (λ c. omega (arith, f1.away)) (omega (arith, f2.away)))
        (after-Links s v2 p1 m1 f1) in
    let second = after-Links s1 v1 p2 m2 f2' in
    let e = map_leaf (entry_at s2.words v0) (physical_address page) bits in
    let words' = update s2.words v0 (get_value e) in
    ap (λ m. translate m.words root a)
      (map_two s s2 root v0 a (physical_address page) bits (
        walk_two s s1 s2 a v2 p1 p2 (ensure_fresh s v2 p1 m1 empty run1 f1)
          (after-Links s v2 p1 m1 f1) (ensure_fresh s1 v1 p2 m2 empty1 run2 f2') second))
    ∙ translate-Links words' root p1 p2 (page_of page) a
        (Links-update s2.words v2 p1 v0 (get_value e) (λ c. omega (arith, f2.away)) first)
        (Links-update s2.words v1 p2 v0 (get_value e) (λ c. omega arith) second)
        (Leaf-map_leaf s2.words v0 page bits (Clean-zero (s2.words v0) empty0) small)
        (offset_lt address)
