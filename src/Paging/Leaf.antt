-- ===== src/Paging/Leaf.antt =====
-- `MemoryManager::map` where the two upper tables exist, and `PageTable::translate` after it.
use matte_os.Base.{
  ℕ, suc, ◌-◌, ◌+◌, ◌*◌, ◌^◌, ◌<◌, ◌≡◌, ◌≢◌, refl, sym, ap, ◌∙◌, arith, bit_or_sum, true, false,
  if◌then◌else◌, ◌==◌, update,
}
use matte_os.Errors.{value}
use matte_os.Paging.{
  Memory, slot, entry_at, is_valid, is_leaf, get_ppn, translate, ensure_table, walk, map, map_leaf,
  virtual_address, physical_address, get_value, set_value, store, VirtualAddress, PhysicalAddress,
}
use matte_os.Paging.Entries.{Clean, page_of, get_ppn-map_leaf, is_valid-map_leaf, get_ppn_stored}

-- The word `v` refers to the table at `table`.
pub record Links (words : ℕ → ℕ) (v table : ℕ) : Type 0 where
  pub valid : is_valid (entry_at words v) ≡ true
  pub inner : is_leaf (entry_at words v) ≡ false
  pub next : get_ppn (entry_at words v) ≡ table

-- The word `v` refers to the page numbered `ppn`.
pub record Leaf (words : ℕ → ℕ) (v ppn : ℕ) : Type 0 where
  pub valid : is_valid (entry_at words v) ≡ true
  pub page : get_ppn (entry_at words v) ≡ ppn * 2 ^ 12

-- The tables on the way to the entry of `address`, which is an entry of no upper table on the way.
pub record Tables (words : ℕ → ℕ) (root middle lower address : ℕ) : Type 0 where
  pub first : Links words (slot root (virtual_address address).vpn2) middle
  pub second : Links words (slot middle (virtual_address address).vpn1) lower
  pub not_first :
      slot root (virtual_address address).vpn2 ≢ slot lower (virtual_address address).vpn0
  pub not_second :
      slot middle (virtual_address address).vpn1 ≢ slot lower (virtual_address address).vpn0
  pub clean : Clean (words (slot lower (virtual_address address).vpn0))

ensure_table_valid :
    (s : Memory) (v : ℕ) → is_valid (entry_at s.words v) ≡ true → ensure_table s v ≡ s
unfolding ensure_table
ensure_table_valid s v ok = rw ok refl

pub walk_step :
    (s s' : Memory) (address : VirtualAddress) (rounds i v table : ℕ)
    → ensure_table s v ≡ s'
    → Links s'.words v table
    → walk address (suc rounds) i s v
      ≡ walk address rounds (i - 1) s' (slot table (if i == 0 then address.vpn0 else address.vpn1))
unfolding walk
walk_step s s' address rounds i v table run l = rw (run, l.next) refl

-- The two rounds that `map` makes at level 0, through the states `s1` and `s2`.
pub walk_two :
    (s s1 s2 : Memory) (address : VirtualAddress) (root middle lower : ℕ)
    → ensure_table s root ≡ s1
    → Links s1.words root middle
    → ensure_table s1 (slot middle address.vpn1) ≡ s2
    → Links s2.words (slot middle address.vpn1) lower
    → walk address 2 1 s root ≡ (s2, slot lower address.vpn0)
unfolding walk
walk_two s s1 s2 address root middle lower run first run' second =
    walk_step s s1 address 1 1 root middle run first
    ∙ (walk_step s1 s2 address 0 0 (slot middle address.vpn1) lower run' second
        ∙ walk_end s2 address (slot lower address.vpn0))
  where
    walk_end : (s : Memory) (address : VirtualAddress) (v : ℕ) → walk address 0 0 s v ≡ (s, v)
    walk_end s address v = refl

-- What `map` writes, in the memory that the two rounds leave.
pub map_two :
    (s s' : Memory) (root v : ℕ) (vaddr : VirtualAddress) (paddr : PhysicalAddress) (bits : ℕ)
    → walk vaddr 2 1 s (slot root vaddr.vpn2) ≡ (s', v)
    → map s root vaddr paddr bits 0 ≡ store s' v (map_leaf (entry_at s'.words v) paddr bits)
unfolding map
map_two s s' root v vaddr paddr bits run =
    ap
      (λ (r : Memory × ℕ).
        let (s', v) = r in store s' v (map_leaf (entry_at s'.words v) paddr bits))
      run

pub map-Links :
    (s : Memory) (root middle lower : ℕ) (vaddr : VirtualAddress) (paddr : PhysicalAddress)
    (bits : ℕ)
    → Links s.words (slot root vaddr.vpn2) middle
    → Links s.words (slot middle vaddr.vpn1) lower
    → map s root vaddr paddr bits 0
      ≡ store s
          (slot lower vaddr.vpn0)
          (map_leaf (entry_at s.words (slot lower vaddr.vpn0)) paddr bits)
map-Links s root middle lower vaddr paddr bits first second =
    map_two s s root (slot lower vaddr.vpn0) vaddr paddr bits (
      walk_two s s s vaddr (slot root vaddr.vpn2) middle lower
        (ensure_table_valid s (slot root vaddr.vpn2) first.valid) first
        (ensure_table_valid s (slot middle vaddr.vpn1) second.valid) second)

pub update_ne : (f : ℕ → ℕ) (p x q : ℕ) → p ≢ q → update f p x q ≡ f q
update_ne f p x q ne = ground arith

pub update_self : (f : ℕ → ℕ) (p x : ℕ) → update f p x p ≡ x
update_self f p x = ground arith

pub Links-same :
    (words words' : ℕ → ℕ) (v table : ℕ)
    → words' v ≡ words v
    → Links words v table
    → Links words' v table
Links-same words words' v table same l = record {
  valid = ap (λ w. is_valid (set_value w)) same ∙ l.valid;
  inner = ap (λ w. is_leaf (set_value w)) same ∙ l.inner;
  next = ap (λ w. get_ppn (set_value w)) same ∙ l.next;
}

pub Links-update :
    (words : ℕ → ℕ) (v table p x : ℕ)
    → p ≢ v
    → Links words v table
    → Links (update words p x) v table
Links-update words v table p x ne =
    Links-same words (update words p x) v table (update_ne words p x v ne)

pub translate-Links :
    (words : ℕ → ℕ) (root middle lower ppn : ℕ) (address : VirtualAddress)
    → Links words (slot root address.vpn2) middle
    → Links words (slot middle address.vpn1) lower
    → Leaf words (slot lower address.vpn0) ppn
    → address.offset < 2 ^ 12
    → translate words root address ≡ value (ppn * 2 ^ 12 + address.offset)
unfolding translate
translate-Links words root middle lower ppn address first second leaf small =
    rw
      (
        translate,
        first.next,
        second.next,
        first.valid,
        first.inner,
        second.valid,
        second.inner,
        leaf.valid,
        leaf.page,
        bit_or_sum 12 ppn address.offset small,
      )
      refl

pub Leaf-map_leaf :
    (words : ℕ → ℕ) (v page bits : ℕ)
    → Clean (words v)
    → bits < 2 ^ 9
    → Leaf
        (update words v (get_value (map_leaf (entry_at words v) (physical_address page) bits)))
        v
        (page_of page)
Leaf-map_leaf words v page bits clean small =
    let e = map_leaf (entry_at words v) (physical_address page) bits in
    let self = update_self words v (get_value e) in
    record {
      valid =
          ap (λ w. is_valid (set_value w)) self
          ∙ is_valid-map_leaf (entry_at words v) bits (physical_address page);
      page =
          ap (λ w. get_ppn (set_value w)) self
          ∙ (get_ppn_stored e ∙ get_ppn-map_leaf (words v) page bits clean small);
    }

pub offset_lt : (address : ℕ) → (virtual_address address).offset < 2 ^ 12
unfolding virtual_address
offset_lt address = omega arith

-- Where the tables on the way to `address` exist, `map` at the last level makes `translate` give the
-- address of the mapped page with the offset added, for every page below 2 ^ 56 and flags below 2 ^ 9.
pub translate-map :
    (s : Memory) (root middle lower address page bits : ℕ)
    → Tables s.words root middle lower address
    → bits < 2 ^ 9
    → translate
        (map s root (virtual_address address) (physical_address page) bits 0).words
        root
        (virtual_address address)
      ≡ value (page_of page * 2 ^ 12 + (virtual_address address).offset)
translate-map s root middle lower address page bits t small =
    let slot_leaf = slot lower (virtual_address address).vpn0 in
    let e = map_leaf (entry_at s.words slot_leaf) (physical_address page) bits in
    ap (λ m. translate m.words root (virtual_address address))
      (map-Links s root middle lower (virtual_address address) (physical_address page) bits t.first
        t.second)
    ∙ translate-Links (update s.words slot_leaf (get_value e)) root middle lower (page_of page)
        (virtual_address address)
        (Links-update s.words (slot root (virtual_address address).vpn2) middle slot_leaf
          (get_value e) (λ c. t.not_first (sym c)) t.first)
        (Links-update s.words (slot middle (virtual_address address).vpn1) lower slot_leaf
          (get_value e) (λ c. t.not_second (sym c)) t.second)
        (Leaf-map_leaf s.words slot_leaf page bits t.clean small) (offset_lt address)
