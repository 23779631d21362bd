-- ===== src/Paging/Region.antt =====
-- A region of 512 pages whose tables exist, and what mapping some of its pages leaves in memory.
use mathlib.Core.Path.{subst}
use matte_os.Base.{
  ℕ, zero, suc, ◌+◌, ◌*◌, ◌/◌, ◌%◌, ◌^◌, ◌≤◌, ◌<◌, ◌≡◌, ◌≢◌, refl, sym, ap, dec_lt, ◌∙◌, arith,
}
use matte_os.Errors.{value}
use matte_os.Pages.{u64_mod}
use matte_os.Paging.{
  Memory, slot, entry_at, is_valid, get_ppn, translate, map, map_leaf, virtual_address,
  physical_address, get_value, set_value, store, identity_map_pages,
}
use matte_os.Paging.Entries.{Clean, page_of}
use matte_os.Paging.Leaf.{
  Links, Links-same, Leaf, Leaf-map_leaf, map-Links, translate-Links, update_ne, offset_lt,
}

-- The tables for the 512 pages from `base` on: their entries stand apart from the words that lead there.
pub record Region (words : ℕ → ℕ) (root middle lower base : ℕ) : Type 0 where
  pub first : Links words (slot root (virtual_address base).vpn2) middle
  pub second : Links words (slot middle (virtual_address base).vpn1) lower
  pub not_first : (j : ℕ) → j < 512 → slot root (virtual_address base).vpn2 ≢ slot lower j
  pub not_second : (j : ℕ) → j < 512 → slot middle (virtual_address base).vpn1 ≢ slot lower j

slot_ne : (lower i j : ℕ) → i < 512 → j < 512 → i ≢ j → slot lower i ≢ slot lower j
slot_ne lower i j hi hj ne e = absurd (ne (omega arith))

-- Addresses in a region differ in the last number and the offset only.
vpn2_in :
    (base x : ℕ)
    → base % 2 ^ 21 ≡ 0
    → x < 2 ^ 21
    → (virtual_address (base + x)).vpn2 ≡ (virtual_address base).vpn2
unfolding virtual_address
vpn2_in base x h lt = omega arith

vpn1_in :
    (base x : ℕ)
    → base % 2 ^ 21 ≡ 0
    → x < 2 ^ 21
    → (virtual_address (base + x)).vpn1 ≡ (virtual_address base).vpn1
unfolding virtual_address
vpn1_in base x h lt = omega arith

vpn0_in :
    (base x : ℕ) → base % 2 ^ 21 ≡ 0 → x < 2 ^ 21 → (virtual_address (base + x)).vpn0 ≡ x / 2 ^ 12
unfolding virtual_address
vpn0_in base x h lt = omega arith

offset_in : (base x : ℕ) → base % 2 ^ 21 ≡ 0 → (virtual_address (base + x)).offset ≡ x % 2 ^ 12
unfolding virtual_address
offset_in base x h = omega arith

-- The words agree but for the entries `k` to `k + n - 1` of the table at `lower`.
abbrev pub Outside : (ℕ → ℕ) → (ℕ → ℕ) → ℕ → ℕ → ℕ → Type 0
Outside words words' lower k n =
    (q : ℕ) → ((j : ℕ) → k ≤ j → j < k + n → slot lower j ≢ q) → words' q ≡ words q

Leaf-outside :
    (words words' : ℕ → ℕ) (v ppn : ℕ) → words' v ≡ words v → Leaf words v ppn → Leaf words' v ppn
Leaf-outside words words' v ppn same l = record {
  valid = ap (λ w. is_valid (set_value w)) same ∙ l.valid;
  page = ap (λ w. get_ppn (set_value w)) same ∙ l.page;
}

-- One page of the region.
map_in :
    (s : Memory) (root middle lower base k bits : ℕ)
    → base % 2 ^ 21 ≡ 0
    → k < 512
    → Region s.words root middle lower base
    → Clean (s.words (slot lower k))
    → map s root (virtual_address (base + 4096 * k)) (physical_address (base + 4096 * k)) bits 0
      ≡ store s
          (slot lower k)
          (map_leaf (entry_at s.words (slot lower k)) (physical_address (base + 4096 * k)) bits)
map_in s root middle lower base k bits aligned lt r clean =
    let at = base + 4096 * k in
    let e0 : (virtual_address at).vpn0 ≡ k =
      vpn0_in base (4096 * k) aligned (omega arith) ∙ omega arith in
    map-Links s root middle lower (virtual_address at) (physical_address at) bits
      (subst (λ v. Links s.words (slot root v) middle)
        (sym (vpn2_in base (4096 * k) aligned (omega arith))) r.first)
      (subst (λ v. Links s.words (slot middle v) lower)
        (sym (vpn1_in base (4096 * k) aligned (omega arith))) r.second)
    ∙ ap
        (λ j.
          store s (slot lower j)
            (map_leaf (entry_at s.words (slot lower j)) (physical_address at) bits))
        e0

-- What the mapping of the pages `k` to `k + n - 1` leaves in memory.
pub record Mapped (words words' : ℕ → ℕ) (lower base k n : ℕ) : Type 0 where
  pub leaves : (j : ℕ) → k ≤ j → j < k + n → Leaf words' (slot lower j) (page_of (base + 4096 * j))
  pub others : Outside words words' lower k n

pub Region-Outside :
    (words words' : ℕ → ℕ) (root middle lower base k n : ℕ)
    → k + n ≤ 512
    → Outside words words' lower k n
    → Region words root middle lower base
    → Region words' root middle lower base
Region-Outside words words' root middle lower base k n fits same r = record {
  first =
      Links-same words words' _ middle (same _ (λ j ge lt e. r.not_first j (omega arith) (sym e)))
        r.first;
  second =
      Links-same words words' _ lower (same _ (λ j ge lt e. r.not_second j (omega arith) (sym e)))
        r.second;
  not_first = r.not_first;
  not_second = r.not_second;
}

pages_step :
    (root bits n : ℕ) (s s1 : Memory) (address next : ℕ)
    → map s root (virtual_address address) (physical_address address) bits 0 ≡ s1
    → (address + 2 ^ 12) % u64_mod ≡ next
    → identity_map_pages root bits (suc n) s address ≡ identity_map_pages root bits n s1 next
unfolding identity_map_pages
pages_step root bits n s s1 address next one e =
    ap (λ m. identity_map_pages root bits n m ((address + 2 ^ 12) % u64_mod)) one
    ∙ ap (identity_map_pages root bits n s1) e

pub pages-Mapped :
    (n k : ℕ) (s : Memory) (root middle lower base bits : ℕ)
    → base % 2 ^ 21 ≡ 0
    → base < 2 ^ 56
    → k + n ≤ 512
    → bits < 2 ^ 9
    → Region s.words root middle lower base
    → ((j : ℕ) → k ≤ j → j < k + n → Clean (s.words (slot lower j)))
    → Mapped s.words (identity_map_pages root bits n s (base + 4096 * k)).words lower base k n
unfolding identity_map_pages
pages-Mapped zero k s root middle lower base bits aligned small fits low r clean = record {
  leaves = λ j ge lt. absurd (omega arith);
  others = λ q away. refl;
}
pages-Mapped (suc n) k s root middle lower base bits aligned small fits low r clean =
    let v = slot lower k in
    let e = map_leaf (entry_at s.words v) (physical_address (base + 4096 * k)) bits in
    let s1 : Memory = store s v e in
    let one : map s root (virtual_address (base + 4096 * k)) (physical_address (base + 4096 * k))
          bits 0
        ≡ s1 =
      map_in s root middle lower base k bits aligned (omega arith) r
        (clean k (omega arith) (omega arith)) in
    let next : (base + 4096 * k + 2 ^ 12) % u64_mod ≡ base + 4096 * (k + 1) = omega arith in
    let same : Outside s.words s1.words lower k 1 =
      λ q away. update_ne s.words v (get_value e) q (away k (omega arith) (omega arith)) in
    let rest =
      pages-Mapped n (k + 1) s1 root middle lower base bits aligned small (omega arith) low
        (Region-Outside s.words s1.words root middle lower base k 1 (omega arith) same r)
        (λ j ge lt.
          subst Clean
            (sym (
              update_ne s.words v (get_value e) (slot lower j)
                (slot_ne lower k j (omega arith) (omega arith) (omega arith))))
            (clean j (omega arith) (omega arith))) in
    let here : Leaf (identity_map_pages root bits n s1 (base + 4096 * (k + 1))).words v
        (page_of (base + 4096 * k)) =
      Leaf-outside s1.words _ v (page_of (base + 4096 * k))
        (rest.others v (λ j ge lt. slot_ne lower j k (omega arith) (omega arith) (omega arith)))
        (Leaf-map_leaf s.words v (base + 4096 * k) bits (clean k (omega arith) (omega arith))
          low) in
    subst (λ m. Mapped s.words m.words lower base k (suc n))
      (sym (pages_step root bits n s s1 (base + 4096 * k) (base + 4096 * (k + 1)) one next))
      record {
        leaves = λ j ge lt. elim (dec_lt k j) [
          | yes above ↦ rest.leaves j (omega arith) (omega arith)
          | no below ↦
              let e : k ≡ j = omega arith in
              subst
                (λ i.
                  Leaf (identity_map_pages root bits n s1 (base + 4096 * (k + 1))).words
                    (slot lower i) (page_of (base + 4096 * i)))
                e here
        ];
        others = λ q away.
            rest.others q (λ j ge lt. away j (omega arith) (omega arith))
            ∙ same q (λ j ge lt. away j (omega arith) (omega arith));
      }

pub translate_in :
    (words : ℕ → ℕ) (root middle lower base x : ℕ)
    → base % 2 ^ 21 ≡ 0
    → base + 2 ^ 21 ≤ 2 ^ 56
    → x < 2 ^ 21
    → Region words root middle lower base
    → Leaf words (slot lower (x / 2 ^ 12)) (page_of (base + 4096 * (x / 2 ^ 12)))
    → translate words root (virtual_address (base + x)) ≡ value (base + x)
translate_in words root middle lower base x aligned small lt r leaf =
    let ppn = page_of (base + 4096 * (x / 2 ^ 12)) in
    let sum : ppn * 2 ^ 12 + (virtual_address (base + x)).offset ≡ base + x =
      omega (arith, offset_in base x aligned) in
    translate-Links words root middle lower ppn (virtual_address (base + x))
      (subst (λ v. Links words (slot root v) middle) (sym (vpn2_in base x aligned lt)) r.first)
      (subst (λ v. Links words (slot middle v) lower) (sym (vpn1_in base x aligned lt)) r.second)
      (subst (λ j. Leaf words (slot lower j) ppn) (sym (vpn0_in base x aligned lt)) leaf)
      (offset_lt (base + x))
    ∙ ap value sum
