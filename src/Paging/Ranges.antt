-- ===== src/Paging/Ranges.antt =====
-- `identity_map_range` and `map_range` in one region of 512 pages whose tables exist.
use mathlib.Core.Path.{subst}
use matte_os.Base.{ℕ, zero, suc, ◌+◌, ◌-◌, ◌*◌, ◌/◌, ◌%◌, ◌^◌, ◌≤◌, ◌<◌, ◌≡◌, refl, ap, ◌∙◌, arith}
use matte_os.Errors.{value}
use matte_os.Pages.{u64_mod, align_value}
use matte_os.Paging.{
  Memory, slot, translate, map, map_range, map_pages, virtual_address, physical_address,
  identity_map_pages, identity_map_range, number_of_pages,
}
use matte_os.Paging.Entries.{Clean}
use matte_os.Paging.Region.{Region, Region-Outside, pages-Mapped, translate_in}

identity_map_pages-map_pages :
    (root bits n : ℕ) (s : Memory) (address : ℕ)
    → identity_map_pages root bits n s address ≡ map_pages root bits n s address address
unfolding identity_map_pages map_pages
identity_map_pages-map_pages root bits zero s address = refl
identity_map_pages-map_pages root bits (suc n) s address =
    identity_map_pages-map_pages root bits n
      (map s root (virtual_address address) (physical_address address) bits 0)
      ((address + 2 ^ 12) % u64_mod)

-- Identity mapping is the mapping of a range to itself.
pub identity_map_range-map_range :
    (s : Memory) (root start end bits : ℕ)
    → identity_map_range s root start end bits ≡ map_range s root start end start bits
unfolding identity_map_range map_range
identity_map_range-map_range s root start end bits =
    identity_map_pages-map_pages root bits (number_of_pages start end) s (start - start % 4096)

-- The pages that are mapped for the addresses `start` to `end - 1` reach from the page of `start` to the
-- page of the last address, and the last page mapped holds an address below `end`. The end of the range,
-- rounded up, must not wrap.
pub number_of_pages_bounds :
    (start end x : ℕ)
    → start ≤ x
    → x < end
    → end + 4096 ≤ u64_mod
    → (x / 4096 < start / 4096 + number_of_pages start end)
      × (4096 * (start / 4096 + number_of_pages start end) < end + 4096)
unfolding number_of_pages align_value
number_of_pages_bounds start end x ge lt fits = (omega arith, omega arith)

-- In a region of 2 MiB whose tables exist, `identity_map_range` makes `translate` give back every address
-- from `start` to `end - 1`. The entries of the last table must have clear reserved and `rsw` bits, and the
-- region lies below 2 ^ 56.
pub translate-identity_map_range :
    (s : Memory) (root middle lower base start end bits x : ℕ)
    → base % 2 ^ 21 ≡ 0
    → base + 2 ^ 21 ≤ 2 ^ 56
    → base ≤ start
    → end ≤ base + 2 ^ 21
    → bits < 2 ^ 9
    → Region s.words root middle lower base
    → ((j : ℕ) → j < 512 → Clean (s.words (slot lower j)))
    → start ≤ x
    → x < end
    → translate (identity_map_range s root start end bits).words root (virtual_address x) ≡ value x
unfolding identity_map_range
translate-identity_map_range s root middle lower base start end bits x aligned small from to low r
      clean ge lt =
    let n = number_of_pages start end in
    let k = (start - base) / 4096 in
    let j = (x - base) / 2 ^ 12 in
    let (reach, stop) = number_of_pages_bounds start end x ge lt (omega arith) in
    let e : start - start % 4096 ≡ base + 4096 * k = omega arith in
    let back : base + (x - base) ≡ x = omega arith in
    let mapped =
      pages-Mapped n k s root middle lower base bits aligned (omega arith) (omega arith) low r
        (λ i low high. clean i (omega arith)) in
    let words' = (identity_map_pages root bits n s (base + 4096 * k)).words in
    ap (λ a. translate (identity_map_pages root bits n s a).words root (virtual_address x)) e
    ∙ subst (λ y. translate words' root (virtual_address y) ≡ value y) back
        (translate_in words' root middle lower base (x - base) aligned small (omega arith)
          (Region-Outside s.words words' root middle lower base k n (omega arith) mapped.others r)
          (mapped.leaves j (omega arith) (omega arith)))
