-- ===== src/Paging/Entries.antt =====
-- Kernel/Memory/PageTableEntry.cpp: the word under an entry, and what the bits of `set_bits` leave.
use matte_os.Base.{ℕ, ◌*◌, ◌/◌, ◌%◌, ◌^◌, ◌<◌, ◌≡◌, arith, bit_or, bit_or_high}
use matte_os.Base.{bit_or_digit, true}
use matte_os.Pages.{u64_mod}
use matte_os.Paging.{
  PageTableEntry, set_value, get_value, set_bits, get_ppn, PhysicalAddress, map_leaf,
}
use matte_os.Paging.{physical_address, is_valid, set_page}

-- `set_value` and then `get_value` give back the word.
pub get_value-set_value : (w : ℕ) → get_value (set_value w) ≡ w % u64_mod
unfolding get_value set_value
get_value-set_value w = omega arith

-- The number of the page at an address, as far as an entry holds it.
abbrev pub page_of : ℕ → ℕ
page_of address = address / 2 ^ 12 % 2 ^ 44

get_ppn-set_value : (w : ℕ) → get_ppn (set_value w) ≡ w / 2 ^ 9 * 2 ^ 11 % u64_mod
unfolding get_ppn
get_ppn-set_value w = omega (arith, get_value-set_value w)

-- Bits below the mask of `get_ppn` do not reach the address.
get_ppn-set_bits :
    (e : PageTableEntry) (bits : ℕ) → bits < 2 ^ 9 → get_ppn (set_bits e bits) ≡ get_ppn e
unfolding get_ppn set_bits
get_ppn-set_bits e bits small =
    omega (
      arith,
      get_value-set_value (bit_or (get_value e) bits),
      bit_or_high 9 (get_value e) bits small,
    )

-- An entry whose reserved bits and high `rsw` bit are clear.
pub record Clean (w : ℕ) : Type 0 where
  pub low : w < 2 ^ 54
  pub rsw : w / 2 ^ 9 % 2 ≡ 0

pub get_ppn-map_leaf :
    (w address bits : ℕ)
    → Clean w
    → bits < 2 ^ 9
    → get_ppn (map_leaf (set_value w) (physical_address address) bits) ≡ page_of address * 2 ^ 12
unfolding map_leaf get_ppn get_value physical_address set_value set_page
get_ppn-map_leaf w address bits clean small = rw (get_ppn-set_bits _ bits small) (omega arith)

-- What holds of an entry holds when it is read back from memory.
pub get_ppn_stored : (e : PageTableEntry) → get_ppn (set_value (get_value e)) ≡ get_ppn e
unfolding get_ppn
get_ppn_stored e = omega (arith, get_ppn-set_value (get_value e))

is_valid-set_bits :
    (e : PageTableEntry) (bits : ℕ)
    → get_value e % 2 ≡ 1
    → is_valid (set_value (get_value (set_bits e bits))) ≡ true
unfolding set_bits is_valid set_value
is_valid-set_bits e bits odd =
    ground (arith, get_value-set_value (bit_or (get_value e) bits), bit_or_digit (get_value e) bits)

pub is_valid-map_leaf :
    (e : PageTableEntry) (bits : ℕ) (address : PhysicalAddress)
    → is_valid (set_value (get_value (map_leaf e address bits))) ≡ true
unfolding map_leaf set_page get_value
is_valid-map_leaf e bits address =
    is_valid-set_bits (record (set_page e address) { accessed = 1; dirty = 1 }) bits (omega arith)

-- The entry that `map` makes of an empty one for a new table.
pub get_ppn-set_page :
    (e : PageTableEntry) (page : ℕ)
    → get_value e ≡ 0
    → get_ppn (set_page e (physical_address page)) ≡ page_of page * 2 ^ 12
unfolding get_ppn get_value set_page physical_address
get_ppn-set_page e page empty = omega arith
