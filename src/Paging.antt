-- ===== src/Paging.antt =====
-- The Sv39 page tables: Kernel/Memory/PageTable.cpp, PageTableEntry.cpp, the two address types, and
-- the functions of Kernel/Memory/MemoryManager.cpp that map pages.
-- A table is the address of its first entry in the words of memory that `zalloc` works on.
pub mod Entries
pub mod Leaf
pub mod Region
pub mod Ranges
pub mod Fresh
pub mod Defaults
use matte_os.Base.{ℕ, zero, suc, ◌+◌, ◌-◌, ◌*◌, ◌/◌, ◌%◌, ◌^◌, Bool, none, some, bit_or}
use matte_os.Base.{◌||◌, ◌==◌, not, if◌then◌else◌, update}
use matte_os.Errors.{ErrorOr, value, error, create_from_string}
use matte_os.Pages.{u64_mod, page_size, MemoryManager, align_value, zalloc}

-- The bit-field of `width` bits from the bit `low` on.
abbrev pub field : ℕ → ℕ → ℕ → ℕ
field word low width = word / 2 ^ low % 2 ^ width

pub record VirtualAddress : Type 0 where
  pub offset : ℕ
  pub vpn0 : ℕ
  pub vpn1 : ℕ
  pub vpn2 : ℕ
  pub reserved : ℕ

unfoldable pub virtual_address : ℕ → VirtualAddress
virtual_address word = record {
  offset = field word 0 12;
  vpn0 = field word 12 9;
  vpn1 = field word 21 9;
  vpn2 = field word 30 9;
  reserved = field word 39 25;
}

pub record PhysicalAddress : Type 0 where
  pub offset : ℕ
  pub ppn0 : ℕ
  pub ppn1 : ℕ
  pub ppn2 : ℕ
  pub reserved : ℕ

unfoldable pub physical_address : ℕ → PhysicalAddress
physical_address word = record {
  offset = field word 0 12;
  ppn0 = field word 12 9;
  ppn1 = field word 21 9;
  ppn2 = field word 30 26;
  reserved = field word 56 8;
}

-- The low eight flags, the two bits of `rsw`, the page number, and the reserved bits.
pub record PageTableEntry : Type 0 where
  pub valid : ℕ
  pub read : ℕ
  pub write : ℕ
  pub execute : ℕ
  pub user : ℕ
  pub global : ℕ
  pub accessed : ℕ
  pub dirty : ℕ
  pub rsw : ℕ
  pub ppn0 : ℕ
  pub ppn1 : ℕ
  pub ppn2 : ℕ
  pub reserved : ℕ

-- The struct over a word, as `set_value` leaves it, and the word under the struct.
unfoldable pub set_value : ℕ → PageTableEntry
set_value word = record {
  valid = field word 0 1;
  read = field word 1 1;
  write = field word 2 1;
  execute = field word 3 1;
  user = field word 4 1;
  global = field word 5 1;
  accessed = field word 6 1;
  dirty = field word 7 1;
  rsw = field word 8 2;
  ppn0 = field word 10 9;
  ppn1 = field word 19 9;
  ppn2 = field word 28 26;
  reserved = field word 54 10;
}

unfoldable pub get_value : PageTableEntry → ℕ
get_value e =
    e.valid
    + 2 ^ 1 * e.read
    + 2 ^ 2 * e.write
    + 2 ^ 3 * e.execute
    + 2 ^ 4 * e.user
    + 2 ^ 5 * e.global
    + 2 ^ 6 * e.accessed
    + 2 ^ 7 * e.dirty
    + 2 ^ 8 * e.rsw
    + 2 ^ 10 * e.ppn0
    + 2 ^ 19 * e.ppn1
    + 2 ^ 28 * e.ppn2
    + 2 ^ 54 * e.reserved

unfoldable pub set_bits : PageTableEntry → ℕ → PageTableEntry
unfolding set_value get_value
set_bits e bits = set_value (bit_or (get_value e) bits)

unfoldable pub is_valid : PageTableEntry → Bool
is_valid e = e.valid == 1

unfoldable pub is_leaf : PageTableEntry → Bool
is_leaf e = not (e.read == 0) || not (e.write == 0) || not (e.execute == 0)

-- ((get_value() & ~0x1ff) << 2)
unfoldable pub get_ppn : PageTableEntry → ℕ
unfolding get_value
get_ppn e = get_value e / 2 ^ 9 * 2 ^ 9 * 2 ^ 2 % u64_mod

abbrev pub slot : ℕ → ℕ → ℕ
slot table index = (table + 8 * index) % u64_mod

abbrev pub entry_at : (ℕ → ℕ) → ℕ → PageTableEntry
entry_at words v = set_value (words v)

unfoldable pub translate : (ℕ → ℕ) → ℕ → VirtualAddress → ErrorOr ℕ
unfolding set_value is_valid is_leaf get_ppn
translate words root address =
    let first = entry_at words (slot root address.vpn2) in
    let second = entry_at words (slot (get_ppn first) address.vpn1) in
    let third = entry_at words (slot (get_ppn second) address.vpn0) in
    if not (is_valid first)
    then error (create_from_string "First entry is not valid")
    else if is_leaf first
    then value (bit_or (get_ppn first) address.offset)
    else if not (is_valid second)
    then error (create_from_string "Second entry is not valid")
    else if is_leaf second
    then value (bit_or (get_ppn second) address.offset)
    else if not (is_valid third)
    then error (create_from_string "Third entry is not valid")
    else value (bit_or (get_ppn third) address.offset)

pub record Memory : Type 0 where
  pub manager : MemoryManager
  pub words : ℕ → ℕ

abbrev pub store : Memory → ℕ → PageTableEntry → Memory
store s v e = record s { words = update s.words v (get_value e) }

-- The assignments to `valid` and to the page number, of `map` twice.
unfoldable pub set_page : PageTableEntry → PhysicalAddress → PageTableEntry
set_page e address = record e {
  valid = 1;
  ppn0 = address.ppn0;
  ppn1 = address.ppn1;
  ppn2 = address.ppn2;
}

-- `zalloc` on the memory; the address 0 is the null pointer.
unfoldable pub zalloc_pages : Memory → ℕ → ℕ × Memory
unfolding zalloc
zalloc_pages s pages = elim (zalloc s.manager s.words pages) [
  | none ↦ (0, s)
  | some (ptr, m, words) ↦ (ptr, record { manager = m; words = words })
]

-- if(!v->is_valid()) { ... }: a null pointer from `zalloc` is not told from a page.
unfoldable pub ensure_table : Memory → ℕ → Memory
unfolding set_value get_value is_valid physical_address zalloc_pages set_page
ensure_table s v =
    let (page, s') : ℕ × Memory = zalloc_pages s 1 in
    let linked = set_page (entry_at s'.words v) (physical_address page) in
    if not (is_valid (entry_at s.words v)) then store s' v linked else s

-- for(int i = ...; i >= level; i--), over the rounds left.
unfoldable pub walk : VirtualAddress → ℕ → ℕ → Memory → ℕ → Memory × ℕ
unfolding set_value get_ppn ensure_table
walk address zero i s v = (s, v)
walk address (suc rounds) i s v =
    let s' = ensure_table s v in
    let table = get_ppn (entry_at s'.words v) in
    walk address rounds (i - 1) s' (slot table (if i == 0 then address.vpn0 else address.vpn1))

-- The assignments after the loop.
unfoldable pub map_leaf : PageTableEntry → PhysicalAddress → ℕ → PageTableEntry
unfolding set_bits set_page
map_leaf e address bits = set_bits (record (set_page e address) { accessed = 1; dirty = 1 }) bits

-- The level is not negative.
unfoldable pub map : Memory → ℕ → VirtualAddress → PhysicalAddress → ℕ → ℕ → Memory
unfolding walk map_leaf get_value set_value
map s root vaddr paddr bits level =
    let (s', v) = walk vaddr (2 - level) 1 s (slot root vaddr.vpn2) in
    store s' v (map_leaf (entry_at s'.words v) paddr bits)

-- numKbPages, with the address that `start & ~(PAGE_SIZE - 1)` gives.
unfoldable pub number_of_pages : ℕ → ℕ → ℕ
unfolding align_value
number_of_pages start end =
    (align_value end 12 + u64_mod - (start - start % page_size)) % u64_mod / page_size

unfoldable pub identity_map_pages : ℕ → ℕ → ℕ → Memory → ℕ → Memory
unfolding map virtual_address physical_address
identity_map_pages root bits zero s address = s
identity_map_pages root bits (suc n) s address =
    identity_map_pages root bits n
      (map s root (virtual_address address) (physical_address address) bits 0)
      ((address + 2 ^ 12) % u64_mod)

unfoldable pub identity_map_range : Memory → ℕ → ℕ → ℕ → ℕ → Memory
unfolding identity_map_pages number_of_pages
identity_map_range s root start end bits =
    identity_map_pages root bits (number_of_pages start end) s (start - start % page_size)

unfoldable pub map_pages : ℕ → ℕ → ℕ → Memory → ℕ → ℕ → Memory
unfolding map virtual_address physical_address
map_pages root bits zero s vaddr paddr = s
map_pages root bits (suc n) s vaddr paddr =
    map_pages root bits n (map s root (virtual_address vaddr) (physical_address paddr) bits 0)
      ((vaddr + 2 ^ 12) % u64_mod) ((paddr + 2 ^ 12) % u64_mod)

unfoldable pub map_range : Memory → ℕ → ℕ → ℕ → ℕ → ℕ → Memory
unfolding map_pages number_of_pages
map_range s root virtual_start virtual_end physical_start bits =
    map_pages root bits (number_of_pages virtual_start virtual_end) s
      (virtual_start - virtual_start % page_size) (physical_start - physical_start % page_size)
