-- ===== src/Tests/Paging.antt =====
-- Page tables at 4096, 8192 and 12288, of which the last is empty.
use matte_os.Base.{ℕ, ◌+◌, ◌*◌, ◌/◌, ◌^◌, ◌<◌, ◌≡◌, refl, arith, if◌then◌else◌, ◌==◌}
use matte_os.Errors.{value, error, create_from_string}
use matte_os.Pages.{PageStatus}
use matte_os.Paging.{
  Memory, slot, is_valid, is_leaf, get_ppn, translate, map, virtual_address, physical_address,
  set_value, identity_map_range, number_of_pages,
}
use matte_os.Paging.Entries.{Clean, page_of}
use matte_os.Paging.Leaf.{Links, Tables}
use matte_os.Paging.Region.{Region}
use matte_os.Paging.Ranges.{number_of_pages_bounds, translate-identity_map_range}
use matte_os.Paging.Defaults.{LinkerSymbols}
use matte_os.Pages.{MemoryManager, alloc, claim_at}
use matte_os.Paging.Fresh.{FreshFor, translate-map_fresh}
use matte_os.Base.{some, inl}

abbrev tables : ℕ → ℕ
tables q = if q == 4096 then 2 * 1024 + 1 else if q == 8192 then 3 * 1024 + 1 else 0

abbrev three_tables : Memory
three_tables = record {
  manager = record {
    heap_start = 0;
    heap_size = 0;
    first_page = λ k. PageStatus.free;
    number_of_pages = 0;
    alloc_start = 0;
  };
  words = tables;
}

first-Links : Links tables 4096 8192
unfolding is_valid is_leaf get_ppn set_value
first-Links = record { valid = refl; inner = refl; next = refl }

second-Links : Links tables 8192 12288
unfolding is_valid is_leaf get_ppn set_value
second-Links = record { valid = refl; inner = refl; next = refl }

Clean-entry : (j : ℕ) → j < 512 → Clean (tables (slot 12288 j))
Clean-entry j lt =
    let e : tables (slot 12288 j) ≡ 0 = ground arith in
    record { low = rw e (omega arith); rsw = rw e refl }

region : Region tables 4096 8192 12288 0
unfolding virtual_address
region = record {
  first = first-Links;
  second = second-Links;
  not_first = λ j lt e. omega arith;
  not_second = λ j lt e. omega arith;
}

path : Tables tables 4096 8192 12288 0x5123
unfolding virtual_address
path = record {
  first = first-Links;
  second = second-Links;
  not_first = λ e. omega arith;
  not_second = λ e. omega arith;
  clean = Clean-entry 5 (omega arith);
}

unmapped :
    translate tables 4096 (virtual_address 0x5123)
    ≡ error (create_from_string "Third entry is not valid")
unfolding translate virtual_address
unmapped = refl

not_a_table :
    translate tables 4096 (virtual_address 0x40000000)
    ≡ error (create_from_string "First entry is not valid")
unfolding translate virtual_address
not_a_table = refl

number_of_pages_bounds_example :
    (0x2fff / 4096 < 0x1234 / 4096 + number_of_pages 0x1234 0x3001)
    × (4096 * (0x1234 / 4096 + number_of_pages 0x1234 0x3001) < 0x3001 + 4096)
number_of_pages_bounds_example =
    number_of_pages_bounds 0x1234 0x3001 0x2fff (omega arith) (omega arith) (omega arith)

translate-identity_map_range_example :
    translate
      (identity_map_range three_tables 4096 0x1234 0x3001 7).words
      4096
      (virtual_address 0x2fff)
    ≡ value 0x2fff
translate-identity_map_range_example =
    translate-identity_map_range three_tables 4096 8192 12288 0 0x1234 0x3001 7 0x2fff refl
      (omega arith) (omega arith) (omega arith) (omega arith) region Clean-entry (omega arith)
      (omega arith)

abbrev pub symbols : LinkerSymbols
symbols = record {
  heap_start = 0x80100000;
  heap_size = 0x7f00000;
  text_start = 0x80000000;
  text_end = 0x80020000;
  rodata_start = 0x80020000;
  rodata_end = 0x80030000;
  data_start = 0x80030000;
  data_end = 0x80040000;
  bss_start = 0x80040000;
  bss_end = 0x80050000;
  stack_start = 0x80050000;
  stack_end = 0x800d0000;
  memory_start = 0x80000000;
  memory_end = 0x88000000;
  context_switching_start = 0x800d0000;
  context_switching_end = 0x800d1000;
  text_special_start = 0x800d1000;
  text_special_end = 0x800d2000;
}

-- Eight free pages from 65536 on, and a root table at 4096 that is zero.
abbrev free_pages : MemoryManager
free_pages = record {
  heap_start = 61440;
  heap_size = 32768;
  first_page = λ k. PageStatus.free;
  number_of_pages = 8;
  alloc_start = 65536;
}

abbrev pub empty_root : Memory
empty_root = record { manager = free_pages; words = λ q. 0 }

abbrev claim_one : MemoryManager → ℕ → MemoryManager
claim_one m i = record m { first_page = claim_at m.first_page 1 i }

first_page_run : alloc free_pages 1 ≡ some (65536, claim_one free_pages 0)
unfolding alloc
first_page_run = refl

second_page_run :
    alloc (claim_one free_pages 0) 1 ≡ some (69632, claim_one (claim_one free_pages 0) 1)
unfolding alloc
second_page_run = refl

abbrev uart : ℕ
uart = 0x10000123

first_fresh : FreshFor (slot 4096 (virtual_address uart).vpn2) 65536
unfolding virtual_address
first_fresh = record { aligned = refl; small = omega arith; away = inl (omega arith) }

second_fresh : FreshFor (slot 4096 (virtual_address uart).vpn2) 69632
unfolding virtual_address
second_fresh = record { aligned = refl; small = omega arith; away = inl (omega arith) }

translate-map_fresh_example :
    translate
      (map empty_root 4096 (virtual_address uart) (physical_address 0x10000000) 7 0).words
      4096
      (virtual_address uart)
    ≡ value (page_of 0x10000000 * 2 ^ 12 + (virtual_address uart).offset)
translate-map_fresh_example =
    translate-map_fresh empty_root 4096 65536 69632 uart 0x10000000 7 (claim_one free_pages 0)
      (claim_one (claim_one free_pages 0) 1) refl first_page_run second_page_run first_fresh
      second_fresh (inl (omega arith)) (omega arith)
