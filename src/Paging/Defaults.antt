-- ===== src/Paging/Defaults.antt =====
-- `MemoryManager::map_system_defaults`, the linker's symbols and the root table of `satp`.
use matte_os.Base.{ℕ, ◌+◌, ◌*◌, ◌%◌, ◌^◌, ◌≡◌, refl, ap, ◌∙◌, fun_ext, List, [], ◌∷◌}
use matte_os.Pages.{u64_mod}
use matte_os.Paging.{
  Memory, map, virtual_address, physical_address, identity_map_range, map_range, field,
}
use matte_os.Paging.Ranges.{identity_map_range-map_range}

-- The addresses that the linker gives, and `_heap_size`.
pub record LinkerSymbols : Type 0 where
  pub heap_start : ℕ
  pub heap_size : ℕ
  pub text_start : ℕ
  pub text_end : ℕ
  pub rodata_start : ℕ
  pub rodata_end : ℕ
  pub data_start : ℕ
  pub data_end : ℕ
  pub bss_start : ℕ
  pub bss_end : ℕ
  pub stack_start : ℕ
  pub stack_end : ℕ
  pub memory_start : ℕ
  pub memory_end : ℕ
  pub context_switching_start : ℕ
  pub context_switching_end : ℕ
  pub text_special_start : ℕ
  pub text_special_end : ℕ

-- EntryBits::READ_WRITE and EntryBits::READ_EXECUTE.
abbrev pub read_write : ℕ
read_write = 2 ^ 0 + 2 ^ 1 + 2 ^ 2

abbrev pub read_execute : ℕ
read_execute = 2 ^ 0 + 2 ^ 1 + 2 ^ 3

unfoldable pub map_system_defaults : LinkerSymbols → Memory → ℕ → Memory
unfolding map identity_map_range virtual_address physical_address
map_system_defaults l s root =
    let s =
      identity_map_range s root l.heap_start ((l.heap_start + l.heap_size) % u64_mod) read_write in
    let s = identity_map_range s root l.text_start l.text_end read_execute in
    let s = identity_map_range s root l.rodata_start l.rodata_end read_execute in
    let s = identity_map_range s root l.data_start l.data_end read_write in
    let s = identity_map_range s root l.bss_start l.bss_end read_write in
    let s = identity_map_range s root l.stack_start l.stack_end read_write in
    let s = map s root (virtual_address 0x10000000) (physical_address 0x10000000) read_write 0 in
    let s = identity_map_range s root 0x02000000 0x0200ffff read_write in
    let s = identity_map_range s root 0x0c000000 0x0c002001 read_write in
    let s = identity_map_range s root 0x0c200000 0x0c208001 read_write in
    let s =
      identity_map_range s root l.context_switching_start l.context_switching_end read_execute in
    identity_map_range s root l.text_special_start l.text_special_end read_execute

-- `satp.ppn << 12`
unfoldable pub get_current_root_page_table : ℕ → ℕ
get_current_root_page_table satp = field satp 0 44 * 2 ^ 12

-- A mapping of ranges, each with its start, its end and its flags, one after the other.
abbrev pub map_all : (Memory → ℕ → ℕ → ℕ → Memory) → Memory → List (ℕ × ℕ × ℕ) → Memory
map_all f s [] = s
map_all f s ((start, end, bits) ∷ rest) = map_all f (f s start end bits) rest

abbrev pub ranges : LinkerSymbols → List (ℕ × ℕ × ℕ)
ranges l =
    (l.heap_start, (l.heap_start + l.heap_size) % u64_mod, 7)
    ∷ (l.text_start, l.text_end, 11)
    ∷ (l.rodata_start, l.rodata_end, 11)
    ∷ (l.data_start, l.data_end, 7)
    ∷ (l.bss_start, l.bss_end, 7)
    ∷ (l.stack_start, l.stack_end, 7)
    ∷ (0x10000000, 0x10000001, 7)
    ∷ (0x02000000, 0x0200ffff, 7)
    ∷ (0x0c000000, 0x0c002001, 7)
    ∷ (0x0c200000, 0x0c208001, 7)
    ∷ (l.context_switching_start, l.context_switching_end, 11)
    ∷ (l.text_special_start, l.text_special_end, 11)
    ∷ []

defaults_identity :
    (l : LinkerSymbols) (s : Memory) (root : ℕ)
    → map_system_defaults l s root
      ≡ map_all (λ s start end bits. identity_map_range s root start end bits) s (ranges l)
unfolding map_system_defaults
defaults_identity l s root = refl

-- `map_system_defaults` maps the twelve ranges of the kernel to themselves, in this order, each as
-- `map_range` does: the sections of code can be run and not written, all other ranges can be written and
-- not run, the page of the UART is a range of one byte.
pub map_system_defaults-ranges :
    (l : LinkerSymbols) (s : Memory) (root : ℕ)
    → map_system_defaults l s root
      ≡ map_all (λ s start end bits. map_range s root start end start bits) s (ranges l)
map_system_defaults-ranges l s root =
    defaults_identity l s root
    ∙ ap (λ f. map_all f s (ranges l))
        (fun_ext (λ t. fun_ext (λ start.
          fun_ext (λ end. fun_ext (λ bits. identity_map_range-map_range t root start end bits)))))
