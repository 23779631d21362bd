-- ===== src/Heap.antt =====
-- The kernel heap: Kernel/Memory/KernelMemoryAllocator.cpp and .h.
-- Memory is a function from addresses to the header that would be read there. Each walk takes fuel,
-- and its `none` says that the fuel ran out. Pointers and sums wrap at 64 bits, a size at 63 bits.
pub mod Blocks
pub mod Alloc
pub mod Free
pub mod Usage
pub mod Freed
use matte_os.Base.{
  ℕ, zero, suc, ◌+◌, ◌-◌, ◌*◌, ◌%◌, ◌^◌, Bool, true, false, not, Option, none, some, ◌&&◌, ◌||◌,
  ◌==◌, ltb, leb, if◌then◌else◌, update,
}
use matte_os.Pages.{u64_mod, align_value}

-- The bit fields `size : 63` and `taken : 1`.
pub record AllocHeader : Type 0 where
  pub size : ℕ
  pub taken : Bool

abbrev pub Headers : Type 0
Headers = ℕ → AllocHeader

abbrev pub header_size : ℕ
header_size = 8

abbrev pub is_free : AllocHeader → Bool
is_free h = not h.taken

abbrev pub set_taken : Headers → ℕ → Headers
set_taken mem p = update mem p (record { size = (mem p).size; taken = true })

abbrev pub set_free : Headers → ℕ → Headers
set_free mem p = update mem p (record { size = (mem p).size; taken = false })

abbrev pub set_size : Headers → ℕ → ℕ → Headers
set_size mem p n = update mem p (record { size = n % 2 ^ 63; taken = (mem p).taken })

pub record KernelMemoryAllocator : Type 0 where
  pub mem : Headers
  pub head : ℕ
  pub total_size : ℕ

abbrev pub allocation_size : ℕ
allocation_size = 64

-- The constructor, with the address that `zalloc(ALLOCATION_SIZE)` returned.
unfoldable pub create : Headers → ℕ → KernelMemoryAllocator
create mem page =
    let total = allocation_size * 4096 in
    record { mem = set_size (set_free mem page) page total; head = page; total_size = total }

-- `((u8*) ptr) + n`
abbrev pub offset : ℕ → ℕ → ℕ
offset ptr n = (ptr + n) % u64_mod

-- The body of the fit branch of `kmalloc`, without its return.
unfoldable pub split : Headers → ℕ → ℕ → Headers
split mem ptr size =
    let chunk_size = (mem ptr).size in
    let remaining = chunk_size - size in
    let mem1 = set_taken mem ptr in
    let next = offset ptr size in
    if ltb header_size remaining
    then set_size (set_size (set_free mem1 next) next remaining) ptr size
    else set_size mem1 ptr chunk_size

unfoldable pub kmalloc_walk : ℕ → Headers → ℕ → ℕ → ℕ → Option (Option ℕ × Headers)
unfolding split
kmalloc_walk zero mem size ptr tail = none
kmalloc_walk (suc fuel) mem size ptr tail = elim (ltb ptr tail) [
  | false ↦ some (none, mem)
  | true ↦ elim (is_free (mem ptr) && leb size (mem ptr).size) [
    | true ↦ some (some (offset ptr header_size), split mem ptr size)
    | false ↦ kmalloc_walk fuel mem size (offset ptr (mem ptr).size) tail
  ]
]

-- `(AllocHeader*) ((u8*) m_head) + m_total_size` counts in headers: the tail lies eight times as far.
unfoldable pub kmalloc_tail : KernelMemoryAllocator → ℕ
kmalloc_tail a = (a.head + header_size * a.total_size) % u64_mod

-- The answer `none` is the null pointer.
unfoldable pub kmalloc : ℕ → KernelMemoryAllocator → ℕ → Option (Option ℕ × KernelMemoryAllocator)
unfolding kmalloc_walk kmalloc_tail
kmalloc fuel a sz =
    if sz == 0
    then some (none, a)
    else (let size = (align_value sz 3 + header_size) % u64_mod in
        elim (kmalloc_walk fuel a.mem size a.head (kmalloc_tail a)) [
          | none ↦ none
          | some (p, mem) ↦ some (p, record a { mem = mem })
        ])

-- for(i = 0; i < size; i++) *(((u8*) mem) + 1) = 0;
unfoldable pub zero_loop : ℕ → (ℕ → ℕ) → ℕ → ℕ → ℕ
zero_loop zero bytes mem = bytes
zero_loop (suc n) bytes mem = zero_loop n (update bytes (offset mem 1) 0) mem

abbrev pub address : Option ℕ → ℕ
address none = 0
address (some p) = p

unfoldable pub kzmalloc :
    ℕ → KernelMemoryAllocator → (ℕ → ℕ) → ℕ → Option (Option ℕ × KernelMemoryAllocator × (ℕ → ℕ))
unfolding kmalloc zero_loop
kzmalloc fuel a bytes sz =
    let size = align_value sz 3 in
    elim (kmalloc fuel a size) [
      | none ↦ none
      | some (p, a') ↦ some (p, a', zero_loop size bytes (address p))
    ]

-- The tail of every other walk.
abbrev pub heap_tail : KernelMemoryAllocator → ℕ
heap_tail a = offset a.head a.total_size

unfoldable pub coalesce_walk : ℕ → Headers → ℕ → ℕ → Option Headers
coalesce_walk zero mem ptr tail = none
coalesce_walk (suc fuel) mem ptr tail =
    let next = offset ptr (mem ptr).size in
    let merged =
      if is_free (mem ptr) && is_free (mem next)
      then set_size mem ptr (((mem ptr).size + (mem next).size) % u64_mod)
      else mem in
    elim (ltb ptr tail) [
      | false ↦ some mem
      | true ↦ elim (leb tail next || (mem ptr).size == 0) [
        | true ↦ some mem
        | false ↦ coalesce_walk fuel merged (offset ptr (merged ptr).size) tail
      ]
    ]

unfoldable pub coalesce : ℕ → KernelMemoryAllocator → Option KernelMemoryAllocator
unfolding coalesce_walk
coalesce fuel a = elim (coalesce_walk fuel a.mem a.head (heap_tail a)) [
  | none ↦ none
  | some mem ↦ some (record a { mem = mem })
]

unfoldable pub kfree : ℕ → KernelMemoryAllocator → Option ℕ → Option KernelMemoryAllocator
unfolding coalesce
kfree fuel a none = some a
kfree fuel a (some ptr) =
    coalesce fuel (record a { mem = set_free a.mem ((ptr + u64_mod - header_size) % u64_mod) })

pub record Statistics : Type 0 where
  pub total_size : ℕ
  pub free_size : ℕ
  pub used_size : ℕ

unfoldable pub statistics_walk : ℕ → Headers → ℕ → ℕ → ℕ → ℕ → Option (ℕ × ℕ)
statistics_walk zero mem ptr tail taken free = none
statistics_walk (suc fuel) mem ptr tail taken free = elim (ltb ptr tail) [
  | false ↦ some (taken, free)
  | true ↦
      statistics_walk fuel mem (offset ptr (mem ptr).size) tail
        (if (mem ptr).taken then (taken + (mem ptr).size) % u64_mod else taken)
        (if (mem ptr).taken then free else (free + (mem ptr).size) % u64_mod)
]

unfoldable pub get_statistics : ℕ → KernelMemoryAllocator → Option Statistics
unfolding statistics_walk
get_statistics fuel a = elim (statistics_walk fuel a.mem a.head (heap_tail a) 0 0) [
  | none ↦ none
  | some (taken, free) ↦
      some (record { total_size = a.total_size; free_size = free; used_size = taken })
]

unfoldable pub freed_walk : ℕ → Headers → ℕ → ℕ → ℕ → Option Bool
freed_walk zero mem potential_ptr ptr tail = none
freed_walk (suc fuel) mem potential_ptr ptr tail =
    let next = offset ptr (mem ptr).size in
    elim (ltb ptr tail) [
      | false ↦ some false
      | true ↦ elim (leb ptr potential_ptr && ltb potential_ptr next && is_free (mem ptr)) [
        | true ↦ some true
        | false ↦ freed_walk fuel mem potential_ptr next tail
      ]
    ]

unfoldable pub is_in_freed_memory : ℕ → KernelMemoryAllocator → ℕ → Option Bool
unfolding freed_walk
is_in_freed_memory fuel a potential_ptr = freed_walk fuel a.mem potential_ptr a.head (heap_tail a)
