-- ===== src/Boot.antt =====
-- kernel/memory/e820.c and kernel/memory/bootmem.c: the size of the memory, the pages that the buddy
-- allocator must not give out, and the allocation of memory before it runs. `base` and `length` of an
-- entry have 64 bits, an address has 32.
pub mod Reserve
pub mod Pages
pub mod Alloc
mod Tests
use ord_os.Base.{
  ℕ, zero, suc, ◌+◌, ◌*◌, ◌/◌, ◌%◌, ◌^◌, Bool, true, false, Option, none, some, List, [], ◌∷◌, ◌==◌,
  ltb, leb, if◌then◌else◌, add32, sub32, ◌-◌, ◌&&◌,
}
use ord_os.Slab.{align_up}
use ord_os.Buddy.Address.{kernel_vstart}
use ord_os.Buddy.{Page}

-- `struct e820_entry`; the type of usable memory is 1.
pub record E820Entry : Type 0 where
  pub base : ℕ
  pub length : ℕ
  pub type : ℕ

abbrev pub type_ram : ℕ
type_ram = 1

abbrev pub page_size : ℕ
page_size = 4096

-- The loop of `e820_get_memory_size`; `mem_end` has 32 bits.
unfoldable pub memory_size_loop : List E820Entry → ℕ → ℕ
memory_size_loop [] mem_end = mem_end
memory_size_loop (e ∷ es) mem_end =
    let mem_size = (e.base + e.length) % 2 ^ 64 in
    let larger = memory_size_loop es (mem_size % 2 ^ 32) in
    let same = memory_size_loop es mem_end in
    if e.type == type_ram then (if ltb mem_end mem_size then larger else same) else same

-- `cached` is `__mem_size`: the value, and the cache after the call.
unfoldable pub e820_get_memory_size : List E820Entry → ℕ → ℕ × ℕ
e820_get_memory_size es cached =
    if cached == 0 then (memory_size_loop es 0, memory_size_loop es 0) else (cached, cached)

unfoldable pub e820_get_pages_cnt : List E820Entry → ℕ → ℕ
e820_get_pages_cnt es cached = (e820_get_memory_size es cached).0 / page_size

abbrev pub reserve : ℕ → (ℕ → Page) → ℕ → Page
reserve p pages q = if q == p then record (pages q) { reserved = true } else pages q

-- The loops that mark the page of every address from `addr` to `limit`, page by page, with fuel.
unfoldable pub reserve_loop : ℕ → (ℕ → Page) → ℕ → ℕ → ℕ → Option (ℕ → Page)
reserve_loop zero pages cnt addr limit = none
reserve_loop (suc fuel) pages cnt addr limit =
    let pg_idx = addr / page_size in
    let rest = reserve_loop fuel (reserve pg_idx pages) cnt (add32 addr page_size) limit in
    if ltb addr limit then (if leb cnt pg_idx then some pages else rest) else some pages

-- No round visits a page twice, so one more than the pages is fuel enough.
unfoldable pub e820_pre_init_pages : List E820Entry → (ℕ → Page) → ℕ → Option (ℕ → Page)
e820_pre_init_pages [] pages cnt = some pages
e820_pre_init_pages (e ∷ es) pages cnt =
    let skipped = e820_pre_init_pages es pages cnt in
    let marked : Option (ℕ → Page) =
      elim (reserve_loop (suc cnt) pages cnt (e.base % 2 ^ 32) ((e.base + e.length) % 2 ^ 64)) [
        | none ↦ none
        | some pages' ↦ e820_pre_init_pages es pages' cnt
      ] in
    if e.type == type_ram then skipped else marked

-- From `BOOT_KERNEL_START` up to `__free_mem`.
unfoldable pub bootmem_pre_init_pages : (ℕ → Page) → ℕ → ℕ → Option (ℕ → Page)
bootmem_pre_init_pages pages cnt free_mem = reserve_loop (suc cnt) pages cnt 0x100_0000 free_mem

-- `__free_mem`, `__mem_end` and the bytes of the memory, by their addresses in the kernel.
pub record Bootmem : Type 0 where
  pub free_mem : ℕ
  pub mem_end : ℕ
  pub memory : ℕ → ℕ

-- `kernel_end` is `compiler_get_kernel_end()`, and `mem_size` is `e820_get_memory_size()`.
unfoldable pub init_bootmem : ℕ → ℕ → Bootmem → Bootmem
init_bootmem kernel_end mem_size b = record b {
  free_mem = sub32 kernel_end kernel_vstart;
  mem_end = mem_size;
}

-- `none` is the panic.
unfoldable pub bootmem_alloc : ℕ → Bootmem → Option (ℕ × Bootmem)
unfolding align_up
bootmem_alloc size b =
    let base = align_up b.free_mem size in
    let ptr = add32 base kernel_vstart in
    if ltb b.mem_end (add32 base size)
    then none
    else some (
      ptr,
      record b {
        free_mem = add32 base size;
        memory = λ a. if leb ptr a && ltb a (ptr + size) then 0 else b.memory a;
      },
    )
