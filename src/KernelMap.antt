-- ===== src/KernelMap.antt =====
-- kernel/memory/vpage.c: the page table of the kernel itself, set up at boot. `pd` and `pt` are the
-- addresses of the directory and of the tables that `bootmem_alloc` gave, and `kernel_end` is
-- `compiler_get_kernel_end()`. A counter of the loops is at most 1023 or a number of page entries.
pub mod Direct
pub mod Laws
mod Tests
use ord_os.Base.{
  ℕ, zero, suc, ◌+◌, ◌-◌, ◌*◌, ◌/◌, ◌%◌, ◌^◌, ltb, if◌then◌else◌, add32, sub32, u32, page_size,
}
use ord_os.Buddy.Address.{kernel_vstart}
use ord_os.Vpage.{Paging, put_word, page_pde_index, page_pde_desc}
use ord_os.TaskMem.{store_word, kernel_offset}

-- `PAGE_ENTRIES`, `MEM_TYPE_HIGH_START` and `BOOT_KERNEL_START`.
abbrev pub page_entries : ℕ
page_entries = 1024

abbrev pub high_start : ℕ
high_start = 0x3000_0000

abbrev pub kernel_start : ℕ
kernel_start = 0x100_0000

-- `MIN(DIV_UP(all_pages, PAGE_ENTRIES), PAGE_PDE_INDEX(MEM_TYPE_HIGH_START))`.
unfoldable pub kernel_pde_cnt : ℕ → ℕ
unfolding page_pde_index
kernel_pde_cnt all_pages =
    let tables = sub32 (add32 all_pages page_entries) 1 / page_entries in
    if ltb tables (page_pde_index high_start) then tables else page_pde_index high_start

-- The loop that fills the directory, with the number of rounds left.
unfoldable pub directory_loop : ℕ → ℕ → ℕ → ℕ → Paging → Paging
unfolding page_pde_desc kernel_offset
directory_loop zero i pte_it pd s = s
directory_loop (suc n) i pte_it pd s =
    directory_loop n (i + 1) (add32 pte_it page_size) pd
      (put_word pd (i + kernel_offset) (page_pde_desc (sub32 pte_it kernel_vstart) 1 1 1) s)

-- The loop that fills the tables, with the number of rounds left.
unfoldable pub table_loop : ℕ → ℕ → ℕ → Paging → Paging
unfolding page_pde_desc
table_loop zero i pt s = s
table_loop (suc n) i pt s =
    table_loop n (i + 1) pt (store_word (pt + 4 * i) (page_pde_desc (u32 (i * page_size)) 1 1 1) s)

-- `__init_early_page` between `bootmem_alloc` and `__link_top_kernel_mem`.
unfoldable pub init_early_page : ℕ → ℕ → ℕ → Paging → Paging
unfolding kernel_pde_cnt
init_early_page pd pt all_pages s =
    let cnt = kernel_pde_cnt all_pages in
    table_loop (cnt * page_entries) 0 pt (directory_loop cnt 0 pt pd s)

-- The loops of `__link_top_kernel_mem` and `__unlink_top_kernel_mem`.
unfoldable pub link_top_loop : ℕ → ℕ → ℕ → Paging → Paging
unfolding kernel_offset
link_top_loop zero i pd s = s
link_top_loop (suc n) i pd s =
    link_top_loop n (i + 1) pd (put_word pd i (s.words pd (kernel_offset + i)) s)

unfoldable pub unlink_top_loop : ℕ → ℕ → ℕ → Paging → Paging
unlink_top_loop zero i pd s = s
unlink_top_loop (suc n) i pd s = unlink_top_loop n (i + 1) pd (put_word pd i 0 s)

-- The rounds of both: from the entry of the start of the kernel to that of its end.
unfoldable pub kernel_rounds : ℕ → ℕ
unfolding page_pde_index
kernel_rounds kernel_end =
    page_pde_index (sub32 kernel_end kernel_vstart) + 1 - page_pde_index kernel_start

unfoldable pub link_top_kernel_mem : ℕ → ℕ → Paging → Paging
unfolding kernel_offset kernel_rounds
link_top_kernel_mem kernel_end pd s =
    link_top_loop (kernel_rounds kernel_end) (page_pde_index kernel_start) pd
      (put_word pd 0 (s.words pd kernel_offset) s)

unfoldable pub unlink_top_kernel_mem : ℕ → ℕ → Paging → Paging
unfolding kernel_rounds
unlink_top_kernel_mem kernel_end pd s =
    unlink_top_loop (kernel_rounds kernel_end) (page_pde_index kernel_start) pd (put_word pd 0 0 s)

-- `init_vpage`, less the loading of the registers and of the segments.
unfoldable pub init_vpage : ℕ → ℕ → ℕ → ℕ → Paging → Paging
init_vpage pd pt all_pages kernel_end s =
    unlink_top_kernel_mem kernel_end pd
      (link_top_kernel_mem kernel_end pd (init_early_page pd pt all_pages s))
