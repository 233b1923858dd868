-- ===== src/Vpage.antt =====
-- kernel/memory/vpage.c and include/kernel/memory/vpage.h: linking a page into the two-level table of
-- a task. The words of a page are known by the address at which the kernel sees it.
pub mod Walk
pub mod Link
pub mod Table
pub mod Laws
mod Tests
use ord_os.Base.{
  ℕ, ◌+◌, ◌-◌, ◌*◌, ◌/◌, ◌%◌, ◌^◌, Bool, Option, none, some, ◌==◌, if◌then◌else◌, add32, not32,
  bit_and, bit_or, page_size,
}
use ord_os.Buddy.{Buddy, buddy_alloc_page, buddy_free_page}
use ord_os.Buddy.Address.{zone_normal, kernel_vstart, page_get_virt, page_get_phys}

-- `PAGE_PDE_INDEX`, `PAGE_PTE_INDEX` and `PAGE_PADDR`.
unfoldable pub page_pde_index : ℕ → ℕ
page_pde_index addr = addr / 2 ^ 22

unfoldable pub page_pte_index : ℕ → ℕ
page_pte_index addr = bit_and (addr / 2 ^ 12) 0x3ff

unfoldable pub page_paddr : ℕ → ℕ
page_paddr addr = bit_and addr (not32 (page_size - 1))

-- `PAGE_PDE_DESC`, which is `PAGE_PTE_DESC` too.
unfoldable pub page_pde_desc : ℕ → ℕ → ℕ → ℕ → ℕ
page_pde_desc base p w u = bit_or (bit_or (bit_or base p) (w * 2)) (u * 4)

-- `PRESENT & entry`.
unfoldable pub is_present : ℕ → ℕ
is_present entry = bit_and entry 1

pub record Paging : Type 0 where
  pub buddy : Buddy
  pub words : ℕ → ℕ → ℕ

-- One word of a page written, and a page filled with zeros.
abbrev pub put_word : ℕ → ℕ → ℕ → Paging → Paging
put_word a i w s = record s {
  words = λ b j. if b == a then if j == i then w else s.words b j else s.words b j;
}

abbrev pub clear_page : ℕ → Paging → Paging
clear_page a s = record s { words = λ b j. if b == a then 0 else s.words b j }

-- `buddy_alloc_page` and the `memset` of the page.
unfoldable pub alloc_zeroed : Paging → Option (Option ℕ × Paging)
alloc_zeroed s = elim (buddy_alloc_page s.buddy zone_normal 0) [
  | none ↦ none
  | some (none, b) ↦ some (none, record s { buddy = b })
  | some (some page, b) ↦ elim (page_get_virt b page) [
    | none ↦ none
    | some a ↦ some (some page, clear_page a (record s { buddy = b }))
  ]
]

-- The end of `vpage_link_addr`: `pt` is the address of the page table.
unfoldable pub link_entry : ℕ → ℕ → ℕ → Paging → Option (Option ℕ × Paging)
unfolding page_pte_index page_pde_desc is_present
link_entry pt ppage vaddr s =
    if is_present (s.words pt (page_pte_index vaddr)) == 0
    then elim (page_get_phys s.buddy ppage) [
      | none ↦ none
      | some phys ↦
          some (some vaddr, put_word pt (page_pte_index vaddr) (page_pde_desc phys 1 1 1) s)
    ]
    else none

-- The case that the directory has no table for the address.
unfoldable pub link_new_table : ℕ → ℕ → ℕ → Paging → Option (Option ℕ × Paging)
unfolding alloc_zeroed link_entry page_pde_index
link_new_table table ppage vaddr s = elim (alloc_zeroed s) [
  | none ↦ none
  | some (none, s') ↦ elim (buddy_free_page s'.buddy ppage 0) [
    | none ↦ none
    | some b ↦ some (none, record s' { buddy = b })
  ]
  | some (some pt_page, s') ↦ elim (page_get_phys s'.buddy pt_page) [
    | none ↦ none
    | some phys ↦ elim (page_get_virt s'.buddy pt_page) [
      | none ↦ none
      | some pt ↦
          link_entry pt ppage vaddr
            (put_word table (page_pde_index vaddr) (page_pde_desc phys 1 1 1) s')
    ]
  ]
]

-- `cr` is `page_table` of the current task. The outer `none` is a failed assertion, the inner one the
-- null pointer.
unfoldable pub vpage_link_addr : ℕ → ℕ → Paging → Option (Option ℕ × Paging)
unfolding link_new_table page_paddr
vpage_link_addr cr vaddr s =
    let table = add32 cr kernel_vstart in
    if table == 0 then none else elim (alloc_zeroed s) [
      | none ↦ none
      | some (none, s') ↦ some (none, s')
      | some (some ppage, s') ↦
          let pde = s'.words table (page_pde_index vaddr) in
          if is_present pde == 0
          then link_new_table table ppage vaddr s'
          else link_entry (add32 (page_paddr pde) kernel_vstart) ppage vaddr s'
    ]
