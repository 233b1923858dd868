-- ===== src/Boot/Tests.antt =====
-- Instances: 64 MiB of memory whose last 64 KiB are reserved, and a kernel that ends at 17 MiB.
use ord_os.Base.{
  ℕ, ◌+◌, ◌*◌, ◌<◌, ◌⊎◌, ◌≡◌, ◌||◌, ◌&&◌, ltb, refl, false, none, some, List, [], ◌∷◌, arith,
}
use ord_os.Buddy.{Page}
use ord_os.Boot.Alloc.{Block, bootmem_alloc-Block}
use ord_os.Boot.{
  Bootmem, bootmem_alloc, E820Entry, e820_pre_init_pages, bootmem_pre_init_pages,
  e820_get_pages_cnt,
}
use ord_os.Boot.Reserve.{Marked}
use ord_os.Boot.Pages.{unusable_page, overlaps, boot_pages-Marked}

abbrev entries : List E820Entry
entries =
    record { base = 0; length = 0x3ff_0000; type = 1 }
    ∷ (record { base = 0x3ff_0000; length = 0x1_0000; type = 2 } ∷ [])

abbrev blank_pages : ℕ → Page
blank_pages p = record { order = 0; zone_type = 0; reserved = false; buddy = false }

boot_pages-Marked_example :
    (pages' : ℕ → Page) × (e820_pre_init_pages entries blank_pages (e820_get_pages_cnt entries 0)
      ≡ some pages')
    × Marked blank_pages
        (λ k.
          ltb k (e820_get_pages_cnt entries 0)
          && (unusable_page entries k || overlaps 0x100_0000 0x110_0000 k))
        (bootmem_pre_init_pages pages' (e820_get_pages_cnt entries 0) 0x110_0000)
boot_pages-Marked_example = boot_pages-Marked entries blank_pages 0 0x110_0000 (omega arith) refl

abbrev boot_memory : Bootmem
boot_memory = record { free_mem = 0x110_0800; mem_end = 0x3ff_0000; memory = λ a. 7 }

bootmem_alloc-Block_example :
    Block 0x3000 boot_memory (bootmem_alloc 0x3000 boot_memory)
    ⊎ ((bootmem_alloc 0x3000 boot_memory ≡ none) × (0x3ff_0000 < 0x110_0800 + 2 * 0x3000))
bootmem_alloc-Block_example =
    bootmem_alloc-Block 0x3000 boot_memory (omega arith) (omega arith) (omega arith)
