-- ===== src/KernelMap/Tests.antt =====
-- An instance of the theorem: 64 MiB of memory, and a kernel that ends at 17 MiB.
use ord_os.Base.{ℕ, ◌+◌, ◌*◌, ◌<◌, ◌≡◌, inl, refl, some, none, arith, page_size}
use ord_os.Buddy.Normal.{buddy}
use ord_os.Buddy.Address.{kernel_vstart, virt_of}
use ord_os.Vpage.{Paging}
use ord_os.Vpage.Walk.{walk}
use ord_os.KernelMap.{init_vpage}
use ord_os.KernelMap.Laws.{init_vpage-mapped}

abbrev blank : Paging
blank = record { buddy = buddy; words = λ a i. 0 }

init_vpage-mapped_example :
    ((x : ℕ)
      → x < 0x4000 * page_size
      → x < 0x3000_0000
      → walk
          (init_vpage (virt_of 0x1100) (virt_of 0x1110) 0x4000 0xc110_0000 blank)
          (0x1100 * page_size)
          (kernel_vstart + x)
        ≡ some x)
    × ((v : ℕ)
        → v < kernel_vstart
        → walk
            (init_vpage (virt_of 0x1100) (virt_of 0x1110) 0x4000 0xc110_0000 blank)
            (0x1100 * page_size)
            v
          ≡ none)
init_vpage-mapped_example =
    init_vpage-mapped 0x1100 0x1110 0x4000 0xc110_0000 blank (omega arith) (omega arith)
      (inl (omega arith)) (omega arith) (omega arith) (λ j. refl)
