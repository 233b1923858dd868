-- ===== src/Buddy/Address.antt =====
-- kernel/memory/buddy/page.c: the addresses of the pages. A failed assertion is `none`.
use ord_os.Base.{
  refl, true, ℕ, ◌+◌, ◌*◌, ◌/◌, ◌<◌, ◌≡◌, Option, none, some, if◌then◌else◌, ltb, add32, sub32, u32,
  arith, page_size,
}
use ord_os.Buddy.{Buddy}

-- `MEM_KERNEL_VSTART`.
abbrev pub kernel_vstart : ℕ
kernel_vstart = 0xc000_0000

-- `MEM_ZONE_NORMAL`.
abbrev pub zone_normal : ℕ
zone_normal = 1

unfoldable pub page_get_index : Buddy → ℕ → Option ℕ
page_get_index s page = if ltb page s.pages_cnt then some page else none

unfoldable pub page_get : Buddy → ℕ → Option ℕ
page_get s index = if ltb index s.pages_cnt then some index else none

unfoldable pub page_get_phys : Buddy → ℕ → Option ℕ
unfolding page_get_index
page_get_phys s page = elim (page_get_index s page) [
  | none ↦ none
  | some index ↦ some (u32 (index * page_size))
]

unfoldable pub page_get_by_phys : Buddy → ℕ → Option ℕ
unfolding page_get
page_get_by_phys s phys = page_get s (phys / page_size)

unfoldable pub page_get_virt : Buddy → ℕ → Option ℕ
unfolding page_get_phys
page_get_virt s page = elim (page_get_phys s page) [
  | none ↦ none
  | some phys ↦ some (add32 phys kernel_vstart)
]

unfoldable pub page_get_by_virt : Buddy → ℕ → Option ℕ
unfolding page_get_by_phys
page_get_by_virt s virt = page_get_by_phys s (sub32 virt kernel_vstart)

-- Where the kernel sees a page.
abbrev pub virt_of : ℕ → ℕ
virt_of p = kernel_vstart + p * page_size

pub page_get_virt_lem :
    (s : Buddy) (p : ℕ) → p < s.pages_cnt → p < 0x30000 → page_get_virt s p ≡ some (virt_of p)
unfolding page_get_virt page_get_phys page_get_index
page_get_virt_lem s p lt low =
    rw (page_get_virt, page_get_phys, page_get_index, in_range, exact) refl
  where
    in_range : ltb p s.pages_cnt ≡ true
    in_range = ground arith

    exact : add32 (u32 (p * page_size)) kernel_vstart ≡ virt_of p
    exact = omega (arith, low)

pub page_get_by_virt_lem :
    (s : Buddy) (p : ℕ) → p < s.pages_cnt → p < 0x30000 → page_get_by_virt s (virt_of p) ≡ some p
unfolding page_get_by_virt page_get_by_phys page_get
page_get_by_virt_lem s p lt low =
    rw (page_get_by_virt, page_get_by_phys, exact, page_get, in_range) refl
  where
    in_range : ltb p s.pages_cnt ≡ true
    in_range = ground arith

    exact : sub32 (virt_of p) kernel_vstart / page_size ≡ p
    exact = omega (arith, low)

pub page_get_phys_lem :
    (s : Buddy) (p : ℕ) → p < s.pages_cnt → p < 0x30000 → page_get_phys s p ≡ some (p * page_size)
unfolding page_get_phys page_get_index
page_get_phys_lem s p lt low = rw (page_get_phys, page_get_index, in_range, exact) refl
  where
    in_range : ltb p s.pages_cnt ≡ true
    in_range = ground arith

    exact : u32 (p * page_size) ≡ p * page_size
    exact = omega (arith, low)
