-- ===== src/Gdt.antt =====
-- Segment descriptors: include/kernel/memory/gdt.h, the table of kernel/memory/gdt.c and what
-- kernel/memory/vpage.c and kernel/task/tss.c write into it. `x & mask` and `x >> n` of a field are
-- written as remainder and quotient.
pub mod Fields
pub mod Table
mod Tests
use ord_os.Base.{ℕ, ◌+◌, ◌-◌, ◌*◌, ◌/◌, ◌%◌, ◌^◌, List, [], ◌∷◌, set, u8, u16, u32, sub32, bit_or}

pub record GdtDesc : Type 0 where
  pub limit_l16 : ℕ
  pub base_l16 : ℕ
  pub base_m8 : ℕ
  pub attr : ℕ
  pub attr_limit_h4 : ℕ
  pub base_h8 : ℕ

-- `enum gdt_desc_type` and `enum dpl`.
abbrev pub type_x : ℕ
type_x = 8

abbrev pub type_c : ℕ
type_c = 2

abbrev pub type_a : ℕ
type_a = 1

abbrev pub dpl_kernel : ℕ
dpl_kernel = 0

abbrev pub dpl_user : ℕ
dpl_user = 3

-- `MEM_KERNEL_VSTART`.
abbrev pub kernel_vstart : ℕ
kernel_vstart = 0xc000_0000

-- The macro `GDT_DESC`.
unfoldable pub gdt_desc : (limit base p dpl s type g d l : ℕ) → GdtDesc
gdt_desc limit base p dpl s type g d l = record {
  limit_l16 = limit % 2 ^ 16;
  base_l16 = base % 2 ^ 16;
  base_m8 = base / 2 ^ 16 % 2 ^ 8;
  attr = u8 (p * 2 ^ 7 + dpl * 2 ^ 5 + s * 2 ^ 4 + type);
  attr_limit_h4 = u8 (g * 2 ^ 7 + d * 2 ^ 6 + l * 2 ^ 5 + limit / 2 ^ 16 % 2 ^ 4);
  base_h8 = base / 2 ^ 24 % 2 ^ 8;
}

unfoldable pub gdt_desc_null : GdtDesc
unfolding gdt_desc
gdt_desc_null = gdt_desc 0 0 0 dpl_kernel 0 0 0 0 0

unfoldable pub gdt_desc_tcode : GdtDesc
unfolding gdt_desc
gdt_desc_tcode =
    gdt_desc 0xfffff (sub32 0 kernel_vstart) 1 dpl_kernel 1 (bit_or type_x type_c) 1 1 0

unfoldable pub gdt_desc_tdata : GdtDesc
unfolding gdt_desc
gdt_desc_tdata = gdt_desc 0xfffff (sub32 0 kernel_vstart) 1 dpl_kernel 1 type_c 1 1 0

unfoldable pub gdt_desc_kcode : GdtDesc
unfolding gdt_desc
gdt_desc_kcode = gdt_desc 0xfffff 0 1 dpl_kernel 1 (bit_or type_x type_c) 1 1 0

unfoldable pub gdt_desc_kdata : GdtDesc
unfolding gdt_desc
gdt_desc_kdata = gdt_desc 0xfffff 0 1 dpl_kernel 1 type_c 1 1 0

unfoldable pub gdt_desc_ucode : GdtDesc
unfolding gdt_desc
gdt_desc_ucode = gdt_desc 0xfffff 0 1 dpl_user 1 (bit_or type_x type_c) 1 1 0

unfoldable pub gdt_desc_udata : GdtDesc
unfolding gdt_desc
gdt_desc_udata = gdt_desc 0xfffff 0 1 dpl_user 1 type_c 1 1 0

unfoldable pub gdt_desc_tvideo : GdtDesc
unfolding gdt_desc
gdt_desc_tvideo = gdt_desc 0x07 0xb8000 1 dpl_kernel 1 type_c 1 1 0

unfoldable pub gdt_desc_video : GdtDesc
unfolding gdt_desc
gdt_desc_video = gdt_desc 0x07 (0xb8000 + kernel_vstart) 1 dpl_kernel 1 type_c 1 1 0

-- `sizeof(struct tss_context)`: 27 words.
abbrev pub tss_size : ℕ
tss_size = 108

-- `ctx` is the address of the context.
unfoldable pub gdt_tss_desc : ℕ → GdtDesc
unfolding gdt_desc
gdt_tss_desc ctx = gdt_desc tss_size ctx 1 dpl_kernel 0 (bit_or type_x type_a) 1 0 0

-- The limit and the base for `lgdt`; a descriptor has 8 bytes.
unfoldable pub gdt_get_ptr : ℕ → ℕ → ℕ
gdt_get_ptr gdt size = bit_or (sub32 (u32 (8 * size)) 1) (gdt * 2 ^ 16)

-- `GDT_GET_SELECTOR`.
unfoldable pub gdt_get_selector : ℕ → ℕ → ℕ
gdt_get_selector index dpl = bit_or (index * 2 ^ 3) dpl

-- The initial table.
unfoldable pub gdt : List GdtDesc
unfolding gdt_desc_null gdt_desc_tcode gdt_desc_tdata gdt_desc_tvideo gdt_desc_ucode gdt_desc_udata
gdt =
    gdt_desc_null
    ∷ (gdt_desc_tcode
        ∷ (gdt_desc_tdata
            ∷ (gdt_desc_tvideo
                ∷ (gdt_desc_null ∷ (gdt_desc_ucode ∷ (gdt_desc_udata ∷ (gdt_desc_null ∷ [])))))))

-- `__init_post_gdt` before `lgdt`.
unfoldable pub init_post_gdt : List GdtDesc → List GdtDesc
unfolding gdt_desc_kcode gdt_desc_kdata gdt_desc_video
init_post_gdt table = set (set (set table 1 gdt_desc_kcode) 2 gdt_desc_kdata) 3 gdt_desc_video

-- `init_tss` before `lgdt` and `ltr`.
unfoldable pub init_tss : ℕ → List GdtDesc → List GdtDesc
unfolding gdt_tss_desc
init_tss ctx table = set table 4 (gdt_tss_desc ctx)
