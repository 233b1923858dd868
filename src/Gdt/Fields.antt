-- ===== src/Gdt/Fields.antt =====
-- What the processor reads out of a descriptor.
use ord_os.Base.{ℕ, ◌+◌, ◌*◌, ◌/◌, ◌%◌, ◌^◌, ◌<◌, ◌≡◌, arith}
use ord_os.Gdt.{GdtDesc, gdt_desc}

-- The fields as the manual of the processor lays them out.
pub record Segment : Type 0 where
  pub base : ℕ
  pub limit : ℕ
  pub present : ℕ
  pub dpl : ℕ
  pub system : ℕ
  pub type : ℕ
  pub granularity : ℕ
  pub default_size : ℕ
  pub long : ℕ

abbrev pub segment : GdtDesc → Segment
segment d = record {
  base = d.base_l16 + d.base_m8 * 2 ^ 16 + d.base_h8 * 2 ^ 24;
  limit = d.limit_l16 + d.attr_limit_h4 % 2 ^ 4 * 2 ^ 16;
  present = d.attr / 2 ^ 7;
  dpl = d.attr / 2 ^ 5 % 4;
  system = d.attr / 2 ^ 4 % 2;
  type = d.attr % 2 ^ 4;
  granularity = d.attr_limit_h4 / 2 ^ 7;
  default_size = d.attr_limit_h4 / 2 ^ 6 % 2;
  long = d.attr_limit_h4 / 2 ^ 5 % 2;
}

-- `GDT_DESC` with arguments that fit their fields: the processor reads back every argument.
pub segment-gdt_desc :
    (limit base p dpl s type g d l : ℕ)
    → limit < 2 ^ 20
    → base < 2 ^ 32
    → p < 2
    → dpl < 4
    → s < 2
    → type < 16
    → g < 2
    → d < 2
    → l < 2
    → segment (gdt_desc limit base p dpl s type g d l) ≡ record {
      base = base;
      limit = limit;
      present = p;
      dpl = dpl;
      system = s;
      type = type;
      granularity = g;
      default_size = d;
      long = l;
    }
unfolding gdt_desc
segment-gdt_desc limit base p dpl s type g d l hl hb hp hd hs ht hg hz hn = ground arith
