-- ===== src/Gdt/Table.antt =====
-- The table that the kernel runs with.
use ord_os.Base.{ℕ, ◌^◌, ◌<◌, ◌≡◌, refl, get_or, arith}
use ord_os.Gdt.{gdt_desc_null, gdt, init_post_gdt, init_tss, tss_size}
use ord_os.Gdt.Fields.{Segment, segment}

-- A segment of all 4 GiB for a privilege level, with a type.
abbrev pub flat : ℕ → ℕ → Segment
flat level kind = record {
  base = 0;
  limit = 0xfffff;
  present = 1;
  dpl = level;
  system = 1;
  type = kind;
  granularity = 1;
  default_size = 1;
  long = 0;
}

-- The segment of an index in the table after `__init_post_gdt` and `init_tss`.
abbrev pub segment_of : ℕ → ℕ → Segment
segment_of ctx index = segment (get_or (init_tss ctx (init_post_gdt gdt)) index gdt_desc_null)

-- In the final table the kernel segments are flat and of level 0, the user segments are flat and of
-- level 3, the video segment starts at the frame buffer, and the task segment at its context.
pub final_table :
    (ctx : ℕ)
    → ctx < 2 ^ 32
    → (segment_of ctx 1 ≡ flat 0 10)
      × (segment_of ctx 2 ≡ flat 0 2)
      × (segment_of ctx 5 ≡ flat 3 10)
      × (segment_of ctx 6 ≡ flat 3 2)
      × ((segment_of ctx 3).base ≡ 0xc00b_8000)
      × ((segment_of ctx 4).base ≡ ctx)
      × ((segment_of ctx 4).limit ≡ tss_size)
unfolding gdt init_post_gdt init_tss gdt_desc_null
final_table ctx h = (refl, refl, refl, refl, refl, omega arith, refl)
