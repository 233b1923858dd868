-- ===== src/Gdt/Tests.antt =====
-- Instances of the theorems.
use ord_os.Base.{◌≡◌, arith}
use ord_os.Gdt.{gdt_desc}
use ord_os.Gdt.Fields.{segment, segment-gdt_desc}

segment-gdt_desc_example : segment (gdt_desc 0x12345 0xc00b_8000 1 3 1 10 1 1 0) ≡ record {
  base = 0xc00b_8000;
  limit = 0x12345;
  present = 1;
  dpl = 3;
  system = 1;
  type = 10;
  granularity = 1;
  default_size = 1;
  long = 0;
}
segment-gdt_desc_example =
    segment-gdt_desc 0x12345 0xc00b_8000 1 3 1 10 1 1 0 (omega arith) (omega arith) (omega arith)
      (omega arith) (omega arith) (omega arith) (omega arith) (omega arith) (omega arith)
