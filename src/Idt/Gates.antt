-- ===== src/Idt/Gates.antt =====
-- The gates that `init_idt` sets up.
use ord_os.Base.{
  ℕ, zero, suc, ◌+◌, ◌*◌, ◌/◌, ◌%◌, ◌^◌, ◌<◌, ◌≡◌, ◌&&◌, ◌||◌, arith, ◌==◌, ltb, leb, if◌then◌else◌,
  ◌∙◌, range_step,
}
use ord_os.Gdt.{gdt_get_selector, dpl_kernel}
use ord_os.Idt.{
  Idt, IdtDesc, idt_desc_init, gate_loop, init_idt, intr_vecs, put, idt_size, type_syscall,
  type_int,
}

-- What the processor reads out of a gate: where it leads, the lowest level that may raise it by an
-- instruction, and its type.
abbrev pub target : IdtDesc → ℕ
target d = d.offs_lb + d.offs_hb * 2 ^ 16

abbrev pub gate_dpl : IdtDesc → ℕ
gate_dpl d = d.attrs / 2 ^ 5 % 4

abbrev kernel_gate : (ℕ → ℕ) → ℕ → IdtDesc
kernel_gate vecs i = idt_desc_init (vecs i) (gdt_get_selector 1 dpl_kernel) type_int dpl_kernel

gate_loop_lem :
    (n i : ℕ) (vecs : ℕ → ℕ) (t : Idt) (j : ℕ)
    → gate_loop n i vecs t j ≡ (if leb i j && ltb j (i + n) then kernel_gate vecs j else t j)
unfolding gate_loop
gate_loop_lem zero i vecs t j = ground arith
gate_loop_lem (suc n) i vecs t j =
    gate_loop_lem n (i + 1) vecs (put t i (kernel_gate vecs i)) j
    ∙ range_step (kernel_gate vecs) (t j) i n j

-- After `init_idt`, with the vectors of vecs.S, the gates of the exceptions, of the interrupts of the
-- devices and of the system call lead to the stub of their number, and the 80 gates from 0x30 to 0x7f,
-- which have no stub, lead to address 0. All of them, these 80 too, are present interrupt gates into
-- the kernel's code segment, and the gate of the system call is the only one that user code may raise.
pub init_idt-gates :
    (stubs : ℕ → ℕ) (t : Idt) (j : ℕ)
    → j < idt_size
    → stubs j < 2 ^ 32
    → (target (init_idt (intr_vecs stubs) t j)
        ≡ (if leb j 0x2f || j == type_syscall then stubs j else 0))
      × ((init_idt (intr_vecs stubs) t j).sel ≡ 8)
      × ((init_idt (intr_vecs stubs) t j).attrs ≡ (if j == type_syscall then 0xee else 0x8e))
      × (gate_dpl (init_idt (intr_vecs stubs) t j) ≡ (if j == type_syscall then 3 else 0))
unfolding init_idt idt_desc_init gdt_get_selector intr_vecs
init_idt-gates stubs t j lt word = ground (arith, gate_loop_lem idt_size 0 (intr_vecs stubs) t j)
