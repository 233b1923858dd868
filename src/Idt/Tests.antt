-- ===== src/Idt/Tests.antt =====
-- Instances of the theorems.
use ord_os.Base.{ℕ, ◌+◌, ◌*◌, ◌≤◌, ◌<◌, ◌≡◌, some, arith, ◌==◌, if◌then◌else◌}
use ord_os.Idt.{
  Idt, Handlers, init_idt, intr_vecs, init_exception, intr_common_handler, call, exception_size,
  type_page_fault,
}
use ord_os.Idt.Gates.{target, gate_dpl, init_idt-gates}
use ord_os.Idt.Handlers.{init_exception-dispatch}

-- Stubs of 16 bytes each, an empty table of gates and one of handlers.
abbrev stubs : ℕ → ℕ
stubs i = 0xc010_0000 + 16 * i

abbrev no_gates : Idt
no_gates i = record { offs_lb = 0; sel = 0; reserved = 0; attrs = 0; offs_hb = 0 }

abbrev no_handlers : Handlers
no_handlers i = 0

init_idt-gates_example :
    (target (init_idt (intr_vecs stubs) no_gates 0x80) ≡ 0xc010_0800)
    × ((init_idt (intr_vecs stubs) no_gates 0x80).sel ≡ 8)
    × ((init_idt (intr_vecs stubs) no_gates 0x80).attrs ≡ 0xee)
    × (gate_dpl (init_idt (intr_vecs stubs) no_gates 0x80) ≡ 3)
init_idt-gates_example = init_idt-gates stubs no_gates 0x80 (omega arith) (omega arith)

init_exception-dispatch_example :
    (t' : Handlers) × (init_exception 0xc000_1000 0xc000_2000 no_handlers ≡ some t')
    × ((irq : ℕ)
        → irq < exception_size
        → intr_common_handler t' irq
          ≡ some (call (if irq == type_page_fault then 0xc000_2000 else 0xc000_1000) irq))
    × ((irq : ℕ)
        → exception_size ≤ irq
        → intr_common_handler t' irq ≡ intr_common_handler no_handlers irq)
init_exception-dispatch_example =
    init_exception-dispatch 0xc000_1000 0xc000_2000 no_handlers (omega arith) (omega arith)
