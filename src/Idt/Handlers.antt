-- ===== src/Idt/Handlers.antt =====
-- The table of handlers after `init_exception`, and dispatch.
use ord_os.Base.{
  ℕ, zero, suc, ◌+◌, ◌≤◌, ◌<◌, ◌≡◌, ◌&&◌, refl, some, arith, ◌==◌, ltb, leb, if◌then◌else◌, ◌∙◌,
  range_step,
}
use ord_os.Idt.{
  Handlers, idt_size, type_page_fault, exception_size, call, intr_register_handler,
  intr_common_handler, exception_loop, init_exception,
}

abbrev exception_handler : ℕ → ℕ → ℕ → ℕ
exception_handler panic fault i = if i == type_page_fault then fault else panic

register :
    (i handler : ℕ) (t : Handlers)
    → i < idt_size
    → intr_register_handler i handler t ≡ some (λ j. if j == i then handler else t j)
unfolding intr_register_handler
register i handler t lt = ground arith

exception_loop_lem :
    (n i panic fault : ℕ) (t : Handlers)
    → i + n ≤ idt_size
    → (t' : Handlers) × (exception_loop n i panic fault t ≡ some t')
      × ((j : ℕ)
          → t' j ≡ (if leb i j && ltb j (i + n) then exception_handler panic fault j else t j))
unfolding exception_loop
exception_loop_lem zero i panic fault t fits = (t, refl, λ j. ground arith)
exception_loop_lem (suc n) i panic fault t fits =
    let first : Handlers = λ j. if j == i then exception_handler panic fault i else t j in
    let (t', returned, entries) = exception_loop_lem n (i + 1) panic fault first (omega arith) in
    (
      t',
      rw (exception_loop, register i (exception_handler panic fault i) t (omega arith)) returned,
      λ j. entries j ∙ range_step (exception_handler panic fault) (t j) i n j,
    )

-- After `init_exception` an interrupt below 20 is dispatched to the handler of exceptions, or to that
-- of page faults if it is number 14; what becomes of the other interrupts has not changed.
pub init_exception-dispatch :
    (panic fault : ℕ) (t : Handlers)
    → 0 < panic
    → 0 < fault
    → (t' : Handlers) × (init_exception panic fault t ≡ some t')
      × ((irq : ℕ)
          → irq < exception_size
          → intr_common_handler t' irq
            ≡ some (call (if irq == type_page_fault then fault else panic) irq))
      × ((irq : ℕ) → exception_size ≤ irq → intr_common_handler t' irq ≡ intr_common_handler t irq)
unfolding init_exception intr_common_handler
init_exception-dispatch panic fault t hp hf =
    let (t', returned, entries) = exception_loop_lem exception_size 0 panic fault t (omega arith) in
    (t', returned, λ irq lt. ground (arith, entries irq), λ irq ge. ground (arith, entries irq))
