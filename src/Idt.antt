-- ===== src/Idt.antt =====
-- kernel/interrupt/idt.c, kernel/interrupt/interrupt.c and kernel/interrupt/exception.c: the gates of
-- the interrupt table and the table of handlers.
pub mod Gates
pub mod Handlers
mod Tests
use ord_os.Base.{
  ℕ, zero, suc, ◌+◌, ◌*◌, ◌/◌, ◌%◌, ◌^◌, Bool, Option, none, some, ◌==◌, ◌&&◌, leb, ltb,
  if◌then◌else◌, u8, u16, u32, sub32, bit_or,
}
use ord_os.Gdt.{gdt_get_selector, dpl_kernel, dpl_user}

-- `INTR_IDT_SIZE`, `INTR_TYPE_SYSCALL`, `INTR_TYPE_PAGE_FAULT` and the number of exceptions.
abbrev pub idt_size : ℕ
idt_size = 0x81

abbrev pub type_syscall : ℕ
type_syscall = 0x80

abbrev pub type_page_fault : ℕ
type_page_fault = 0x0e

abbrev pub exception_size : ℕ
exception_size = 20

pub record IdtDesc : Type 0 where
  pub offs_lb : ℕ
  pub sel : ℕ
  pub reserved : ℕ
  pub attrs : ℕ
  pub offs_hb : ℕ

-- `IDT_DESC_TYPE_INT`.
abbrev pub type_int : ℕ
type_int = 0xe

unfoldable pub idt_desc_init : ℕ → ℕ → ℕ → ℕ → IdtDesc
idt_desc_init entry sel type dpl = record {
  offs_hb = u16 (entry / 2 ^ 16);
  offs_lb = u16 (entry % 2 ^ 16);
  sel = sel;
  attrs = u8 (bit_or (bit_or (1 * 2 ^ 7) (dpl * 2 ^ 5)) type);
  reserved = 0;
}

abbrev pub Idt : Type 0
Idt = ℕ → IdtDesc

abbrev pub put : Idt → ℕ → IdtDesc → Idt
put t i d j = if j == i then d else t j

-- `_asm_intr_vecs` of vecs.S, where `stubs` are the addresses that the linker gives `idt_0x.._desc`: an
-- entry for each vector up to 0x2f, zeros by `.fill`, and an entry for the system call.
unfoldable pub intr_vecs : (ℕ → ℕ) → ℕ → ℕ
intr_vecs stubs i = if leb 0x30 i && ltb i 0x80 then 0 else stubs i

-- The loop of `init_idt`, with the number of gates left; `vecs` is `_asm_intr_vecs`.
unfoldable pub gate_loop : ℕ → ℕ → (ℕ → ℕ) → Idt → Idt
gate_loop zero i vecs t = t
gate_loop (suc n) i vecs t =
    gate_loop n (i + 1) vecs
      (put t i (idt_desc_init (vecs i) (gdt_get_selector 1 dpl_kernel) type_int dpl_kernel))

-- `init_idt` before `lidt`.
unfoldable pub init_idt : (ℕ → ℕ) → Idt → Idt
init_idt vecs t =
    put (gate_loop idt_size 0 vecs t) type_syscall
      (idt_desc_init (vecs type_syscall) (gdt_get_selector 1 dpl_kernel) type_int dpl_user)

unfoldable pub idt_get_ptr : ℕ → ℕ → ℕ
idt_get_ptr idt_addr size = bit_or (idt_addr * 2 ^ 16) (sub32 (u32 (size * 8)) 1)

-- `__interrupt_handlers`: the address of a function, or 0.
abbrev pub Handlers : Type 0
Handlers = ℕ → ℕ

-- `none` is a failed assertion; that an entry is overwritten is only logged.
unfoldable pub intr_register_handler : ℕ → ℕ → Handlers → Option Handlers
intr_register_handler number handler t =
    if ltb number idt_size then some (λ j. if j == number then handler else t j) else none

-- What `intr_common_handler` does: it calls a handler on the number, or logs that there is none.
pub data Dispatch : Type 0 where
  call : ℕ → ℕ → Dispatch
  unhandled : ℕ → Dispatch

unfoldable pub intr_common_handler : Handlers → ℕ → Option Dispatch
intr_common_handler t irq =
    if ltb irq idt_size then some (if t irq == 0 then unhandled irq else call (t irq) irq) else none

-- The loop of `init_exception`, with the number of exceptions left. `panic` and `fault` are the
-- addresses of `__exception_handler` and `__page_fault_handler`.
unfoldable pub exception_loop : ℕ → ℕ → ℕ → ℕ → Handlers → Option Handlers
exception_loop zero i panic fault t = some t
exception_loop (suc n) i panic fault t =
    elim (intr_register_handler i (if i == type_page_fault then fault else panic) t) [
      | none ↦ none
      | some t' ↦ exception_loop n (i + 1) panic fault t'
    ]

unfoldable pub init_exception : ℕ → ℕ → Handlers → Option Handlers
init_exception panic fault t = exception_loop exception_size 0 panic fault t
