-- ===== src/TaskMem.antt =====
-- kernel/task/task.c: the pages of a new task, its kernel stack and its directory of page tables.
-- `entry` is the address of `__task_entry`.
pub mod Directory
pub mod Stack
mod Tests
use ord_os.Base.{
  ℕ, ◌+◌, ◌-◌, ◌*◌, ◌/◌, ◌%◌, ◌^◌, Bool, Option, none, some, ◌==◌, leb, ltb, ◌&&◌, if◌then◌else◌,
  add32, sub32, page_size,
}
use ord_os.Buddy.Address.{kernel_vstart, page_get_virt, page_get_phys}
use ord_os.Vpage.{Paging, put_word, alloc_zeroed, page_pde_index}

-- `sizeof(struct thread_context)` and `sizeof(struct intr_context)`, and the words of the former.
abbrev pub thread_context_size : ℕ
thread_context_size = 32

abbrev pub intr_context_size : ℕ
intr_context_size = 80

-- The word at an address.
abbrev pub store_word : ℕ → ℕ → Paging → Paging
store_word a w = put_word (a / page_size * page_size) (a % page_size / 4) w

-- `ctx->func`, `arg`, `eip`, `ebp`, `ebx`, `esi` and `edi`, at the address of the context.
unfoldable pub write_context : ℕ → ℕ → ℕ → ℕ → Paging → Paging
write_context ctx entry function arg s = store_word (ctx + 8) 0 (
    store_word (ctx + 12) 0 (
      store_word (ctx + 4) 0 (
        store_word ctx 0 (
          store_word (ctx + 16) entry
            (store_word (ctx + 28) arg (store_word (ctx + 24) function s))))))

-- The outer `none` is a failed assertion, the inner one the result `false`, and the value is
-- `task->stack`.
unfoldable pub task_init_stack : ℕ → ℕ → ℕ → Paging → Option (Option ℕ × Paging)
unfolding write_context
task_init_stack entry function arg s = elim (alloc_zeroed s) [
  | none ↦ none
  | some (none, s') ↦ some (none, s')
  | some (some page, s') ↦ elim (page_get_virt s'.buddy page) [
    | none ↦ none
    | some virt ↦
        let stack = sub32 (add32 virt page_size) (thread_context_size + intr_context_size) in
        some (some stack, write_context stack entry function arg s')
  ]
]

-- `PAGE_PDE_KERNEL_OFFSET`.
unfoldable pub kernel_offset : ℕ
unfolding page_pde_index
kernel_offset = page_pde_index kernel_vstart

-- The `memcpy` of the entries of the kernel from the directory at one address to that at another.
unfoldable pub copy_kernel : ℕ → ℕ → Paging → Paging
unfolding kernel_offset
copy_kernel to from s = record s {
  words =
      λ b j. if b == to && leb kernel_offset j && ltb j 1024 then s.words from j else s.words b j;
}

-- `kernel_pd` is `vpage_kernel_vaddr()`; the value is `task->page_table`.
unfoldable pub task_init_page_table : ℕ → Paging → Option (Option ℕ × Paging)
unfolding copy_kernel
task_init_page_table kernel_pd s = elim (alloc_zeroed s) [
  | none ↦ none
  | some (none, s') ↦ some (none, s')
  | some (some page, s') ↦ elim (page_get_phys s'.buddy page) [
    | none ↦ none
    | some phys ↦ elim (page_get_virt s'.buddy page) [
      | none ↦ none
      | some virt ↦ some (some phys, copy_kernel virt kernel_pd s')
    ]
  ]
]
