-- ===== src/TaskMem/Stack.antt =====
-- The stack of a new task: what the context switch finds on it.
use ord_os.Base.{
  ℕ, ◌+◌, ◌*◌, ◌/◌, ◌%◌, ◌≤◌, ◌≡◌, ◌≢◌, ◌⊎◌, inl, inr, refl, Option, none, some, arith, ◌∙◌,
  ℕ_discrete, page_size, add32, sub32,
}
use ord_os.Buddy.{Buddy}
use ord_os.Buddy.Blocks.{IsBuddy}
use ord_os.Buddy.Address.{zone_normal, virt_of, page_get_virt_lem}
use ord_os.Buddy.InUse.{IsPage, Keeps, OneTaken, one_page, virt-low}
use ord_os.Vpage.{Paging, alloc_zeroed}
use ord_os.Vpage.Link.{after_alloc, alloc_zeroed_lem, put_word-here, put_word-page, put_word-word}
use ord_os.TaskMem.{
  thread_context_size, intr_context_size, store_word, write_context, task_init_stack,
}
use ord_os.TaskMem.Directory.{NoPage}

-- The word that is read at an address.
abbrev pub load_word : Paging → ℕ → ℕ
load_word s a = s.words (a / page_size * page_size) (a % page_size / 4)

pub load-store_word : (s : Paging) (a w : ℕ) → load_word (store_word a w s) a ≡ w
load-store_word s a w = put_word-here s (a / page_size * page_size) (a % page_size / 4) w

pub load-store_far :
    (s : Paging) (a w b : ℕ) → b / 4 ≢ a / 4 → load_word (store_word a w s) b ≡ load_word s b
load-store_far s a w b ne = elim (ℕ_discrete (b % page_size / 4) (a % page_size / 4)) [
  | yes e ↦
      put_word-page s (a / page_size * page_size) (a % page_size / 4) w (b / page_size * page_size)
        (b % page_size / 4) (λ same. ne (omega (arith, e, same)))
  | no far ↦
      put_word-word s (a / page_size * page_size) (a % page_size / 4) w (b / page_size * page_size)
        (b % page_size / 4) far
]

-- What `_asm_task_switch_to` pops from a stack, and the words of the call that it then returns into:
-- `ebp`, `ebx`, `edi`, `esi`, the address, and behind the return address the two arguments.
pub record Resumes (s : Paging) (stack entry function arg : ℕ) : Type 0 where
  pub ebp : load_word s stack ≡ 0
  pub ebx : load_word s (stack + 4) ≡ 0
  pub edi : load_word s (stack + 8) ≡ 0
  pub esi : load_word s (stack + 12) ≡ 0
  pub eip : load_word s (stack + 16) ≡ entry
  pub first : load_word s (stack + 24) ≡ function
  pub second : load_word s (stack + 28) ≡ arg

module _ (c entry function arg : ℕ) (s : Paging) where
  abbrev s1 : Paging
  s1 = store_word (c + 24) function s

  abbrev s2 : Paging
  s2 = store_word (c + 28) arg s1

  abbrev s3 : Paging
  s3 = store_word (c + 16) entry s2

  abbrev s4 : Paging
  s4 = store_word c 0 s3

  abbrev s5 : Paging
  s5 = store_word (c + 4) 0 s4

  abbrev s6 : Paging
  s6 = store_word (c + 12) 0 s5

  -- From the words behind `eip` on, the last four writes change nothing.
  behind :
      (d : ℕ)
      → 16 ≤ d
      → load_word (write_context c entry function arg s) (c + d) ≡ load_word s3 (c + d)
  unfolding write_context
  behind d far =
      load-store_far s6 (c + 8) 0 (c + d) (omega (arith, far))
      ∙ load-store_far s5 (c + 12) 0 (c + d) (omega (arith, far))
      ∙ load-store_far s4 (c + 4) 0 (c + d) (omega (arith, far))
      ∙ load-store_far s3 c 0 (c + d) (omega (arith, far))

  context-Resumes : Resumes (write_context c entry function arg s) c entry function arg
  unfolding write_context
  context-Resumes = record {
    ebp =
        load-store_far s6 (c + 8) 0 c (omega arith)
        ∙ load-store_far s5 (c + 12) 0 c (omega arith)
        ∙ load-store_far s4 (c + 4) 0 c (omega arith)
        ∙ load-store_word s3 c 0;
    ebx =
        load-store_far s6 (c + 8) 0 (c + 4) (omega arith)
        ∙ load-store_far s5 (c + 12) 0 (c + 4) (omega arith)
        ∙ load-store_word s4 (c + 4) 0;
    edi = load-store_word s6 (c + 8) 0;
    esi = load-store_far s6 (c + 8) 0 (c + 12) (omega arith) ∙ load-store_word s5 (c + 12) 0;
    eip = behind 16 (omega arith) ∙ load-store_word s2 (c + 16) entry;
    first =
        behind 24 (omega arith)
        ∙ load-store_far s2 (c + 16) entry (c + 24) (omega arith)
        ∙ load-store_far s1 (c + 28) arg (c + 24) (omega arith)
        ∙ load-store_word s (c + 24) function;
    second =
        behind 28 (omega arith)
        ∙ load-store_far s2 (c + 16) entry (c + 28) (omega arith)
        ∙ load-store_word s1 (c + 28) arg;
  }

-- A stack at the end of a page that was not in use.
pub record Ready (entry function arg : ℕ) (s : Paging) (out : Option (Option ℕ × Paging))
    : Type 0 where
  pub page : ℕ
  pub stack : ℕ
  pub state : Paging
  pub returned : out ≡ some (some stack, state)
  pub top : stack + thread_context_size + intr_context_size ≡ virt_of page + page_size
  pub new : ¬ IsPage s.buddy (virt_of page)
  pub used : IsPage state.buddy (virt_of page)
  pub keeps : Keeps s.buddy state.buddy
  pub resumes : Resumes state stack entry function arg

-- `task_init_stack` returns, with the page allocator in order. Either it gives a stack at the end of a
-- page that was not in use, from which the context switch returns into the entry with the function
-- and its argument as arguments and with zero in the saved registers; or it fails, and then no page of
-- normal memory is free and no word has changed.
pub task_init_stack-Ready :
    (entry function arg : ℕ) (s : Paging)
    → IsBuddy s.buddy
    → (s.buddy.zones zone_normal).lock ≡ 0
    → Ready entry function arg s (task_init_stack entry function arg s)
      ⊎ NoPage s (task_init_stack entry function arg s)
unfolding task_init_stack write_context
task_init_stack-Ready entry function arg s valid released =
    let a = one_page s.buddy valid released in
    by_page a.page a.state a.keeps a.taken
      (alloc_zeroed_lem s a.page a.state a.returned a.keeps.valid a.taken)
  where
    by_page :
        (page : Option ℕ) (t : Buddy)
        → Keeps s.buddy t
        → OneTaken s.buddy page t
        → alloc_zeroed s ≡ some (page, after_alloc page t s)
        → Ready entry function arg s (task_init_stack entry function arg s)
          ⊎ NoPage s (task_init_stack entry function arg s)
    by_page none t keeps taken e = inr (record {
      state = after_alloc none t s;
      returned = rw (task_init_stack, e) refl;
      keeps = keeps;
      same = λ a i. refl;
      full = taken.0;
    })
    by_page (some p) t keeps taken e =
        let low = virt-low t p keeps.valid taken.0 in
        let stack : ℕ =
          sub32 (add32 (virt_of p) page_size) (thread_context_size + intr_context_size) in
        inl (record {
          page = p;
          stack = stack;
          state = write_context stack entry function arg (after_alloc (some p) t s);
          returned = rw (task_init_stack, e, page_get_virt_lem t p low.0 low.1) refl;
          top = omega (arith, low.1);
          new = taken.1;
          used = taken.0;
          keeps = keeps;
          resumes = context-Resumes stack entry function arg (after_alloc (some p) t s);
        })
