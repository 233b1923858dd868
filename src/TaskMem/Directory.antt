-- ===== src/TaskMem/Directory.antt =====
-- The directory of a new task: no page of user space, and the tables of the kernel.
use ord_os.Base.{
  ℕ, ◌+◌, ◌*◌, ◌/◌, ◌≤◌, ◌<◌, ◌^◌, ◌≡◌, ◌≢◌, ◌⊎◌, inl, inr, refl, true, Option, none, some, arith,
  dec_lt, ap, ◌∙◌, sym, subst, page_size,
}
use ord_os.Buddy.{Buddy}
use ord_os.Buddy.Blocks.{IsBuddy, Free}
use ord_os.Buddy.Address.{zone_normal, kernel_vstart, virt_of, page_get_virt_lem, page_get_phys_lem}
use ord_os.Buddy.InUse.{IsPage, Keeps, OneTaken, one_page, virt-low}
use ord_os.Vpage.{Paging, alloc_zeroed, page_pde_index}
use ord_os.Vpage.Walk.{IsPaging, Directed, walk, walk-same, no_table, leads_to, in_table}
use ord_os.Vpage.Link.{after_alloc, alloc_zeroed_lem, pte_of, clear_page-page, clear_page-here}
use ord_os.TaskMem.{kernel_offset, copy_kernel, task_init_page_table}

-- The directory of the kernel and its tables: words of 32 bits, on pages that are not free.
pub record IsKernel (k : ℕ) (s : Paging) : Type 0 where
  pub word : (i : ℕ) → s.words (kernel_vstart + k) i < 2 ^ 32
  pub directory : (p : ℕ) → kernel_vstart + k ≡ virt_of p → ¬ Free s.buddy p
  pub table :
      (i pt p : ℕ)
      → 768 ≤ i
      → i < 1024
      → Directed s k i pt
      → kernel_vstart + pt ≡ virt_of p
      → ¬ Free s.buddy p

-- A directory in order, without a page of user space, that translates the addresses of the kernel as
-- the kernel's own directory does.
pub record Shared (k : ℕ) (s : Paging) (out : Option (Option ℕ × Paging)) : Type 0 where
  pub cr : ℕ
  pub state : Paging
  pub returned : out ≡ some (some cr, state)
  pub valid : IsPaging cr state
  pub new : ¬ IsPage s.buddy (kernel_vstart + cr)
  pub pages : (a : ℕ) → IsPage s.buddy a → IsPage state.buddy a
  pub user : (v : ℕ) → v < kernel_vstart → walk state cr v ≡ none
  pub kernel : (v : ℕ) → kernel_vstart ≤ v → v < 2 ^ 32 → walk state cr v ≡ walk s k v

-- No page: `false`, and no word has changed.
pub record NoPage (s : Paging) (out : Option (Option ℕ × Paging)) : Type 0 where
  pub state : Paging
  pub returned : out ≡ some (none, state)
  pub keeps : Keeps s.buddy state.buddy
  pub same : (a i : ℕ) → state.words a i ≡ s.words a i
  pub full : (p : ℕ) → (s.buddy.pages p).buddy ≡ true → (s.buddy.pages p).zone_type ≢ zone_normal

module _ (k : ℕ) (s : Paging) (ok : IsKernel k s) (p : ℕ) (t : Buddy) (keeps : Keeps s.buddy t)
    (taken : OneTaken s.buddy (some p) t) where
  abbrev first : Paging
  first = after_alloc (some p) t s

  abbrev shared : Paging
  shared = copy_kernel (virt_of p) (kernel_vstart + k) first

  p_free : Free s.buddy p
  p_free = (taken.2 p).1 (inr (omega arith, omega arith))

  not_p : kernel_vstart + k ≢ virt_of p
  not_p e = ok.directory p e p_free

  kernel_words :
      (i : ℕ) → 768 ≤ i → i < 1024 → shared.words (virt_of p) i ≡ s.words (kernel_vstart + k) i
  unfolding copy_kernel kernel_offset page_pde_index
  kernel_words i lo hi =
      ground arith
      ∙ clear_page-page (record s { buddy = t }) (virt_of p) (kernel_vstart + k) i not_p

  user_words : (i : ℕ) → i < 768 → shared.words (virt_of p) i ≡ 0
  unfolding copy_kernel kernel_offset page_pde_index
  user_words i lt = ground arith ∙ clear_page-here (record s { buddy = t }) (virt_of p) i

  more_words : (i : ℕ) → 1024 ≤ i → shared.words (virt_of p) i ≡ 0
  unfolding copy_kernel kernel_offset page_pde_index
  more_words i ge = ground arith ∙ clear_page-here (record s { buddy = t }) (virt_of p) i

  other_words : (a i : ℕ) → a ≢ virt_of p → shared.words a i ≡ s.words a i
  unfolding copy_kernel
  other_words a i ne = ground arith ∙ clear_page-page (record s { buddy = t }) (virt_of p) a i ne

  no_entry : (i pt : ℕ) → i < 768 → leads_to (shared.words (virt_of p) i) ≢ some pt
  no_entry i pt lt d = is_none (sym empty ∙ d)
    where
      is_none : {x : ℕ} → none ≡ some x → ⊥
      is_none e = cc

      empty : leads_to (shared.words (virt_of p) i) ≡ none
      empty = ap leads_to (user_words i lt)

  word_small : (i : ℕ) → shared.words (virt_of p) i < 2 ^ 32
  word_small i = elim (dec_lt i 768) [
    | yes user ↦ subst (λ w. w < 2 ^ 32) (sym (user_words i user)) (omega arith)
    | no kernel ↦ elim (dec_lt i 1024) [
      | yes entry ↦ subst (λ w. w < 2 ^ 32) (sym (kernel_words i (omega arith) entry)) (ok.word i)
      | no none_left ↦ subst (λ w. w < 2 ^ 32) (sym (more_words i (omega arith))) (omega arith)
    ]
  ]

  shared-IsPaging : IsPaging (p * page_size) shared
  unfolding copy_kernel
  shared-IsPaging = record {
    valid = keeps.valid;
    released = keeps.released;
    directory = taken.0;
    word = word_small;
    table = λ i pt lt d. absurd (no_entry i pt lt d);
    not_directory = λ i pt lt d. absurd (no_entry i pt lt d);
    own = λ i j pt hi hj d d'. absurd (no_entry i pt hi d);
  }

  in_kernel :
      (v : ℕ)
      → kernel_vstart ≤ v
      → v < 2 ^ 32
      → in_table shared (leads_to (s.words (kernel_vstart + k) (v / 2 ^ 22))) v ≡ walk s k v
  in_kernel v lo hi =
      ap (λ w. in_table shared (leads_to w) v)
        (sym (other_words (kernel_vstart + k) (v / 2 ^ 22) not_p))
      ∙ walk-same s shared k v (other_words (kernel_vstart + k) (v / 2 ^ 22) not_p) (λ pt d.
        other_words (kernel_vstart + pt) (pte_of v)
          (λ e. ok.table (v / 2 ^ 22) pt p (omega (arith, lo)) (omega (arith, hi)) d e p_free))

  kernel_walk :
      (v : ℕ) → kernel_vstart ≤ v → v < 2 ^ 32 → walk shared (p * page_size) v ≡ walk s k v
  kernel_walk v lo hi =
      ap (λ w. in_table shared (leads_to w) v)
        (kernel_words (v / 2 ^ 22) (omega (arith, lo)) (omega (arith, hi)))
      ∙ in_kernel v lo hi

  made :
      (out : Option (Option ℕ × Paging))
      → out ≡ some (some (p * page_size), shared)
      → Shared k s out
  unfolding copy_kernel
  made out e = record {
    cr = p * page_size;
    state = shared;
    returned = e;
    valid = shared-IsPaging;
    new = taken.1;
    pages = keeps.pages;
    user = λ v lt.
        no_table shared (p * page_size) v
          (ap leads_to (user_words (v / 2 ^ 22) (omega (arith, lt))));
    kernel = kernel_walk;
  }

-- `task_init_page_table` returns, with the page allocator in order. Either it makes a directory in order
-- on a page that was not in use, in which no address of user space is mapped and every address of the
-- kernel is mapped as in the kernel's own directory; or it fails, and then no page of normal memory
-- is free and no word has changed.
pub task_init_page_table-Shared :
    (k : ℕ) (s : Paging)
    → IsBuddy s.buddy
    → (s.buddy.zones zone_normal).lock ≡ 0
    → IsKernel k s
    → Shared k s (task_init_page_table (kernel_vstart + k) s)
      ⊎ NoPage s (task_init_page_table (kernel_vstart + k) s)
unfolding task_init_page_table
task_init_page_table-Shared k s valid released ok =
    let a = one_page s.buddy valid released in
    by_page a.page a.state a.keeps a.taken
      (alloc_zeroed_lem s a.page a.state a.returned a.keeps.valid a.taken)
  where
    by_page :
        (page : Option ℕ) (t : Buddy)
        → Keeps s.buddy t
        → OneTaken s.buddy page t
        → alloc_zeroed s ≡ some (page, after_alloc page t s)
        → Shared k s (task_init_page_table (kernel_vstart + k) s)
          ⊎ NoPage s (task_init_page_table (kernel_vstart + k) s)
    by_page none t keeps taken e = inr (record {
      state = after_alloc none t s;
      returned = rw (task_init_page_table, e) refl;
      keeps = keeps;
      same = λ a i. refl;
      full = taken.0;
    })
    by_page (some p) t keeps taken e =
        let low = virt-low t p keeps.valid taken.0 in
        inl (
          made k s ok p t keeps taken _ (
            rw
              (
                task_init_page_table,
                e,
                page_get_phys_lem t p low.0 low.1,
                page_get_virt_lem t p low.0 low.1,
              )
              refl))
