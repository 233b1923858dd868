-- ===== src/KernelMap/Direct.antt =====
-- The kernel sees physical memory at a fixed distance.
use ord_os.Base.{
  ℕ, zero, suc, ◌+◌, ◌*◌, ◌/◌, ◌%◌, ◌≤◌, ◌<◌, ◌≡◌, ◌≢◌, ◌⊎◌, inl, inr, refl, arith, ap, ◌∙◌, sym,
  ℕ_discrete, page_size, add32, sub32, u32,
}
use ord_os.Buddy.Address.{kernel_vstart, virt_of}
use ord_os.Vpage.{Paging, put_word, page_pde_index, page_pde_desc}
use ord_os.Vpage.Walk.{page_pde_desc_lem}
use ord_os.Vpage.Link.{put_word-here, put_word-page, put_word-word}
use ord_os.TaskMem.{store_word, kernel_offset}
use ord_os.TaskMem.Stack.{load_word, load-store_word, load-store_far}
use ord_os.KernelMap.{directory_loop, table_loop, link_top_loop, unlink_top_loop}

-- The entry for the table of page `tp + j`.
abbrev entry : ℕ → ℕ → ℕ
entry tp j = (tp + j) * page_size + 7

pub directory_loop-before :
    (n i it pd : ℕ) (s : Paging) (b j : ℕ)
    → j < i + 768
    → (directory_loop n i it pd s).words b j ≡ s.words b j
unfolding directory_loop kernel_offset page_pde_index
directory_loop-before zero i it pd s b j lt = refl
directory_loop-before (suc n) i it pd s b j lt =
    directory_loop-before n (i + 1) (add32 it page_size) pd _ b j (omega (arith, lt))
    ∙ put_word-word s pd (i + 768) _ b j (omega (arith, lt))

pub directory_loop_lem :
    (n i tp pd : ℕ) (s : Paging) (j : ℕ)
    → tp + i + n < 0x30000
    → i ≤ j
    → j < i + n
    → (directory_loop n i (virt_of (tp + i)) pd s).words pd (j + 768) ≡ entry tp j
unfolding directory_loop kernel_offset page_pde_index
directory_loop_lem zero i tp pd s j low lo hi = absurd (omega arith)
directory_loop_lem (suc n) i tp pd s j low lo hi =
    ap (λ it. (directory_loop n (i + 1) it pd first).words pd (j + 768)) next
    ∙ elim (ℕ_discrete j i) [
      | yes e ↦
          directory_loop-before n (i + 1) (virt_of (tp + (i + 1))) pd first pd (j + 768)
            (omega (arith, e))
          ∙ ap (λ x. first.words pd (x + 768)) e
          ∙ put_word-here s pd (i + 768) _
          ∙ ap (λ x. page_pde_desc x 1 1 1) base
          ∙ page_pde_desc_lem (tp + i)
          ∙ ap (entry tp) (sym e)
      | no ne ↦
          directory_loop_lem n (i + 1) tp pd first j (omega (arith, low)) (omega (arith, lo, ne))
            (omega (arith, hi))
    ]
  where
    first : Paging
    first = put_word pd (i + 768) (page_pde_desc (sub32 (virt_of (tp + i)) kernel_vstart) 1 1 1) s

    next : add32 (virt_of (tp + i)) page_size ≡ virt_of (tp + (i + 1))
    next = omega (arith, low)

    base : sub32 (virt_of (tp + i)) kernel_vstart ≡ (tp + i) * page_size
    base = omega (arith, low)

-- The tables: word `j` of all of them is the entry of page `j`.
table_loop-before :
    (n i pt : ℕ) (s : Paging) (j : ℕ)
    → j < i
    → load_word (table_loop n i pt s) (pt + 4 * j) ≡ load_word s (pt + 4 * j)
unfolding table_loop
table_loop-before zero i pt s j lt = refl
table_loop-before (suc n) i pt s j lt =
    table_loop-before n (i + 1) pt _ j (omega (arith, lt))
    ∙ load-store_far s (pt + 4 * i) _ (pt + 4 * j) (omega (arith, lt))

pub table_loop_lem :
    (n i pt : ℕ) (s : Paging) (j : ℕ)
    → i + n ≤ 0x30000
    → i ≤ j
    → j < i + n
    → load_word (table_loop n i pt s) (pt + 4 * j) ≡ j * page_size + 7
unfolding table_loop
table_loop_lem zero i pt s j low lo hi = absurd (omega arith)
table_loop_lem (suc n) i pt s j low lo hi = elim (ℕ_discrete j i) [
  | yes e ↦
      table_loop-before n (i + 1) pt first j (omega (arith, e))
      ∙ ap (λ x. load_word first (pt + 4 * x)) e
      ∙ load-store_word s (pt + 4 * i) _
      ∙ ap (λ x. page_pde_desc x 1 1 1) base
      ∙ page_pde_desc_lem i
      ∙ ap (λ x. x * page_size + 7) (sym e)
  | no ne ↦
      table_loop_lem n (i + 1) pt first j (omega (arith, low)) (omega (arith, lo, ne))
        (omega (arith, hi))
]
  where
    first : Paging
    first = store_word (pt + 4 * i) (page_pde_desc (u32 (i * page_size)) 1 1 1) s

    base : u32 (i * page_size) ≡ i * page_size
    base = omega (arith, low)

-- No other page is written.
pub table_loop-page :
    (n i pt : ℕ) (s : Paging) (b j : ℕ)
    → b % page_size ≡ 0
    → (b + page_size ≤ pt) ⊎ (pt + 4 * (i + n) ≤ b)
    → (table_loop n i pt s).words b j ≡ s.words b j
unfolding table_loop
table_loop-page zero i pt s b j aligned apart = refl
table_loop-page (suc n) i pt s b j aligned apart =
    table_loop-page n (i + 1) pt _ b j aligned (ground (arith, apart))
    ∙ put_word-page s ((pt + 4 * i) / page_size * page_size) _ _ b j
        (λ e. ground (arith, apart, e, aligned))

pub link_top_loop-outside :
    (n i pd : ℕ) (s : Paging) (b j : ℕ)
    → (b ≢ pd) ⊎ (i + n ≤ j)
    → (link_top_loop n i pd s).words b j ≡ s.words b j
unfolding link_top_loop
link_top_loop-outside zero i pd s b j out = refl
link_top_loop-outside (suc n) i pd s b j (inl ne) =
    link_top_loop-outside n (i + 1) pd _ b j (inl ne) ∙ put_word-page s pd i _ b j ne
link_top_loop-outside (suc n) i pd s b j (inr ge) =
    link_top_loop-outside n (i + 1) pd _ b j (inr (omega (arith, ge)))
    ∙ put_word-word s pd i _ b j (omega (arith, ge))

pub link_top_loop-outside_before :
    (n i pd : ℕ) (s : Paging) (b j : ℕ) → j < i → (link_top_loop n i pd s).words b j ≡ s.words b j
unfolding link_top_loop
link_top_loop-outside_before zero i pd s b j lt = refl
link_top_loop-outside_before (suc n) i pd s b j lt =
    link_top_loop-outside_before n (i + 1) pd _ b j (omega (arith, lt))
    ∙ put_word-word s pd i _ b j (omega (arith, lt))

pub unlink_top_loop-outside :
    (n i pd : ℕ) (s : Paging) (b j : ℕ)
    → (b ≢ pd) ⊎ (i + n ≤ j)
    → (unlink_top_loop n i pd s).words b j ≡ s.words b j
unfolding unlink_top_loop
unlink_top_loop-outside zero i pd s b j out = refl
unlink_top_loop-outside (suc n) i pd s b j (inl ne) =
    unlink_top_loop-outside n (i + 1) pd _ b j (inl ne) ∙ put_word-page s pd i _ b j ne
unlink_top_loop-outside (suc n) i pd s b j (inr ge) =
    unlink_top_loop-outside n (i + 1) pd _ b j (inr (omega (arith, ge)))
    ∙ put_word-word s pd i _ b j (omega (arith, ge))

pub unlink_top_loop-outside_before :
    (n i pd : ℕ) (s : Paging) (b j : ℕ) → j < i → (unlink_top_loop n i pd s).words b j ≡ s.words b j
unfolding unlink_top_loop
unlink_top_loop-outside_before zero i pd s b j lt = refl
unlink_top_loop-outside_before (suc n) i pd s b j lt =
    unlink_top_loop-outside_before n (i + 1) pd _ b j (omega (arith, lt))
    ∙ put_word-word s pd i 0 b j (omega (arith, lt))

-- Nothing stays mapped low.
pub unlink_top_loop-inside :
    (n i pd : ℕ) (s : Paging) (j : ℕ)
    → i ≤ j
    → j < i + n
    → (unlink_top_loop n i pd s).words pd j ≡ 0
unfolding unlink_top_loop
unlink_top_loop-inside zero i pd s j lo hi = absurd (omega arith)
unlink_top_loop-inside (suc n) i pd s j lo hi = elim (ℕ_discrete j i) [
  | yes e ↦
      unlink_top_loop-outside_before n (i + 1) pd (put_word pd i 0 s) pd j (omega (arith, e))
      ∙ ap ((put_word pd i 0 s).words pd) e
      ∙ put_word-here s pd i 0
  | no ne ↦
      unlink_top_loop-inside n (i + 1) pd (put_word pd i 0 s) j (omega (arith, lo, ne))
        (omega (arith, hi))
]
