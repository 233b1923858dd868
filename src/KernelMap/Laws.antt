-- ===== src/KernelMap/Laws.antt =====
-- `init_vpage`: the address space of the kernel.
use ord_os.Base.{
  ℕ, ◌+◌, ◌*◌, ◌/◌, ◌%◌, ◌≤◌, ◌<◌, ◌^◌, ◌≡◌, ◌≢◌, ◌⊎◌, inl, inr, refl, none, some, arith, ap, ap₂,
  ◌∙◌, sym, ℕ_discrete, page_size, dec_lt,
}
use ord_os.Buddy.Address.{kernel_vstart, virt_of}
use ord_os.Vpage.{Paging, put_word, page_pde_index}
use ord_os.Vpage.Walk.{walk, walk-steps, no_table, leads_to, leads_to-page}
use ord_os.Vpage.Link.{put_word-here, put_word-word, put_word-page}
use ord_os.TaskMem.{kernel_offset}
use ord_os.TaskMem.Stack.{load_word}
use ord_os.KernelMap.{
  page_entries, directory_loop, table_loop, kernel_pde_cnt, init_early_page, link_top_loop,
  unlink_top_loop, kernel_rounds, link_top_kernel_mem, unlink_top_kernel_mem, init_vpage,
}
use ord_os.KernelMap.Direct.{
  directory_loop_lem, directory_loop-before, table_loop_lem, table_loop-page, link_top_loop-outside,
  link_top_loop-outside_before, unlink_top_loop-outside, unlink_top_loop-outside_before,
  unlink_top_loop-inside,
}

-- The tables are enough for the memory below 768 MiB.
pub kernel_pde_cnt_lem :
    (all_pages x : ℕ)
    → all_pages ≤ 2 ^ 20
    → x < all_pages * page_size
    → x < 0x3000_0000
    → (x / 2 ^ 22 < kernel_pde_cnt all_pages) × (kernel_pde_cnt all_pages ≤ 192)
unfolding kernel_pde_cnt page_pde_index
kernel_pde_cnt_lem all_pages x few inside low = ground (arith, inside, low, few)

tables_few : (all_pages : ℕ) → kernel_pde_cnt all_pages ≤ 192
unfolding kernel_pde_cnt page_pde_index
tables_few all_pages = ground arith

module _ (dp tp all_pages kernel_end : ℕ) (s : Paging) (cnt : ℕ)
    (is_cnt : cnt ≡ kernel_pde_cnt all_pages) (few : cnt ≤ 192) (fits : tp + cnt < 0x30000)
    (apart : (dp < tp) ⊎ (tp + cnt ≤ dp)) (rounds : ℕ)
    (is_rounds : rounds ≡ kernel_rounds kernel_end) (low_kernel : 4 + rounds ≤ 768) where
  abbrev pd : ℕ
  pd = virt_of dp

  abbrev filled : Paging
  filled = directory_loop cnt 0 (virt_of tp) pd s

  abbrev early : Paging
  early = table_loop (cnt * page_entries) 0 (virt_of tp) filled

  abbrev linked : Paging
  linked = link_top_loop rounds 4 pd (put_word pd 0 (early.words pd 768) early)

  abbrev final : Paging
  final = unlink_top_loop rounds 4 pd (put_word pd 0 0 linked)

  init_vpage_lem : init_vpage pd (virt_of tp) all_pages kernel_end s ≡ final
  unfolding init_vpage init_early_page link_top_kernel_mem unlink_top_kernel_mem kernel_offset
      page_pde_index
  init_vpage_lem = rw (sym is_cnt, sym is_rounds) refl

  early_directory : (j : ℕ) → early.words pd j ≡ filled.words pd j
  early_directory j =
      table_loop-page (cnt * page_entries) 0 (virt_of tp) filled pd j (omega arith)
        (ground (arith, apart))

  high : (j : ℕ) → 768 ≤ j → final.words pd j ≡ early.words pd j
  high j lo =
      unlink_top_loop-outside rounds 4 pd _ pd j (inr (omega (arith, lo)))
      ∙ put_word-word linked pd 0 0 pd j (omega (arith, lo))
      ∙ link_top_loop-outside rounds 4 pd _ pd j (inr (omega (arith, lo)))
      ∙ put_word-word early pd 0 _ pd j (omega (arith, lo))

  tables : (b j : ℕ) → b ≢ pd → final.words b j ≡ early.words b j
  tables b j ne =
      unlink_top_loop-outside rounds 4 pd _ b j (inl ne)
      ∙ put_word-page linked pd 0 0 b j ne
      ∙ link_top_loop-outside rounds 4 pd _ b j (inl ne)
      ∙ put_word-page early pd 0 _ b j ne

  mapped :
      (x : ℕ)
      → x / 2 ^ 22 < cnt
      → walk
          (init_vpage pd (virt_of tp) all_pages kernel_end s)
          (dp * page_size)
          (kernel_vstart + x)
        ≡ some x
  mapped x inside =
      ap (λ t. walk t (dp * page_size) (kernel_vstart + x)) init_vpage_lem
      ∙ walk-steps final (dp * page_size) (kernel_vstart + x) ((tp + x / 2 ^ 22) * page_size)
          (x / 2 ^ 12 * page_size)
          (ap (λ j. leads_to (final.words pd j)) index
            ∙ ap leads_to (
                high (x / 2 ^ 22 + 768) (omega arith)
                ∙ early_directory (x / 2 ^ 22 + 768)
                ∙ ap (λ y. (directory_loop cnt 0 (virt_of y) pd s).words pd (x / 2 ^ 22 + 768))
                    start
                ∙ directory_loop_lem cnt 0 tp pd s (x / 2 ^ 22) (omega (arith, fits)) (omega arith)
                    (omega (arith, inside)))
            ∙ leads_to-page (tp + x / 2 ^ 22))
          (ap leads_to (
              tables (virt_of (tp + x / 2 ^ 22)) ((kernel_vstart + x) / 2 ^ 12 % 2 ^ 10)
                (λ e. ground (arith, apart, e))
              ∙ place
              ∙ table_loop_lem (cnt * page_entries) 0 (virt_of tp) filled (x / 2 ^ 12)
                  (omega (arith, few)) (omega arith) (omega (arith, inside)))
            ∙ leads_to-page (x / 2 ^ 12))
      ∙ ap some whole
    where
      start : tp ≡ tp + 0
      start = omega arith

      index : (kernel_vstart + x) / 2 ^ 22 ≡ x / 2 ^ 22 + 768
      index = omega arith

      whole : x / 2 ^ 12 * page_size + (kernel_vstart + x) % 2 ^ 12 ≡ x
      whole = omega arith

      place :
          early.words (virt_of (tp + x / 2 ^ 22)) ((kernel_vstart + x) / 2 ^ 12 % 2 ^ 10)
          ≡ load_word early (virt_of tp + 4 * (x / 2 ^ 12))
      place = ap₂ early.words (omega arith) (omega arith)

  low : ((j : ℕ) → s.words pd j ≡ 0) → (j : ℕ) → j < 768 → final.words pd j ≡ 0
  low blank j lt = elim (dec_lt j 4) [
    | yes first ↦ unlink_top_loop-outside_before rounds 4 pd _ pd j first ∙ below first
    | no later ↦ elim (dec_lt j (4 + rounds)) [
      | yes inside ↦ unlink_top_loop-inside rounds 4 pd _ j (omega arith) inside
      | no behind ↦
          unlink_top_loop-outside rounds 4 pd _ pd j (inr (omega arith))
          ∙ put_word-word linked pd 0 0 pd j (omega arith)
          ∙ link_top_loop-outside rounds 4 pd _ pd j (inr (omega arith))
          ∙ put_word-word early pd 0 _ pd j (omega arith)
          ∙ old
    ]
  ]
    where
      old : early.words pd j ≡ 0
      old =
          early_directory j
          ∙ directory_loop-before cnt 0 (virt_of tp) pd s pd j (omega (arith, lt))
          ∙ blank j

      below : j < 4 → (put_word pd 0 0 linked).words pd j ≡ 0
      below first = elim (ℕ_discrete j 0) [
        | yes e ↦ ap ((put_word pd 0 0 linked).words pd) e ∙ put_word-here linked pd 0 0
        | no ne ↦
            put_word-word linked pd 0 0 pd j ne
            ∙ link_top_loop-outside_before rounds 4 pd _ pd j first
            ∙ put_word-word early pd 0 _ pd j ne
            ∙ old
      ]

  unmapped :
      ((j : ℕ) → s.words pd j ≡ 0)
      → (v : ℕ) → v < kernel_vstart
      → walk (init_vpage pd (virt_of tp) all_pages kernel_end s) (dp * page_size) v ≡ none
  unmapped blank v lt =
      ap (λ t. walk t (dp * page_size) v) init_vpage_lem
      ∙ no_table final (dp * page_size) v (ap leads_to (low blank (v / 2 ^ 22) (omega (arith, lt))))

kernel_rounds_lem :
    (kernel_end : ℕ)
    → kernel_vstart ≤ kernel_end
    → kernel_end < 2 ^ 32
    → 4 + kernel_rounds kernel_end ≤ 768
unfolding kernel_rounds page_pde_index
kernel_rounds_lem kernel_end lo hi = omega (arith, lo, hi)

-- After `init_vpage`, with a cleared directory and tables behind or before it below 768 MiB, every
-- address of memory below 768 MiB is mapped at its distance of 3 GiB, and no address of user space is
-- mapped.
pub init_vpage-mapped :
    (dp tp all_pages kernel_end : ℕ) (s : Paging)
    → all_pages ≤ 2 ^ 20
    → tp + 192 < 0x30000
    → (dp < tp) ⊎ (tp + 192 ≤ dp)
    → kernel_vstart ≤ kernel_end
    → kernel_end < 2 ^ 32
    → ((j : ℕ) → s.words (virt_of dp) j ≡ 0)
    → ((x : ℕ)
        → x < all_pages * page_size
        → x < 0x3000_0000
        → walk
            (init_vpage (virt_of dp) (virt_of tp) all_pages kernel_end s)
            (dp * page_size)
            (kernel_vstart + x)
          ≡ some x)
      × ((v : ℕ)
          → v < kernel_vstart
          → walk (init_vpage (virt_of dp) (virt_of tp) all_pages kernel_end s) (dp * page_size) v
            ≡ none)
init_vpage-mapped dp tp all_pages kernel_end s few fits apart lo hi blank = (
  λ x inside small.
      mapped dp tp all_pages kernel_end s cnt refl enough (omega (arith, enough, fits)) off rounds
        refl low_kernel x (kernel_pde_cnt_lem all_pages x few inside small).0,
  λ v lt.
      unmapped dp tp all_pages kernel_end s cnt refl enough (omega (arith, enough, fits)) off rounds
        refl low_kernel blank v lt,
)
  where
    cnt : ℕ
    cnt = kernel_pde_cnt all_pages

    rounds : ℕ
    rounds = kernel_rounds kernel_end

    enough : cnt ≤ 192
    enough = tables_few all_pages

    off : (dp < tp) ⊎ (tp + cnt ≤ dp)
    off = ground (arith, apart, enough)

    low_kernel : 4 + rounds ≤ 768
    low_kernel = kernel_rounds_lem kernel_end lo hi
