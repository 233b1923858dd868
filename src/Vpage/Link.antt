-- ===== src/Vpage/Link.antt =====
-- The two steps of `vpage_link_addr`: a page of zeros, and the entry that leads to it.
use ord_os.Base.{
  ℕ, ◌+◌, ◌*◌, ◌/◌, ◌%◌, ◌<◌, ◌^◌, ◌≡◌, ◌≢◌, inl, inr, refl, Option, none, some, ◌==◌, arith, ap,
  ◌∙◌, sym, subst, Bool-cases, ℕ_discrete, page_size,
}
use ord_os.Buddy.{Buddy, buddy_alloc_page}
use ord_os.Buddy.Blocks.{IsBuddy}
use ord_os.Buddy.Address.{zone_normal, kernel_vstart, virt_of, page_get_virt_lem, page_get_phys_lem}
use ord_os.Buddy.InUse.{IsPage, Keeps, OneTaken, virt-low}
use ord_os.Vpage.{
  Paging, put_word, clear_page, page_pte_index, is_present, alloc_zeroed, link_entry,
}
use ord_os.Vpage.Walk.{
  IsPaging, Directed, IsPaging-kept, walk, walk-same, walk-steps, leads_to, leads_to-page,
  page_pte_index_lem, page_pde_desc_lem, is_present_lem,
}

-- The state behind `alloc_zeroed`.
abbrev pub after_alloc : Option ℕ → Buddy → Paging → Paging
after_alloc none t s = record s { buddy = t }
after_alloc (some p) t s = clear_page (virt_of p) (record s { buddy = t })

pub alloc_zeroed_lem :
    (s : Paging) (page : Option ℕ) (t : Buddy)
    → buddy_alloc_page s.buddy zone_normal 0 ≡ some (page, t)
    → IsBuddy t
    → OneTaken s.buddy page t
    → alloc_zeroed s ≡ some (page, after_alloc page t s)
unfolding alloc_zeroed
alloc_zeroed_lem s none t e ok taken = rw (alloc_zeroed, e) refl
alloc_zeroed_lem s (some p) t e ok taken =
    let low = virt-low t p ok taken.0 in
    rw (alloc_zeroed, e, page_get_virt_lem t p low.0 low.1) refl

-- `link_entry` writes the entry of the address.
abbrev pub pte_of : ℕ → ℕ
pte_of v = v / 2 ^ 12 % 2 ^ 10

pub link_entry_lem :
    (pt p v : ℕ) (s : Paging)
    → p < s.buddy.pages_cnt
    → p < 0x30000
    → s.words pt (pte_of v) % 2 ≡ 0
    → link_entry pt p v s ≡ some (some v, put_word pt (pte_of v) (p * page_size + 7) s)
unfolding link_entry
link_entry_lem pt p v s lt low absent =
    rw (link_entry, entry, page_get_phys_lem s.buddy p lt low, page_pde_desc_lem p)
      (ap (λ i. some (some v, put_word pt i (p * page_size + 7) s)) (page_pte_index_lem v))
  where
    entry : is_present (s.words pt (page_pte_index v)) ≡ 0
    entry = is_present_lem _ ∙ ap (λ i. s.words pt i % 2) (page_pte_index_lem v) ∙ absent

-- The words after a write.
pub put_word-here : (s : Paging) (a i w : ℕ) → (put_word a i w s).words a i ≡ w
put_word-here s a i w = ground arith

pub put_word-page :
    (s : Paging) (a i w b j : ℕ) → b ≢ a → (put_word a i w s).words b j ≡ s.words b j
put_word-page s a i w b j ne = ground arith

pub put_word-word :
    (s : Paging) (a i w b j : ℕ) → j ≢ i → (put_word a i w s).words b j ≡ s.words b j
put_word-word s a i w b j ne = elim (Bool-cases (b == a)) [
  | inl e ↦ rw e (ground (arith, e))
  | inr e ↦ rw e refl
]

pub clear_page-here : (s : Paging) (a i : ℕ) → (clear_page a s).words a i ≡ 0
clear_page-here s a i = ground arith

pub clear_page-page : (s : Paging) (a b j : ℕ) → b ≢ a → (clear_page a s).words b j ≡ s.words b j
clear_page-page s a b j ne = ground arith

-- Addresses of one page share their two indexes, and of different pages do not.
pub same_page :
    (v o : ℕ) → o / 2 ^ 12 ≡ v / 2 ^ 12 → (o / 2 ^ 22 ≡ v / 2 ^ 22) × (pte_of o ≡ pte_of v)
same_page v o e = (omega (arith, e), omega (arith, e))

pub other_entry :
    (v o : ℕ) → o / 2 ^ 12 ≢ v / 2 ^ 12 → o / 2 ^ 22 ≡ v / 2 ^ 22 → pte_of o ≢ pte_of v
other_entry v o ne e e' = ne (omega (arith, e, e'))

-- What linking does: the address is mapped to a page that was not in use, no other address of user
-- space is mapped differently, and the page holds zeros.
pub record Linked (cr v : ℕ) (s : Paging) (out : Option (Option ℕ × Paging)) : Type 0 where
  pub page : ℕ
  pub state : Paging
  pub returned : out ≡ some (some v, state)
  pub valid : IsPaging cr state
  pub new : ¬ IsPage s.buddy (virt_of page)
  pub used : IsPage state.buddy (virt_of page)
  pub pages : (a : ℕ) → IsPage s.buddy a → IsPage state.buddy a
  pub maps :
      (o : ℕ) → o / 2 ^ 12 ≡ v / 2 ^ 12 → walk state cr o ≡ some (page * page_size + o % 2 ^ 12)
  pub others : (o : ℕ) → o < kernel_vstart → o / 2 ^ 12 ≢ v / 2 ^ 12 → walk state cr o ≡ walk s cr o
  pub zeros : (i : ℕ) → state.words (virt_of page) i ≡ 0

-- What is common to both ways of linking: the page that was taken.
module _ (cr v : ℕ) (s : Paging) (ok : IsPaging cr s) (user : v < kernel_vstart)
    (unlinked : walk s cr v ≡ none) (p : ℕ) (t : Buddy) (keeps : Keeps s.buddy t)
    (taken : OneTaken s.buddy (some p) t) where
  abbrev directory : ℕ
  directory = kernel_vstart + cr

  abbrev with_page : Paging
  with_page = clear_page (virt_of p) (record s { buddy = t })

  pub not_new : (a : ℕ) → IsPage s.buddy a → a ≢ virt_of p
  not_new a h e = taken.1 (subst (IsPage s.buddy) e h)

  pub same_words : (a i : ℕ) → IsPage s.buddy a → with_page.words a i ≡ s.words a i
  same_words a i h = clear_page-page (record s { buddy = t }) (virt_of p) a i (not_new a h)

  in_user : (o : ℕ) → o < kernel_vstart → o / 2 ^ 22 < 768
  in_user o lt = omega (arith, lt)

  -- The directory has a table for the address.
  module _ (pt : ℕ) (directed : Directed s cr (v / 2 ^ 22) pt) where
    abbrev table : ℕ
    table = kernel_vstart + pt

    table-IsPage : IsPage s.buddy table
    table-IsPage = ok.table (v / 2 ^ 22) pt (in_user v user) directed

    apart : directory ≢ table
    apart e = ok.not_directory (v / 2 ^ 22) pt (in_user v user) directed (omega (arith, e))

    abbrev linked : Paging
    linked = put_word table (pte_of v) (p * page_size + 7) with_page

    pub directory_words : (i : ℕ) → linked.words directory i ≡ s.words directory i
    directory_words i =
        put_word-page with_page table (pte_of v) (p * page_size + 7) directory i apart
        ∙ same_words directory i ok.directory

    pub absent : with_page.words table (pte_of v) % 2 ≡ 0
    absent = ap (λ w. w % 2) (same_words table (pte_of v) table-IsPage) ∙ even
      where
        is_none : {x : ℕ} → (some x ≡ none) → ⊥
        is_none e = cc

        even : s.words table (pte_of v) % 2 ≡ 0
        even = elim (Bool-cases (s.words table (pte_of v) % 2 == 1)) [
          | inl e ↦ absurd (
              is_none (
                sym (
                  walk-steps s cr v pt (s.words table (pte_of v) / 2 ^ 12 * 2 ^ 12) directed
                    (rw e refl))
                ∙ unlinked))
          | inr e ↦ ground (arith, e)
        ]

    other_words :
        (o pt' : ℕ)
        → o < kernel_vstart
        → o / 2 ^ 12 ≢ v / 2 ^ 12
        → Directed s cr (o / 2 ^ 22) pt'
        → linked.words (kernel_vstart + pt') (pte_of o) ≡ s.words (kernel_vstart + pt') (pte_of o)
    other_words o pt' lt ne d = elim (ℕ_discrete pt' pt) [
      | yes e ↦
          put_word-word with_page table (pte_of v) (p * page_size + 7) (kernel_vstart + pt')
            (pte_of o)
            (other_entry v o ne (
              ok.own (o / 2 ^ 22) (v / 2 ^ 22) pt (in_user o lt) (in_user v user)
                (subst (Directed s cr (o / 2 ^ 22)) e d) directed))
          ∙ same_words (kernel_vstart + pt') (pte_of o) (ok.table (o / 2 ^ 22) pt' (in_user o lt) d)
      | no far ↦
          put_word-page with_page table (pte_of v) (p * page_size + 7) (kernel_vstart + pt')
            (pte_of o) (λ e. far (omega (arith, e)))
          ∙ same_words (kernel_vstart + pt') (pte_of o) (ok.table (o / 2 ^ 22) pt' (in_user o lt) d)
    ]

    -- The entry is written into the table.
    pub linked_old :
        (out : Option (Option ℕ × Paging)) → out ≡ some (some v, linked) → Linked cr v s out
    linked_old out e = record {
      page = p;
      state = linked;
      returned = e;
      valid = IsPaging-kept s linked cr ok keeps.valid keeps.released keeps.pages directory_words;
      new = taken.1;
      used = taken.0;
      pages = keeps.pages;
      maps = λ o same.
          let (i, j) = same_page v o same in
          walk-steps linked cr o pt (p * page_size)
            (ap leads_to (directory_words (o / 2 ^ 22))
              ∙ ap (λ x. leads_to (s.words directory x)) i
              ∙ directed)
            (ap (λ x. leads_to (linked.words table x)) j
              ∙ ap leads_to (put_word-here with_page table (pte_of v) (p * page_size + 7))
              ∙ leads_to-page p);
      others = λ o lt ne.
          walk-same s linked cr o (directory_words (o / 2 ^ 22))
            (λ pt' d. other_words o pt' lt ne d);
      zeros = λ i.
          put_word-page with_page table (pte_of v) (p * page_size + 7) (virt_of p) i
            (λ e. not_new table table-IsPage (sym e))
          ∙ clear_page-here (record s { buddy = t }) (virt_of p) i;
    }
