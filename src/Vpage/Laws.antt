-- ===== src/Vpage/Laws.antt =====
-- `vpage_link_addr`, and its error paths.
use ord_os.Base.{
  ℕ, ◌+◌, ◌*◌, ◌/◌, ◌%◌, ◌<◌, ◌^◌, ◌≡◌, ◌≢◌, ◌⊎◌, ◌↔◌, inl, inr, refl, false, Option, none, some,
  ◌==◌, if◌then◌else◌, arith, ap, ◌∙◌, sym, subst, Bool-cases, page_size, add32,
}
use ord_os.Buddy.{Buddy, buddy_alloc_page, buddy_free_page}
use ord_os.Buddy.Blocks.{Free, InBlock}
use ord_os.Buddy.Address.{zone_normal, kernel_vstart, virt_of, page_get_virt_lem, page_get_phys_lem}
use ord_os.Buddy.InUse.{
  IsPage, Keeps, OneTaken, one_page, virt-low, page_address, page_at-PageFreed,
}
use ord_os.Vpage.{
  Paging, put_word, page_pde_index, page_paddr, is_present, alloc_zeroed, link_entry,
  link_new_table, vpage_link_addr,
}
use ord_os.Vpage.Walk.{
  IsPaging, Directed, IsPaging-kept, walk, walk-same, leads_to, page_pde_desc_lem, page_paddr_lem,
  is_present_lem,
}
use ord_os.Vpage.Link.{
  Linked, pte_of, after_alloc, alloc_zeroed_lem, link_entry_lem, same_words, linked_old,
  clear_page-here, put_word-page, absent,
}
use ord_os.Vpage.Table.{linked_new}

-- Why null is returned: the buddy allocator has no page, or no second one.
abbrev pub Scarce : Buddy → Type 0
Scarce s =
    ((t : Buddy) × (buddy_alloc_page s zone_normal 0 ≡ some (none, t)))
    ⊎ ((p : ℕ) × (t : Buddy) × (u : Buddy) × (buddy_alloc_page s zone_normal 0 ≡ some (some p, t))
        × (buddy_alloc_page t zone_normal 0 ≡ some (none, u)))

-- Null: no address of user space is mapped differently, and the same pages are free as before.
pub record Refused (cr : ℕ) (s : Paging) (out : Option (Option ℕ × Paging)) : Type 0 where
  pub state : Paging
  pub returned : out ≡ some (none, state)
  pub valid : IsPaging cr state
  pub pages : (a : ℕ) → IsPage s.buddy a → IsPage state.buddy a
  pub same_walk : (o : ℕ) → o < kernel_vstart → walk state cr o ≡ walk s cr o
  pub free : (q : ℕ) → Free state.buddy q ↔ Free s.buddy q
  pub scarce : Scarce s.buddy

-- The present bit and what an entry leads to.
pub present_cases :
    (w : ℕ)
    → ((w % 2 ≡ 0) × (leads_to w ≡ none))
      ⊎ ((w % 2 ≡ 1) × (leads_to w ≡ some (w / 2 ^ 12 * 2 ^ 12)))
present_cases w = elim (Bool-cases (w % 2 == 1)) [
  | inl e ↦ inr (ground (arith, e), rw e refl)
  | inr e ↦ inl (ground (arith, e), rw e refl)
]

module _ (cr v : ℕ) (s : Paging) (ok : IsPaging cr s) (user : v < kernel_vstart)
    (unlinked : walk s cr v ≡ none) where
  abbrev directory : ℕ
  directory = kernel_vstart + cr

  directory-add32 : add32 cr kernel_vstart ≡ directory
  directory-add32 = omega (arith, page_address s.buddy directory ok.valid ok.directory)

  -- `vpage_link_addr` behind its first allocation, with the address of the directory.
  abbrev continue_at : ℕ → Option ℕ → Paging → Option (Option ℕ × Paging)
  continue_at d none s' = some (none, s')
  continue_at d (some p) s' =
      if is_present (s'.words d (page_pde_index v)) == 0
      then link_new_table d p v s'
      else link_entry (add32 (page_paddr (s'.words d (page_pde_index v))) kernel_vstart) p v s'

  abbrev continue : Option ℕ → Paging → Option (Option ℕ × Paging)
  continue = continue_at directory

  not_null : (add32 cr kernel_vstart == 0) ≡ false
  not_null = ground (arith, directory-add32)

  vpage_link_addr_lem :
      (page : Option ℕ) (s' : Paging)
      → alloc_zeroed s ≡ some (page, s')
      → vpage_link_addr cr v s ≡ continue page s'
  unfolding vpage_link_addr
  vpage_link_addr_lem none s' e = rw (vpage_link_addr, not_null, e) refl
  vpage_link_addr_lem (some p) s' e =
      rw (vpage_link_addr, not_null, e) (ap (λ d. continue_at d (some p) s') directory-add32)

  first-Refused :
      (t : Buddy)
      → buddy_alloc_page s.buddy zone_normal 0 ≡ some (none, t)
      → Keeps s.buddy t
      → OneTaken s.buddy none t
      → (out : Option (Option ℕ × Paging)) → out ≡ some (none, after_alloc none t s)
      → Refused cr s out
  first-Refused t e keeps taken out returned = record {
    state = after_alloc none t s;
    returned = returned;
    valid =
        IsPaging-kept s (after_alloc none t s) cr ok keeps.valid keeps.released keeps.pages
          (λ i. refl);
    pages = keeps.pages;
    same_walk = λ o lt. refl;
    free = λ q. ((taken.1 q).1, (taken.1 q).0);
    scarce = inl (t, e);
  }

  module _ (p : ℕ) (t : Buddy) (e : buddy_alloc_page s.buddy zone_normal 0 ≡ some (some p, t))
      (keeps : Keeps s.buddy t) (taken : OneTaken s.buddy (some p) t) where
    abbrev first : Paging
    first = after_alloc (some p) t s

    entry_same : (i : ℕ) → first.words directory i ≡ s.words directory i
    entry_same i = same_words cr v s ok user unlinked p t keeps taken directory i ok.directory

    -- The page is given back when there is none for the table.
    second-Refused :
        (u : Buddy)
        → buddy_alloc_page t zone_normal 0 ≡ some (none, u)
        → Keeps t u
        → OneTaken t none u
        → (out : Option (Option ℕ × Paging))
        → out ≡ (elim (buddy_free_page u p 0) [
          | none ↦ none
          | some b ↦ some (none, record first { buddy = b })
        ])
        → Refused cr s out
    second-Refused u e' keeps' taken' out returned =
        let back =
          page_at-PageFreed u p keeps'.valid keeps'.released (keeps'.pages (virt_of p) taken.0) in
        let pages : (a : ℕ) → IsPage s.buddy a → IsPage back.state a = λ a h.
          back.pages a (λ same. taken.1 (subst (IsPage s.buddy) same h))
            (keeps'.pages a (keeps.pages a h)) in
        record {
          state = record first { buddy = back.state };
          returned = returned ∙ rw back.returned refl;
          valid =
              IsPaging-kept s (record first { buddy = back.state }) cr ok back.valid back.released
                pages entry_same;
          pages = pages;
          same_walk = λ o lt.
              walk-same s (record first { buddy = back.state }) cr o (entry_same (o / 2 ^ 22))
                (λ pt d.
                  same_words cr v s ok user unlinked p t keeps taken (kernel_vstart + pt) (pte_of o)
                    (ok.table (o / 2 ^ 22) pt (omega (arith, lt)) d));
          free = λ q. (
            λ f. forth q ((back.freed q).0 f),
            λ f. (back.freed q).1 (backward q ((taken.2 q).0 f)),
          );
          scarce = inr (p, t, u, e, e');
        }
      where
        forth : (q : ℕ) → Free u q ⊎ InBlock p 0 q → Free s.buddy q
        forth q (inl f) = (taken.2 q).1 (inl ((taken'.1 q).1 f))
        forth q (inr here) = (taken.2 q).1 (inr here)

        backward : (q : ℕ) → Free t q ⊎ InBlock p 0 q → Free u q ⊎ InBlock p 0 q
        backward q (inl f) = inl ((taken'.1 q).0 f)
        backward q (inr here) = inr here

    -- The directory has a table for the address.
    link_old :
        (pt : ℕ)
        → Directed s cr (v / 2 ^ 22) pt
        → pt ≡ page_paddr (first.words directory (page_pde_index v))
        → Linked cr v s (
            link_entry
              (add32 (page_paddr (first.words directory (page_pde_index v))) kernel_vstart)
              p
              v
              first)
    link_old pt d e = linked_old cr v s ok user unlinked p t keeps taken pt d _ (
        ap (λ a. link_entry a p v first) (ap (λ x. add32 x kernel_vstart) (sym e) ∙ whole)
        ∙ link_entry_lem (kernel_vstart + pt) p v first low.0 low.1
            (absent cr v s ok user unlinked p t keeps taken pt d))
      where
        low : (p < t.pages_cnt) × (p < 0x30000)
        low = virt-low t p keeps.valid taken.0

        whole : add32 pt kernel_vstart ≡ kernel_vstart + pt
        whole = omega (
          arith,
          page_address s.buddy (kernel_vstart + pt) ok.valid
              (ok.table (v / 2 ^ 22) pt (omega (arith, user)) d),
        )

    -- It has none, and there is a page for one.
    link_new :
        (q : ℕ) (u : Buddy)
        → Keeps t u
        → OneTaken t (some q) u
        → leads_to (s.words directory (v / 2 ^ 22)) ≡ none
        → alloc_zeroed first ≡ some (some q, after_alloc (some q) u first)
        → Linked cr v s (link_new_table directory p v first)
    unfolding link_new_table page_pde_index
    link_new q u keeps' taken' no_entry e' =
        linked_new cr v s ok user unlinked p t keeps taken q u keeps' taken' no_entry _ (
          rw
            (
              link_new_table,
              e',
              page_get_phys_lem u q low_q.0 low_q.1,
              page_get_virt_lem u q low_q.0 low_q.1,
            )
            (ap
                (λ w.
                  link_entry (virt_of q) p v
                    (put_word directory (v / 2 ^ 22) w (after_alloc (some q) u first)))
                (page_pde_desc_lem q)
              ∙ link_entry_lem (virt_of q) p v
                  (put_word directory (v / 2 ^ 22) (q * page_size + 7)
                    (after_alloc (some q) u first))
                  low_p.0 low_p.1 empty))
      where
        low_q : (q < u.pages_cnt) × (q < 0x30000)
        low_q = virt-low u q keeps'.valid taken'.0

        low_p : (p < u.pages_cnt) × (p < 0x30000)
        low_p = virt-low u p keeps'.valid (keeps'.pages (virt_of p) taken.0)

        not_q : virt_of q ≢ directory
        not_q e = taken'.1 (subst (IsPage t) (sym e) (keeps.pages directory ok.directory))

        empty :
            (put_word directory
                  (v / 2 ^ 22)
                  (q * page_size + 7)
                  (after_alloc (some q) u first)).words
                (virt_of q)
                (pte_of v)
              % 2
            ≡ 0
        empty =
            ap (λ w. w % 2)
              (put_word-page (after_alloc (some q) u first) directory (v / 2 ^ 22)
                  (q * page_size + 7) (virt_of q) (pte_of v) not_q
                ∙ clear_page-here (record first { buddy = u }) (virt_of q) (pte_of v))

    new_table :
        (page : Option ℕ) (u : Buddy)
        → buddy_alloc_page t zone_normal 0 ≡ some (page, u)
        → Keeps t u
        → OneTaken t page u
        → leads_to (s.words directory (v / 2 ^ 22)) ≡ none
        → Linked cr v s (link_new_table directory p v first)
          ⊎ Refused cr s (link_new_table directory p v first)
    unfolding link_new_table
    new_table none u e' keeps' taken' no_entry = inr (
        second-Refused u e' keeps' taken' _
          (rw (link_new_table, alloc_zeroed_lem first none u e' keeps'.valid taken') refl))
    new_table (some q) u e' keeps' taken' no_entry = inl (
        link_new q u keeps' taken' no_entry
          (alloc_zeroed_lem first (some q) u e' keeps'.valid taken'))

    continued : Linked cr v s (continue (some p) first) ⊎ Refused cr s (continue (some p) first)
    unfolding page_pde_index
    continued = elim (present_cases (s.words directory (v / 2 ^ 22))) [
      | inl (even, no_entry) ↦
          let b = one_page t keeps.valid keeps.released in
          rw (bit ∙ even) (new_table b.page b.state b.returned b.keeps b.taken no_entry)
      | inr (odd, entry) ↦ rw (bit ∙ odd) (
          inl (
            link_old _ entry (
              sym (
                ap page_paddr (entry_same (v / 2 ^ 22))
                ∙ page_paddr_lem _ (ok.word (v / 2 ^ 22))))))
    ]
      where
        bit : is_present (first.words directory (v / 2 ^ 22)) ≡ s.words directory (v / 2 ^ 22) % 2
        bit = is_present_lem _ ∙ ap (λ w. w % 2) (entry_same (v / 2 ^ 22))

  by_page :
      (page : Option ℕ) (t : Buddy)
      → buddy_alloc_page s.buddy zone_normal 0 ≡ some (page, t)
      → Keeps s.buddy t
      → OneTaken s.buddy page t
      → Linked cr v s (vpage_link_addr cr v s) ⊎ Refused cr s (vpage_link_addr cr v s)
  by_page none t e keeps taken = inr (
      first-Refused t e keeps taken _ (
        vpage_link_addr_lem none (after_alloc none t s)
          (alloc_zeroed_lem s none t e keeps.valid taken)))
  by_page (some p) t e keeps taken =
      subst (λ out. Linked cr v s out ⊎ Refused cr s out)
        (sym (
          vpage_link_addr_lem (some p) (after_alloc (some p) t s)
            (alloc_zeroed_lem s (some p) t e keeps.valid taken)))
        (continued p t e keeps taken)

-- `vpage_link_addr` of an address of user space that is not mapped, with a directory and tables in
-- order, returns with them in order again. Either the address and its whole page are mapped to a page
-- that was not in use and holds zeros, and no other address of user space is mapped differently; or
-- null, and then the buddy allocator had no page, or no second one for the table, no address is
-- mapped differently, and the same pages are free as before.
pub vpage_link_addr-Linked :
    (cr v : ℕ) (s : Paging)
    → IsPaging cr s
    → v < kernel_vstart
    → walk s cr v ≡ none
    → Linked cr v s (vpage_link_addr cr v s) ⊎ Refused cr s (vpage_link_addr cr v s)
vpage_link_addr-Linked cr v s ok user unlinked =
    let a = one_page s.buddy ok.valid ok.released in
    by_page cr v s ok user unlinked a.page a.state a.returned a.keeps a.taken
