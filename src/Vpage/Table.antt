-- ===== src/Vpage/Table.antt =====
-- Linking an address that has no table yet.
use ord_os.Base.{
  ℕ, ◌+◌, ◌*◌, ◌/◌, ◌<◌, ◌^◌, ◌≡◌, ◌≢◌, ◌⊎◌, inl, inr, Option, none, some, arith, ap, ◌∙◌, sym,
  subst, ℕ_discrete, page_size,
}
use ord_os.Buddy.{Buddy}
use ord_os.Buddy.Address.{kernel_vstart, virt_of}
use ord_os.Buddy.InUse.{IsPage, Keeps, OneTaken, virt-low}
use ord_os.Vpage.{Paging, put_word, clear_page}
use ord_os.Vpage.Walk.{
  IsPaging, Directed, walk, walk-same, walk-steps, walk-none, no_table, leads_to, leads_to-page,
}
use ord_os.Vpage.Link.{
  Linked, pte_of, same_words, same_page, other_entry, put_word-here, put_word-page, put_word-word,
  clear_page-here, clear_page-page,
}

module _ (cr v : ℕ) (s : Paging) (ok : IsPaging cr s) (user : v < kernel_vstart)
    (unlinked : walk s cr v ≡ none) (p : ℕ) (t : Buddy) (keeps : Keeps s.buddy t)
    (taken : OneTaken s.buddy (some p) t) (q : ℕ) (u : Buddy) (keeps' : Keeps t u)
    (taken' : OneTaken t (some q) u)
    (no_entry : leads_to (s.words (kernel_vstart + cr) (v / 2 ^ 22)) ≡ none) where
  abbrev directory : ℕ
  directory = kernel_vstart + cr

  abbrev pde_of : ℕ → ℕ
  pde_of o = o / 2 ^ 22

  abbrev first : Paging
  first = clear_page (virt_of p) (record s { buddy = t })

  abbrev second : Paging
  second = clear_page (virt_of q) (record first { buddy = u })

  abbrev third : Paging
  third = put_word directory (pde_of v) (q * page_size + 7) second

  abbrev linked : Paging
  linked = put_word (virt_of q) (pte_of v) (p * page_size + 7) third

  not_q : (a : ℕ) → IsPage t a → a ≢ virt_of q
  not_q a h e = taken'.1 (subst (IsPage t) e h)

  directory-q : directory ≢ virt_of q
  directory-q = not_q directory (keeps.pages directory ok.directory)

  not_p : (a : ℕ) → IsPage s.buddy a → virt_of p ≢ a
  not_p a h e = taken.1 (subst (IsPage s.buddy) (sym e) h)

  -- The words of the four kinds of pages.
  old_words : (a k : ℕ) → IsPage s.buddy a → a ≢ directory → linked.words a k ≡ s.words a k
  old_words a k h ne =
      put_word-page third (virt_of q) (pte_of v) (p * page_size + 7) a k (not_q a (keeps.pages a h))
      ∙ put_word-page second directory (pde_of v) (q * page_size + 7) a k ne
      ∙ clear_page-page (record first { buddy = u }) (virt_of q) a k (not_q a (keeps.pages a h))
      ∙ same_words cr v s ok user unlinked p t keeps taken a k h

  entry : linked.words directory (pde_of v) ≡ q * page_size + 7
  entry =
      put_word-page third (virt_of q) (pte_of v) (p * page_size + 7) directory (pde_of v)
        directory-q
      ∙ put_word-here second directory (pde_of v) (q * page_size + 7)

  entries : (k : ℕ) → k ≢ pde_of v → linked.words directory k ≡ s.words directory k
  entries k ne =
      put_word-page third (virt_of q) (pte_of v) (p * page_size + 7) directory k directory-q
      ∙ put_word-word second directory (pde_of v) (q * page_size + 7) directory k ne
      ∙ clear_page-page (record first { buddy = u }) (virt_of q) directory k directory-q
      ∙ same_words cr v s ok user unlinked p t keeps taken directory k ok.directory

  table_word : linked.words (virt_of q) (pte_of v) ≡ p * page_size + 7
  table_word = put_word-here third (virt_of q) (pte_of v) (p * page_size + 7)

  table_words : (k : ℕ) → k ≢ pte_of v → linked.words (virt_of q) k ≡ 0
  table_words k ne =
      put_word-word third (virt_of q) (pte_of v) (p * page_size + 7) (virt_of q) k ne
      ∙ put_word-page second directory (pde_of v) (q * page_size + 7) (virt_of q) k
          (λ e. directory-q (sym e))
      ∙ clear_page-here (record first { buddy = u }) (virt_of q) k

  page_words : (k : ℕ) → linked.words (virt_of p) k ≡ 0
  page_words k =
      put_word-page third (virt_of q) (pte_of v) (p * page_size + 7) (virt_of p) k
        (not_q (virt_of p) taken.0)
      ∙ put_word-page second directory (pde_of v) (q * page_size + 7) (virt_of p) k
          (not_p directory ok.directory)
      ∙ clear_page-page (record first { buddy = u }) (virt_of q) (virt_of p) k
          (not_q (virt_of p) taken.0)
      ∙ clear_page-here (record s { buddy = t }) (virt_of p) k

  -- A table of the directory is the new one or was there before.
  origin :
      (k pt : ℕ)
      → Directed linked cr k pt
      → ((k ≡ pde_of v) × (pt ≡ q * page_size)) ⊎ ((k ≢ pde_of v) × Directed s cr k pt)
  origin k pt d = elim (ℕ_discrete k (pde_of v)) [
    | yes e ↦ inl (e, new e)
    | no ne ↦ inr (ne, ap leads_to (sym (entries k ne)) ∙ d)
  ]
    where
      some_injective : {x y : ℕ} → some x ≡ some y → x ≡ y
      some_injective e = cc

      new : k ≡ pde_of v → pt ≡ q * page_size
      new e = some_injective (
          sym d
          ∙ ap (λ x. leads_to (linked.words directory x)) e
          ∙ ap leads_to entry
          ∙ leads_to-page q)

  old_table : (k pt : ℕ) → k < 768 → Directed s cr k pt → pt ≢ q * page_size
  old_table k pt lt d e =
      not_q (kernel_vstart + pt) (keeps.pages (kernel_vstart + pt) (ok.table k pt lt d))
        (ap (λ x. kernel_vstart + x) e)

  linked-IsPaging : IsPaging cr linked
  linked-IsPaging = record {
    valid = keeps'.valid;
    released = keeps'.released;
    directory = keeps'.pages directory (keeps.pages directory ok.directory);
    word = λ k. elim (ℕ_discrete k (pde_of v)) [
      | yes e ↦
          subst (λ x. linked.words directory x < 2 ^ 32) (sym e)
            (rw entry (omega (arith, virt-low u q keeps'.valid taken'.0)))
      | no ne ↦ subst (λ w. w < 2 ^ 32) (sym (entries k ne)) (ok.word k)
    ];
    table = λ k pt lt d. elim (origin k pt d) [
      | inl (e, e') ↦ subst (λ x. IsPage u (kernel_vstart + x)) (sym e') taken'.0
      | inr (ne, d') ↦
          keeps'.pages (kernel_vstart + pt) (keeps.pages (kernel_vstart + pt) (ok.table k pt lt d'))
    ];
    not_directory = λ k pt lt d. elim (origin k pt d) [
      | inl (e, e') ↦ λ same. directory-q (ap (λ x. kernel_vstart + x) (sym same ∙ e'))
      | inr (ne, d') ↦ ok.not_directory k pt lt d'
    ];
    own = λ k l pt hk hl d d'. both k l pt hk hl (origin k pt d) (origin l pt d');
  }
    where
      both :
          (k l pt : ℕ)
          → k < 768
          → l < 768
          → ((k ≡ pde_of v) × (pt ≡ q * page_size)) ⊎ ((k ≢ pde_of v) × Directed s cr k pt)
          → ((l ≡ pde_of v) × (pt ≡ q * page_size)) ⊎ ((l ≢ pde_of v) × Directed s cr l pt)
          → k ≡ l
      both k l pt hk hl (inl (e, x)) (inl (e', y)) = e ∙ sym e'
      both k l pt hk hl (inl (e, x)) (inr (ne, d)) = absurd (old_table l pt hl d x)
      both k l pt hk hl (inr (ne, d)) (inl (e, x)) = absurd (old_table k pt hk d x)
      both k l pt hk hl (inr (ne, d)) (inr (ne', d')) = ok.own k l pt hk hl d d'

  others : (o : ℕ) → o < kernel_vstart → o / 2 ^ 12 ≢ v / 2 ^ 12 → walk linked cr o ≡ walk s cr o
  others o lt ne = elim (ℕ_discrete (pde_of o) (pde_of v)) [
    | yes e ↦
        walk-none linked cr o (q * page_size)
          (ap (λ x. leads_to (linked.words directory x)) e ∙ ap leads_to entry ∙ leads_to-page q)
          (ap leads_to (table_words (pte_of o) (other_entry v o ne e)))
        ∙ sym (no_table s cr o (ap (λ x. leads_to (s.words directory x)) e ∙ no_entry))
    | no far ↦ walk-same s linked cr o (entries (pde_of o) far) (λ pt d.
        old_words (kernel_vstart + pt) (pte_of o) (ok.table (pde_of o) pt (omega (arith, lt)) d)
          (λ e. ok.not_directory (pde_of o) pt (omega (arith, lt)) d (omega (arith, e))))
  ]

  -- A page becomes the table of the address.
  pub linked_new :
      (out : Option (Option ℕ × Paging)) → out ≡ some (some v, linked) → Linked cr v s out
  linked_new out e = record {
    page = p;
    state = linked;
    returned = e;
    valid = linked-IsPaging;
    new = taken.1;
    used = keeps'.pages (virt_of p) taken.0;
    pages = λ a h. keeps'.pages a (keeps.pages a h);
    maps = λ o same.
        let (i, j) = same_page v o same in
        walk-steps linked cr o (q * page_size) (p * page_size)
          (ap (λ x. leads_to (linked.words directory x)) i ∙ ap leads_to entry ∙ leads_to-page q)
          (ap (λ x. leads_to (linked.words (virt_of q) x)) j
            ∙ ap leads_to table_word
            ∙ leads_to-page p);
    others = others;
    zeros = page_words;
  }
