-- ===== src/Buddy/Taken.antt =====
-- Taking a free block out of its area leaves it held, and pages and lists in agreement.
use ord_os.Base.{
  ℕ, ◌+◌, ◌≤◌, ◌<◌, ◌^◌, ◌≡◌, ◌≢◌, ◌⊎◌, inl, inr, ◌↔◌, true, arith, among, length, ap, sym, subst,
  ◌∙◌, ℕ_discrete,
}
use ord_os.Buddy.{Buddy, area_of}
use ord_os.Buddy.Blocks.{IsBlock, Apart, free_in, IsBuddy, Held, Free, InBlock, Removed}
use ord_os.Buddy.Lists.{among-without, Distinct-without, length-without}
use ord_os.Buddy.Step.{IsBlock-same, listed-length, page-lt-cnt}

module _ (s t : Buddy) (z o page : ℕ) (a : Removed s t z o page) (ok : IsBuddy s)
    (found : free_in s z o page ≡ true) where
  page_free : (s.pages page).buddy ≡ true
  page_free = ground (arith, found)

  page_order : (s.pages page).order ≡ o
  page_order = ground (arith, found)

  pub buddy_before : (q : ℕ) → (t.pages q).buddy ≡ true → ((s.pages q).buddy ≡ true) × (q ≢ page)
  buddy_before q free = ground (arith, a.buddies q)

  removed_listed : (y r p : ℕ) → among p (area_of t y r).mem_blocks ≡ free_in t y r p
  removed_listed y r p = ground (
    arith,
    ap (λ l. among p l) (a.lists y r),
    among-without p page (area_of s y r).mem_blocks,
    a.buddies p,
    a.orders p,
    a.same_zone p,
    ok.listed y r p,
  )

  removed_counted : (y r : ℕ) → (area_of t y r).blocks_free ≡ length (area_of t y r).mem_blocks
  removed_counted y r = ground (
    arith,
    ap length (a.lists y r),
    a.counts y r,
    ok.counted y r,
    length-without page (area_of s y r).mem_blocks (ok.distinct y r),
    ok.listed y r page,
    bound,
    found,
  )
    where
      bound : length (area_of s y r).mem_blocks ≤ 2 ^ 20
      bound =
          listed-length s _ (2 ^ 20) ok.small (ok.distinct y r)
            (λ p i. page-lt-cnt (ok.block p (ground (arith, ok.listed y r p))))

  removed-IsBlock : (p : ℕ) → (t.pages p).buddy ≡ true → IsBlock t p (t.pages p).order
  removed-IsBlock p free =
      rw (a.orders p)
        (IsBlock-same s t p _ a.same_cnt a.same_reserved (ok.block p (buddy_before p free).0))

  pub Removed-IsBuddy : IsBuddy t
  Removed-IsBuddy = record {
    small = omega (arith, ok.small, a.same_cnt);
    zone = λ p lt. a.same_zone p ∙ ok.zone p (omega (arith, a.same_cnt));
    listed = removed_listed;
    distinct = λ y r. rw (a.lists y r) (Distinct-without page _ (ok.distinct y r));
    counted = removed_counted;
    block = removed-IsBlock;
    apart = λ p q fp fq ne.
        rw (a.orders p, a.orders q) (ok.apart p q (buddy_before p fp).0 (buddy_before q fq).0 ne);
  }

  pub Removed-Held : Held t page o
  Removed-Held = record {
    is_block =
        IsBlock-same s t page o a.same_cnt a.same_reserved
          (subst (IsBlock s page) page_order (ok.block page page_free));
    clear = λ q free. rw (a.orders q) (
        subst (λ x. Apart page x q (s.pages q).order) page_order
          (ok.apart page q page_free (buddy_before q free).0
            (λ e. (buddy_before q free).1 (sym e))));
  }

  -- Exactly the pages of the block have been free before, besides those that still are.
  pub Free-Removed : (k : ℕ) → Free s k ↔ (Free t k ⊎ InBlock page o k)
  Free-Removed k = (to, from)
    where
      to : Free s k → Free t k ⊎ InBlock page o k
      to (p, free, lo, hi) = elim (ℕ_discrete p page) [
        | yes e ↦ inr (
          omega (arith, e),
          ground (
            arith,
            e,
            hi,
            page_order,
            ap (λ x. 2 ^ (s.pages x).order) e,
            ap (λ x. 2 ^ x) page_order,
          ),
        )
        | no ne ↦
            inl
              (p, ground (arith, a.buddies p), lo, subst (λ x. k < p + 2 ^ x) (sym (a.orders p)) hi)
      ]

      from : Free t k ⊎ InBlock page o k → Free s k
      from (inl (p, free, lo, hi)) =
          (p, (buddy_before p free).0, lo, subst (λ x. k < p + 2 ^ x) (a.orders p) hi)
      from (inr (lo, hi)) = (page, page_free, lo, subst (λ x. k < page + 2 ^ x) (sym page_order) hi)
