-- ===== src/Buddy/Step.antt =====
-- Putting a block into an area and taking one out keep pages and lists in agreement.
use ord_os.Base.{
  ℕ, ◌+◌, ◌≤◌, ◌<◌, ◌^◌, ◌≡◌, ◌≢◌, ◌⊎◌, inl, inr, ◌↔◌, refl, true, false, ◌&&◌, List, ◌==◌, arith,
  among, Distinct, length, ap, sym, subst, ◌∙◌, Bool-cases, ℕ_discrete, pow_pos,
}
use ord_os.Buddy.{Buddy, area_of, area_add_page, area_remove_page, set_order}
use ord_os.Buddy.Blocks.{IsBlock, Apart, free_in, IsBuddy, Held, Free, InBlock, Added, Removed}
use ord_os.Buddy.Lists.{Distinct-length-le}

pub area_add_page-Added :
    (s : Buddy) (z o page : ℕ) → Added s (set_order page o (area_add_page z o page s)) z o page
unfolding area_add_page
area_add_page-Added s z o page = record {
  same_cnt = refl;
  same_zone = λ q. ground arith;
  same_reserved = λ q. ground arith;
  buddies = λ q. ground arith;
  orders = λ q. ground arith;
  lists = λ y r. ground arith;
  counts = λ y r. ground arith;
}

pub set_order-Added :
    (s : Buddy) (z o page : ℕ) → Added s (area_add_page z o page (set_order page o s)) z o page
unfolding area_add_page
set_order-Added s z o page = record {
  same_cnt = refl;
  same_zone = λ q. ground arith;
  same_reserved = λ q. ground arith;
  buddies = λ q. ground arith;
  orders = λ q. ground arith;
  lists = λ y r. ground arith;
  counts = λ y r. ground arith;
}

pub area_remove_page-Removed :
    (s : Buddy) (z o page : ℕ) → Removed s (area_remove_page z o page s) z o page
unfolding area_remove_page
area_remove_page-Removed s z o page = record {
  same_cnt = refl;
  same_zone = λ q. ground arith;
  same_reserved = λ q. ground arith;
  buddies = λ q. ground arith;
  orders = λ q. ground arith;
  lists = λ y r. ground arith;
  counts = λ y r. ground arith;
}

-- The head of a block is one of its pages.
pub page-lt-cnt : {s : Buddy} {p o : ℕ} → IsBlock s p o → p < s.pages_cnt
page-lt-cnt {s} {p} {o} b = omega (arith, b.fits, pow_pos o)

-- A free block is not a block in use.
pub Held-not_buddy : {s : Buddy} {p o : ℕ} → Held s p o → (s.pages p).buddy ≡ false
Held-not_buddy {s} {p} {o} h = elim (Bool-cases (s.pages p).buddy) [
  | inl free ↦ absurd (ground (arith, h.clear p free, pow_pos o, pow_pos (s.pages p).order))
  | inr used ↦ used
]

pub IsBlock-same :
    (s t : Buddy) (p r : ℕ)
    → t.pages_cnt ≡ s.pages_cnt
    → ((q : ℕ) → (t.pages q).reserved ≡ (s.pages q).reserved)
    → IsBlock s p r
    → IsBlock t p r
IsBlock-same s t p r e same b = record {
  order_small = b.order_small;
  multiple = b.multiple;
  aligned = b.aligned;
  fits = omega (arith, b.fits, e);
  usable = λ k lo hi. same k ∙ b.usable k lo hi;
}

-- A list of free blocks is no longer than there are pages.
pub listed-length :
    (s : Buddy) (xs : List ℕ) (n : ℕ)
    → s.pages_cnt ≤ n
    → Distinct xs
    → ((p : ℕ) → among p xs ≡ true → p < s.pages_cnt)
    → length xs ≤ n
listed-length s xs n small d b = Distinct-length-le n xs d (λ p i. omega (arith, b p i))

module _ (s t : Buddy) (z o page : ℕ) (a : Added s t z o page) (ok : IsBuddy s)
    (held : Held s page o) (zone : (s.pages page).zone_type ≡ z) where
  added_listed : (y r p : ℕ) → among p (area_of t y r).mem_blocks ≡ free_in t y r p
  added_listed y r p = ground (
    arith,
    a.lists y r,
    a.buddies p,
    a.orders p,
    a.same_zone p,
    ok.listed y r p,
    Held-not_buddy held,
    zone,
  )

  added-Distinct : (y r : ℕ) → Distinct (area_of t y r).mem_blocks
  added-Distinct y r = rw (a.lists y r) (elim (Bool-cases (y == z && r == o)) [
    | inl here ↦ rw here (ground (arith, ok.listed y r page, Held-not_buddy held), ok.distinct y r)
    | inr other ↦ rw other (ok.distinct y r)
  ])

  order_new : (p : ℕ) → p ≡ page → (t.pages p).order ≡ o
  order_new p e = ground (arith, a.orders p)

  order_old : (p : ℕ) → p ≢ page → (t.pages p).order ≡ (s.pages p).order
  order_old p ne = ground (arith, a.orders p)

  buddy_old : (p : ℕ) → p ≢ page → (t.pages p).buddy ≡ true → (s.pages p).buddy ≡ true
  buddy_old p ne free = ground (arith, a.buddies p)

  added-IsBlock : (p : ℕ) → (t.pages p).buddy ≡ true → IsBlock t p (t.pages p).order
  added-IsBlock p free = elim (ℕ_discrete p page) [
    | yes e ↦
        rw (order_new p e, e) (IsBlock-same s t page o a.same_cnt a.same_reserved held.is_block)
    | no ne ↦
        rw (order_old p ne)
          (IsBlock-same s t p _ a.same_cnt a.same_reserved (ok.block p (buddy_old p ne free)))
  ]

  added_counted : (y r : ℕ) → (area_of t y r).blocks_free ≡ length (area_of t y r).mem_blocks
  added_counted y r = ground (arith, a.lists y r, a.counts y r, ok.counted y r, bound)
    where
      bound : length (area_of t y r).mem_blocks ≤ 2 ^ 20
      bound =
          listed-length t _ (2 ^ 20) (omega (arith, ok.small, a.same_cnt)) (added-Distinct y r)
            (λ p i. page-lt-cnt (added-IsBlock p (ground (arith, added_listed y r p))))

  added_apart :
      (p q : ℕ)
      → (t.pages p).buddy ≡ true
      → (t.pages q).buddy ≡ true
      → p ≢ q
      → Apart p (t.pages p).order q (t.pages q).order
  added_apart p q fp fq ne = elim (ℕ_discrete p page) [
    | yes e ↦
        let other : q ≢ page = λ e'. ne (e ∙ sym e') in
        rw (order_new p e, order_old q other, e) (held.clear q (buddy_old q other fq))
    | no old ↦ elim (ℕ_discrete q page) [
      | yes e ↦
          rw (order_new q e, order_old p old, e) (ground (arith, held.clear p (buddy_old p old fp)))
      | no other ↦
          rw (order_old p old, order_old q other)
            (ok.apart p q (buddy_old p old fp) (buddy_old q other fq) ne)
    ]
  ]

  pub Added-IsBuddy : IsBuddy t
  Added-IsBuddy = record {
    small = omega (arith, ok.small, a.same_cnt);
    zone = λ p lt. a.same_zone p ∙ ok.zone p (omega (arith, a.same_cnt));
    listed = added_listed;
    distinct = added-Distinct;
    counted = added_counted;
    block = added-IsBlock;
    apart = added_apart;
  }

  -- Exactly the pages of the new block have become free.
  pub Free-Added : (k : ℕ) → Free t k ↔ (Free s k ⊎ InBlock page o k)
  Free-Added k = (to, from)
    where
      to : Free t k → Free s k ⊎ InBlock page o k
      to (p, free, lo, hi) = elim (ℕ_discrete p page) [
        | yes e ↦ inr (omega (arith, e), ground (arith, e, hi, ap (λ x. 2 ^ x) (order_new p e)))
        | no ne ↦ inl (p, buddy_old p ne free, lo, subst (λ x. k < p + 2 ^ x) (order_old p ne) hi)
      ]

      from : Free s k ⊎ InBlock page o k → Free t k
      from (inl (p, free, lo, hi)) =
          let ne : p ≢ page =
            λ e. ground (arith, Held-not_buddy held, ap (λ x. (s.pages x).buddy) e) in
          (p, ground (arith, a.buddies p), lo, subst (λ x. k < p + 2 ^ x) (sym (order_old p ne)) hi)
      from (inr (lo, hi)) = (
        page,
        ground (arith, a.buddies page),
        lo,
        subst (λ x. k < page + 2 ^ x) (sym (order_new page refl)) hi,
      )
