-- ===== src/Buddy/Merge.antt =====
-- The loop of `buddy_free_page` joins a block with its free neighbours.
use ord_os.Base.{
  ℕ, zero, suc, ◌+◌, ◌<◌, ◌^◌, ◌≡◌, ◌⊎◌, inl, inr, ◌↔◌, refl, true, ◌||◌, not, ◌==◌, arith, ap, sym,
  subst, ◌∙◌, Bool-cases, Option-cases, dec_lt, pow_pos, pow_suc,
}
use ord_os.Buddy.{
  Buddy, max_order, area_remove_page, buddy_page_to_buddy, buddy_page_ascend, merge_loop,
}
use ord_os.Buddy.Blocks.{zone_of, IsBlock, free_in, IsBuddy, Held, Free, InBlock, Removed}
use ord_os.Buddy.Step.{area_remove_page-Removed, IsBlock-same, page-lt-cnt}
use ord_os.Buddy.Taken.{Removed-IsBuddy, Removed-Held, Free-Removed, buddy_before}
use ord_os.Buddy.Halves.{Neighbour, buddy-Neighbour, Held-join, zone_of-block}
use ord_os.Buddy.Split.{SamePages}

-- The loop ends with a larger or equal block that is held in the same zone.
pub record Merged (s : Buddy) (page o z : ℕ) (out : ℕ × ℕ × Buddy) : Type 0 where
  pub valid : IsBuddy out.2
  pub held : Held out.2 out.1 out.0
  pub in_zone : (out.2.pages out.1).zone_type ≡ z
  pub same : SamePages s page o out.2 out.1 out.0
  pub pg_free : (y : ℕ) → (out.2.zones y).pg_free ≡ (s.zones y).pg_free
  pub lock : (y : ℕ) → (out.2.zones y).lock ≡ (s.zones y).lock

stopped :
    (s : Buddy) (page o z : ℕ)
    → IsBuddy s
    → Held s page o
    → (s.pages page).zone_type ≡ z
    → Merged s page o z (o, page, s)
stopped s page o z ok held zone = record {
  valid = ok;
  held = held;
  in_zone = zone;
  same = λ k. (λ x. x, λ x. x);
  pg_free = λ y. refl;
  lock = λ y. refl;
}

-- The page at the low end of two neighbours is one of the two.
low_page :
    (s : Buddy) (p b o low : ℕ)
    → Neighbour p o b low
    → IsBlock s p o
    → IsBlock s b o
    → low < s.pages_cnt
low_page s p b o low n hp hb = ground (arith, n.halves, page-lt-cnt hp, page-lt-cnt hb)

low_zone :
    (p b o low : ℕ)
    → Neighbour p o b low
    → o < max_order
    → (zone_of p ≡ zone_of low) × (zone_of b ≡ zone_of low)
low_zone p b o low n below = elim n.halves [
  | inl (e, e') ↦
      (ap zone_of (sym e), ap (λ x. zone_of x) (e' ∙ ap (λ x. x + 2 ^ o) (sym e)) ∙ upper)
  | inr (e, e') ↦
      (ap (λ x. zone_of x) (e' ∙ ap (λ x. x + 2 ^ o) (sym e)) ∙ upper, ap zone_of (sym e))
]
  where
    upper : zone_of (low + 2 ^ o) ≡ zone_of low
    upper =
        ap (λ x. zone_of (x + 2 ^ o)) n.aligned
        ∙ zone_of-block n.multiple (suc o) (2 ^ o) (omega arith)
            (omega (arith, pow_suc o, pow_pos o))
        ∙ ap zone_of (sym n.aligned)

low_pages :
    (p b o low k : ℕ)
    → Neighbour p o b low
    → (InBlock p o k ⊎ InBlock b o k) ↔ InBlock low (suc o) k
low_pages p b o low k n = (
  λ h. ground (arith, n.halves, pow_suc o, h),
  λ h. elim n.halves [
    | inl (e, e') ↦ elim (dec_lt k (low + 2 ^ o)) [
      | yes lt ↦ inl (omega arith, omega arith)
      | no ge ↦ inr (omega arith, omega (arith, pow_suc o))
    ]
    | inr (e, e') ↦ elim (dec_lt k (low + 2 ^ o)) [
      | yes lt ↦ inr (omega arith, omega arith)
      | no ge ↦ inl (omega arith, omega (arith, pow_suc o))
    ]
  ],
)

module _ (s : Buddy) (page o z b low : ℕ) (ok : IsBuddy s) (held : Held s page o)
    (zone : (s.pages page).zone_type ≡ z) (below : o < max_order) (n : Neighbour page o b low)
    (free : (s.pages b).buddy ≡ true) (order : (s.pages b).order ≡ o) where
  b-IsBlock : IsBlock s b o
  b-IsBlock = subst (IsBlock s b) order (ok.block b free)

  b_zone : (s.pages b).zone_type ≡ z
  b_zone =
      ok.zone b (page-lt-cnt b-IsBlock)
      ∙ (low_zone page b o low n below).1
      ∙ sym (low_zone page b o low n below).0
      ∙ sym (ok.zone page (page-lt-cnt held.is_block))
      ∙ zone

  b_found : free_in s z o b ≡ true
  b_found = ground (arith, free, order, b_zone)

  a : Removed s (area_remove_page z o b s) z o b
  a = area_remove_page-Removed s z o b

  t : Buddy
  t = area_remove_page z o b s

  joined_valid : IsBuddy (area_remove_page z o b s)
  joined_valid = Removed-IsBuddy s (area_remove_page z o b s) z o b a ok b_found

  still-Held : Held (area_remove_page z o b s) page o
  still-Held = record {
    is_block = IsBlock-same s _ page o a.same_cnt a.same_reserved held.is_block;
    clear = λ q f. rw (a.orders q) (held.clear q (buddy_before s _ z o b a ok b_found q f).0);
  }

  joined-Held : Held (area_remove_page z o b s) low (suc o)
  joined-Held =
      Held-join _ page o b low n still-Held
        (Removed-Held s (area_remove_page z o b s) z o b a ok b_found) below

  joined_zone : ((area_remove_page z o b s).pages low).zone_type ≡ z
  joined_zone =
      a.same_zone low
      ∙ ok.zone low (low_page s page b o low n held.is_block b-IsBlock)
      ∙ sym (low_zone page b o low n below).0
      ∙ sym (ok.zone page (page-lt-cnt held.is_block))
      ∙ zone

  joined_pages : SamePages s page o (area_remove_page z o b s) low (suc o)
  joined_pages k = (to, from)
    where
      taken : Free s k ↔ (Free (area_remove_page z o b s) k ⊎ InBlock b o k)
      taken = Free-Removed s (area_remove_page z o b s) z o b a ok b_found k

      to : Free s k ⊎ InBlock page o k → Free (area_remove_page z o b s) k ⊎ InBlock low (suc o) k
      to (inl f) = elim (taken.0 f) [
        | inl f' ↦ inl f'
        | inr h ↦ inr ((low_pages page b o low k n).0 (inr h))
      ]
      to (inr h) = inr ((low_pages page b o low k n).0 (inl h))

      from : Free (area_remove_page z o b s) k ⊎ InBlock low (suc o) k → Free s k ⊎ InBlock page o k
      from (inl f') = inl (taken.1 (inl f'))
      from (inr h) = elim ((low_pages page b o low k n).1 h) [
        | inl h' ↦ inr h'
        | inr h' ↦ inl (taken.1 (inr h'))
      ]

  joined_Merged :
      (out : ℕ × ℕ × Buddy)
      → Merged (area_remove_page z o b s) low (suc o) z out
      → Merged s page o z out
  unfolding area_remove_page
  joined_Merged out m = record {
    valid = m.valid;
    held = m.held;
    in_zone = m.in_zone;
    same =
        λ k. (λ x. (m.same k).0 ((joined_pages k).0 x), λ x. (joined_pages k).1 ((m.same k).1 x));
    pg_free = λ y. m.pg_free y ∙ ground arith;
    lock = λ y. m.lock y ∙ ground arith;
  }

pub merge_loop-Merged :
    (n : ℕ) (s : Buddy) (z page o : ℕ)
    → o + n ≡ max_order
    → IsBuddy s
    → Held s page o
    → (s.pages page).zone_type ≡ z
    → Merged s page o z (merge_loop n z o page s)
unfolding merge_loop
merge_loop-Merged zero s z page o e ok held zone = stopped s page o z ok held zone
merge_loop-Merged (suc n) s z page o e ok held zone =
    elim (Option-cases (buddy_page_to_buddy s page o)) [
      | inl alone ↦ rw (merge_loop, alone) (stopped s page o z ok held zone)
      | inr (b, found) ↦ elim (Bool-cases (not (s.pages b).buddy || not ((s.pages b).order == o))) [
        | inl busy ↦ rw (merge_loop, found, busy) (stopped s page o z ok held zone)
        | inr open_block ↦
            rw (merge_loop, found, open_block)
              (let low = buddy_page_ascend page o in
                let below : o < max_order = omega (arith, e) in
                let near : Neighbour page o b low =
                  buddy-Neighbour s page o b ok.small held.is_block below found in
                let free : (s.pages b).buddy ≡ true = ground (arith, open_block) in
                let order : (s.pages b).order ≡ o = ground (arith, open_block) in
                let next : suc o ≡ o + 1 = omega arith in
                let t = area_remove_page z o b s in
                joined_Merged s page o z b low ok held zone below near free order _ (
                  subst (λ r. Merged t low r z (merge_loop n z (o + 1) low t)) (sym next)
                    (merge_loop-Merged n t z low (o + 1) (omega (arith, e))
                      (joined_valid s page o z b low ok held zone below near free order)
                      (subst (Held t low) next
                        (joined-Held s page o z b low ok held zone below near free order))
                      (joined_zone s page o z b low ok held zone below near free order))))
      ]
    ]
