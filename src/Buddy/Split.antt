-- ===== src/Buddy/Split.antt =====
-- The loop of `buddy_alloc_page` that splits a block.
use ord_os.Base.{
  ℕ, zero, suc, ◌+◌, ◌^◌, ◌≡◌, ◌⊎◌, inl, inr, ◌↔◌, refl, arith, Option, some, ap, sym, subst, ◌∙◌,
  dec_lt, ℕ_discrete, pow_pos, pow_suc,
}
use ord_os.Buddy.{Buddy, set_order, area_add_page, split_loop}
use ord_os.Buddy.Blocks.{zone_of, IsBlock, IsBuddy, Held, Free, InBlock, Added}
use ord_os.Buddy.Step.{area_add_page-Added, IsBlock-same, Added-IsBuddy, Free-Added, page-lt-cnt}
use ord_os.Buddy.Halves.{lower-IsBlock, upper-IsBlock, buddy-upper, zone_of-block}

-- The free pages of `s` and the block `page` are those of `t` and the block `half`.
abbrev pub SamePages : Buddy → ℕ → ℕ → Buddy → ℕ → ℕ → Type 0
SamePages s page o t half r =
    (k : ℕ) → (Free s k ⊎ InBlock page o k) ↔ (Free t k ⊎ InBlock half r k)

-- A block of order `order` is held, in zone `z`.
pub record Split (s : Buddy) (page o : ℕ) (z order : ℕ) (out : Option (ℕ × Buddy)) : Type 0 where
  pub half : ℕ
  pub state : Buddy
  pub returned : out ≡ some (half, state)
  pub valid : IsBuddy state
  pub held : Held state half order
  pub in_zone : (state.pages half).zone_type ≡ z
  pub same : SamePages s page o state half order
  pub pg_free : (y : ℕ) → (state.zones y).pg_free ≡ (s.zones y).pg_free
  pub lock : (y : ℕ) → (state.zones y).lock ≡ (s.zones y).lock

lower-Held : (s : Buddy) (p o : ℕ) → Held s p (suc o) → Held s p o
lower-Held s p o h = record {
  is_block = lower-IsBlock s p o h.is_block;
  clear = λ q free. ground (arith, h.clear q free, pow_suc o);
}

-- When the lower half goes to the free blocks the upper one is held.
upper-Held : (s t : Buddy) (z p o : ℕ) → Added s t z o p → Held s p (suc o) → Held t (p + 2 ^ o) o
upper-Held s t z p o a h = record {
  is_block = IsBlock-same s t _ o a.same_cnt a.same_reserved (upper-IsBlock s p o h.is_block);
  clear = λ q free. elim (ℕ_discrete q p) [
    | yes e ↦ inr (
        let order : (t.pages q).order ≡ o = ground (arith, a.orders q) in
        rw (order, e) (omega arith))
    | no ne ↦
        let order : (t.pages q).order ≡ (s.pages q).order = ground (arith, a.orders q) in
        rw order (ground (arith, h.clear q (ground (arith, a.buddies q)), pow_suc o))
  ];
}

split_zone :
    (s : Buddy) (p o : ℕ)
    → IsBuddy s
    → IsBlock s p (suc o)
    → (s.pages (p + 2 ^ o)).zone_type ≡ (s.pages p).zone_type
split_zone s p o ok b =
    ok.zone (p + 2 ^ o) (omega (arith, b.fits, pow_suc o, pow_pos o))
    ∙ ap (λ x. zone_of (x + 2 ^ o)) b.aligned
    ∙ zone_of-block b.multiple (suc o) (2 ^ o) b.order_small (omega (arith, pow_suc o, pow_pos o))
    ∙ ap zone_of (sym b.aligned)
    ∙ sym (ok.zone p (page-lt-cnt b))

-- Which pages are free or in the block: unchanged when the lower half is put back.
split_pages :
    (s t : Buddy) (p o : ℕ)
    → ((k : ℕ) → Free t k ↔ (Free s k ⊎ InBlock p o k))
    → SamePages s p (suc o) t (p + 2 ^ o) o
split_pages s t p o added k = (to, from)
  where
    to : Free s k ⊎ InBlock p (suc o) k → Free t k ⊎ InBlock (p + 2 ^ o) o k
    to (inl f) = inl ((added k).1 (inl f))
    to (inr (lo, hi)) = elim (dec_lt k (p + 2 ^ o)) [
      | yes lower ↦ inl ((added k).1 (inr (lo, lower)))
      | no upper ↦ inr (omega arith, omega (arith, pow_suc o))
    ]

    from : Free t k ⊎ InBlock (p + 2 ^ o) o k → Free s k ⊎ InBlock p (suc o) k
    from (inl f) = elim ((added k).0 f) [
      | inl old ↦ inl old
      | inr (lo, hi) ↦ inr (lo, omega (arith, pow_suc o))
    ]
    from (inr (lo, hi)) = inr (omega arith, omega (arith, pow_suc o))

-- One round of the loop, then the rest of it.
Split-more :
    (s t : Buddy) (page o z order : ℕ) (out : Option (ℕ × Buddy))
    → SamePages s page (suc o) t (page + 2 ^ o) o
    → ((y : ℕ) → (t.zones y).pg_free ≡ (s.zones y).pg_free)
    → ((y : ℕ) → (t.zones y).lock ≡ (s.zones y).lock)
    → Split t (page + 2 ^ o) o z order out
    → Split s page (suc o) z order out
Split-more s t page o z order out same free lock rest = record {
  half = rest.half;
  state = rest.state;
  returned = rest.returned;
  valid = rest.valid;
  held = rest.held;
  in_zone = rest.in_zone;
  same = λ k. (λ x. (rest.same k).0 ((same k).0 x), λ x. (same k).1 ((rest.same k).1 x));
  pg_free = λ y. rest.pg_free y ∙ free y;
  lock = λ y. rest.lock y ∙ lock y;
}

abbrev put_lower : Buddy → ℕ → ℕ → ℕ → Buddy
put_lower s z o page = set_order page o (area_add_page z o page s)

put_lower-zones :
    (s : Buddy) (z o page y : ℕ)
    → (((put_lower s z o page).zones y).pg_free ≡ (s.zones y).pg_free)
      × (((put_lower s z o page).zones y).lock ≡ (s.zones y).lock)
unfolding area_add_page
put_lower-zones s z o page y = (ground arith, ground arith)

split_loop-suc :
    (n : ℕ) (s : Buddy) (z order page : ℕ)
    → IsBlock s page (suc (order + n))
    → split_loop (suc n) z order page s
      ≡ split_loop n z order (page + 2 ^ (order + n)) (put_lower s z (order + n) page)
unfolding split_loop
split_loop-suc n s z order page b =
    rw
      (
        split_loop,
        buddy-upper (put_lower s z (order + n) page) page (order + n)
            (IsBlock-same s _ page _ a.same_cnt a.same_reserved b),
      )
      refl
  where
    a : Added s (put_lower s z (order + n) page) z (order + n) page
    a = area_add_page-Added s z (order + n) page

pub split_loop-Split :
    (n : ℕ) (s : Buddy) (z order page o : ℕ)
    → o ≡ order + n
    → IsBuddy s
    → Held s page o
    → (s.pages page).zone_type ≡ z
    → Split s page o z order (split_loop n z order page s)
unfolding split_loop
split_loop-Split zero s z order page o e ok held zone = record {
  half = page;
  state = s;
  returned = refl;
  valid = ok;
  held = subst (Held s page) (omega (arith, e)) held;
  in_zone = zone;
  same = subst (λ r. SamePages s page o s page r) (omega (arith, e)) (λ k. (λ x. x, λ x. x));
  pg_free = λ y. refl;
  lock = λ y. refl;
}
split_loop-Split (suc n) s z order page o e ok held zone = rw e' (
    rw (split_loop-suc n s z order page b) (
      Split-more s t page r z order _
        (split_pages s t page r (Free-Added s t z r page a ok (lower-Held s page r held') zone))
        (λ y. (put_lower-zones s z r page y).0) (λ y. (put_lower-zones s z r page y).1)
        (split_loop-Split n t z order (page + 2 ^ r) r refl
          (Added-IsBuddy s t z r page a ok (lower-Held s page r held') zone)
          (upper-Held s t z page r a held') (a.same_zone _ ∙ split_zone s page r ok b ∙ zone))))
  where
    r : ℕ
    r = order + n

    t : Buddy
    t = put_lower s z (order + n) page

    e' : o ≡ suc (order + n)
    e' = omega (arith, e)

    held' : Held s page (suc (order + n))
    held' = subst (Held s page) e' held

    b : IsBlock s page (suc (order + n))
    b = held'.is_block

    a : Added s (put_lower s z (order + n) page) z (order + n) page
    a = area_add_page-Added s z (order + n) page
