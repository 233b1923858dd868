-- ===== src/Buddy/Shape.antt =====
-- What no operation of the buddy allocator changes: the number of the pages, which of them are
-- reserved, and their zones. So a block in use stays one when other blocks are taken or given back.
use ord_os.Base.{
  ℕ, zero, suc, ◌+◌, ◌-◌, ◌≤◌, ◌<◌, ◌^◌, ◌≡◌, inl, inr, refl, Bool, true, false, not, ◌||◌, ◌==◌,
  arith, Option, none, some, List, [], ◌∷◌, subst, ◌∙◌, if◌then◌else◌, ltb, add32, sub32, dec_lt,
}
use ord_os.Spin.{spin_lock, spin_unlock}
use ord_os.Buddy.{
  Buddy, area_of, max_order, set_lock, set_pg_free, set_order, area_add_page, area_remove_page,
  split_loop, take_block, find_area, buddy_alloc_page, merge_loop, free_block, buddy_free_page,
  buddy_page_to_buddy, buddy_page_ascend, buddy_order_to_page_cnt, buddy_page_is_aligned,
}
use ord_os.Buddy.Blocks.{IsBuddy, Held, Free, Added, Removed}
use ord_os.Buddy.Step.{area_add_page-Added, set_order-Added, area_remove_page-Removed}

pub record SameShape (s t : Buddy) : Type 0 where
  pub cnt : t.pages_cnt ≡ s.pages_cnt
  pub reserved : (q : ℕ) → (t.pages q).reserved ≡ (s.pages q).reserved
  pub zone : (q : ℕ) → (t.pages q).zone_type ≡ (s.pages q).zone_type

SameShape-trans : (s t u : Buddy) → SameShape s t → SameShape t u → SameShape s u
SameShape-trans s t u a b = record {
  cnt = b.cnt ∙ a.cnt;
  reserved = λ q. b.reserved q ∙ a.reserved q;
  zone = λ q. b.zone q ∙ a.zone q;
}

Added-SameShape : (s t : Buddy) (z o page : ℕ) → Added s t z o page → SameShape s t
Added-SameShape s t z o page a = record {
  cnt = a.same_cnt;
  reserved = a.same_reserved;
  zone = a.same_zone;
}

Removed-SameShape : (s t : Buddy) (z o page : ℕ) → Removed s t z o page → SameShape s t
Removed-SameShape s t z o page a = record {
  cnt = a.same_cnt;
  reserved = a.same_reserved;
  zone = a.same_zone;
}

-- A result that may be a fault.
abbrev pub KeepsShape {ℓ} : {A : Type ℓ} → Buddy → Option (A × Buddy) → Type 0
KeepsShape s none = Unit
KeepsShape s (some (a, t)) = SameShape s t

KeepsShape-trans {ℓ} :
    {A : Type ℓ} (s t : Buddy) (o : Option (A × Buddy))
    → SameShape s t
    → KeepsShape t o
    → KeepsShape s o
KeepsShape-trans s t none a k = tt
KeepsShape-trans s t (some (x, u)) a k = SameShape-trans s t u a k

split_loop-KeepsShape :
    (n z order page : ℕ) (s : Buddy) → KeepsShape s (split_loop n z order page s)
unfolding split_loop
split_loop-KeepsShape zero z order page s = record {
  cnt = refl;
  reserved = λ q. refl;
  zone = λ q. refl;
}
split_loop-KeepsShape (suc n) z order page s =
    KeepsShape-trans s next _
      (Added-SameShape s next z (order + n) page (area_add_page-Added s z (order + n) page))
      (by_half (buddy_page_to_buddy next page (order + n))
        (λ half. split_loop-KeepsShape n z order half next))
  where
    next : Buddy
    next = set_order page (order + n) (area_add_page z (order + n) page s)

    by_half :
        (o : Option ℕ)
        → ((half : ℕ) → KeepsShape next (split_loop n z order half next))
        → KeepsShape next (elim o [ none ↦ none | some half ↦ split_loop n z order half next ])
    by_half none ih = tt
    by_half (some half) ih = ih half

take_block-KeepsShape :
    (z order r : ℕ) (blocks : List ℕ) (s : Buddy) → KeepsShape s (take_block z order r blocks s)
unfolding take_block
take_block-KeepsShape z order r [] s = tt
take_block-KeepsShape z order r (page ∷ rest) s = checked (not (s.pages page).buddy)
  where
    removed : Buddy
    removed = area_remove_page z r page s

    counted : Option (ℕ × Buddy) → Option (ℕ × Buddy)
    counted none = none
    counted (some (half, t)) =
        if (t.pages half).buddy
        then none
        else some
            (half, set_pg_free z (sub32 (t.zones z).pg_free (buddy_order_to_page_cnt order)) t)

    by_test :
        (b : Bool) (half : ℕ) (t : Buddy) (n : ℕ)
        → SameShape removed t
        → KeepsShape {A = ℕ} removed (if b then none else some (half, set_pg_free z n t))
    by_test true half t n k = tt
    by_test false half t n k = record { cnt = k.cnt; reserved = k.reserved; zone = k.zone }

    by_split : (o : Option (ℕ × Buddy)) → KeepsShape removed o → KeepsShape removed (counted o)
    by_split none k = tt
    by_split (some (half, t)) k = by_test (t.pages half).buddy half t _ k

    checked :
        (b : Bool)
        → KeepsShape {A = ℕ} s
            (if b then none else counted (split_loop (r - order) z order page removed))
    checked true = tt
    checked false =
        KeepsShape-trans s removed _
          (Removed-SameShape s removed z r page (area_remove_page-Removed s z r page))
          (by_split _ (split_loop-KeepsShape (r - order) z order page removed))

set_lock-SameShape : (s : Buddy) (z lock : ℕ) → SameShape s (set_lock z lock s)
set_lock-SameShape s z lock = record { cnt = refl; reserved = λ q. refl; zone = λ q. refl }

pub buddy_alloc_page-KeepsShape :
    (s : Buddy) (z order : ℕ) → KeepsShape s (buddy_alloc_page s z order)
unfolding buddy_alloc_page
buddy_alloc_page-KeepsShape s z order = checked (ltb max_order order)
  where
    by_block :
        (held : ℕ) (o : Option (ℕ × Buddy))
        → KeepsShape (set_lock z held s) o
        → KeepsShape {A = Option ℕ} s (elim o [
          | none ↦ none
          | some (page, s2) ↦ some (some page, set_lock z (spin_unlock held) s2)
        ])
    by_block held none k = tt
    by_block held (some (page, t)) k = record { cnt = k.cnt; reserved = k.reserved; zone = k.zone }

    by_area :
        (held : ℕ) (o : Option ℕ)
        → KeepsShape {A = Option ℕ} s (elim o [
          | none ↦ some (none, set_lock z (spin_unlock held) (set_lock z held s))
          | some r ↦
              elim (take_block z order r
                (area_of (set_lock z held s) z r).mem_blocks
                (set_lock z held s)) [
                  | none ↦ none
                  | some (page, s2) ↦ some (some page, set_lock z (spin_unlock held) s2)
                ]
        ])
    by_area held none = record { cnt = refl; reserved = λ q. refl; zone = λ q. refl }
    by_area held (some r) = by_block held _ (
        take_block-KeepsShape z order r (area_of (set_lock z held s) z r).mem_blocks
          (set_lock z held s))

    by_lock :
        (o : Option ℕ)
        → KeepsShape {A = Option ℕ} s (elim o [
          | none ↦ none
          | some held ↦ elim (find_area (suc max_order - order) (set_lock z held s) z order) [
            | none ↦ some (none, set_lock z (spin_unlock held) (set_lock z held s))
            | some r ↦
                elim (take_block z order r
                  (area_of (set_lock z held s) z r).mem_blocks
                  (set_lock z held s)) [
                    | none ↦ none
                    | some (page, s2) ↦ some (some page, set_lock z (spin_unlock held) s2)
                  ]
          ]
        ])
    by_lock none = tt
    by_lock (some held) =
        by_area held (find_area (suc max_order - order) (set_lock z held s) z order)

    checked :
        (b : Bool)
        → KeepsShape {A = Option ℕ} s (
            if b then none else elim (spin_lock (s.zones z).lock) [
              | none ↦ none
              | some held ↦ elim (find_area (suc max_order - order) (set_lock z held s) z order) [
                | none ↦ some (none, set_lock z (spin_unlock held) (set_lock z held s))
                | some r ↦
                    elim (take_block z order r
                      (area_of (set_lock z held s) z r).mem_blocks
                      (set_lock z held s)) [
                        | none ↦ none
                        | some (page, s2) ↦ some (some page, set_lock z (spin_unlock held) s2)
                      ]
              ]
            ])
    checked true = tt
    checked false = by_lock (spin_lock (s.zones z).lock)

merge_loop-SameShape :
    (n z order page : ℕ) (s : Buddy) → SameShape s (merge_loop n z order page s).2
unfolding merge_loop
merge_loop-SameShape zero z order page s = record {
  cnt = refl;
  reserved = λ q. refl;
  zone = λ q. refl;
}
merge_loop-SameShape (suc n) z order page s = by_buddy (buddy_page_to_buddy s page order) (λ b.
    SameShape-trans s (area_remove_page z order b s) _
      (Removed-SameShape s _ z order b (area_remove_page-Removed s z order b))
      (merge_loop-SameShape n z (order + 1) (buddy_page_ascend page order)
        (area_remove_page z order b s)))
  where
    merged : ℕ → ℕ × ℕ × Buddy
    merged b =
        merge_loop n z (order + 1) (buddy_page_ascend page order) (area_remove_page z order b s)

    by_test :
        (t : Bool) (b : ℕ)
        → SameShape s (merged b).2
        → SameShape s (if t then (order, page, s) else merged b).2
    by_test true b k = record { cnt = refl; reserved = λ q. refl; zone = λ q. refl }
    by_test false b k = k

    by_buddy :
        (o : Option ℕ)
        → ((b : ℕ) → SameShape s (merged b).2)
        → SameShape s
            (elim o as (λ x. ℕ × ℕ × Buddy) [
              | none ↦ (order, page, s)
              | some b ↦
                  if not (s.pages b).buddy || not ((s.pages b).order == order)
                  then (order, page, s)
                  else merged b
            ]).2
    by_buddy none ih = record { cnt = refl; reserved = λ q. refl; zone = λ q. refl }
    by_buddy (some b) ih =
        by_test (not (s.pages b).buddy || not ((s.pages b).order == order)) b (ih b)

free_block-SameShape : (z page order : ℕ) (s : Buddy) → SameShape s (free_block z page order s)
unfolding free_block
free_block-SameShape z page order s =
    let s1 = set_pg_free z (add32 (s.zones z).pg_free (buddy_order_to_page_cnt order)) s in
    let (o, p, u) = merge_loop (max_order - order) z order page s1 in
    let m = merge_loop-SameShape (max_order - order) z order page s1 in
    SameShape-trans s u _ (record { cnt = m.cnt; reserved = m.reserved; zone = m.zone })
      (Added-SameShape u _ z o p (set_order-Added u z o p))

abbrev pub KeepsShapeAlone : Buddy → Option Buddy → Type 0
KeepsShapeAlone s none = Unit
KeepsShapeAlone s (some t) = SameShape s t

pub buddy_free_page-KeepsShape :
    (s : Buddy) (page order : ℕ) → KeepsShapeAlone s (buddy_free_page s page order)
unfolding buddy_free_page
buddy_free_page-KeepsShape s page order =
    checked (ltb max_order order || (s.pages page).reserved || (s.pages page).buddy)
  where
    z : ℕ
    z = (s.pages page).zone_type

    locked : Option ℕ → Option Buddy
    locked none = none
    locked (some held) =
        some (set_lock z (spin_unlock held) (free_block z page order (set_lock z held s)))

    by_lock : (o : Option ℕ) → KeepsShapeAlone s (locked o)
    by_lock none = tt
    by_lock (some held) =
        let k = free_block-SameShape z page order (set_lock z held s) in
        record { cnt = k.cnt; reserved = k.reserved; zone = k.zone }

    aligned :
        (b : Bool) → KeepsShapeAlone s (if b then some s else locked (spin_lock (s.zones z).lock))
    aligned true = record { cnt = refl; reserved = λ q. refl; zone = λ q. refl }
    aligned false = by_lock (spin_lock (s.zones z).lock)

    checked :
        (b : Bool)
        → KeepsShapeAlone s (
            if b
            then none
            else if not (buddy_page_is_aligned page order)
            then some s
            else locked (spin_lock (s.zones z).lock))
    checked true = tt
    checked false = aligned (not (buddy_page_is_aligned page order))

-- A page that is used alone: it is neither reserved nor free.
pub IsUsed-Held :
    (s : Buddy) (p : ℕ)
    → IsBuddy s
    → p < s.pages_cnt
    → (s.pages p).reserved ≡ false
    → ¬ Free s p
    → Held s p 0
IsUsed-Held s p ok in_range usable used = record {
  is_block = record {
    order_small = omega arith;
    multiple = p;
    aligned = omega arith;
    fits = omega (arith, in_range);
    usable = λ k lo hi. subst (λ x. (s.pages x).reserved ≡ false) (same k lo hi) usable;
  };
  clear = λ q free. elim (dec_lt p q) [
    | yes before ↦ inl (omega (arith, before))
    | no from ↦ elim (dec_lt p (q + 2 ^ (s.pages q).order)) [
      | yes inside ↦ absurd (used (q, free, omega (arith, from), inside))
      | no behind ↦ inr (omega (arith, behind))
    ]
  ];
}
  where
    same : (k : ℕ) → p ≤ k → k < p + 2 ^ 0 → p ≡ k
    same k lo hi = omega arith

pub Held-not_Free : (s : Buddy) (p : ℕ) → Held s p 0 → ¬ Free s p
Held-not_Free s p h (q, free, lo, hi) = ground (arith, h.clear q free)
