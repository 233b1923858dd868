-- ===== src/Buddy/Alloc.antt =====
-- `buddy_alloc_page` takes a smallest block that is large enough and splits it.
use ord_os.Base.{
  ℕ, zero, suc, ◌+◌, ◌-◌, ◌≤◌, ◌<◌, ◌^◌, ◌≡◌, ◌⊎◌, inl, inr, ◌↔◌, refl, true, false, List, [], ◌∷◌,
  arith, Option, none, some, ltb, sym, subst, ◌∙◌, Bool-cases, dec_lt, ℕ_discrete, among, length,
  sub32,
}
use ord_os.Spin.Laws.{spin_lock_released}
use ord_os.Buddy.{
  Buddy, area_of, max_order, set_lock, set_pg_free, area_remove_page, split_loop, take_block,
  find_area, buddy_alloc_page, buddy_order_to_page_cnt,
}
use ord_os.Buddy.Blocks.{free_in, IsBuddy, Held, Free, InBlock, Removed}
use ord_os.Buddy.Step.{area_remove_page-Removed, Held-not_buddy}
use ord_os.Buddy.Taken.{Removed-IsBuddy, Removed-Held, Free-Removed}
use ord_os.Buddy.Same.{Held-same, set_lock-IsBuddy, set_pg_free-IsBuddy}
use ord_os.Buddy.Split.{Split, split_loop-Split}

-- Which area the first loop chooses: the first with a free block, if there is one.
abbrev Chosen : Buddy → ℕ → ℕ → ℕ → Option ℕ → Type 0
Chosen s z o n none = (r : ℕ) → o ≤ r → r < o + n → (area_of s z r).blocks_free ≡ 0
Chosen s z o n (some r) =
    (o ≤ r)
    × (r < o + n)
    × (0 < (area_of s z r).blocks_free)
    × ((m : ℕ) → o ≤ m → m < r → (area_of s z m).blocks_free ≡ 0)

find_area-Chosen : (n : ℕ) (s : Buddy) (z o : ℕ) → Chosen s z o n (find_area n s z o)
unfolding find_area
find_area-Chosen zero s z o = λ r lo hi. absurd (omega arith)
find_area-Chosen (suc n) s z o = elim (Bool-cases (ltb 0 (area_of s z o).blocks_free)) [
  | inl here ↦
      rw here (omega arith, omega arith, ground (arith, here), λ m lo hi. absurd (omega arith))
  | inr empty ↦ rw empty (
      later s z o n (find_area n s z (o + 1)) (ground (arith, empty))
        (find_area-Chosen n s z (o + 1)))
]
  where
    first :
        (s : Buddy) (z o m : ℕ)
        → m ≡ o
        → (area_of s z o).blocks_free ≡ 0
        → (area_of s z m).blocks_free ≡ 0
    first s z o m e empty = rw e empty

    later :
        (s : Buddy) (z o n : ℕ) (out : Option ℕ)
        → (area_of s z o).blocks_free ≡ 0
        → Chosen s z (o + 1) n out
        → Chosen s z o (suc n) out
    later s z o n none empty h = λ r lo hi. elim (ℕ_discrete r o) [
      | yes e ↦ first s z o r e empty
      | no ne ↦ h r (omega arith) (omega arith)
    ]
    later s z o n (some r) empty h = (
      omega (arith, h.0),
      omega (arith, h.1),
      h.2,
      λ m lo hi. elim (ℕ_discrete m o) [
        | yes e ↦ first s z o m e empty
        | no ne ↦ h.3 m (omega arith) hi
      ],
    )

-- What `buddy_alloc_page` returns: null, if no free block of the zone is large enough, and nothing
-- changes; or a block that is aligned, usable, of the zone, and was free, and exactly its pages are
-- no longer free.
abbrev pub Taken : Buddy → ℕ → ℕ → Option ℕ → Buddy → Type 0
Taken s z order none t =
    ((p : ℕ) → (s.pages p).buddy ≡ true → (s.pages p).zone_type ≡ z → (s.pages p).order < order)
    × ((k : ℕ) → Free s k ↔ Free t k)
    × ((t.zones z).pg_free ≡ (s.zones z).pg_free)
Taken s z order (some page) t =
    Held t page order
    × ((t.pages page).zone_type ≡ z)
    × ((k : ℕ) → Free s k ↔ (Free t k ⊎ InBlock page order k))
    × ((t.zones z).pg_free ≡ sub32 (s.zones z).pg_free (2 ^ order))

-- The same for `take_block`.
pub record Cut (s : Buddy) (z order : ℕ) (out : Option (ℕ × Buddy)) : Type 0 where
  pub page : ℕ
  pub state : Buddy
  pub returned : out ≡ some (page, state)
  pub valid : IsBuddy state
  pub taken : Taken s z order (some page) state

remove_zone :
    (s : Buddy) (z r page y : ℕ)
    → ((area_remove_page z r page s).zones y).pg_free ≡ (s.zones y).pg_free
unfolding area_remove_page
remove_zone s z r page y = ground arith

Free-iff : (s : Buddy) (k : ℕ) (P Q R : Type 0) → P ↔ Q → Q ↔ R → P ↔ R
Free-iff s k P Q R f g = (λ x. g.0 (f.0 x), λ x. f.1 (g.1 x))

take_block-some :
    (s : Buddy) (z order r page : ℕ) (rest : List ℕ) (half : ℕ) (u : Buddy)
    → (s.pages page).buddy ≡ true
    → split_loop (r - order) z order page (area_remove_page z r page s) ≡ some (half, u)
    → (u.pages half).buddy ≡ false
    → take_block z order r (page ∷ rest) s
      ≡ some (half, set_pg_free z (sub32 (u.zones z).pg_free (2 ^ order)) u)
unfolding take_block buddy_order_to_page_cnt
take_block-some s z order r page rest half u free e used = rw (take_block, free, e, used) refl

take_block-cons :
    (s : Buddy) (z order r page : ℕ) (rest : List ℕ)
    → IsBuddy s
    → order ≤ r
    → free_in s z r page ≡ true
    → Cut s z order (take_block z order r (page ∷ rest) s)
take_block-cons s z order r page rest ok le found = record {
  page = split.half;
  state = t;
  returned =
      take_block-some s z order r page rest split.half split.state (ground (arith, found))
        split.returned (Held-not_buddy split.held);
  valid = set_pg_free-IsBuddy split.state z _ split.valid;
  taken = (
    Held-same split.state t refl (λ q. refl) split.half order split.held,
    split.in_zone,
    λ k. Free-iff s k _ _ _ (Free-Removed s u z r page a ok found k) (split.same k),
    ground (arith, split.pg_free z, remove_zone s z r page z),
  );
}
  where
    u : Buddy
    u = area_remove_page z r page s

    a : Removed s (area_remove_page z r page s) z r page
    a = area_remove_page-Removed s z r page

    split : Split u page r z order (split_loop (r - order) z order page u)
    split =
        split_loop-Split (r - order) u z order page r (omega (arith, le))
          (Removed-IsBuddy s u z r page a ok found) (Removed-Held s u z r page a ok found)
          (a.same_zone page ∙ ground (arith, found))

    t : Buddy
    t = set_pg_free z (sub32 (split.state.zones z).pg_free (2 ^ order)) split.state

-- The chosen area has a block, so the first entry of its list is a free block of that order.
take_block-Cut :
    (s : Buddy) (z order r : ℕ) (blocks : List ℕ)
    → IsBuddy s
    → order ≤ r
    → 0 < length blocks
    → ((p : ℕ) → among p blocks ≡ free_in s z r p)
    → Cut s z order (take_block z order r blocks s)
take_block-Cut s z order r [] ok le full listed = absurd (omega arith)
take_block-Cut s z order r (page ∷ rest) ok le full listed =
    take_block-cons s z order r page rest ok le (ground (arith, listed page))

-- The result of `buddy_alloc_page`, with the lock released.
pub record Allocated (s : Buddy) (z order : ℕ) (out : Option (Option ℕ × Buddy)) : Type 0 where
  pub page : Option ℕ
  pub state : Buddy
  pub returned : out ≡ some (page, state)
  pub valid : IsBuddy state
  pub released : (state.zones z).lock ≡ 0
  pub taken : Taken s z order page state

-- No area from `order` on has a block, so no free block is large enough.
none_large :
    (s : Buddy) (z order : ℕ)
    → IsBuddy s
    → Chosen s z order (suc max_order - order) none
    → (p : ℕ) → (s.pages p).buddy ≡ true
    → (s.pages p).zone_type ≡ z
    → (s.pages p).order < order
none_large s z order ok chosen p free zone = elim (dec_lt (s.pages p).order order) [
  | yes lt ↦ lt
  | no ge ↦ absurd (
      no_entry p (area_of s z (s.pages p).order).mem_blocks
        (ground (arith, ok.listed z (s.pages p).order p, free, zone))
        (sym (ok.counted z (s.pages p).order)
          ∙ chosen (s.pages p).order (omega arith) (omega (arith, (ok.block p free).order_small))))
]
  where
    no_entry : (p : ℕ) (xs : List ℕ) → among p xs ≡ true → length xs ≡ 0 → ⊥
    no_entry p [] i e = cc
    no_entry p (x ∷ xs) i e = absurd (omega arith)

alloc_none :
    (s : Buddy) (z order : ℕ)
    → order ≤ max_order
    → (s.zones z).lock ≡ 0
    → find_area (suc max_order - order) (set_lock z 1 s) z order ≡ none
    → buddy_alloc_page s z order ≡ some (none, set_lock z 0 (set_lock z 1 s))
unfolding buddy_alloc_page
alloc_none s z order small released e =
    rw (buddy_alloc_page, small_order, spin_lock_released (s.zones z).lock released, e) refl
  where
    small_order : ltb max_order order ≡ false
    small_order = ground arith

alloc_some :
    (s : Buddy) (z order r page : ℕ) (t : Buddy)
    → order ≤ max_order
    → (s.zones z).lock ≡ 0
    → find_area (suc max_order - order) (set_lock z 1 s) z order ≡ some r
    → take_block z order r (area_of (set_lock z 1 s) z r).mem_blocks (set_lock z 1 s)
      ≡ some (page, t)
    → buddy_alloc_page s z order ≡ some (some page, set_lock z 0 t)
unfolding buddy_alloc_page
alloc_some s z order r page t small released e e' =
    rw (buddy_alloc_page, small_order, spin_lock_released (s.zones z).lock released, e, e') refl
  where
    small_order : ltb max_order order ≡ false
    small_order = ground arith

alloc-Chosen :
    (s : Buddy) (z order : ℕ) (out : Option ℕ)
    → IsBuddy s
    → order ≤ max_order
    → (s.zones z).lock ≡ 0
    → find_area (suc max_order - order) (set_lock z 1 s) z order ≡ out
    → Chosen (set_lock z 1 s) z order (suc max_order - order) out
    → Allocated s z order (buddy_alloc_page s z order)
alloc-Chosen s z order none ok small released e chosen = record {
  page = none;
  state = set_lock z 0 (set_lock z 1 s);
  returned = alloc_none s z order small released e;
  valid = set_lock-IsBuddy (set_lock z 1 s) z 0 (set_lock-IsBuddy s z 1 ok);
  released = ground arith;
  taken = (
    none_large (set_lock z 1 s) z order (set_lock-IsBuddy s z 1 ok) chosen,
    λ k. (λ x. x, λ x. x),
    ground arith,
  );
}
alloc-Chosen s z order (some r) ok small released e chosen = record {
  page = some cut.page;
  state = set_lock z 0 cut.state;
  returned = alloc_some s z order r cut.page cut.state small released e cut.returned;
  valid = set_lock-IsBuddy cut.state z 0 cut.valid;
  released = ground arith;
  taken = (
    Held-same cut.state (set_lock z 0 cut.state) refl (λ q. refl) cut.page order cut.taken.0,
    cut.taken.1,
    cut.taken.2,
    ground (arith, cut.taken.3),
  );
}
  where
    locked : Buddy
    locked = set_lock z 1 s

    valid : IsBuddy locked
    valid = set_lock-IsBuddy s z 1 ok

    cut : Cut locked z order (take_block z order r (area_of locked z r).mem_blocks locked)
    cut =
        take_block-Cut locked z order r (area_of locked z r).mem_blocks valid chosen.0
          (subst (λ n. 0 < n) (valid.counted z r) chosen.2) (valid.listed z r)

-- `buddy_alloc_page`, in a zone whose lock is released, returns with the lock released again and pages
-- and lists in agreement: either null, and then the zone has no free block of the order or larger and
-- the same pages are free as before; or a block of the order in the zone, aligned, inside the memory
-- and with no reserved page, whose pages all were free and are the only ones that no longer are, with
-- `pg_free` less by their number.
pub buddy_alloc_page-Allocated :
    (s : Buddy) (z order : ℕ)
    → IsBuddy s
    → order ≤ max_order
    → (s.zones z).lock ≡ 0
    → Allocated s z order (buddy_alloc_page s z order)
buddy_alloc_page-Allocated s z order ok small released =
    alloc-Chosen s z order _ ok small released refl
      (find_area-Chosen (suc max_order - order) (set_lock z 1 s) z order)
