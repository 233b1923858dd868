-- ===== src/Buddy/Free.antt =====
-- `buddy_free_page` gives a block back.
use ord_os.Base.{
  bit_and, ℕ, ◌+◌, ◌-◌, ◌*◌, ◌≤◌, ◌^◌, ◌≡◌, ◌⊎◌, ◌↔◌, refl, true, false, ◌||◌, arith, Option, some,
  ltb, ap, sym, subst, ◌∙◌, pow_pos, add32, bit_and-mask,
}
use ord_os.Spin.Laws.{spin_lock_released}
use ord_os.Buddy.{
  Buddy, max_order, set_lock, set_pg_free, set_order, area_add_page, free_block, buddy_free_page,
  buddy_page_is_aligned, buddy_order_to_page_cnt, buddy_alloc_page,
}
use ord_os.Buddy.Blocks.{IsBlock, IsBuddy, Held, Free, InBlock, Added}
use ord_os.Buddy.Step.{set_order-Added, Added-IsBuddy, Free-Added, Held-not_buddy}
use ord_os.Buddy.Same.{Held-same, set_lock-IsBuddy, set_pg_free-IsBuddy}
use ord_os.Buddy.Merge.{Merged, merge_loop-Merged}
use ord_os.Buddy.Alloc.{Taken, buddy_alloc_page-Allocated}

-- The pages of the block are free again, the lock is released.
pub record Freed (s : Buddy) (page order z : ℕ) (out : Option Buddy) : Type 0 where
  pub state : Buddy
  pub returned : out ≡ some state
  pub valid : IsBuddy state
  pub released : (state.zones z).lock ≡ 0
  pub freed : (k : ℕ) → Free state k ↔ (Free s k ⊎ InBlock page order k)
  pub pg_free : (state.zones z).pg_free ≡ add32 (s.zones z).pg_free (2 ^ order)

-- The aligned test passes for a block.
aligned_block : (s : Buddy) (p o : ℕ) → IsBlock s p o → buddy_page_is_aligned p o ≡ true
unfolding buddy_page_is_aligned
aligned_block s p o b = ground (
  arith,
  ap (λ x. bit_and x (2 ^ o - 1)) b.aligned,
  bit_and-mask o b.multiple 0 (pow_pos o),
  ap (λ x. bit_and x (2 ^ o - 1)) (as_sum (b.multiple * 2 ^ o)),
)
  where
    as_sum : (x : ℕ) → x ≡ x + 0
    as_sum x = omega arith

-- The state that `merge_loop` starts from, and what is put back at its end.
abbrev counted_state : Buddy → ℕ → ℕ → Buddy
counted_state s z order = set_pg_free z (add32 (s.zones z).pg_free (2 ^ order)) s

-- What a state is after the block has been put back.
abbrev GivenBack : Buddy → ℕ → ℕ → ℕ → Buddy → Type 0
GivenBack s page order z t =
    IsBuddy t
    × ((k : ℕ) → Free t k ↔ (Free s k ⊎ InBlock page order k))
    × ((t.zones z).pg_free ≡ add32 (s.zones z).pg_free (2 ^ order))
    × ((t.zones z).lock ≡ (s.zones z).lock)

add_zone :
    (s : Buddy) (z o page : ℕ)
    → (((area_add_page z o page (set_order page o s)).zones z).pg_free ≡ (s.zones z).pg_free)
      × (((area_add_page z o page (set_order page o s)).zones z).lock ≡ (s.zones z).lock)
unfolding area_add_page
add_zone s z o page = (ground arith, ground arith)

put_back :
    (s : Buddy) (page order z : ℕ) (out : ℕ × ℕ × Buddy)
    → Merged (counted_state s z order) page order z out
    → GivenBack s page order z (area_add_page z out.0 out.1 (set_order out.1 out.0 out.2))
put_back s page order z (o, p, u) m = (
  Added-IsBuddy u _ z o p a m.valid m.held m.in_zone,
  λ k. (λ x. (m.same k).1 ((added k).0 x), λ x. (added k).1 ((m.same k).0 x)),
  (add_zone u z o p).0 ∙ m.pg_free z ∙ ground arith,
  (add_zone u z o p).1 ∙ m.lock z ∙ ground arith,
)
  where
    a : Added u (area_add_page z o p (set_order p o u)) z o p
    a = set_order-Added u z o p

    added : (k : ℕ) → Free (area_add_page z o p (set_order p o u)) k ↔ (Free u k ⊎ InBlock p o k)
    added = Free-Added u _ z o p a m.valid m.held m.in_zone

free_block-GivenBack :
    (s : Buddy) (page order z : ℕ)
    → IsBuddy s
    → Held s page order
    → (s.pages page).zone_type ≡ z
    → GivenBack s page order z (free_block z page order s)
unfolding free_block buddy_order_to_page_cnt
free_block-GivenBack s page order z ok held zone = put_back s page order z _ (
    merge_loop-Merged (max_order - order) (counted_state s z order) z page order
      (omega (arith, held.is_block.order_small)) (set_pg_free-IsBuddy s z _ ok)
      (Held-same s (counted_state s z order) refl (λ q. refl) page order held) zone)

-- `buddy_free_page` of a block in use, in a zone whose lock is released, returns with the lock released
-- and pages and lists in agreement; exactly the pages of the block have become free, and `pg_free` has
-- grown by their number.
pub buddy_free_page-Freed :
    (s : Buddy) (page order : ℕ)
    → IsBuddy s
    → Held s page order
    → (s.zones (s.pages page).zone_type).lock ≡ 0
    → Freed s page order (s.pages page).zone_type (buddy_free_page s page order)
unfolding buddy_free_page
buddy_free_page-Freed s page order ok held released = record {
  state = set_lock z 0 (free_block z page order locked);
  returned =
      rw
        (
          buddy_free_page,
          allowed,
          aligned_block s page order held.is_block,
          spin_lock_released (s.zones z).lock released,
        )
        refl;
  valid = set_lock-IsBuddy _ z 0 back.0;
  released = ground arith;
  freed = back.1;
  pg_free = ground (arith, back.2);
}
  where
    z : ℕ
    z = (s.pages page).zone_type

    locked : Buddy
    locked = set_lock z 1 s

    allowed : (ltb max_order order || (s.pages page).reserved || (s.pages page).buddy) ≡ false
    allowed = ground (
      arith,
      held.is_block.order_small,
      held.is_block.usable page (omega arith) (omega (arith, pow_pos order)),
      Held-not_buddy held,
    )

    back : GivenBack locked page order z (free_block z page order locked)
    back =
        free_block-GivenBack locked page order z (set_lock-IsBuddy s z 1 ok)
          (Held-same s locked refl (λ q. refl) page order held) refl

-- What is known of an allocation whose result is given.
alloc_result :
    (s : Buddy) (z order page : ℕ) (t : Buddy) (o : Option ℕ) (u : Buddy)
    → o ≡ some page
    → u ≡ t
    → IsBuddy u × ((u.zones z).lock ≡ 0) × Taken s z order o u
    → IsBuddy t × ((t.zones z).lock ≡ 0) × Taken s z order (some page) t
alloc_result s z order page t o u e e' h =
    subst (λ v. IsBuddy v × ((v.zones z).lock ≡ 0) × Taken s z order (some page) v) e'
      (subst (λ x. IsBuddy u × ((u.zones z).lock ≡ 0) × Taken s z order x u) e h)

-- A block that `buddy_alloc_page` gave can be freed, and then the same pages are free as before.
pub alloc-Free :
    (s : Buddy) (z order page : ℕ) (t : Buddy)
    → IsBuddy s
    → order ≤ max_order
    → (s.zones z).lock ≡ 0
    → buddy_alloc_page s z order ≡ some (some page, t)
    → (u : Buddy) × (buddy_free_page t page order ≡ some u)
      × IsBuddy u
      × ((k : ℕ) → Free u k ↔ Free s k)
alloc-Free s z order page t ok small released e =
    let a = buddy_alloc_page-Allocated s z order ok small released in
    let same : some (a.page, a.state) ≡ some (some page, t) = sym a.returned ∙ e in
    let (valid, free_lock, (held, zone, pages, count)) =
      alloc_result s z order page t a.page a.state (cc same) (cc same)
        (a.valid, a.released, a.taken) in
    let back =
      buddy_free_page-Freed t page order valid held (ap (λ y. (t.zones y).lock) zone ∙ free_lock) in
    (
      back.state,
      back.returned,
      back.valid,
      λ k. (λ x. (pages k).1 ((back.freed k).0 x), λ x. (back.freed k).1 ((pages k).0 x)),
    )
