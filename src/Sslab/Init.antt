-- ===== src/Sslab/Init.antt =====
-- `init_sslab`: the table that the kernel starts with.
use ord_os.Base.{
  ℕ, zero, suc, ◌+◌, ◌≤◌, ◌<◌, ◌≡◌, refl, Bool, true, false, ◌&&◌, not, some, [], arith,
  if◌then◌else◌, ltb, leb, ◌∙◌, among, full_table, table_entry, range_step, subst, sym,
}
use ord_os.Buddy.Address.{zone_normal}
use ord_os.Buddy.Blocks.{IsBuddy}
use ord_os.Slab.{max_order, order_to_size}
use ord_os.Sslab.{Sslab, Sslabs, Kmem, set_sslab, sslab_init, init_loop, init_sslab}
use ord_os.Sslab.Objects.{IsSslab}
use ord_os.Sslab.Entries.{IsKmalloc}

-- An allocator without a page.
abbrev empty : ℕ → Sslab
empty i = record { obj_size = order_to_size i; caches = []; lock = 0 }

abbrev allowed : ℕ → Bool
allowed i = not (ltb (order_to_size max_order) (order_to_size i))

all_allowed : full_table allowed (max_order + 1) ≡ true
unfolding full_table order_to_size
all_allowed = refl

sslab_init_lem : (i : ℕ) → i < max_order + 1 → sslab_init (order_to_size i) ≡ some (empty i)
unfolding sslab_init
sslab_init_lem i lt = ground (arith, table_entry allowed i (max_order + 1) lt all_allowed)

init_loop_lem :
    (n i : ℕ) (t : Sslabs)
    → i + n ≤ max_order + 1
    → (t' : Sslabs) × (init_loop n i t ≡ some t')
      × ((j : ℕ) → t' j ≡ (if leb i j && ltb j (i + n) then empty j else t j))
unfolding init_loop
init_loop_lem zero i t fits = (t, refl, λ j. ground arith)
init_loop_lem (suc n) i t fits =
    let (t', returned, entries) = init_loop_lem n (i + 1) (set_sslab i (empty i) t) (omega arith) in
    (
      t',
      rw (init_loop, sslab_init_lem i (omega arith)) returned,
      λ j. entries j ∙ range_step empty (t j) i n j,
    )

-- `init_sslab`, with pages and lists of the buddy allocator in agreement, sets up a table in order
-- without any page, so that no object is in use.
pub init_sslab-IsKmalloc :
    (t : Sslabs) (k : Kmem)
    → IsBuddy k.buddy
    → (k.buddy.zones zone_normal).lock ≡ 0
    → (t' : Sslabs) × (init_sslab t ≡ some t')
      × IsKmalloc t' k (λ a. []) (λ a. [])
      × ((i a : ℕ) → i ≤ max_order → among a (t' i).caches ≡ false)
unfolding init_sslab
init_sslab-IsKmalloc t k ok released =
    let (t', returned, entries) = init_loop_lem (max_order + 1) 0 t (omega arith) in
    let entry : (i : ℕ) → i ≤ max_order → t' i ≡ empty i = λ i le. entries i ∙ ground arith in
    let none_listed : (i a : ℕ) → i ≤ max_order → among a (t' i).caches ≡ false =
      λ i a le. rw (entry i le) refl in
    (
      t',
      returned,
      record {
        each = λ i lt.
            subst (λ s. IsSslab i s k (λ a. []) (λ a. [])) (sym (entry (i + 1) (omega arith)))
              (record {
                released = refl;
                below = lt;
                obj_size = refl;
                valid = ok;
                zone_released = released;
                distinct = tt;
                page = λ a h. absurd (ground arith);
                cache = λ a h. absurd (ground arith);
              });
        own = λ i j a hi hj li lj. absurd (ground (arith, none_listed (i + 1) a (omega arith), li));
      },
      none_listed,
    )
