-- ===== src/Sslab/Kfree.antt =====
-- kernel/memory/memory.c: `kfree`, over the allocators of all sizes.
use ord_os.Base.{
  ℕ, ◌+◌, ◌-◌, ◌*◌, ◌<◌, ◌^◌, ◌≡◌, ◌≢◌, ◌⊎◌, inl, inr, refl, Bool, true, false, ◌&&◌, not, ◌==◌,
  Option, none, some, List, [], ◌∷◌, ◌++◌, arith, among, among-append, ◌∙◌, ap, sym, subst,
  ℕ_discrete, ltb, page_size, full_table, table_entry, bit_and, not32, bit_and-high, bit_and-mask,
}
use ord_os.Buddy.InUse.{IsPage, page_low}
use ord_os.Buddy.Address.{virt_of}
use ord_os.Buddy.Blocks.{Free}
use ord_os.Slab.{Cache, max_order, order_to_size, size_to_order, order_loop}
use ord_os.Sslab.{
  Sslab, Sslabs, Kmem, set_sslab, free_order, sslab_global_free, sslab_object_to_cache,
}
use ord_os.Sslab.Objects.{IsSslab, IsSslab-kept, in_use, offset, address, object_inside}
use ord_os.Sslab.Release.{Released}
use ord_os.Sslab.Free.{sslab_free-Released}
use ord_os.Sslab.Entries.{IsKmalloc, entry_at, by_entry}

-- Exactly one object is no longer in use, and the bytes of the objects in use have not changed.
pub record Kreleased (t : Sslabs) (k : Kmem) (live : ℕ → List ℕ) (class page index : ℕ)
    (out : Option (Sslabs × Kmem)) : Type 0 where
  pub sslabs : Sslabs
  pub state : Kmem
  pub free_now : ℕ → List ℕ
  pub live_now : ℕ → List ℕ
  pub returned : out ≡ some (sslabs, state)
  pub valid : IsKmalloc sslabs state free_now live_now
  pub now :
      (i b m : ℕ)
      → i < max_order
      → in_use (sslabs (i + 1)) live_now b m
        ≡ (in_use (t (i + 1)) live b m && not (b == page && m == index))
  pub kept :
      (i b m x : ℕ)
      → i < max_order
      → in_use (sslabs (i + 1)) live_now b m ≡ true
      → x < (t (i + 1)).obj_size
      → (state.caches b).memory (offset (t (i + 1)) m + x)
        ≡ (k.caches b).memory (offset (t (i + 1)) m + x)
  pub emptied :
      ((among page (sslabs (class + 1)).caches ≡ true) × (live_now page ≢ []))
      ⊎ ((among page (sslabs (class + 1)).caches ≡ false)
          × ((p : ℕ) → page ≡ virt_of p → Free state.buddy p))

-- The page of an object is found from its address.
pub sslab_object_to_cache_lem :
    (p off : ℕ)
    → p < 0x30000
    → off < page_size
    → sslab_object_to_cache (virt_of p + off) ≡ virt_of p
unfolding sslab_object_to_cache
sslab_object_to_cache_lem p off low inside =
    ap (λ x. bit_and x (not32 (page_size - 1))) split
    ∙ bit_and-high 12 (0xc0000 + p) off (2 ^ 20 - 1) inside
    ∙ ap (λ x. x * 2 ^ 12)
        (ap (λ x. bit_and x (2 ^ 20 - 1)) whole
          ∙ bit_and-mask 20 0 (0xc0000 + p) (omega (arith, low)))
    ∙ back
  where
    whole : 0xc0000 + p ≡ 0 * 2 ^ 20 + (0xc0000 + p)
    whole = omega arith

    back : (0xc0000 + p) * 2 ^ 12 ≡ virt_of p
    back = omega arith

    split : virt_of p + off ≡ (0xc0000 + p) * 2 ^ 12 + off
    split = omega arith

abbrev same_order : ℕ → Bool
same_order i = elim (size_to_order (order_to_size (i + 1))) [ none ↦ false | some o ↦ o == i + 1 ]

all_same : full_table same_order max_order ≡ true
unfolding full_table order_to_size size_to_order order_loop
all_same = refl

size_to_order-order_to_size :
    (i : ℕ) → i < max_order → size_to_order (order_to_size (i + 1)) ≡ some (i + 1)
size_to_order-order_to_size i below =
    known (size_to_order (order_to_size (i + 1)))
      (table_entry same_order i max_order below all_same)
  where
    known :
        (o : Option ℕ)
        → (elim o as (λ x. Bool) [ none ↦ false | some n ↦ n == i + 1 ]) ≡ true
        → o ≡ some (i + 1)
    known none h = absurd (ground (arith, h))
    known (some n) h = ap some (ground (arith, h))

module _ (t : Sslabs) (k : Kmem) (free live : ℕ → List ℕ) (c a j : ℕ) (ok : IsKmalloc t k free live)
    (below : c < max_order) (listed : among a (t (c + 1)).caches ≡ true)
    (out : Option (Sslab × Kmem)) (r : Released c (t (c + 1)) k free live a j out) where
  abbrev after : Sslabs
  after = set_sslab (c + 1) r.sslab t

  -- `sslab_global_free` behind the choice of the entry.
  abbrev entry_freed : Option (Sslab × Kmem) → Option (Sslabs × Kmem)
  entry_freed none = none
  entry_freed (some (s, k')) = some (set_sslab (c + 1) s t, k')

  other_page : (i b : ℕ) → i < max_order → i ≢ c → among b (t (i + 1)).caches ≡ true → b ≢ a
  other_page i b lt ne h e =
      ne (ok.own i c a lt below (subst (λ x. among x (t (i + 1)).caches ≡ true) e h) listed)

  each_after : (i : ℕ) → i < max_order → IsSslab i (after (i + 1)) r.state r.free_now r.live_now
  each_after i lt =
      by_entry c i (λ s. IsSslab i s r.state r.free_now r.live_now) r.sslab t
        (λ e. subst (λ x. IsSslab x r.sslab r.state r.free_now r.live_now) (sym e) r.valid)
        (λ ne.
          IsSslab-kept i (t (i + 1)) k r.state free live r.free_now r.live_now (ok.each i lt)
            r.valid.valid r.valid.zone_released
            (λ b h. (
              r.pages b (other_page i b lt ne h) ((ok.each i lt).page b h),
              r.others b (other_page i b lt ne h),
              (r.elsewhere b (other_page i b lt ne h)).0,
              (r.elsewhere b (other_page i b lt ne h)).1,
            )))

  before : (i b : ℕ) → among b (after (i + 1)).caches ≡ true → among b (t (i + 1)).caches ≡ true
  before i b h = elim (entry_at c r.sslab t i b h) [
    | inl (e, l) ↦ subst (λ x. among b (t (x + 1)).caches ≡ true) (sym e) (r.listed_now b l)
    | inr (ne, l) ↦ l
  ]

  now :
      (i b m : ℕ)
      → i < max_order
      → in_use (after (i + 1)) r.live_now b m
        ≡ (in_use (t (i + 1)) live b m && not (b == a && m == j))
  now i b m lt =
      by_entry c i
        (λ s. in_use s r.live_now b m ≡ (in_use (t (i + 1)) live b m && not (b == a && m == j)))
        r.sslab t
        (λ e. r.now b m ∙ ap (λ x. in_use (t (x + 1)) live b m && not (b == a && m == j)) (sym e))
        (λ ne. other ne (among b (t (i + 1)).caches) refl)
    where
      other :
          i ≢ c
          → (l : Bool) → among b (t (i + 1)).caches ≡ l
          → in_use (t (i + 1)) r.live_now b m
            ≡ (in_use (t (i + 1)) live b m && not (b == a && m == j))
      other ne true e =
          ground
            (arith, ap (among m) (r.elsewhere b (other_page i b lt ne e)).1, other_page i b lt ne e)
      other ne false e = ground (arith, e)

  Kept : ℕ → ℕ → ℕ → ℕ → Type 0
  Kept x i b m =
      (r.state.caches b).memory (offset (t (i + 1)) m + x)
      ≡ (k.caches b).memory (offset (t (i + 1)) m + x)

  kept :
      (i b m x : ℕ)
      → i < max_order
      → in_use (after (i + 1)) r.live_now b m ≡ true
      → x < (t (i + 1)).obj_size
      → Kept x i b m
  unfolding Kept
  kept i b m x lt h less = elim (ℕ_discrete i c) [
    | yes e ↦
        subst
          (λ y.
            x < (t (y + 1)).obj_size → in_use (after (y + 1)) r.live_now b m ≡ true → Kept x y b m)
          (sym e) mine less h
    | no ne ↦
        ap (λ (d : Cache). d.memory (offset (t (i + 1)) m + x))
          (r.others b (other_page i b lt ne (before i b (ground arith))))
  ]
    where
      mine : x < (t (c + 1)).obj_size → in_use (after (c + 1)) r.live_now b m ≡ true → Kept x c b m
      mine less h = r.kept b m x (subst (λ s. in_use s r.live_now b m ≡ true) at_entry h) less
        where
          at_entry : after (c + 1) ≡ r.sslab
          at_entry = ground arith

  kreleased : Kreleased t k live c a j (entry_freed out)
  unfolding Kept
  kreleased = record {
    sslabs = after;
    state = r.state;
    free_now = r.free_now;
    live_now = r.live_now;
    returned = ap entry_freed r.returned;
    valid = record {
      each = each_after;
      own = λ i i' b hi hj li lj. ok.own i i' b hi hj (before i b li) (before i' b lj);
    };
    now = now;
    kept = kept;
    emptied =
        subst
          (λ s.
            ((among a s.caches ≡ true) × (r.live_now a ≢ []))
            ⊎ ((among a s.caches ≡ false) × ((p : ℕ) → a ≡ virt_of p → Free r.state.buddy p)))
          (sym at_entry) r.emptied;
  }
    where
      at_entry : after (c + 1) ≡ r.sslab
      at_entry = ground arith

-- `kfree` of an object in use, in a state in order, when no page before its own in the list of its
-- size lies above it, returns with the state in order again: exactly that object is no longer in
-- use, the bytes of the objects in use have not changed, and its page goes back to the buddy allocator
-- if and only if none of its objects is in use any more.
pub kfree-Released :
    (t : Sslabs) (k : Kmem) (free live : ℕ → List ℕ) (c : ℕ) (front back : List ℕ) (a j : ℕ)
    (earlier later : List ℕ)
    → IsKmalloc t k free live
    → c < max_order
    → (t (c + 1)).caches ≡ front ++ (a ∷ back)
    → live a ≡ earlier ++ (j ∷ later)
    → ((b : ℕ) → among b front ≡ true → b < a)
    → Kreleased t k live c a j (sslab_global_free (address (t (c + 1)) a j) t k)
unfolding sslab_global_free free_order
kfree-Released t k free live c front back a j earlier later ok lt where_it_is held below =
    rw (sslab_global_free, not_null, page, order, free_order, in_table)
      (kreleased t k free live c a j ok lt listed _ (
        sslab_free-Released c (t (c + 1)) k free live front back a j earlier later (ok.each c lt)
          where_it_is held below))
  where
    listed : among a (t (c + 1)).caches ≡ true
    listed = rw where_it_is (ground (arith, among-append a front (a ∷ back)))

    used : in_use (t (c + 1)) live a j ≡ true
    used = ground (arith, listed, ap (among j) held, among-append j earlier (j ∷ later))

    on_page : IsPage k.buddy a
    on_page = (ok.each c lt).page a listed

    not_null : (address (t (c + 1)) a j == 0) ≡ false
    not_null = ground (arith, on_page.address)

    off : offset (t (c + 1)) j < page_size
    off = omega (
      arith,
      object_inside c (t (c + 1)) k free live a j (ok.each c lt) used,
      ((ok.each c lt).cache a listed).0.size,
      ((ok.each c lt).cache a listed).1,
    )

    low : (on_page.page < k.buddy.pages_cnt) × (on_page.page < 0x30000)
    low = page_low k.buddy on_page.page (ok.each c lt).valid on_page.held on_page.zone

    page : sslab_object_to_cache (address (t (c + 1)) a j) ≡ a
    page =
        ap (λ x. sslab_object_to_cache (x + offset (t (c + 1)) j)) on_page.address
        ∙ sslab_object_to_cache_lem on_page.page (offset (t (c + 1)) j) low.1 off
        ∙ sym on_page.address

    order : size_to_order (k.caches a).obj_size ≡ some (c + 1)
    order =
        ap size_to_order (((ok.each c lt).cache a listed).1 ∙ (ok.each c lt).obj_size)
        ∙ size_to_order-order_to_size c lt

    in_table : ltb max_order (c + 1) ≡ false
    in_table = ground arith
