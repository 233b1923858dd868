-- ===== src/Sslab/Pages.antt =====
-- The pages that an allocator of objects takes from the buddy allocator.
use ord_os.Base.{
  ℕ, ◌+◌, ◌<◌, ◌≡◌, ◌≢◌, ◌⊎◌, inl, inr, refl, true, false, Option, none, some, [], arith, sym,
  subst, ◌==◌, if◌then◌else◌, ltb, Bool, ◌||◌, not, full_table, table_entry,
}
use ord_os.Buddy.InUse.{virt-low, IsPage, Keeps, OneTaken, one_page}
use ord_os.Buddy.{Buddy}
use ord_os.Buddy.Blocks.{IsBuddy}
use ord_os.Buddy.Address.{zone_normal, virt_of, page_get_virt_lem}
use ord_os.Slab.{Cache, max_order, order_to_size, sslab_cache_create}
use ord_os.Slab.FreeList.{IsCache}
use ord_os.Slab.Create.{Created, first_object, count_up, sslab_cache_create-Created}
use ord_os.Sslab.{Kmem, cache_create, create_at, set_cache}

-- No page of normal memory is free, and null is returned.
pub record NoRoom (k : Kmem) (out : Option (Option ℕ × Kmem)) : Type 0 where
  pub state : Kmem
  pub returned : out ≡ some (none, state)
  pub same : (b : ℕ) → state.caches b ≡ k.caches b
  pub keeps : Keeps k.buddy state.buddy
  pub full : (p : ℕ) → (k.buddy.pages p).buddy ≡ true → (k.buddy.pages p).zone_type ≢ zone_normal

-- A page that was free holds free objects only, and no other page changes.
pub record Fresh (k : Kmem) (size : ℕ) (out : Option (Option ℕ × Kmem)) : Type 0 where
  pub address : ℕ
  pub state : Kmem
  pub objects : ℕ
  pub returned : out ≡ some (some address, state)
  pub keeps : Keeps k.buddy state.buddy
  pub page : IsPage state.buddy address
  pub new : ¬ IsPage k.buddy address
  pub others : (b : ℕ) → b ≢ address → state.caches b ≡ k.caches b
  pub some_object : 0 < objects
  pub obj_size : (state.caches address).obj_size ≡ size
  pub cache : IsCache (state.caches address) (first_object size) (count_up 0 objects) []

-- The sizes that `sslab_cache_create` refuses.
abbrev refused : ℕ → Bool
refused size = ltb (order_to_size max_order) size || size == 0

none_refused : full_table (λ j. not (refused (order_to_size (j + 1)))) max_order ≡ true
unfolding full_table order_to_size
none_refused = refl

module _ (k : Kmem) (i : ℕ) (ok : IsBuddy k.buddy) (below : i < max_order) where
  abbrev size : ℕ
  size = order_to_size (i + 1)

  -- The state behind `buddy_alloc_page`.
  abbrev with_buddy : Buddy → Kmem
  with_buddy t = record k { buddy = t }

  no_room :
      (t : Buddy)
      → Keeps k.buddy t
      → OneTaken k.buddy none t
      → NoRoom k (create_at (with_buddy t) none size)
  unfolding create_at sslab_cache_create order_to_size
  no_room t keeps taken = record {
    state = with_buddy t;
    returned = rw (create_at, sslab_cache_create, allowed) refl;
    same = λ b. refl;
    keeps = keeps;
    full = taken.0;
  }
    where
      allowed : refused size ≡ false
      allowed = ground (
        arith,
        table_entry (λ j. not (refused (order_to_size (j + 1)))) i max_order below none_refused,
      )

  cut_result :
      (t : Buddy) (p : ℕ)
      → p < t.pages_cnt
      → p < 0x30000
      → (h : Created size (sslab_cache_create (some (k.caches (virt_of p)).memory) size))
      → create_at (with_buddy t) (some p) size
        ≡ some (some (virt_of p), set_cache (virt_of p) h.cache (with_buddy t))
  unfolding create_at
  cut_result t p lt low h = rw (create_at, page_get_virt_lem t p lt low, h.returned) refl

  fresh :
      (t : Buddy) (p : ℕ)
      → Keeps k.buddy t
      → OneTaken k.buddy (some p) t
      → Fresh k size (create_at (with_buddy t) (some p) size)
  fresh t p keeps taken =
      let low = virt-low t p keeps.valid taken.0 in
      let h = sslab_cache_create-Created (k.caches (virt_of p)).memory i below in
      record {
        address = virt_of p;
        state = set_cache (virt_of p) h.cache (with_buddy t);
        objects = h.cache.obj_cnt;
        returned = cut_result t p low.0 low.1 h;
        keeps = keeps;
        page = taken.0;
        new = taken.1;
        others = λ b ne. ground (arith, ne);
        some_object = h.some_object;
        obj_size = rw (self (virt_of p) h.cache) h.obj_size;
        cache =
            subst (λ c. IsCache c (first_object size) (count_up 0 h.cache.obj_cnt) [])
              (sym (self (virt_of p) h.cache)) h.all_free;
      }
    where
      self : (a : ℕ) (c : Cache) → (if a == a then c else k.caches a) ≡ c
      self a c = ground arith

-- `sslab_cache_create` for a size of the allocator gives a page that was free, or null if there is none.
pub cache_create-Fresh :
    (k : Kmem) (i : ℕ)
    → IsBuddy k.buddy
    → (k.buddy.zones zone_normal).lock ≡ 0
    → i < max_order
    → NoRoom k (cache_create k (order_to_size (i + 1)))
      ⊎ Fresh k (order_to_size (i + 1)) (cache_create k (order_to_size (i + 1)))
unfolding cache_create
cache_create-Fresh k i ok released below =
    let a = one_page k.buddy ok released in
    rw (cache_create, a.returned) (by_page a.page a.state a.keeps a.taken)
  where
    size : ℕ
    size = order_to_size (i + 1)

    by_page :
        (page : Option ℕ) (t : Buddy)
        → Keeps k.buddy t
        → OneTaken k.buddy page t
        → NoRoom k (create_at (record k { buddy = t }) page size)
          ⊎ Fresh k size (create_at (record k { buddy = t }) page size)
    by_page none t keeps taken = inl (no_room k i ok below t keeps taken)
    by_page (some p) t keeps taken = inr (fresh k i ok below t p keeps taken)
