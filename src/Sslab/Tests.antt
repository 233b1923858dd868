-- ===== src/Sslab/Tests.antt =====
-- Instances of the theorems: one page of three objects of 1024 bytes, the first of them in use, and
-- eight free pages of normal memory.
use ord_os.Base.{
  ◌≤◌, some, ℕ, ◌+◌, ◌^◌, ◌≡◌, ◌⊎◌, refl, true, false, ◌==◌, if◌then◌else◌, List, [], ◌∷◌, arith,
  among, sym, subst,
}
use ord_os.Buddy.InUse.{IsPage}
use ord_os.Slab.{Memory, Cache, read16, max_order, order_to_size}
use ord_os.Slab.FreeList.{IsCache}
use ord_os.Slab.Create.{first_object, first_object-largest}
use ord_os.Sslab.{Sslabs, Kmem, init_sslab, sslab_global_alloc, sslab_global_free}
use ord_os.Sslab.Objects.{address}
use ord_os.Sslab.Entries.{IsKmalloc}
use ord_os.Sslab.Given.{Kgiven}
use ord_os.Sslab.Init.{init_sslab-IsKmalloc}
use ord_os.Sslab.Kmalloc.{Kfull, kmalloc-Allocated}
use ord_os.Sslab.Kfree.{Kreleased, kfree-Released}
use ord_os.Buddy.Normal.{buddy, buddy-IsBuddy, the_page, the_page-IsPage}

links : Memory
links b = if b == 2049 then 12 else 0

abbrev used : Cache
used = record { obj_cnt = 3; obj_size = 1024; obj_free = 2; object = 2048; memory = links }

used-IsCache : IsCache used 1024 (1 ∷ (2 ∷ [])) (0 ∷ [])
unfolding read16 links
used-IsCache = record {
  size = omega arith;
  header = omega arith;
  fits = omega arith;
  few = omega arith;
  chain = (refl, (refl, refl));
  below = λ k h. ground arith;
  distinct = ground arith;
  free_count = refl;
  live_count = refl;
}

abbrev slabs : Sslabs
slabs i = record { obj_size = 2 ^ i; caches = if i == 10 then the_page ∷ [] else []; lock = 0 }

abbrev kmem : Kmem
kmem = record { buddy = buddy; caches = λ b. used }

abbrev free_objects : ℕ → List ℕ
free_objects b = 1 ∷ (2 ∷ [])

abbrev objects_in_use : ℕ → List ℕ
objects_in_use b = 0 ∷ []

only : (i b : ℕ) → among b (slabs (i + 1)).caches ≡ true → (i ≡ 9) × (b ≡ the_page)
only i b h = (ground arith, ground arith)

slabs-IsKmalloc : IsKmalloc slabs kmem free_objects objects_in_use
unfolding order_to_size
slabs-IsKmalloc = record {
  each = λ i lt. record {
    released = refl;
    below = lt;
    obj_size = refl;
    valid = buddy-IsBuddy;
    zone_released = refl;
    distinct = ground arith;
    page = λ b h. subst (IsPage buddy) (sym (only i b h).1) the_page-IsPage;
    cache = λ b h.
        subst
          (λ j.
            IsCache used (first_object (2 ^ (j + 1))) (1 ∷ (2 ∷ [])) (0 ∷ [])
            × (1024 ≡ 2 ^ (j + 1)))
          (sym (only i b h).0)
          (
            subst (λ lo. IsCache used lo (1 ∷ (2 ∷ [])) (0 ∷ [])) (sym first_object-largest)
                used-IsCache,
            refl,
          );
  };
  own = λ i j b hi hj li lj. ground (arith, only i b li, only j b lj);
}

kmalloc-Allocated_example :
    Kgiven 600 slabs kmem objects_in_use (sslab_global_alloc 600 slabs kmem)
    ⊎ Kfull 600 slabs kmem free_objects objects_in_use (sslab_global_alloc 600 slabs kmem)
kmalloc-Allocated_example =
    kmalloc-Allocated 600 slabs kmem free_objects objects_in_use (omega arith) (omega arith)
      slabs-IsKmalloc

kfree-Released_example :
    Kreleased slabs kmem objects_in_use 9 the_page 0
      (sslab_global_free (address (slabs 10) the_page 0) slabs kmem)
kfree-Released_example =
    kfree-Released slabs kmem free_objects objects_in_use 9 [] [] the_page 0 [] [] slabs-IsKmalloc
      (omega arith) refl refl (λ b h. absurd (ground arith))

init_sslab-IsKmalloc_example :
    (t' : Sslabs) × (init_sslab slabs ≡ some t')
    × IsKmalloc t' kmem (λ a. []) (λ a. [])
    × ((i a : ℕ) → i ≤ max_order → among a (t' i).caches ≡ false)
init_sslab-IsKmalloc_example = init_sslab-IsKmalloc slabs kmem buddy-IsBuddy refl
