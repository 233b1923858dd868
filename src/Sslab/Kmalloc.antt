-- ===== src/Sslab/Kmalloc.antt =====
-- kernel/memory/memory.c: `kmalloc` and `kfree`, over the allocators of all sizes.
use ord_os.Base.{
  ℕ, ◌+◌, ◌≤◌, ◌<◌, ◌^◌, ◌≡◌, ◌≢◌, ◌⊎◌, inl, inr, refl, true, false, Option, none, some, List, [],
  arith, among, sym, subst, ltb,
}
use ord_os.Buddy.Address.{zone_normal}
use ord_os.Slab.{max_order}
use ord_os.Sslab.{Sslab, Sslabs, Kmem, set_sslab, alloc_order, sslab_alloc, sslab_global_alloc}
use ord_os.Sslab.Objects.{IsSslab, IsSslab-kept}
use ord_os.Sslab.Alloc.{Allocated, Full, sslab_alloc-Allocated}
use ord_os.Sslab.Entries.{IsKmalloc, IsClass, size-IsClass, entry_at, by_entry, entry_taken}
use ord_os.Sslab.Given.{Kgiven, kgiven}

-- Null: the objects of the size are all in use, and no page of normal memory is free.
pub record Kfull (size : ℕ) (t : Sslabs) (k : Kmem) (free live : ℕ → List ℕ)
    (out : Option (Option ℕ × Sslabs × Kmem)) : Type 0 where
  pub class : ℕ
  pub is_class : IsClass size class
  pub sslabs : Sslabs
  pub state : Kmem
  pub returned : out ≡ some (none, sslabs, state)
  pub valid : IsKmalloc sslabs state free live
  pub all_used : (b : ℕ) → among b (t (class + 1)).caches ≡ true → free b ≡ []
  pub no_page : (p : ℕ) → (k.buddy.pages p).buddy ≡ true → (k.buddy.pages p).zone_type ≢ zone_normal

module _ (size : ℕ) (t : Sslabs) (k : Kmem) (free live : ℕ → List ℕ) (c : ℕ)
    (ok : IsKmalloc t k free live) (class : IsClass size c) where
  kfull :
      (out : Option (Option ℕ × Sslab × Kmem))
      → Full c (t (c + 1)) k free live out
      → Kfull size t k free live (entry_taken c t out)
  kfull out f = record {
    class = c;
    is_class = class;
    sslabs = set_sslab (c + 1) (t (c + 1)) t;
    state = f.state;
    returned = rw f.returned refl;
    valid = record {
      each = λ j lt.
          by_entry c j (λ s. IsSslab j s f.state free live) (t (c + 1)) t
            (λ e. subst (λ x. IsSslab x (t (c + 1)) f.state free live) (sym e) f.valid)
            (λ ne.
              IsSslab-kept j (t (j + 1)) k f.state free live free live (ok.each j lt) f.keeps.valid
                f.keeps.released
                (λ b h. (f.keeps.pages b ((ok.each j lt).page b h), f.same b, refl, refl)));
      own = λ i j b hi hj li lj. ok.own i j b hi hj (unchanged i b li) (unchanged j b lj);
    };
    all_used = f.all_used;
    no_page = f.no_page;
  }
    where
      unchanged :
          (i b : ℕ)
          → among b (set_sslab (c + 1) (t (c + 1)) t (i + 1)).caches ≡ true
          → among b (t (i + 1)).caches ≡ true
      unchanged i b h = elim (entry_at c (t (c + 1)) t i b h) [
        | inl (e, l) ↦ subst (λ x. among b (t (x + 1)).caches ≡ true) (sym e) l
        | inr (ne, l) ↦ l
      ]

  taken :
      (out : Option (Option ℕ × Sslab × Kmem))
      → Allocated c (t (c + 1)) k free live out
      → Kgiven size t k live (entry_taken c t out) ⊎ Kfull size t k free live (entry_taken c t out)
  taken out (inl (page, index, g)) = inl (kgiven size t k free live c ok class page index out g)
  taken out (inr f) = inr (kfull out f)

-- `kmalloc` of 2 to 1024 bytes, in a state in order, returns with the state in order again. Either it
-- gives an object of at least that size that overlaps no object in use of any size and holds
-- zeros, every object in use stays so with its bytes unchanged, and the new one is in use; or null,
-- and then the pages of the least size that is large enough have no free object, and no page of
-- normal memory is free.
pub kmalloc-Allocated :
    (size : ℕ) (t : Sslabs) (k : Kmem) (free live : ℕ → List ℕ)
    → 2 ≤ size
    → size ≤ 2 ^ 10
    → IsKmalloc t k free live
    → Kgiven size t k live (sslab_global_alloc size t k)
      ⊎ Kfull size t k free live (sslab_global_alloc size t k)
unfolding sslab_global_alloc alloc_order
kmalloc-Allocated size t k free live two small ok =
    let (c, class) = size-IsClass size two small in
    rw (sslab_global_alloc, class.order, alloc_order, in_table c class.below)
      (taken size t k free live c ok class (sslab_alloc (t (c + 1)) k)
        (sslab_alloc-Allocated c (t (c + 1)) k free live (ok.each c class.below)))
  where
    in_table : (c : ℕ) → c < max_order → ltb max_order (c + 1) ≡ false
    in_table c lt = ground arith
