-- ===== src/Sslab/Alloc.antt =====
-- `sslab_alloc`: an object of the first page that has a free one, or of a new page.
use ord_os.Base.{
  ℕ, ◌<◌, ◌≡◌, ◌≢◌, ◌⊎◌, inl, inr, refl, true, ◌==◌, Option, none, some, List, [], ◌∷◌, arith,
  among, length, ◌∙◌, ap, sym, subst, Bool-cases, ltb,
}
use ord_os.Buddy.InUse.{Keeps}
use ord_os.Buddy.Address.{zone_normal}
use ord_os.Spin.Laws.{spin_lock_released}
use ord_os.Slab.{Cache}
use ord_os.Slab.FreeList.{IsCache}
use ord_os.Slab.Create.{first_object}
use ord_os.Sslab.{Sslab, Kmem, find_free, cache_create, hand_out, alloc_fresh, sslab_alloc}
use ord_os.Sslab.Pages.{NoRoom, Fresh, cache_create-Fresh}
use ord_os.Sslab.Objects.{IsSslab, Given}
use ord_os.Sslab.Take.{take_object}
use ord_os.Sslab.Grow.{given_fresh}

-- Which page the loop of `sslab_alloc` finds.
abbrev Found : List ℕ → (ℕ → Cache) → Option ℕ → Type 0
Found xs caches none = (b : ℕ) → among b xs ≡ true → (caches b).obj_free ≡ 0
Found xs caches (some a) = (among a xs ≡ true) × (0 < (caches a).obj_free)

find_free-Found : (xs : List ℕ) (caches : ℕ → Cache) → Found xs caches (find_free xs caches)
unfolding find_free
find_free-Found [] caches = λ b h. ground arith
find_free-Found (x ∷ xs) caches = elim (Bool-cases (ltb 0 (caches x).obj_free)) [
  | inl e ↦ rw e (ground arith, ground (arith, e))
  | inr e ↦ rw e (later (find_free xs caches) (ground (arith, e)) (find_free-Found xs caches))
]
  where
    later : (o : Option ℕ) → (caches x).obj_free ≡ 0 → Found xs caches o → Found (x ∷ xs) caches o
    later none e h = λ b i. elim (Bool-cases (x == b)) [
      | inl same ↦ ap (λ y. (caches y).obj_free) (eq same) ∙ e
      | inr other ↦ h b (ground (arith, other))
    ]
      where
        eq : {b : ℕ} → (x == b) ≡ true → b ≡ x
        eq h = ground (arith, h)
    later (some a) e h = (ground arith, h.1)

-- No object is free and no page: null, and nothing changes but the free lists of other zones.
pub record Full (i : ℕ) (s : Sslab) (k : Kmem) (free live : ℕ → List ℕ)
    (out : Option (Option ℕ × Sslab × Kmem)) : Type 0 where
  pub state : Kmem
  pub returned : out ≡ some (none, s, state)
  pub valid : IsSslab i s state free live
  pub same : (b : ℕ) → state.caches b ≡ k.caches b
  pub keeps : Keeps k.buddy state.buddy
  pub all_used : (b : ℕ) → among b s.caches ≡ true → free b ≡ []
  pub no_page : (p : ℕ) → (k.buddy.pages p).buddy ≡ true → (k.buddy.pages p).zone_type ≢ zone_normal

abbrev pub Allocated :
    ℕ → Sslab → Kmem → (free live : ℕ → List ℕ) → Option (Option ℕ × Sslab × Kmem) → Type 0
Allocated i s k free live out =
    ((page : ℕ) × (index : ℕ) × Given i s k free live page index out) ⊎ Full i s k free live out

module _ (i : ℕ) (s : Sslab) (k : Kmem) (free live : ℕ → List ℕ)
    (ok : IsSslab i s k free live) where
  abbrev Result : Type 0
  Result = Option (Option ℕ × Sslab × Kmem)

  -- `sslab_alloc` behind its lock and the loop.
  abbrev create_and_take : Option (Option ℕ × Kmem) → Result
  create_and_take none = none
  create_and_take (some (cache, k')) = some (alloc_fresh cache 1 s k')

  abbrev alloc_with : Option ℕ → Result
  alloc_with none = create_and_take (cache_create k s.obj_size)
  alloc_with (some a) = some ((hand_out a k).0, record s { lock = 0 }, (hand_out a k).1)

  no_element : (xs : List ℕ) → length xs ≡ 0 → xs ≡ []
  no_element [] e = refl
  no_element (x ∷ xs) e = absurd (omega (arith, e))

  full :
      (out : Option (Option ℕ × Kmem))
      → Found s.caches k.caches none
      → NoRoom k out
      → Full i s k free live (create_and_take out)
  unfolding alloc_fresh
  full out used h = record {
    state = h.state;
    returned =
        rw h.returned (ap (λ l. some (none, record s { lock = l }, h.state)) (sym ok.released));
    valid = record {
      released = ok.released;
      below = ok.below;
      obj_size = ok.obj_size;
      valid = h.keeps.valid;
      zone_released = h.keeps.released;
      distinct = ok.distinct;
      page = λ b e. h.keeps.pages b (ok.page b e);
      cache = λ b e.
          subst
            (λ c. IsCache c (first_object s.obj_size) (free b) (live b) × (c.obj_size ≡ s.obj_size))
            (sym (h.same b)) (ok.cache b e);
    };
    same = h.same;
    keeps = h.keeps;
    all_used = λ b e. no_element (free b) (sym (ok.cache b e).0.free_count ∙ used b e);
    no_page = h.full;
  }

  new_page :
      (out : Option (Option ℕ × Kmem))
      → Found s.caches k.caches none
      → NoRoom k out ⊎ Fresh k s.obj_size out
      → Allocated i s k free live (create_and_take out)
  new_page out used (inl h) = inr (full out used h)
  new_page out used (inr h) =
      inl (h.address, 0, rw h.returned (given_fresh i s k free live out ok h))

  old_page :
      (a : ℕ) (xs : List ℕ)
      → among a s.caches ≡ true
      → 0 < length xs
      → free a ≡ xs
      → Allocated i s k free live (alloc_with (some a))
  old_page a [] listed some_free e = absurd (omega arith)
  old_page a (j ∷ rest) listed some_free e =
      inl (a, j, take_object i s k free live a j rest ok listed e)

  alloc_with-Allocated :
      (o : Option ℕ) → Found s.caches k.caches o → Allocated i s k free live (alloc_with o)
  alloc_with-Allocated none used = new_page (cache_create k s.obj_size) used (
      subst (λ n. NoRoom k (cache_create k n) ⊎ Fresh k n (cache_create k n)) (sym ok.obj_size)
        (cache_create-Fresh k i ok.valid ok.zone_released ok.below))
  alloc_with-Allocated (some a) found =
      old_page a (free a) found.0 (omega (arith, found.1, (ok.cache a found.0).0.free_count)) refl

-- `sslab_alloc` of an allocator in order returns, with the allocator in order again. Either it gives
-- an object that was not in use, overlaps none that is, and holds zeros, and the bytes of the
-- objects in use have not changed; or null, and then no page of the list has a free object and no
-- page of normal memory is free.
pub sslab_alloc-Allocated :
    (i : ℕ) (s : Sslab) (k : Kmem) (free live : ℕ → List ℕ)
    → IsSslab i s k free live
    → Allocated i s k free live (sslab_alloc s k)
unfolding sslab_alloc
sslab_alloc-Allocated i s k free live ok =
    rw (sslab_alloc, spin_lock_released s.lock ok.released)
      (alloc_with-Allocated i s k free live ok (find_free s.caches k.caches)
        (find_free-Found s.caches k.caches))
