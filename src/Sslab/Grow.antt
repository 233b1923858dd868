-- ===== src/Sslab/Grow.antt =====
-- An object of a page that was taken for it.
use ord_os.Base.{
  ℕ, zero, suc, ◌+◌, ◌-◌, ◌<◌, ◌≡◌, ◌≢◌, ◌⊎◌, inl, inr, true, false, ◌&&◌, ◌||◌, ◌==◌, Option, some,
  List, [], ◌∷◌, ◌++◌, arith, among, among-append, ◌∙◌, ap, sym, subst, Bool-cases,
}
use ord_os.Buddy.InUse.{IsPage}
use ord_os.ListHead.Ring.{Distinct-snoc}
use ord_os.Slab.{Cache}
use ord_os.Slab.FreeList.{IsCache}
use ord_os.Slab.Create.{count_up, first_object}
use ord_os.Sslab.{Sslab, Kmem, hand_out, alloc_fresh}
use ord_os.Sslab.Pages.{Fresh}
use ord_os.Sslab.Objects.{IsSslab, Given, in_use, put, offset}
use ord_os.Sslab.Take.{take_object}

count_up_first : (n : ℕ) → 0 < n → count_up 0 n ≡ 0 ∷ count_up 1 (n - 1)
count_up_first zero h = absurd (omega arith)
count_up_first (suc n) h = ap (λ m. 0 ∷ count_up 1 m) less
  where
    less : n ≡ suc n - 1
    less = omega arith

module _ (i : ℕ) (s : Sslab) (k : Kmem) (free live : ℕ → List ℕ) (out : Option (Option ℕ × Kmem))
    (ok : IsSslab i s k free live) (h : Fresh k s.obj_size out) where
  -- The allocator with the new page.
  abbrev more : Sslab
  more = record s { caches = s.caches ++ (h.address ∷ []) }

  abbrev more_free : ℕ → List ℕ
  more_free = put h.address (count_up 0 h.objects) free

  abbrev more_live : ℕ → List ℕ
  more_live = put h.address [] live

  unlisted : among h.address s.caches ≡ false
  unlisted = elim (Bool-cases (among h.address s.caches)) [
    | inl e ↦ absurd (h.new (ok.page h.address e))
    | inr e ↦ e
  ]

  old_or_new : (b : ℕ) → among b more.caches ≡ true → (among b s.caches ≡ true) ⊎ (b ≡ h.address)
  old_or_new b e = ground (arith, among-append b s.caches (h.address ∷ []))

  more-IsSslab : IsSslab i more h.state more_free more_live
  more-IsSslab = record {
    released = ok.released;
    below = ok.below;
    obj_size = ok.obj_size;
    valid = h.keeps.valid;
    zone_released = h.keeps.released;
    distinct = Distinct-snoc s.caches h.address ok.distinct unlisted;
    page = λ b e. elim (old_or_new b e) [
      | inl old ↦ h.keeps.pages b (ok.page b old)
      | inr new ↦ subst (IsPage h.state.buddy) (sym new) h.page
    ];
    cache = λ b e. elim (Bool-cases (b == h.address)) [
      | inl same ↦ rw same (at_new b (ground (arith, same)))
      | inr other ↦ rw other (at_old b (ground (arith, other)) (ground (arith, old_or_new b e)))
    ];
  }
    where
      Fits : Cache → List ℕ → List ℕ → Type 0
      Fits c f l = IsCache c (first_object s.obj_size) f l × (c.obj_size ≡ s.obj_size)

      at_new : (b : ℕ) → b ≡ h.address → Fits (h.state.caches b) (count_up 0 h.objects) []
      at_new b e =
          subst (λ y. Fits (h.state.caches y) (count_up 0 h.objects) []) (sym e)
            (h.cache, h.obj_size)

      at_old :
          (b : ℕ)
          → b ≢ h.address
          → among b s.caches ≡ true
          → Fits (h.state.caches b) (free b) (live b)
      at_old b ne e = subst (λ c. Fits c (free b) (live b)) (sym (h.others b ne)) (ok.cache b e)

  same_use : (b m : ℕ) → in_use more more_live b m ≡ in_use s live b m
  same_use b m = elim (Bool-cases (b == h.address)) [
    | inl e ↦ rw e (ground (arith, at_new (ground (arith, e))))
    | inr e ↦ rw e (ground (arith, among-append b s.caches (h.address ∷ [])))
  ]
    where
      at_new : b ≡ h.address → among b s.caches ≡ false
      at_new e = ap (λ y. among y s.caches) e ∙ unlisted

  taken : Given i more h.state more_free more_live h.address 0 (
      some
        ((hand_out h.address h.state).0, record more { lock = 0 }, (hand_out h.address h.state).1))
  taken =
      take_object i more h.state more_free more_live h.address 0 (count_up 1 (h.objects - 1))
        more-IsSslab (ground (arith, among-append h.address s.caches (h.address ∷ [])))
        (rw self (count_up_first h.objects h.some_object))
    where
      self : (h.address == h.address) ≡ true
      self = ground arith

  -- An object of the new page is handed out.
  pub given_fresh :
      Given i s k free live h.address 0 (some (alloc_fresh (some h.address) 1 s h.state))
  unfolding alloc_fresh
  given_fresh = record {
    sslab = taken.sslab;
    state = taken.state;
    free_now = taken.free_now;
    live_now = taken.live_now;
    returned = taken.returned;
    valid = taken.valid;
    new = sym (same_use h.address 0) ∙ taken.new;
    listed_now = λ b. ground (arith, taken.listed_now b, among-append b s.caches (h.address ∷ []));
    now = λ b m. taken.now b m ∙ ap (λ x. x || (b == h.address && m == 0)) (same_use b m);
    apart = λ b m e. taken.apart b m (same_use b m ∙ e);
    zeroed = taken.zeroed;
    kept = λ b m x e lt.
        taken.kept b m x (same_use b m ∙ e) lt
        ∙ ap (λ (c : Cache). c.memory (offset s m + x)) (h.others b (elsewhere b m e));
    others = λ b ne. taken.others b ne ∙ h.others b ne;
    elsewhere = λ b ne. (
      (taken.elsewhere b ne).0 ∙ ground (arith, ne),
      (taken.elsewhere b ne).1 ∙ ground (arith, ne),
    );
    keeps = record {
      valid = taken.keeps.valid;
      released = taken.keeps.released;
      pages = λ b e. taken.keeps.pages b (h.keeps.pages b e);
    };
    mine = λ e. absurd (h.new e);
  }
    where
      elsewhere : (b m : ℕ) → in_use s live b m ≡ true → b ≢ h.address
      elsewhere b m e same = ground (arith, ap (λ y. among y s.caches) same, unlisted)
