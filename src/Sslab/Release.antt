-- ===== src/Sslab/Release.antt =====
-- What becomes of an object that is given back, and of its page.
use ord_os.Base.{
  ℕ, ◌+◌, ◌≤◌, ◌<◌, ◌≡◌, ◌≢◌, ◌⊎◌, inl, inr, refl, true, false, ◌&&◌, not, ◌==◌, if◌then◌else◌,
  Option, none, some, List, [], ◌∷◌, ◌++◌, arith, among, among-append, Distinct, length, ◌∙◌, ap,
  sym, subst, Bool-cases, sub32, page_size,
}
use ord_os.Buddy.InUse.{IsPage, page_address}
use ord_os.ListHead.Ring.{Distinct-append}
use ord_os.Buddy.{without}
use ord_os.Buddy.Blocks.{Free}
use ord_os.Buddy.Lists.{among-without, Distinct-without}
use ord_os.Buddy.Address.{virt_of}
use ord_os.Slab.{Cache, sslab_cache_free}
use ord_os.Slab.FreeList.{IsCache, slot, slot_inside, slot_far}
use ord_os.Slab.Laws.{SameElsewhere, sslab_cache_free-IsCache}
use ord_os.Slab.Create.{first_object}
use ord_os.Sslab.{Sslab, Kmem, set_cache, give_back, sslab_cache_destroy}
use ord_os.Sslab.Objects.{IsSslab, in_use, put, by_address, offset, address}
use ord_os.Sslab.Destroy.{Destroyed, sslab_cache_destroy-Destroyed}

-- Exactly the object is no longer in use, the bytes of the objects in use have not changed, and the
-- page is free if and only if none of its objects is in use.
pub record Released (i : ℕ) (s : Sslab) (k : Kmem) (free live : ℕ → List ℕ) (page index : ℕ)
    (out : Option (Sslab × Kmem)) : Type 0 where
  pub sslab : Sslab
  pub state : Kmem
  pub free_now : ℕ → List ℕ
  pub live_now : ℕ → List ℕ
  pub returned : out ≡ some (sslab, state)
  pub valid : IsSslab i sslab state free_now live_now
  pub listed_now : (b : ℕ) → among b sslab.caches ≡ true → among b s.caches ≡ true
  pub now :
      (b m : ℕ) → in_use sslab live_now b m ≡ (in_use s live b m && not (b == page && m == index))
  pub kept :
      (b m x : ℕ)
      → in_use sslab live_now b m ≡ true
      → x < s.obj_size
      → (state.caches b).memory (offset s m + x) ≡ (k.caches b).memory (offset s m + x)
  pub others : (b : ℕ) → b ≢ page → state.caches b ≡ k.caches b
  pub elsewhere : (b : ℕ) → b ≢ page → (free_now b ≡ free b) × (live_now b ≡ live b)
  pub pages : (b : ℕ) → b ≢ page → IsPage k.buddy b → IsPage state.buddy b
  pub emptied :
      ((among page sslab.caches ≡ true) × (live_now page ≢ []))
      ⊎ ((among page sslab.caches ≡ false) × ((p : ℕ) → page ≡ virt_of p → Free state.buddy p))

module _ (i : ℕ) (s : Sslab) (k : Kmem) (free live : ℕ → List ℕ) (a j : ℕ) (before after : List ℕ)
    (ok : IsSslab i s k free live) (listed : among a s.caches ≡ true)
    (held : live a ≡ before ++ (j ∷ after)) where
  abbrev lo : ℕ
  lo = first_object s.obj_size

  abbrev cut : Cache
  cut = sslab_cache_free (k.caches a) (offset s j)

  size_a : (k.caches a).obj_size ≡ s.obj_size
  size_a = (ok.cache a listed).1

  cut-IsCache : IsCache (k.caches a) lo (free a) (before ++ (j ∷ after))
  cut-IsCache = subst (IsCache (k.caches a) lo (free a)) held (ok.cache a listed).0

  freed :
      IsCache cut lo (j ∷ free a) (before ++ after)
      × SameElsewhere (k.caches a).memory cut.memory (offset s j) 2
  freed =
      subst
        (λ n.
          IsCache (sslab_cache_free (k.caches a) (slot lo n j)) lo (j ∷ free a) (before ++ after)
          × SameElsewhere (k.caches a).memory (sslab_cache_free (k.caches a) (slot lo n j)).memory
              (slot lo n j) 2)
        size_a (sslab_cache_free-IsCache (k.caches a) lo j (free a) before after cut-IsCache)

  cut_size : cut.obj_size ≡ s.obj_size
  unfolding sslab_cache_free
  cut_size = size_a

  -- The page is wholly free only if no other object was in use.
  all_free : (cut.obj_free == cut.obj_cnt) ≡ true → before ++ after ≡ []
  all_free e =
      no_element (before ++ after) (omega (arith, same, freed.0.free_count, freed.0.live_count))
    where
      same : cut.obj_free ≡ cut.obj_cnt
      same = ground (arith, e)

      no_element : (xs : List ℕ) → length xs ≡ 0 → xs ≡ []
      no_element [] e = refl
      no_element (x ∷ xs) e = absurd (omega (arith, e))

  some_used : (cut.obj_free == cut.obj_cnt) ≡ false → before ++ after ≢ []
  some_used e none_left =
      ground (arith, e, freed.0.free_count, freed.0.live_count, ap length none_left)

  pub inside : offset s j + s.obj_size ≤ page_size
  inside =
      subst (λ n. slot lo n j + n ≤ page_size) size_a
        (slot_inside lo (k.caches a).obj_size (k.caches a).obj_cnt j cut-IsCache.fits (
          cut-IsCache.below j (
            ground (
              arith,
              among-append j (free a) (before ++ (j ∷ after)),
              among-append j before (j ∷ after),
            ))))

  pub found : sub32 (address s a j) a ≡ offset s j
  found = omega (
    arith,
    inside,
    page_address k.buddy a ok.valid (ok.page a listed),
    (ok.cache a listed).0.size,
    size_a,
  )

  Distinct-end : (xs ys : List ℕ) → Distinct (xs ++ ys) → Distinct ys
  Distinct-end [] ys d = d
  Distinct-end (x ∷ xs) ys d = Distinct-end xs ys d.1

  list_now : (m : ℕ) → among m (before ++ after) ≡ (among m (live a) && not (m == j))
  list_now m = rw held (elim (Bool-cases (m == j)) [
    | inl e ↦ rw e (gone (ground (arith, e)))
    | inr e ↦
        rw e (ground (arith, e, among-append m before after, among-append m before (j ∷ after)))
  ])
    where
      parts : Distinct (before ++ after) × (among j before ≡ false) × (among j after ≡ false)
      parts = Distinct-append before j after (Distinct-end (free a) _ cut-IsCache.distinct)

      gone : m ≡ j → among m (before ++ after) ≡ (among m (before ++ (j ∷ after)) && false)
      gone e =
          ap (λ y. among y (before ++ after)) e
          ∙ ground (arith, parts.1, parts.2, among-append j before after)

  abbrev left : ℕ → List ℕ
  left = put a (j ∷ free a) free

  abbrev used : ℕ → List ℕ
  used = put a (before ++ after) live

  kept :
      (b m x : ℕ)
      → (among b s.caches && among m (used b)) ≡ true
      → x < s.obj_size
      → ((set_cache a cut k).caches b).memory (offset s m + x)
        ≡ (k.caches b).memory (offset s m + x)
  kept b m x h lt = elim (Bool-cases (b == a)) [
    | inl e ↦ rw e (here (ground (arith, e)) (ground (arith, e, list_now m)))
    | inr e ↦ rw e refl
  ]
    where
      here : b ≡ a → m ≢ j → cut.memory (offset s m + x) ≡ (k.caches b).memory (offset s m + x)
      here e ne =
          freed.1 (offset s m + x)
            (ground (arith, slot_far lo s.obj_size m j ne, (ok.cache a listed).0.size, size_a))
          ∙ ap (λ y. (k.caches y).memory (offset s m + x)) (sym e)

  now :
      (b m : ℕ)
      → (among b s.caches && among m (used b)) ≡ (in_use s live b m && not (b == a && m == j))
  now b m = elim (Bool-cases (b == a)) [
    | inl e ↦ rw e (here (ground (arith, e)))
    | inr e ↦ rw e (ground arith)
  ]
    where
      here :
          b ≡ a
          → (among b s.caches && among m (before ++ after))
            ≡ (in_use s live b m && not (true && m == j))
      here e =
          subst
            (λ y.
              (among y s.caches && among m (before ++ after))
              ≡ (in_use s live y m && not (true && m == j)))
            (sym e) (ground (arith, list_now m))

  -- What `sslab_free` does behind the lock and the loop.
  abbrev pub finish : Option (Sslab × Kmem) → Option (Sslab × Kmem)
  finish none = none
  finish (some (s', k')) = some (record s' { lock = 0 }, k')

  -- `give_back` once the object is on the free list.
  abbrev with_cut : Cache → Option (Sslab × Kmem)
  with_cut c =
      if c.obj_free == c.obj_cnt
      then elim (sslab_cache_destroy (set_cache a c k) a) [
        | none ↦ none
        | some k' ↦ some (record s { caches = without a s.caches }, k')
      ]
      else some (s, set_cache a c k)

  give_back_lem : give_back a (address s a j) s k ≡ with_cut cut
  unfolding give_back
  give_back_lem = ap (λ o. with_cut (sslab_cache_free (k.caches a) o)) found

  self_used : used a ≡ before ++ after
  self_used = rw self refl
    where
      self : (a == a) ≡ true
      self = ground arith

  -- Another object of the page is in use.
  stays :
      (cut.obj_free == cut.obj_cnt) ≡ false
      → Released i s k free live a j (finish (give_back a (address s a j) s k))
  stays e = record {
    sslab = record s { lock = 0 };
    state = set_cache a cut k;
    free_now = left;
    live_now = used;
    returned = ap finish give_back_lem ∙ rw e refl;
    valid = record {
      released = refl;
      below = ok.below;
      obj_size = ok.obj_size;
      valid = ok.valid;
      zone_released = ok.zone_released;
      distinct = ok.distinct;
      page = ok.page;
      cache = λ b h.
          by_address a b (λ c f l. IsCache c lo f l × (c.obj_size ≡ s.obj_size)) cut (k.caches b)
            (j ∷ free a) (free b) (before ++ after) (live b) (λ e. (freed.0, cut_size))
            (λ ne. ok.cache b h);
    };
    listed_now = λ b h. h;
    now = now;
    kept = kept;
    others = λ b ne. ground arith;
    elsewhere = λ b ne. (ground arith, ground arith);
    pages = λ b ne h. h;
    emptied = inl (listed, subst (λ xs. xs ≢ []) (sym self_used) (some_used e));
  }

  -- The page has no object in use any more.
  goes :
      (cut.obj_free == cut.obj_cnt) ≡ true
      → Destroyed (set_cache a cut k) a (sslab_cache_destroy (set_cache a cut k) a)
      → Released i s k free live a j (finish (give_back a (address s a j) s k))
  goes e d = record {
    sslab = record s { caches = without a s.caches; lock = 0 };
    state = record (set_cache a cut k) { buddy = d.buddy };
    free_now = left;
    live_now = used;
    returned = ap finish give_back_lem ∙ rw (e, d.returned) refl;
    valid = record {
      released = refl;
      below = ok.below;
      obj_size = ok.obj_size;
      valid = d.valid;
      zone_released = d.released;
      distinct = Distinct-without a s.caches ok.distinct;
      page = λ b h. d.pages b (elsewhere b h) (ok.page b (still b h));
      cache = λ b h.
          by_address a b (λ c f l. IsCache c lo f l × (c.obj_size ≡ s.obj_size)) cut (k.caches b)
            (j ∷ free a) (free b) (before ++ after) (live b) (λ e. absurd (elsewhere b h e))
            (λ ne. ok.cache b (still b h));
    };
    listed_now = still;
    now = λ b m. removed b m ∙ now b m;
    kept = λ b m x h lt. kept b m x (sym (removed b m) ∙ h) lt;
    others = λ b ne. ground arith;
    elsewhere = λ b ne. (ground arith, ground arith);
    pages = d.pages;
    emptied = inr (ground (arith, among-without a a s.caches), d.free);
  }
    where
      elsewhere : (b : ℕ) → among b (without a s.caches) ≡ true → b ≢ a
      elsewhere b h same = ground (arith, among-without b a s.caches)

      still : (b : ℕ) → among b (without a s.caches) ≡ true → among b s.caches ≡ true
      still b h = ground (arith, among-without b a s.caches)

      removed :
          (b m : ℕ)
          → (among b (without a s.caches) && among m (used b))
            ≡ (among b s.caches && among m (used b))
      removed b m = elim (Bool-cases (b == a)) [
        | inl same ↦ rw (same, all_free e) (ground arith)
        | inr other ↦ rw other (ground (arith, other, among-without b a s.caches))
      ]

  pub released : Released i s k free live a j (finish (give_back a (address s a j) s k))
  released = elim (Bool-cases (cut.obj_free == cut.obj_cnt)) [
    | inl e ↦ goes e (
        sslab_cache_destroy-Destroyed (set_cache a cut k) a ok.valid ok.zone_released
          (ok.page a listed))
    | inr e ↦ stays e
  ]
