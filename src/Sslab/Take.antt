-- ===== src/Sslab/Take.antt =====
-- Handing out an object of a page that has a free one.
use ord_os.Base.{
  ℕ, ◌+◌, ◌≤◌, ◌<◌, ◌≡◌, ◌⊎◌, inl, inr, refl, true, false, ◌&&◌, ◌||◌, ◌==◌, Option, some, List,
  ◌∷◌, arith, ◌++◌, among, Distinct, ◌∙◌, ap, sym, subst, ℕ_discrete, Bool-cases, add32, page_size,
  among-append,
}
use ord_os.Buddy.InUse.{page_address, pages_apart}
use ord_os.Slab.{Cache, sslab_cache_alloc}
use ord_os.Slab.FreeList.{IsCache, slot}
use ord_os.Slab.Laws.{Got, Allocated, sslab_cache_alloc-Allocated}
use ord_os.Slab.Create.{first_object}
use ord_os.Sslab.{Sslab, Kmem, set_cache, hand_out}
use ord_os.Sslab.Objects.{
  IsSslab, in_use, offset, address, put, Given, by_address, alloc_size, object_inside,
}

module _ (i : ℕ) (s : Sslab) (k : Kmem) (free live : ℕ → List ℕ) (a j : ℕ) (rest : List ℕ)
    (ok : IsSslab i s k free live) (listed : among a s.caches ≡ true)
    (head : free a ≡ j ∷ rest) where
  abbrev lo : ℕ
  lo = first_object s.obj_size

  abbrev out : Option ℕ × Cache
  out = sslab_cache_alloc (k.caches a)

  got : Got (k.caches a) lo j rest (live a) out
  got =
      subst (λ xs. Allocated (k.caches a) lo xs (live a) out) head
        (sslab_cache_alloc-Allocated (k.caches a) lo (free a) (live a) (ok.cache a listed).0)

  size_a : (k.caches a).obj_size ≡ s.obj_size
  size_a = (ok.cache a listed).1

  object : out.0 ≡ some (offset s j)
  object = subst (λ n. out.0 ≡ some (slot lo n j)) size_a got.object

  inside : offset s j + s.obj_size ≤ page_size
  inside = subst (λ n. slot lo n j + n ≤ page_size) size_a got.inside

  hand_out_lem : hand_out a k ≡ (some (address s a j), set_cache a out.1 k)
  unfolding hand_out
  hand_out_lem = rw (hand_out, object, whole) refl
    where
      whole : add32 a (offset s j) ≡ a + offset s j
      whole = omega (
        arith,
        inside,
        page_address k.buddy a ok.valid (ok.page a listed),
        (ok.cache a listed).0.size,
        size_a,
      )

  abbrev left : ℕ → List ℕ
  left = put a rest free

  abbrev used : ℕ → List ℕ
  used = put a (j ∷ live a) live

  valid : IsSslab i (record s { lock = 0 }) (set_cache a out.1 k) left used
  valid = record {
    released = refl;
    below = ok.below;
    obj_size = ok.obj_size;
    valid = ok.valid;
    zone_released = ok.zone_released;
    distinct = ok.distinct;
    page = ok.page;
    cache = λ b h.
        by_address a b (λ c f l. IsCache c lo f l × (c.obj_size ≡ s.obj_size)) out.1 (k.caches b)
          rest (free b) (j ∷ live a) (live b) (λ e. (got.cache, alloc_size (k.caches a) ∙ size_a))
          (λ ne. ok.cache b h);
  }

  apart_here :
      (m : ℕ)
      → among m (live a) ≡ true
      → (offset s m + s.obj_size ≤ offset s j) ⊎ (offset s j + s.obj_size ≤ offset s m)
  apart_here m h =
      subst (λ n. (slot lo n m + n ≤ slot lo n j) ⊎ (slot lo n j + n ≤ slot lo n m)) size_a
        (got.apart m h)

  apart :
      (b m : ℕ)
      → in_use s live b m ≡ true
      → (address s b m + s.obj_size ≤ address s a j) ⊎ (address s a j + s.obj_size ≤ address s b m)
  apart b m h = elim (ℕ_discrete b a) [
    | yes e ↦ ground (arith, apart_here m (subst (λ x. among m (live x) ≡ true) e (ground arith)))
    | no ne ↦ ground (
      arith,
      pages_apart k.buddy a b (ok.page a listed) (ok.page b (ground arith)) ne,
      inside,
      object_inside i s k free live b m ok h,
    )
  ]

  kept :
      (b m x : ℕ)
      → in_use s live b m ≡ true
      → x < s.obj_size
      → ((set_cache a out.1 k).caches b).memory (offset s m + x)
        ≡ (k.caches b).memory (offset s m + x)
  kept b m x h lt = elim (Bool-cases (b == a)) [
    | inl e ↦ rw e (same (ground (arith, e)))
    | inr e ↦ rw e refl
  ]
    where
      same : b ≡ a → out.1.memory (offset s m + x) ≡ (k.caches b).memory (offset s m + x)
      same e =
          subst
            (λ n.
              (y : ℕ)
              → (y < slot lo n j) ⊎ (slot lo n j + n ≤ y)
              → out.1.memory y ≡ (k.caches a).memory y)
            size_a got.others (offset s m + x)
            (ground (arith, apart_here m (subst (λ y. among m (live y) ≡ true) e (ground arith))))
          ∙ ap (λ y. (k.caches y).memory (offset s m + x)) (sym e)

  now :
      (b m : ℕ) → (among b s.caches && among m (used b)) ≡ (in_use s live b m || (b == a && m == j))
  now b m = elim (Bool-cases (b == a)) [
    | inl e ↦ rw e (here (ground (arith, e)))
    | inr e ↦ rw e (ground arith)
  ]
    where
      here :
          b ≡ a
          → (among b s.caches && among m (j ∷ live a)) ≡ (in_use s live b m || (true && m == j))
      here e =
          subst
            (λ y.
              (among y s.caches && among m (j ∷ live a)) ≡ (in_use s live y m || (true && m == j)))
            (sym e) (ground (arith, listed))

  zeroed : (x : ℕ) → x < s.obj_size → ((set_cache a out.1 k).caches a).memory (offset s j + x) ≡ 0
  zeroed x lt =
      rw self
        (subst (λ n. (y : ℕ) → y < n → out.1.memory (slot lo n j + y) ≡ 0) size_a got.zeroed x lt)
    where
      self : (a == a) ≡ true
      self = ground arith

  not_before : in_use s live a j ≡ false
  not_before = ground (arith, alone.0, among-append j rest (live a))
    where
      alone : Distinct ((j ∷ rest) ++ live a)
      alone = subst (λ xs. Distinct (xs ++ live a)) head (ok.cache a listed).0.distinct

  listed_now : (b : ℕ) → among b s.caches ≡ (among b s.caches || b == a)
  listed_now b = elim (Bool-cases (b == a)) [
    | inl e ↦ rw e (ground (arith, ap (λ y. among y s.caches) (same (ground (arith, e))), listed))
    | inr e ↦ rw e (ground arith)
  ]
    where
      same : b ≡ a → b ≡ a
      same e = e

  -- The first free object of a page of the list is handed out.
  pub take_object :
      Given i s k free live a j (some ((hand_out a k).0, record s { lock = 0 }, (hand_out a k).1))
  take_object = record {
    sslab = record s { lock = 0 };
    state = set_cache a out.1 k;
    free_now = left;
    live_now = used;
    returned = rw hand_out_lem refl;
    valid = valid;
    new = not_before;
    listed_now = λ b. listed_now b;
    now = now;
    apart = apart;
    zeroed = zeroed;
    kept = kept;
    others = λ b ne. ground arith;
    elsewhere = λ b ne. (ground arith, ground arith);
    keeps = record { valid = ok.valid; released = ok.zone_released; pages = λ b h. h };
    mine = λ h. listed;
  }
