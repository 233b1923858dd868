-- ===== src/Slab/Laws.antt =====
-- `sslab_cache_alloc`, `sslab_cache_free` and the test whether an object belongs to a page.
use mathlib.Core.List.{append_assoc}
use ord_os.Base.{
  ℕ, suc, ◌+◌, ◌≤◌, ◌<◌, ◌^◌, ◌≡◌, ◌⊎◌, refl, true, false, Option, none, some, List, [], ◌∷◌, ◌++◌,
  arith, among, among-append, Distinct, length, length-append, sym, subst, page_size, u16, ltb,
}
use ord_os.ListHead.Ring.{Distinct-append}
use ord_os.Slab.{
  Memory, read16, write16, clear, Cache, sslab_cache_alloc, sslab_cache_free, sslab_object_in_cache,
}
use ord_os.Slab.Memory.{read16-write16_self, read16-write16_far, read16-clear_far}
use ord_os.Slab.FreeList.{
  IsCache, slot, Chain-frame, Chain-start, slot_far, slot_inside, Distinct-move,
}

-- The bytes of object `k`.
abbrev pub SameElsewhere : Memory → Memory → ℕ → ℕ → Type 0
SameElsewhere m g a n = (b : ℕ) → (b < a) ⊎ (a + n ≤ b) → g b ≡ m b

-- An object is handed out: the first of the chain, inside the page, zeroed, and clear of every
-- object that is handed out already; no other byte of the page changes.
pub record Got (c : Cache) (lo k : ℕ) (free live : List ℕ) (out : Option ℕ × Cache) : Type 0 where
  pub object : out.0 ≡ some (slot lo c.obj_size k)
  pub inside : slot lo c.obj_size k + c.obj_size ≤ page_size
  pub apart :
      (j : ℕ)
      → among j live ≡ true
      → (slot lo c.obj_size j + c.obj_size ≤ slot lo c.obj_size k)
        ⊎ (slot lo c.obj_size k + c.obj_size ≤ slot lo c.obj_size j)
  pub zeroed : (i : ℕ) → i < c.obj_size → out.1.memory (slot lo c.obj_size k + i) ≡ 0
  pub others : SameElsewhere c.memory out.1.memory (slot lo c.obj_size k) c.obj_size
  pub cache : IsCache out.1 lo free (k ∷ live)

-- What `sslab_cache_alloc` does with the free objects of a page.
abbrev pub Allocated : Cache → ℕ → List ℕ → List ℕ → Option ℕ × Cache → Type 0
Allocated c lo [] live out = out ≡ (none, c)
Allocated c lo (k ∷ free) live out = Got c lo k free live out

alloc_step :
    (c : Cache) (n : ℕ)
    → c.obj_free ≡ suc n
    → sslab_cache_alloc c ≡ (
      some c.object,
      record c {
        object = read16 c.memory c.object;
        obj_free = n;
        memory = clear c.memory c.object c.obj_size;
      },
    )
unfolding sslab_cache_alloc
alloc_step c n e = ground arith

clear_inside : (m : Memory) (a n i : ℕ) → i < n → clear m a n (a + i) ≡ 0
unfolding clear
clear_inside m a n i h = ground arith

clear_outside : (m : Memory) (a n b : ℕ) → (b < a) ⊎ (a + n ≤ b) → clear m a n b ≡ m b
unfolding clear
clear_outside m a n b h = ground arith

pub write16_outside : (m : Memory) (a v b : ℕ) → (b < a) ⊎ (a + 2 ≤ b) → write16 m a v b ≡ m b
unfolding write16
write16_outside m a v b h = ground arith

-- `sslab_cache_alloc` hands out the first object of the free list, which overlaps no object in use,
-- zeroed, and changes nothing else of the page; with no free object it returns null.
pub sslab_cache_alloc-Allocated :
    (c : Cache) (lo : ℕ) (free live : List ℕ)
    → IsCache c lo free live
    → Allocated c lo free live (sslab_cache_alloc c)
unfolding sslab_cache_alloc
sslab_cache_alloc-Allocated c lo [] live ok = ground (arith, ok.free_count)
sslab_cache_alloc-Allocated c lo (k ∷ free) live ok =
    rw (alloc_step c (length free) ok.free_count, ok.chain.0)
      (record {
        object = refl;
        inside = slot_inside lo c.obj_size c.obj_cnt k ok.fits (ok.below k (ground arith));
        apart = λ j i.
            slot_far lo c.obj_size j k (ground (arith, ok.distinct.0, among-append k free live));
        zeroed = clear_inside c.memory (slot lo c.obj_size k) c.obj_size;
        others = clear_outside c.memory (slot lo c.obj_size k) c.obj_size;
        cache = record {
          size = ok.size;
          header = ok.header;
          fits = ok.fits;
          few = ok.few;
          chain = Chain-frame c.memory _ lo c.obj_size free _ ok.chain.1 (λ j i.
              read16-clear_far c.memory (slot lo c.obj_size k) c.obj_size (slot lo c.obj_size j)
                (spare j i));
          below = λ j i.
              ok.below j (ground (arith, among-append j free live, among-append j free (k ∷ live)));
          distinct = Distinct-move k free live ok.distinct;
          free_count = refl;
          live_count = omega (arith, ok.live_count);
        };
      })
  where
    spare :
        (j : ℕ)
        → among j free ≡ true
        → (slot lo c.obj_size k + c.obj_size ≤ slot lo c.obj_size j)
          ⊎ (slot lo c.obj_size j + 2 ≤ slot lo c.obj_size k)
    spare j i = ground (
      arith,
      slot_far lo c.obj_size j k (ground (arith, ok.distinct.0, among-append k free live)),
      ok.size,
    )

-- `sslab_cache_free` of an object in use puts it at the head of the free list, and changes no byte of
-- the page but the two that link it.
pub sslab_cache_free-IsCache :
    (c : Cache) (lo k : ℕ) (free before after : List ℕ)
    → IsCache c lo free (before ++ (k ∷ after))
    → IsCache (sslab_cache_free c (slot lo c.obj_size k)) lo (k ∷ free) (before ++ after)
      × SameElsewhere c.memory
          (sslab_cache_free c (slot lo c.obj_size k)).memory
          (slot lo c.obj_size k)
          2
unfolding sslab_cache_free
sslab_cache_free-IsCache c lo k free before after ok = (
  rw small (record {
    size = ok.size;
    header = ok.header;
    fits = ok.fits;
    few = ok.few;
    chain = (
      refl,
      rw (read16-write16_self c.memory a c.object start) (
          Chain-frame c.memory (write16 c.memory a c.object) lo c.obj_size free _ ok.chain λ j i.
            read16-write16_far c.memory a (slot lo c.obj_size j) c.object (
              ground
                (arith, slot_far lo c.obj_size j k, ok.size, parts.1, among-append k free before))),
    );
    below = λ j i. ok.below j (
        ground (
          arith,
          among-append j free (before ++ after),
          among-append j before after,
          among-append j free (before ++ (k ∷ after)),
          among-append j before (k ∷ after),
        ));
    distinct = (
      ground (
        arith,
        parts.1,
        parts.2,
        among-append k free before,
        among-append k free (before ++ after),
        among-append k before after,
      ),
      subst Distinct (append_assoc free before after) parts.0,
    );
    free_count = omega (arith, ok.free_count, ok.live_count, ok.few);
    live_count =
        omega (arith, ok.live_count, length-append before after, length-append before (k ∷ after));
  }),
  λ b h. far b h,
)
  where
    a : ℕ
    a = slot lo c.obj_size k

    parts :
        Distinct ((free ++ before) ++ after)
        × (among k (free ++ before) ≡ false)
        × (among k after ≡ false)
    parts =
        Distinct-append (free ++ before) k after
          (subst Distinct (sym (append_assoc free before (k ∷ after))) ok.distinct)

    inside : a + c.obj_size ≤ page_size
    inside = slot_inside lo c.obj_size c.obj_cnt k ok.fits (
        ok.below k (
          ground (
            arith,
            among-append k free (before ++ (k ∷ after)),
            among-append k before (k ∷ after),
          )))

    small : u16 a ≡ a
    small = omega (arith, inside)

    start : c.object < 2 ^ 16
    start =
        Chain-start c.memory lo c.obj_size c.obj_cnt free c.object ok.chain
          (λ j i. ok.below j (ground (arith, among-append j free (before ++ (k ∷ after))))) ok.fits
          ok.size

    far : (b : ℕ) → (b < a) ⊎ (a + 2 ≤ b) → write16 c.memory a c.object b ≡ c.memory b
    far b h = write16_outside c.memory a c.object b h

-- `sslab_object_in_cache`, for a page and an object less than 2 GiB apart: right for an object behind
-- the start of the page, but true of every object that lies before it.
pub sslab_object_in_cache_lem :
    (obj cache : ℕ)
    → obj < 2 ^ 32
    → cache < 2 ^ 32
    → obj < cache + 2 ^ 31
    → cache ≤ obj + 2 ^ 31
    → sslab_object_in_cache obj cache ≡ ltb obj (cache + page_size)
unfolding sslab_object_in_cache
sslab_object_in_cache_lem obj cache ho hc near near' = ground arith
