-- ===== src/Sslab/Free.antt =====
-- `sslab_free`: an object goes back to its page, and a page without objects in use to the buddy
-- allocator.
use ord_os.Base.{
  ℕ, ◌+◌, ◌≤◌, ◌<◌, ◌^◌, ◌≡◌, ◌≢◌, refl, true, false, some, List, [], ◌∷◌, ◌++◌, arith, among,
  among-append, ◌∙◌, ap, subst, ltb, sub32, page_size,
}
use ord_os.Buddy.InUse.{IsPage, page_address, pages_apart}
use ord_os.Spin.Laws.{spin_lock_released}
use ord_os.Slab.{sslab_object_in_cache}
use ord_os.Slab.Laws.{sslab_object_in_cache_lem}
use ord_os.Sslab.{Sslab, Kmem, find_owner, sslab_free}
use ord_os.Sslab.Objects.{IsSslab, offset, address}
use ord_os.Sslab.Release.{Released, released, inside, found}

-- The loop finds the page of an object, if no page before it in the list lies above the object.
find_owner_lem :
    (front back : List ℕ) (a obj : ℕ)
    → a ≤ obj
    → obj < a + page_size
    → 0xc000_0000 ≤ a
    → obj < 2 ^ 32
    → ((b : ℕ) → among b front ≡ true → (b + page_size ≤ a) × (0xc000_0000 ≤ b))
    → find_owner (front ++ (a ∷ back)) obj ≡ some a
unfolding find_owner
find_owner_lem [] back a obj lo hi high word before = rw (find_owner, here) refl
  where
    here : sslab_object_in_cache obj a ≡ true
    here =
        ground
          (arith, sslab_object_in_cache_lem obj a word (omega arith) (omega arith) (omega arith))
find_owner_lem (x ∷ front) back a obj lo hi high word before =
    rw (find_owner, not_x)
      (find_owner_lem front back a obj lo hi high word (λ b h. before b (ground (arith, h))))
  where
    below : (x + page_size ≤ a) × (0xc000_0000 ≤ x)
    below = before x (ground arith)

    not_x : sslab_object_in_cache obj x ≡ false
    not_x = ground (
      arith,
      below,
      sslab_object_in_cache_lem obj x word (omega (arith, below)) (omega (arith, below))
          (omega (arith, below)),
    )

-- `sslab_free` of an object in use of an allocator in order, when no page before its own in the list
-- lies above it, returns with the allocator in order again: exactly that object is no longer in use,
-- the bytes of the objects in use have not changed, and the page goes back to the buddy allocator if
-- and only if none of its objects is in use any more.
pub sslab_free-Released :
    (i : ℕ) (s : Sslab) (k : Kmem) (free live : ℕ → List ℕ) (front back : List ℕ) (a j : ℕ)
    (before after : List ℕ)
    → IsSslab i s k free live
    → s.caches ≡ front ++ (a ∷ back)
    → live a ≡ before ++ (j ∷ after)
    → ((b : ℕ) → among b front ≡ true → b < a)
    → Released i s k free live a j (sslab_free s (address s a j) k)
unfolding sslab_free
sslab_free-Released i s k free live front back a j before after ok where_it_is held below =
    rw (sslab_free, spin_lock_released s.lock ok.released, owner, in_page)
      (released i s k free live a j before after ok listed held)
  where
    listed : among a s.caches ≡ true
    listed = rw where_it_is (ground (arith, among-append a front (a ∷ back)))

    low : (b : ℕ) → among b front ≡ true → (b + page_size ≤ a) × (0xc000_0000 ≤ b)
    low b h = (
      ground (arith, pages_apart k.buddy a b (ok.page a listed) page_b (ne (below b h)), below b h),
      omega (arith, page_b.address),
    )
      where
        ne : b < a → b ≢ a
        ne lt e = omega arith

        page_b : IsPage k.buddy b
        page_b = ok.page b (rw where_it_is (ground (arith, among-append b front (a ∷ back))))

    size_facts :
        (offset s j + s.obj_size ≤ page_size)
        × (2 ≤ s.obj_size)
        × (a + page_size ≤ 2 ^ 32)
        × (0xc000_0000 ≤ a)
    size_facts = (
      inside i s k free live a j before after ok listed held,
      subst (λ n. 2 ≤ n) (ok.cache a listed).1 (ok.cache a listed).0.size,
      page_address k.buddy a ok.valid (ok.page a listed),
      omega (arith, (ok.page a listed).address),
    )

    owner : find_owner s.caches (address s a j) ≡ some a
    owner =
        ap (λ xs. find_owner xs (address s a j)) where_it_is
        ∙ find_owner_lem front back a (address s a j) (omega arith) (omega (arith, size_facts))
            size_facts.3 (omega (arith, size_facts)) low

    in_page : ltb (sub32 (address s a j) a) page_size ≡ true
    in_page = ground (arith, found i s k free live a j before after ok listed held, size_facts)
