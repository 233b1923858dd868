-- ===== src/Sslab.antt =====
-- kernel/memory/sslab/sslab.c and the part of kernel/memory/sslab/cache.c that takes and gives back
-- pages: allocators of objects of one size. A page of objects is known by its address.
pub mod Pages
pub mod Objects
pub mod Take
pub mod Grow
pub mod Alloc
pub mod Destroy
pub mod Release
pub mod Free
pub mod Entries
pub mod Given
pub mod Init
pub mod Kmalloc
pub mod Kfree
mod Tests
use ord_os.Base.{
  ℕ, zero, suc, ◌+◌, ◌-◌, ◌*◌, ◌/◌, ◌%◌, ◌^◌, Bool, true, false, Option, none, some, List, [], ◌∷◌,
  ◌++◌, ◌==◌, ltb, if◌then◌else◌, add32, sub32, not32, bit_and, page_size,
}
use ord_os.Spin.{spin_lock, spin_unlock}
use ord_os.Buddy.{Buddy, without, buddy_alloc_page, buddy_free_page}
use ord_os.Buddy.Address.{zone_normal, page_get_virt, page_get_by_virt}
use ord_os.Slab.{
  Memory, Cache, max_order, order_to_size, size_to_order, sslab_cache_create, sslab_cache_alloc,
  sslab_cache_free, sslab_object_in_cache,
}

-- `struct sslab`; its list holds the addresses of its caches.
pub record Sslab : Type 0 where
  pub obj_size : ℕ
  pub caches : List ℕ
  pub lock : ℕ

-- The page allocator, and the cache and the bytes at the address of a page.
pub record Kmem : Type 0 where
  pub buddy : Buddy
  pub caches : ℕ → Cache

abbrev pub set_cache : ℕ → Cache → Kmem → Kmem
set_cache a c k = record k { caches = λ b. if b == a then c else k.caches b }

-- `sslab_cache_create` at the address of the page that was taken.
unfoldable pub create_at : Kmem → Option ℕ → ℕ → Option (Option ℕ × Kmem)
create_at k none obj_size = elim (sslab_cache_create none obj_size) [
  | none ↦ none
  | some _ ↦ some (none, k)
]
create_at k (some page) obj_size = elim (page_get_virt k.buddy page) [
  | none ↦ none
  | some a ↦ elim (sslab_cache_create (some (k.caches a).memory) obj_size) [
    | none ↦ none
    | some none ↦ none
    | some (some c) ↦ some (some a, set_cache a c k)
  ]
]

-- `sslab_cache_create` with the page that it takes; the inner `none` is the null pointer.
unfoldable pub cache_create : Kmem → ℕ → Option (Option ℕ × Kmem)
unfolding create_at
cache_create k obj_size = elim (buddy_alloc_page k.buddy zone_normal 0) [
  | none ↦ none
  | some (page, b) ↦ create_at (record k { buddy = b }) page obj_size
]

-- `sslab_cache_destroy`.
unfoldable pub sslab_cache_destroy : Kmem → ℕ → Option Kmem
sslab_cache_destroy k cache = elim (page_get_by_virt k.buddy cache) [
  | none ↦ none
  | some page ↦ elim (buddy_free_page k.buddy page 0) [
    | none ↦ none
    | some b ↦ some (record k { buddy = b })
  ]
]

-- `sslab_init`; `none` is a failed assertion.
unfoldable pub sslab_init : ℕ → Option Sslab
sslab_init obj_size =
    if ltb (order_to_size max_order) obj_size
    then none
    else some (record { obj_size = obj_size; caches = []; lock = 0 })

-- The loop of `sslab_alloc`.
unfoldable pub find_free : List ℕ → (ℕ → Cache) → Option ℕ
find_free [] caches = none
find_free (a ∷ rest) caches =
    let later = find_free rest caches in if ltb 0 (caches a).obj_free then some a else later

-- `sslab_cache_alloc` of the cache at an address; the object is an address.
unfoldable pub hand_out : ℕ → Kmem → Option ℕ × Kmem
hand_out a k =
    let (obj, c) = sslab_cache_alloc (k.caches a) in
    (elim obj [ none ↦ none | some offset ↦ some (add32 a offset) ], set_cache a c k)

-- `sslab_alloc` behind `sslab_cache_create`.
unfoldable pub alloc_fresh : Option ℕ → ℕ → Sslab → Kmem → Option ℕ × Sslab × Kmem
alloc_fresh none held s k = (none, record s { lock = spin_unlock held }, k)
alloc_fresh (some a) held s k =
    let (obj, k') = hand_out a k in
    (obj, record s { caches = s.caches ++ (a ∷ []); lock = spin_unlock held }, k')

-- The outer `none` is a failed assertion or a lock that is not released, the inner one the null
-- pointer.
unfoldable pub sslab_alloc : Sslab → Kmem → Option (Option ℕ × Sslab × Kmem)
sslab_alloc s k = elim (spin_lock s.lock) [
  | none ↦ none
  | some held ↦ elim (find_free s.caches k.caches) [
    | some a ↦ let (obj, k') = hand_out a k in some (obj, record s { lock = spin_unlock held }, k')
    | none ↦ elim (cache_create k s.obj_size) [
      | none ↦ none
      | some (cache, k') ↦ some (alloc_fresh cache held s k')
    ]
  ]
]

-- The loop of `sslab_free`.
unfoldable pub find_owner : List ℕ → ℕ → Option ℕ
find_owner [] obj = none
find_owner (a ∷ rest) obj =
    let later = find_owner rest obj in if sslab_object_in_cache obj a then some a else later

-- `sslab_free` from `sslab_cache_free` on, but for the lock.
unfoldable pub give_back : ℕ → ℕ → Sslab → Kmem → Option (Sslab × Kmem)
unfolding sslab_cache_destroy
give_back a obj s k =
    let c = sslab_cache_free (k.caches a) (sub32 obj a) in
    if c.obj_free == c.obj_cnt
    then elim (sslab_cache_destroy (set_cache a c k) a) [
      | none ↦ none
      | some k' ↦ some (record s { caches = without a s.caches }, k')
    ]
    else some (s, set_cache a c k)

-- `none` is a failed assertion, a lock that is not released, or a write to another page than the one
-- that was found.
unfoldable pub sslab_free : Sslab → ℕ → Kmem → Option (Sslab × Kmem)
unfolding give_back
sslab_free s obj k = elim (spin_lock s.lock) [
  | none ↦ none
  | some held ↦ elim (find_owner s.caches obj) [
    | none ↦ none
    | some a ↦
        if ltb (sub32 obj a) page_size
        then elim (give_back a obj s k) [
          | none ↦ none
          | some (s', k') ↦ some (record s' { lock = spin_unlock held }, k')
        ]
        else none
  ]
]

-- `sslab_object_to_cache`.
unfoldable pub sslab_object_to_cache : ℕ → ℕ
sslab_object_to_cache obj = bit_and obj (not32 (page_size - 1))

-- `__sslab`, and `init_sslab`.
abbrev pub Sslabs : Type 0
Sslabs = ℕ → Sslab

abbrev pub set_sslab : ℕ → Sslab → Sslabs → Sslabs
set_sslab i s t j = if j == i then s else t j

-- The loop of `init_sslab`, with the number of rounds left.
unfoldable pub init_loop : ℕ → ℕ → Sslabs → Option Sslabs
init_loop zero i t = some t
init_loop (suc n) i t = elim (sslab_init (order_to_size i)) [
  | none ↦ none
  | some s ↦ init_loop n (i + 1) (set_sslab i s t)
]

unfoldable pub init_sslab : Sslabs → Option Sslabs
init_sslab t = init_loop (max_order + 1) 0 t

-- `sslab_global_alloc` once the order is known.
unfoldable pub alloc_order : ℕ → Sslabs → Kmem → Option (Option ℕ × Sslabs × Kmem)
alloc_order order t k = if ltb max_order order then none else elim (sslab_alloc (t order) k) [
  | none ↦ none
  | some (obj, s, k') ↦ some (obj, set_sslab order s t, k')
]

-- `sslab_global_alloc`, which is `kmalloc`.
unfoldable pub sslab_global_alloc : ℕ → Sslabs → Kmem → Option (Option ℕ × Sslabs × Kmem)
unfolding alloc_order
sslab_global_alloc size t k = elim (size_to_order size) [
  | none ↦ none
  | some order ↦ alloc_order order t k
]

-- `sslab_global_free` once the order is known.
unfoldable pub free_order : ℕ → ℕ → Sslabs → Kmem → Option (Sslabs × Kmem)
unfolding sslab_free
free_order order obj t k = if ltb max_order order then none else elim (sslab_free (t order) obj k) [
  | none ↦ none
  | some (s, k') ↦ some (set_sslab order s t, k')
]

-- `sslab_global_free`, which is `kfree`.
unfoldable pub sslab_global_free : ℕ → Sslabs → Kmem → Option (Sslabs × Kmem)
unfolding free_order
sslab_global_free obj t k =
    if obj == 0
    then some (t, k)
    else elim (size_to_order (k.caches (sslab_object_to_cache obj)).obj_size) [
      | none ↦ none
      | some order ↦ free_order order obj t k
    ]
