-- ===== src/Sslab/Objects.antt =====
-- The objects of an allocator: which are in use, where they lie, and handing one out.
use ord_os.Base.{
  ℕ, ◌+◌, ◌≤◌, ◌<◌, ◌≡◌, ◌≢◌, ◌⊎◌, inl, inr, Bool, true, false, ◌&&◌, ◌||◌, ◌==◌, if◌then◌else◌,
  Option, some, List, arith, among, among-append, Distinct, subst, Bool-cases, page_size,
}
use ord_os.Buddy.InUse.{IsPage, Keeps}
use ord_os.Buddy.Address.{zone_normal}
use ord_os.Buddy.Blocks.{IsBuddy}
use ord_os.Slab.{Cache, max_order, order_to_size, sslab_cache_alloc}
use ord_os.Slab.FreeList.{IsCache, slot, slot_inside}
use ord_os.Slab.Create.{first_object}
use ord_os.Sslab.{Sslab, Kmem}

-- The allocator of objects of `2 ^ (i + 1)` bytes: the pages of its list are different pages of normal
-- memory, each with its free objects and those in use.
pub record IsSslab (i : ℕ) (s : Sslab) (k : Kmem) (free live : ℕ → List ℕ) : Type 0 where
  pub released : s.lock ≡ 0
  pub below : i < max_order
  pub obj_size : s.obj_size ≡ order_to_size (i + 1)
  pub valid : IsBuddy k.buddy
  pub zone_released : (k.buddy.zones zone_normal).lock ≡ 0
  pub distinct : Distinct s.caches
  pub page : (a : ℕ) → among a s.caches ≡ true → IsPage k.buddy a
  pub cache :
      (a : ℕ)
      → among a s.caches ≡ true
      → IsCache (k.caches a) (first_object s.obj_size) (free a) (live a)
        × ((k.caches a).obj_size ≡ s.obj_size)

-- Object `m` of the page at `b` is in use.
abbrev pub in_use : Sslab → (ℕ → List ℕ) → ℕ → ℕ → Bool
in_use s live b m = among b s.caches && among m (live b)

-- Its offset and its address.
abbrev pub offset : Sslab → ℕ → ℕ
offset s m = slot (first_object s.obj_size) s.obj_size m

abbrev pub address : Sslab → ℕ → ℕ → ℕ
address s b m = b + offset s m

-- The function with another value at one argument.
abbrev pub put {ℓ} : {A : Type ℓ} → ℕ → A → (ℕ → A) → ℕ → A
put a x f b = if b == a then x else f b

-- An object that was not in use is handed out: it overlaps none that is, its bytes are 0, and the
-- bytes of the others have not changed.
pub record Given (i : ℕ) (s : Sslab) (k : Kmem) (free live : ℕ → List ℕ) (page index : ℕ)
    (out : Option (Option ℕ × Sslab × Kmem)) : Type 0 where
  pub sslab : Sslab
  pub state : Kmem
  pub free_now : ℕ → List ℕ
  pub live_now : ℕ → List ℕ
  pub returned : out ≡ some (some (address s page index), sslab, state)
  pub valid : IsSslab i sslab state free_now live_now
  pub new : in_use s live page index ≡ false
  pub listed_now : (b : ℕ) → among b sslab.caches ≡ (among b s.caches || b == page)
  pub now : (b m : ℕ) → in_use sslab live_now b m ≡ (in_use s live b m || (b == page && m == index))
  pub apart :
      (b m : ℕ)
      → in_use s live b m ≡ true
      → (address s b m + s.obj_size ≤ address s page index)
        ⊎ (address s page index + s.obj_size ≤ address s b m)
  pub zeroed : (x : ℕ) → x < s.obj_size → (state.caches page).memory (offset s index + x) ≡ 0
  pub kept :
      (b m x : ℕ)
      → in_use s live b m ≡ true
      → x < s.obj_size
      → (state.caches b).memory (offset s m + x) ≡ (k.caches b).memory (offset s m + x)
  pub others : (b : ℕ) → b ≢ page → state.caches b ≡ k.caches b
  pub elsewhere : (b : ℕ) → b ≢ page → (free_now b ≡ free b) × (live_now b ≡ live b)
  pub keeps : Keeps k.buddy state.buddy
  pub mine : IsPage k.buddy page → among page s.caches ≡ true

-- One of two cases at each address.
pub by_address :
    (a b : ℕ) (P : Cache → List ℕ → List ℕ → Type 0) (c d : Cache) (f g l h : List ℕ)
    → (b ≡ a → P c f l)
    → (b ≢ a → P d g h)
    → P (if b == a then c else d) (if b == a then f else g) (if b == a then l else h)
by_address a b P c d f g l h same other = elim (Bool-cases (b == a)) [
  | inl e ↦ rw e (same (ground (arith, e)))
  | inr e ↦ rw e (other (ground (arith, e)))
]

pub alloc_size : (c : Cache) → (sslab_cache_alloc c).1.obj_size ≡ c.obj_size
unfolding sslab_cache_alloc
alloc_size c = ground arith

-- An allocator is in order as long as its own pages are.
pub IsSslab-kept :
    (i : ℕ) (s : Sslab) (k k' : Kmem) (free live free' live' : ℕ → List ℕ)
    → IsSslab i s k free live
    → IsBuddy k'.buddy
    → (k'.buddy.zones zone_normal).lock ≡ 0
    → ((b : ℕ)
        → among b s.caches ≡ true
        → IsPage k'.buddy b × (k'.caches b ≡ k.caches b) × (free' b ≡ free b) × (live' b ≡ live b))
    → IsSslab i s k' free' live'
IsSslab-kept i s k k' free live free' live' ok valid released same = record {
  released = ok.released;
  below = ok.below;
  obj_size = ok.obj_size;
  valid = valid;
  zone_released = released;
  distinct = ok.distinct;
  page = λ b h. (same b h).0;
  cache = λ b h. rw ((same b h).1, (same b h).2, (same b h).3) (ok.cache b h);
}

-- An object in use lies in its page.
pub object_inside :
    (i : ℕ) (s : Sslab) (k : Kmem) (free live : ℕ → List ℕ) (b m : ℕ)
    → IsSslab i s k free live
    → in_use s live b m ≡ true
    → offset s m + s.obj_size ≤ page_size
object_inside i s k free live b m ok h =
    let both = ok.cache b (ground arith) in
    subst (λ n. slot (first_object s.obj_size) n m + n ≤ page_size) both.1
      (slot_inside (first_object s.obj_size) (k.caches b).obj_size (k.caches b).obj_cnt m
        both.0.fits (both.0.below m (ground (arith, among-append m (free b) (live b)))))
