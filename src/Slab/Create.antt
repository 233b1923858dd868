-- ===== src/Slab/Create.antt =====
-- `sslab_cache_create` builds a page whose objects are all free.
use ord_os.Base.{
  double, ℕ, zero, suc, ◌+◌, ◌-◌, ◌*◌, ◌/◌, ◌≤◌, ◌<◌, ◌^◌, ◌≡◌, inl, refl, Bool, true, false, ◌&&◌,
  ◌||◌, Option, some, List, [], ◌∷◌, arith, ◌==◌, if◌then◌else◌, among, among-append, Distinct,
  length, ◌∙◌, ap, sym, subst, page_size, u16, ltb, leb, full_table, table_entry,
}
use mathlib.Core.List.{append-nil}
use ord_os.Slab.{
  Memory, read16, write16, clear, Cache, header_size, max_order, cut_page, align_up, order_to_size,
  link_loop, sslab_cache_create,
}
use ord_os.Slab.Memory.{read16-write16_self, read16-same}
use ord_os.Slab.FreeList.{IsCache, slot, Chain}
use ord_os.Slab.Laws.{write16_outside}

-- The numbers `k .. k + n - 1`.
abbrev pub count_up : ℕ → ℕ → List ℕ
count_up k zero = []
count_up k (suc n) = k ∷ count_up (suc k) n

length-count_up : (k n : ℕ) → length (count_up k n) ≡ n
length-count_up k zero = refl
length-count_up k (suc n) = ap suc (length-count_up (suc k) n)

among-count_up : (j k n : ℕ) → among j (count_up k n) ≡ true → (k ≤ j) × (j < k + n)
among-count_up j k zero i = absurd (ground arith)
among-count_up j k (suc n) i = ground (arith, among-count_up j (suc k) n)

Distinct-count_up : (k n : ℕ) → Distinct (count_up k n)
Distinct-count_up k zero = tt
Distinct-count_up k (suc n) =
    (ground (arith, among-count_up k (suc k) n), Distinct-count_up (suc k) n)

module _ (lo size : ℕ) (two : 2 ≤ size) where
  -- What is stored in the `next` field of the last object, and of any other.
  abbrev start_of : ℕ → ℕ → ℕ
  start_of k zero = 0
  start_of k (suc n) = slot lo size k

  start_of_next :
      (n k : ℕ)
      → lo + (k + suc n) * size ≡ page_size
      → start_of (suc k) n
        ≡ (if leb page_size (u16 (slot lo size k + size)) then 0 else u16 (slot lo size k + size))
  start_of_next zero k exact = ground (arith, exact)
  start_of_next (suc n) k exact = ground (arith, exact)

  link_loop_step :
      (fuel n k : ℕ) (m : Memory)
      → lo + (k + suc n) * size ≡ page_size
      → link_loop (suc fuel) size (slot lo size k) m
        ≡ link_loop fuel size
            (slot lo size (suc k))
            (write16 m (slot lo size k) (start_of (suc k) n))
  unfolding link_loop
  link_loop_step fuel n k m exact = rw (start_of_next n k exact, next, inside) refl
    where
      inside : ltb (slot lo size k) page_size ≡ true
      inside = ground (arith, exact)

      next : u16 (slot lo size k + size) ≡ slot lo size (suc k)
      next = ground (arith, exact)

  -- The memory `g` links the objects from `k` on, and is `m` before them.
  abbrev Linked : ℕ → ℕ → Memory → Memory → Type 0
  Linked n k m g =
      Chain g lo size (count_up k n) (start_of k n) × ((b : ℕ) → b < slot lo size k → g b ≡ m b)

  link_one :
      (n k : ℕ) (m g : Memory)
      → lo + (k + suc n) * size ≡ page_size
      → Linked n (suc k) (write16 m (slot lo size k) (start_of (suc k) n)) g
      → Linked (suc n) k m g
  link_one n k m g exact linked = (
    (refl, subst (Chain g lo size (count_up (suc k) n)) (sym stored) linked.0),
    λ b h. linked.1 b (omega (arith, h)) ∙ write16_outside m (slot lo size k) _ b (inl h),
  )
    where
      small : start_of (suc k) n < 2 ^ 16
      small = rw (start_of_next n k exact) (ground arith)

      stored : read16 g (slot lo size k) ≡ start_of (suc k) n
      stored =
          read16-same g _ (slot lo size k) (linked.1 _ (omega arith)) (linked.1 _ (omega arith))
          ∙ read16-write16_self m (slot lo size k) _ small

  -- The loop links the objects from `k` on and writes to no byte before them.
  link_loop-Linked :
      (fuel n k : ℕ) (m : Memory)
      → lo + (k + n) * size ≡ page_size
      → n < fuel
      → Linked n k m (link_loop fuel size (slot lo size k) m)
  unfolding link_loop
  link_loop-Linked zero n k m exact enough = absurd (omega arith)
  link_loop-Linked (suc fuel) zero k m exact enough = (refl, λ b h. ground arith)
  link_loop-Linked (suc fuel) (suc n) k m exact enough =
      subst (Linked (suc n) k m) (sym (link_loop_step fuel n k m exact)) (
        link_one n k m _ exact
          (link_loop-Linked fuel n (suc k) _ (grind (arith, exact)) (omega arith)))

  -- The loop links all objects of a page that they fill.
  link_loop-Chain :
      (n : ℕ) (m : Memory)
      → 0 < n
      → lo + n * size ≡ page_size
      → Chain (link_loop page_size size lo m) lo size (count_up 0 n) lo
  link_loop-Chain n m some_object exact =
      subst (λ p. Chain (link_loop page_size size p m) lo size (count_up 0 n) p) first
        (subst (Chain (link_loop page_size size (slot lo size 0) m) lo size (count_up 0 n))
          (start n some_object) (link_loop-Linked page_size n 0 m (ground (arith, exact)) few).0)
    where
      first : slot lo size 0 ≡ lo
      first = omega arith

      start : (n : ℕ) → 0 < n → start_of 0 n ≡ slot lo size 0
      start zero h = absurd (omega arith)
      start (suc n) h = refl

      few : n < page_size
      few = omega (arith, exact, double n size two)

-- The offset of the first object of a page for objects of `size` bytes.
abbrev pub first_object : ℕ → ℕ
unfolding align_up
first_object size = u16 (align_up header_size size)

-- The objects of a size fill the page behind the header.
abbrev fill : ℕ → ℕ → ℕ → Bool
fill size lo n =
    leb 2 size && leb size (2 ^ 10) && leb header_size lo && ltb 0 n && lo + n * size == page_size

abbrev fits : ℕ → Bool
fits i =
    let size = order_to_size (i + 1) in
    fill size (first_object size) ((page_size - first_object size) / size)

all_fit : full_table fits max_order ≡ true
unfolding full_table order_to_size align_up
all_fit = refl

fill_parts :
    (size lo n : ℕ)
    → fill size lo n ≡ true
    → (2 ≤ size) × (size ≤ 2 ^ 10) × (header_size ≤ lo) × (0 < n) × (lo + n * size ≡ page_size)
fill_parts size lo n h = ground (arith, h)

-- What `sslab_cache_create` gives for a size: a page whose objects are all free, in order.
pub record Created (size : ℕ) (out : Option (Option Cache)) : Type 0 where
  pub cache : Cache
  pub returned : out ≡ some (some cache)
  pub obj_size : cache.obj_size ≡ size
  pub obj_cnt : cache.obj_cnt ≡ (page_size - first_object size) / size
  pub some_object : 0 < cache.obj_cnt
  pub no_waste : page_size ≡ first_object size + cache.obj_cnt * size
  pub all_free : IsCache cache (first_object size) (count_up 0 cache.obj_cnt) []

module _ (page : Memory) (size : ℕ) (two : 2 ≤ size) (small : size ≤ 2 ^ 10) where
  -- The page that is built, and the number of its objects.
  abbrev objects : ℕ
  objects = (page_size - first_object size) / size

  abbrev built : Cache
  built = record {
    obj_cnt = objects;
    obj_size = size;
    obj_free = objects;
    object = first_object size;
    memory = link_loop page_size size (first_object size) (clear page 0 page_size);
  }

  built-IsCache :
      header_size ≤ first_object size
      → 0 < objects
      → first_object size + objects * size ≡ page_size
      → IsCache built (first_object size) (count_up 0 objects) []
  built-IsCache header some_object exact = record {
    size = two;
    header = header;
    fits = omega (arith, exact);
    few = few;
    chain = link_loop-Chain (first_object size) size two objects _ some_object exact;
    below =
        λ j h. ground (arith, among-count_up j 0 objects, among-append j (count_up 0 objects) []);
    distinct = subst Distinct (sym (append-nil (count_up 0 objects))) (Distinct-count_up 0 objects);
    free_count = sym (length-count_up 0 objects);
    live_count = omega (arith, length-count_up 0 objects);
  }
    where
      few : objects ≤ page_size
      few = omega (arith, exact, double objects size two)

  created :
      header_size ≤ first_object size
      → 0 < objects
      → first_object size + objects * size ≡ page_size
      → Created size (sslab_cache_create (some page) size)
  unfolding sslab_cache_create cut_page order_to_size
  created header some_object exact = record {
    cache = built;
    returned = rw allowed refl;
    obj_size = refl;
    obj_cnt = refl;
    some_object = some_object;
    no_waste = sym exact;
    all_free = built-IsCache header some_object exact;
  }
    where
      allowed : (ltb (order_to_size max_order) size || size == 0) ≡ false
      allowed = ground (arith, small, two)

-- `sslab_cache_create` for objects of 2, 4, 8, .. 1024 bytes, given a page, cuts it into as many
-- objects as fit behind the header, with no rest, all of them free and linked in order.
pub sslab_cache_create-Created :
    (page : Memory) (i : ℕ)
    → i < max_order
    → Created (order_to_size (i + 1)) (sslab_cache_create (some page) (order_to_size (i + 1)))
sslab_cache_create-Created page i below = created page size parts.0 parts.1 parts.2 parts.3 parts.4
  where
    size : ℕ
    size = order_to_size (i + 1)

    parts :
        (2 ≤ size)
        × (size ≤ 2 ^ 10)
        × (header_size ≤ first_object size)
        × (0 < (page_size - first_object size) / size)
        × (first_object size + (page_size - first_object size) / size * size ≡ page_size)
    parts = fill_parts size (first_object size) _ (table_entry fits i max_order below all_fit)

-- The largest objects start at the first multiple of their size.
pub first_object-largest : first_object (2 ^ 10) ≡ 1024
unfolding first_object
first_object-largest = refl
