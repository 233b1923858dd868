-- ===== src/Slab.antt =====
-- kernel/memory/sslab/cache.c: a page cut into objects of one size. A free object holds the offset of
-- the next free one in its first two bytes. Addresses are offsets in the page; the header, which
-- lies before the first object, is the record.
pub mod Memory
pub mod FreeList
pub mod Create
pub mod Order
pub mod Laws
mod Tests
use ord_os.Base.{
  ℕ, zero, suc, ◌+◌, ◌-◌, ◌*◌, ◌/◌, ◌%◌, ◌^◌, Bool, true, false, ◌&&◌, ◌||◌, Option, none, some,
  ◌==◌, ltb, leb, if◌then◌else◌, u16, add32, sub32, not32, bit_and, page_size,
}

-- The bytes of the page.
abbrev pub Memory : Type 0
Memory = ℕ → ℕ

-- `obj->next`, a little-endian `u16` at offset `a`, read and written.
unfoldable pub read16 : Memory → ℕ → ℕ
read16 m a = m a + 256 * m (a + 1)

unfoldable pub write16 : Memory → ℕ → ℕ → Memory
write16 m a v b = if b == a then v % 256 else if b == a + 1 then v / 256 % 256 else m b

-- `memset` to 0 of `n` bytes from `a` on.
unfoldable pub clear : Memory → ℕ → ℕ → Memory
clear m a n b = if leb a b && ltb b (a + n) then 0 else m b

-- `struct sslab_cache`, less its list node, and the page.
pub record Cache : Type 0 where
  pub obj_cnt : ℕ
  pub obj_size : ℕ
  pub obj_free : ℕ
  pub object : ℕ
  pub memory : Memory

-- `sizeof(struct sslab_cache)` on i386, and `ALIGN_UP`.
abbrev pub header_size : ℕ
header_size = 24

unfoldable pub align_up : ℕ → ℕ → ℕ
align_up x a = bit_and (sub32 (add32 x a) 1) (not32 (sub32 a 1))

-- `sslab_order_to_size` for orders below 31, and the loop of `sslab_size_to_order` with fuel: one round
-- for each bit of `base` and one more, after which `base` is 0 and the loop never ends.
unfoldable pub order_to_size : ℕ → ℕ
order_to_size order = 2 ^ order

unfoldable pub order_loop : ℕ → ℕ → ℕ → ℕ → Option ℕ
order_loop zero base order size = none
order_loop (suc fuel) base order size =
    let more = order_loop fuel (base * 2 % 2 ^ 32) (order + 1) size in
    if ltb base size then more else some order

unfoldable pub size_to_order : ℕ → Option ℕ
unfolding order_loop
size_to_order size = order_loop 33 1 0 size

-- The loop of `sslab_cache_create` that links the objects, with fuel; `i` is a `u16`.
unfoldable pub link_loop : ℕ → ℕ → ℕ → Memory → Memory
link_loop zero size i m = m
link_loop (suc fuel) size i m =
    let next = u16 (i + size) in
    let m' = write16 m i (if leb page_size next then 0 else next) in
    let rest = link_loop fuel size next m' in if ltb i page_size then rest else m

-- `MEM_SSLAB_MAX_ORDER`.
abbrev pub max_order : ℕ
max_order = 10

-- The page that the buddy allocator gave, if any, filled with zeros and cut into objects.
unfoldable pub cut_page : Option Memory → ℕ → Option Cache
unfolding align_up link_loop
cut_page none obj_size = none
cut_page (some page) obj_size =
    let first = u16 (align_up header_size obj_size) in
    let cnt = (page_size - first) / obj_size in
    some (record {
      obj_cnt = cnt;
      obj_size = obj_size;
      obj_free = cnt;
      object = first;
      memory = link_loop page_size obj_size first (clear page 0 page_size);
    })

-- The outer `none` is a failed assertion, or the loop that never ends for objects of no bytes; the
-- inner one is the null pointer that the function returns when the buddy allocator gave no page.
unfoldable pub sslab_cache_create : Option Memory → ℕ → Option (Option Cache)
unfolding cut_page order_to_size
sslab_cache_create page obj_size =
    if ltb (order_to_size max_order) obj_size || obj_size == 0
    then none
    else some (cut_page page obj_size)

unfoldable pub sslab_cache_alloc : Cache → Option ℕ × Cache
sslab_cache_alloc c = if c.obj_free == 0 then (none, c) else (
  some c.object,
  record c {
    object = read16 c.memory c.object;
    obj_free = c.obj_free - 1;
    memory = clear c.memory c.object c.obj_size;
  },
)

-- `obj` is the offset of an object of this page.
unfoldable pub sslab_cache_free : Cache → ℕ → Cache
sslab_cache_free c obj = record c {
  memory = write16 c.memory obj c.object;
  object = u16 obj;
  obj_free = add32 c.obj_free 1;
}

-- `sslab_object_in_cache` on two addresses: the difference of two `void*` is a signed 32-bit number,
-- compared with the `int` 0x1000.
unfoldable pub sslab_object_in_cache : ℕ → ℕ → Bool
sslab_object_in_cache obj cache = let d = sub32 obj cache in leb (2 ^ 31) d || ltb d page_size
