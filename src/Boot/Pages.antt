-- ===== src/Boot/Pages.antt =====
-- Which pages are marked as reserved at boot, and the number of pages.
use ord_os.Base.{
  ℕ, ◌+◌, ◌-◌, ◌*◌, ◌%◌, ◌^◌, ◌≤◌, ◌<◌, ◌≡◌, ◌&&◌, ◌||◌, refl, Bool, true, false, some, List, [],
  ◌∷◌, arith, ◌==◌, ltb, leb, if◌then◌else◌, ap, ◌∙◌, ℕ_discrete,
}
use ord_os.Buddy.{Page}
use ord_os.Boot.{
  E820Entry, type_ram, page_size, e820_pre_init_pages, bootmem_pre_init_pages, memory_size_loop,
  e820_get_memory_size, e820_get_pages_cnt,
}
use ord_os.Boot.Reserve.{
  visited, Marked, unusable, or_or, e820_pre_init_pages-Marked, bootmem_pre_init_pages-Marked,
}

-- The number of pages that `e820_get_pages_cnt` gives is below 2^20, if the cache holds a 32-bit size.
memory_size_loop_bound :
    (es : List E820Entry) (mem_end : ℕ) → mem_end < 2 ^ 32 → memory_size_loop es mem_end < 2 ^ 32
unfolding memory_size_loop
memory_size_loop_bound [] mem_end small = small
memory_size_loop_bound (e ∷ es) mem_end small = ground (
  arith,
  memory_size_loop_bound es (((e.base + e.length) % 2 ^ 64) % 2 ^ 32) (omega arith),
  memory_size_loop_bound es mem_end small,
)

e820_get_pages_cnt_bound :
    (es : List E820Entry) (cached : ℕ) → cached < 2 ^ 32 → e820_get_pages_cnt es cached < 2 ^ 20
unfolding e820_get_pages_cnt e820_get_memory_size
e820_get_pages_cnt_bound es cached small = ground (arith, memory_size_loop_bound es 0 (omega arith))

-- The two calls one after the other, by the addresses that their loops visit.
boot_pages-visited :
    (es : List E820Entry) (pages : ℕ → Page) (cached free_mem : ℕ)
    → cached < 2 ^ 32
    → (pages' : ℕ → Page) × (e820_pre_init_pages es pages (e820_get_pages_cnt es cached)
        ≡ some pages')
      × Marked pages
          (λ k.
            unusable es (e820_get_pages_cnt es cached) k
            || visited (e820_get_pages_cnt es cached) 0x100_0000 free_mem k)
          (bootmem_pre_init_pages pages' (e820_get_pages_cnt es cached) free_mem)
boot_pages-visited es pages cached free_mem small =
    let cnt = e820_get_pages_cnt es cached in
    let bound = e820_get_pages_cnt_bound es cached small in
    let first = e820_pre_init_pages-Marked es pages cnt bound in
    let second = bootmem_pre_init_pages-Marked first.after cnt free_mem bound in
    (
      first.after,
      first.returned,
      record {
        after = second.after;
        returned = second.returned;
        marks = λ k.
            second.marks k
            ∙ ap (join k) (first.marks k)
            ∙ ap (λ b. record (pages k) { reserved = b })
                (or_or (pages k).reserved (unusable es cnt k) (visited cnt 0x100_0000 free_mem k));
      },
    )
  where
    join : ℕ → Page → Page
    join k p = record p {
      reserved = p.reserved || visited (e820_get_pages_cnt es cached) 0x100_0000 free_mem k;
    }

-- A page that has a byte from `base` on and below `limit`.
abbrev pub overlaps : ℕ → ℕ → ℕ → Bool
overlaps base limit k = ltb base ((k + 1) * page_size) && ltb (k * page_size) limit

-- A page that has a byte of an entry that is not usable memory.
abbrev pub unusable_page : List E820Entry → ℕ → Bool
unusable_page [] k = false
unusable_page (e ∷ es) k =
    let rest = unusable_page es k in
    if e.type == type_ram then rest else overlaps e.base (e.base + e.length) k || rest

-- An entry that is not usable memory begins below 4 GiB and ends below 2^64, and its first byte lies
-- no later in its page than its last byte does in its own.
abbrev pub placed : List E820Entry → Bool
placed [] = true
placed (e ∷ es) =
    let rest = placed es in
    (e.type == type_ram
      || (ltb e.base (2 ^ 32)
          && ltb (e.base + e.length) (2 ^ 64)
          && leb (e.base % page_size) ((e.base + e.length - 1) % page_size)))
    && rest

visited-overlaps :
    (cnt base limit k : ℕ)
    → base % page_size ≤ (limit - 1) % page_size
    → visited cnt base limit k ≡ (ltb k cnt && overlaps base limit k)
visited-overlaps cnt base limit k order = ground (arith, order)

both : (c a b : Bool) → ((c && a) || (c && b)) ≡ (c && (a || b))
both true a b = refl
both false a b = refl

unusable-unusable_page :
    (es : List E820Entry) (cnt k : ℕ)
    → placed es ≡ true
    → unusable es cnt k ≡ (ltb k cnt && unusable_page es k)
unusable-unusable_page [] cnt k h = ground arith
unusable-unusable_page (e ∷ es) cnt k h = elim (ℕ_discrete e.type type_ram) [
  | yes ram ↦
      let usable : (e.type == type_ram) ≡ true = ground arith in
      let rest : placed es ≡ true = ground arith in rw usable (unusable-unusable_page es cnt k rest)
  | no other ↦
      let usable : (e.type == type_ram) ≡ false = ground arith in
      let rest : placed es ≡ true = ground arith in
      let begins : e.base < 2 ^ 32 = ground arith in
      let ends : e.base + e.length < 2 ^ 64 = ground arith in
      let order : e.base % page_size ≤ (e.base + e.length - 1) % page_size = ground arith in
      let low : e.base % 2 ^ 32 ≡ e.base = omega arith in
      let top : (e.base + e.length) % 2 ^ 64 ≡ e.base + e.length = omega arith in
      rw
        (
          usable,
          low,
          top,
          visited-overlaps cnt e.base (e.base + e.length) k order,
          unusable-unusable_page es cnt k rest,
        )
        (both (ltb k cnt) (overlaps e.base (e.base + e.length) k) (unusable_page es k))
]

-- The pages that `init_page` marks as reserved, if the entries of the memory map that are not usable
-- memory begin below 4 GiB, end below 2^64, and begin no later in their first page than they end in
-- their last: exactly those that have a byte of such an entry, or one between the start of the kernel
-- and the end of what was given out at boot, and those that were marked before. Nothing else of a
-- page changes, and both calls end.
pub boot_pages-Marked :
    (es : List E820Entry) (pages : ℕ → Page) (cached free_mem : ℕ)
    → cached < 2 ^ 32
    → placed es ≡ true
    → (pages' : ℕ → Page) × (e820_pre_init_pages es pages (e820_get_pages_cnt es cached)
        ≡ some pages')
      × Marked pages
          (λ k.
            ltb k (e820_get_pages_cnt es cached)
            && (unusable_page es k || overlaps 0x100_0000 free_mem k))
          (bootmem_pre_init_pages pages' (e820_get_pages_cnt es cached) free_mem)
boot_pages-Marked es pages cached free_mem small h =
    let (pages', ended, m) = boot_pages-visited es pages cached free_mem small in
    (
      pages',
      ended,
      record {
        after = m.after;
        returned = m.returned;
        marks = λ k. m.marks k ∙ ap (reserving k) (same k);
      },
    )
  where
    cnt : ℕ
    cnt = e820_get_pages_cnt es cached

    reserving : ℕ → Bool → Page
    reserving k b = record (pages k) { reserved = (pages k).reserved || b }

    same :
        (k : ℕ)
        → (unusable es cnt k || visited cnt 0x100_0000 free_mem k)
          ≡ (ltb k cnt && (unusable_page es k || overlaps 0x100_0000 free_mem k))
    same k =
        rw
          (
            unusable-unusable_page es cnt k h,
            visited-overlaps cnt 0x100_0000 free_mem k (omega arith),
          )
          (both (ltb k cnt) (unusable_page es k) (overlaps 0x100_0000 free_mem k))
