-- ===== src/Buddy.antt =====
-- kernel/memory/buddy: blocks of 2^order pages, split and merged with their neighbours. A `struct
-- page*` is the index of the page in `__pages`, and `&__zones[type]` is the number `type`; the list
-- of an area is the list that its ring stands for (ListHead).
pub mod Blocks
pub mod Lists
pub mod Step
pub mod Taken
pub mod Halves
pub mod Same
pub mod Shape
pub mod Address
pub mod InUse
pub mod Normal
pub mod Split
pub mod Merge
pub mod Alloc
pub mod Free
mod Tests
use ord_os.Base.{
  ℕ, zero, suc, ◌+◌, ◌-◌, ◌*◌, ◌^◌, Bool, true, false, ◌&&◌, ◌||◌, not, Option, none, some, List,
  [], ◌∷◌, ◌==◌, ltb, leb, if◌then◌else◌, add32, sub32, not32, bit_and, bit_xor,
}
use ord_os.Spin.{spin_lock, spin_unlock}

-- `MEM_BUDDY_MAX_ORDER`.
abbrev pub max_order : ℕ
max_order = 10

-- `struct page`, less its list node.
pub record Page : Type 0 where
  pub order : ℕ
  pub zone_type : ℕ
  pub reserved : Bool
  pub buddy : Bool

pub record MemArea : Type 0 where
  pub mem_blocks : List ℕ
  pub blocks_free : ℕ

pub record MemZone : Type 0 where
  pub areas : ℕ → MemArea
  pub pg_start : ℕ
  pub pg_cnt : ℕ
  pub pg_free : ℕ
  pub lock : ℕ

-- `__pages` with the number of its entries, `e820_get_pages_cnt()`, and `__zones`.
pub record Buddy : Type 0 where
  pub pages : ℕ → Page
  pub pages_cnt : ℕ
  pub zones : ℕ → MemZone

abbrev pub set_page : ℕ → Page → Buddy → Buddy
set_page p v s = record s { pages = λ q. if q == p then v else s.pages q }

abbrev pub set_zone : ℕ → MemZone → Buddy → Buddy
set_zone z v s = record s { zones = λ y. if y == z then v else s.zones y }

abbrev pub area_of : Buddy → ℕ → ℕ → MemArea
area_of s z order = (s.zones z).areas order

abbrev pub set_area : ℕ → ℕ → MemArea → Buddy → Buddy
set_area z order v s =
    set_zone z (record (s.zones z) { areas = λ o. if o == order then v else area_of s z o }) s

-- The list without an element.
abbrev pub without : ℕ → List ℕ → List ℕ
without p [] = []
without p (x ∷ xs) = let rest = without p xs in if x == p then rest else x ∷ rest

-- `list_del(&page->node)`: the page leaves the list that it is in, whichever that is.
abbrev pub unlink_zone : ℕ → MemZone → MemZone
unlink_zone p z = record z {
  areas = λ o. record (z.areas o) { mem_blocks = without p (z.areas o).mem_blocks };
}

abbrev pub unlink : ℕ → Buddy → Buddy
unlink p s = record s { zones = λ y. unlink_zone p (s.zones y) }

unfoldable pub area_add_page : ℕ → ℕ → ℕ → Buddy → Buddy
area_add_page z order page s =
    let area = area_of s z order in
    set_page page (record (s.pages page) { buddy = true })
      (set_area z order
        (record { mem_blocks = page ∷ area.mem_blocks; blocks_free = add32 area.blocks_free 1 }) s)

unfoldable pub area_remove_page : ℕ → ℕ → ℕ → Buddy → Buddy
area_remove_page z order page s =
    let s1 = unlink page s in
    let area = area_of s1 z order in
    set_page page (record (s1.pages page) { buddy = false })
      (set_area z order (record area { blocks_free = sub32 area.blocks_free 1 }) s1)

abbrev pub set_order : ℕ → ℕ → Buddy → Buddy
set_order page order s = set_page page (record (s.pages page) { order = order }) s

unfoldable pub buddy_page_is_aligned : ℕ → ℕ → Bool
buddy_page_is_aligned page order = bit_and page (2 ^ order - 1) == 0

unfoldable pub buddy_order_to_page_cnt : ℕ → ℕ
buddy_order_to_page_cnt order = 2 ^ order

unfoldable pub page_index_is_overflow : Buddy → ℕ → Bool
page_index_is_overflow s index = leb s.pages_cnt index

unfoldable pub buddy_page_to_buddy : Buddy → ℕ → ℕ → Option ℕ
unfolding page_index_is_overflow
buddy_page_to_buddy s page order =
    let index = bit_xor page (2 ^ order) in
    if page_index_is_overflow s index then none else some index

unfoldable pub buddy_page_ascend : ℕ → ℕ → ℕ
buddy_page_ascend page order = bit_and page (not32 (2 ^ order))

abbrev pub set_lock : ℕ → ℕ → Buddy → Buddy
set_lock z lock s = set_zone z (record (s.zones z) { lock = lock }) s

abbrev pub set_pg_free : ℕ → ℕ → Buddy → Buddy
set_pg_free z pg_free s = set_zone z (record (s.zones z) { pg_free = pg_free }) s

-- The first loop of `buddy_alloc_page`, with the number of orders left; `none` is an order above the
-- largest.
unfoldable pub find_area : ℕ → Buddy → ℕ → ℕ → Option ℕ
find_area zero s z alloc_order = none
find_area (suc n) s z alloc_order =
    let rest = find_area n s z (alloc_order + 1) in
    if ltb 0 (area_of s z alloc_order).blocks_free then some alloc_order else rest

-- The second loop, from order `order + n` down to `order`. `none` is a neighbour past the last page.
unfoldable pub split_loop : ℕ → ℕ → ℕ → ℕ → Buddy → Option (ℕ × Buddy)
split_loop zero z order page s = some (page, s)
split_loop (suc n) z order page s =
    let s' = set_order page (order + n) (area_add_page z (order + n) page s) in
    elim (buddy_page_to_buddy s' page (order + n)) [
      | none ↦ none
      | some half ↦ split_loop n z order half s'
    ]

-- `buddy_alloc_page` from the choice of the area on. `none` is a failed assertion or a null list
-- entry.
unfoldable pub take_block : ℕ → ℕ → ℕ → List ℕ → Buddy → Option (ℕ × Buddy)
take_block z order alloc_order [] s = none
take_block z order alloc_order (page ∷ _) s =
    if not (s.pages page).buddy
    then none
    else elim (split_loop (alloc_order - order) z order page
        (area_remove_page z alloc_order page s)) [
          | none ↦ none
          | some (half, s') ↦
              if (s'.pages half).buddy
              then none
              else some (
                half,
                set_pg_free z (sub32 (s'.zones z).pg_free (buddy_order_to_page_cnt order)) s',
              )
        ]

-- The outer `none` is a failed assertion of the DEBUG build or a lock that is not released, the inner
-- one is the null pointer.
unfoldable pub buddy_alloc_page : Buddy → ℕ → ℕ → Option (Option ℕ × Buddy)
buddy_alloc_page s z order =
    if ltb max_order order then none else elim (spin_lock (s.zones z).lock) [
      | none ↦ none
      | some held ↦
          let s1 = set_lock z held s in
          elim (find_area (suc max_order - order) s1 z order) [
            | none ↦ some (none, set_lock z (spin_unlock held) s1)
            | some alloc_order ↦
                elim (take_block z order alloc_order (area_of s1 z alloc_order).mem_blocks s1) [
                  | none ↦ none
                  | some (page, s2) ↦ some (some page, set_lock z (spin_unlock held) s2)
                ]
          ]
    ]

-- The loop of `buddy_free_page`, with the number of orders left below the largest.
unfoldable pub merge_loop : ℕ → ℕ → ℕ → ℕ → Buddy → ℕ × ℕ × Buddy
merge_loop zero z order page s = (order, page, s)
merge_loop (suc n) z order page s = elim (buddy_page_to_buddy s page order) [
  | none ↦ (order, page, s)
  | some buddy ↦
      let merged =
        merge_loop n z (order + 1) (buddy_page_ascend page order)
          (area_remove_page z order buddy s) in
      if not (s.pages buddy).buddy || not ((s.pages buddy).order == order)
      then (order, page, s)
      else merged
]

-- `buddy_free_page` behind its checks.
unfoldable pub free_block : ℕ → ℕ → ℕ → Buddy → Buddy
free_block z page order s =
    let s1 = set_pg_free z (add32 (s.zones z).pg_free (buddy_order_to_page_cnt order)) s in
    let (order', page', s2) = merge_loop (max_order - order) z order page s1 in
    area_add_page z order' page' (set_order page' order' s2)

unfoldable pub buddy_free_page : Buddy → ℕ → ℕ → Option Buddy
buddy_free_page s page order =
    let z = (s.pages page).zone_type in
    if ltb max_order order || (s.pages page).reserved || (s.pages page).buddy
    then none
    else if not (buddy_page_is_aligned page order)
    then some s
    else elim (spin_lock (s.zones z).lock) [
      | none ↦ none
      | some held ↦
          some (set_lock z (spin_unlock held) (free_block z page order (set_lock z held s)))
    ]
