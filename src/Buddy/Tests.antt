-- ===== src/Buddy/Tests.antt =====
-- Instances of the theorems on eight pages of the DMA zone, in one free block or in use.
use ord_os.Base.{
  ℕ, ◌≡◌, ◌↔◌, refl, Bool, true, false, ◌&&◌, some, [], ◌∷◌, arith, ◌==◌, if◌then◌else◌, among,
}
use ord_os.Buddy.{
  area_of, set_lock, set_pg_free, set_order, Buddy, Page, MemZone, buddy_alloc_page,
  buddy_free_page, find_area, take_block, split_loop, area_add_page, area_remove_page,
  buddy_page_to_buddy, buddy_order_to_page_cnt, page_index_is_overflow,
}
use ord_os.Spin.{spin_lock}
use ord_os.Buddy.Blocks.{IsBuddy, IsBlock, Held, Free, free_in}
use ord_os.Buddy.Alloc.{Allocated, buddy_alloc_page-Allocated}
use ord_os.Buddy.Free.{Freed, buddy_free_page-Freed, alloc-Free}

abbrev eight_page : Bool → ℕ → Page
eight_page free p = record {
  order = if p == 0 then 3 else 0;
  zone_type = 0;
  reserved = false;
  buddy = free && p == 0;
}

abbrev eight_zone : Bool → ℕ → MemZone
eight_zone free z = record {
  areas = λ o.
      if free && z == 0 && o == 3
      then record { mem_blocks = 0 ∷ []; blocks_free = 1 }
      else record { mem_blocks = []; blocks_free = 0 };
  pg_start = 0;
  pg_cnt = 8;
  pg_free = if free then 8 else 0;
  lock = 0;
}

-- All of the eight pages free, and none of them.
abbrev eight : Bool → Buddy
eight free = record { pages = eight_page free; pages_cnt = 8; zones = eight_zone free }

first : (free : Bool) (p : ℕ) → ((eight free).pages p).buddy ≡ true → p ≡ 0
first true p f = ground arith
first false p f = cc

whole : (free : Bool) → IsBlock (eight free) 0 3
whole free = record {
  order_small = omega arith;
  multiple = 0;
  aligned = refl;
  fits = omega arith;
  usable = λ k lo hi. refl;
}

listed :
    (free : Bool) (z o p : ℕ)
    → among p (area_of (eight free) z o).mem_blocks ≡ free_in (eight free) z o p
listed true z o p = ground arith
listed false z o p = refl

eight-IsBuddy : (free : Bool) → IsBuddy (eight free)
eight-IsBuddy free = record {
  small = omega arith;
  zone = λ p lt. ground arith;
  listed = listed free;
  distinct = λ z o. ground arith;
  counted = λ z o. ground arith;
  block = λ p f. rw (first free p f) (whole free);
  apart = λ p q fp fq ne. absurd (ground arith);
}

all-Held : Held (eight false) 0 3
all-Held = record { is_block = whole false; clear = λ q free. absurd (ground arith) }

buddy_alloc_page-Allocated_example : Allocated (eight true) 0 1 (buddy_alloc_page (eight true) 0 1)
buddy_alloc_page-Allocated_example =
    buddy_alloc_page-Allocated (eight true) 0 1 (eight-IsBuddy true) (omega arith) refl

buddy_free_page-Freed_example : Freed (eight false) 0 3 0 (buddy_free_page (eight false) 0 3)
buddy_free_page-Freed_example =
    buddy_free_page-Freed (eight false) 0 3 (eight-IsBuddy false) all-Held refl

-- The state after the allocation: the halves at 0 and 4 are free, the pages 6 and 7 are in use.
abbrev after : Buddy
after = set_lock 0 0 (
    set_pg_free 0 6 (
      set_order 4 1 (
        area_add_page 0 1 4 (
          set_order 0 2
            (area_add_page 0 2 0 (area_remove_page 0 3 0 (set_lock 0 1 (eight true))))))))

allocated : buddy_alloc_page (eight true) 0 1 ≡ some (some 6, after)
unfolding buddy_alloc_page find_area take_block split_loop area_add_page area_remove_page
    buddy_page_to_buddy page_index_is_overflow buddy_order_to_page_cnt spin_lock
allocated = refl

alloc-Free_example :
    (u : Buddy) × (buddy_free_page after 6 1 ≡ some u)
    × IsBuddy u
    × ((k : ℕ) → Free u k ↔ Free (eight true) k)
alloc-Free_example =
    alloc-Free (eight true) 0 1 6 after (eight-IsBuddy true) (omega arith) refl allocated
