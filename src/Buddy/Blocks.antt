-- ===== src/Buddy/Blocks.antt =====
-- The blocks of pages, and what it means for the pages and the lists of the areas to agree.
use ord_os.Base.{
  ℕ, ◌+◌, ◌*◌, ◌≤◌, ◌<◌, ◌^◌, ◌≡◌, ◌≢◌, ◌⊎◌, Bool, true, false, ◌&&◌, ◌==◌, if◌then◌else◌, ltb,
  among, Distinct, length, add32, sub32, ◌∷◌,
}
use ord_os.Buddy.{Buddy, area_of, max_order, without}

-- The zone of a page: 16 MiB for DMA, normal memory up to 768 MiB, high memory behind it.
abbrev pub zone_of : ℕ → ℕ
zone_of p = if ltb p 0x1000 then 0 else if ltb p 0x30000 then 1 else 2

-- `2 ^ order` usable pages from `page` on, aligned to their number.
pub record IsBlock (s : Buddy) (page order : ℕ) : Type 0 where
  pub order_small : order ≤ max_order
  pub multiple : ℕ
  pub aligned : page ≡ multiple * 2 ^ order
  pub fits : page + 2 ^ order ≤ s.pages_cnt
  pub usable : (k : ℕ) → page ≤ k → k < page + 2 ^ order → (s.pages k).reserved ≡ false

-- Two blocks have no page in common.
abbrev pub Apart : ℕ → ℕ → ℕ → ℕ → Type 0
Apart p o q r = (p + 2 ^ o ≤ q) ⊎ (q + 2 ^ r ≤ p)

-- Block `p` of order `o` is free and on the list of area `o` of zone `z`.
abbrev pub free_in : Buddy → ℕ → ℕ → ℕ → Bool
free_in s z o p = (s.pages p).buddy && (s.pages p).zone_type == z && (s.pages p).order == o

pub record IsBuddy (s : Buddy) : Type 0 where
  pub small : s.pages_cnt ≤ 2 ^ 20
  pub zone : (p : ℕ) → p < s.pages_cnt → (s.pages p).zone_type ≡ zone_of p
  pub listed : (z o p : ℕ) → among p (area_of s z o).mem_blocks ≡ free_in s z o p
  pub distinct : (z o : ℕ) → Distinct (area_of s z o).mem_blocks
  pub counted : (z o : ℕ) → (area_of s z o).blocks_free ≡ length (area_of s z o).mem_blocks
  pub block : (p : ℕ) → (s.pages p).buddy ≡ true → IsBlock s p (s.pages p).order
  pub apart :
      (p q : ℕ)
      → (s.pages p).buddy ≡ true
      → (s.pages q).buddy ≡ true
      → p ≢ q
      → Apart p (s.pages p).order q (s.pages q).order

-- A block that is handed out: it is in use, no free block meets it.
pub record Held (s : Buddy) (page order : ℕ) : Type 0 where
  pub is_block : IsBlock s page order
  pub clear : (q : ℕ) → (s.pages q).buddy ≡ true → Apart page order q (s.pages q).order

-- Page `k` lies in a free block.
abbrev pub Free : Buddy → ℕ → Type 0
Free s k = (p : ℕ) × ((s.pages p).buddy ≡ true) × (p ≤ k) × (k < p + 2 ^ (s.pages p).order)

abbrev pub InBlock : ℕ → ℕ → ℕ → Type 0
InBlock page order k = (page ≤ k) × (k < page + 2 ^ order)

-- `t` is `s` with the block `page` put into area `o` of zone `z`.
pub record Added (s t : Buddy) (z o page : ℕ) : Type 0 where
  pub same_cnt : t.pages_cnt ≡ s.pages_cnt
  pub same_zone : (q : ℕ) → (t.pages q).zone_type ≡ (s.pages q).zone_type
  pub same_reserved : (q : ℕ) → (t.pages q).reserved ≡ (s.pages q).reserved
  pub buddies : (q : ℕ) → (t.pages q).buddy ≡ (if q == page then true else (s.pages q).buddy)
  pub orders : (q : ℕ) → (t.pages q).order ≡ (if q == page then o else (s.pages q).order)
  pub lists :
      (y r : ℕ)
      → (area_of t y r).mem_blocks ≡ (
          if y == z && r == o
          then page ∷ (area_of s y r).mem_blocks
          else (area_of s y r).mem_blocks)
  pub counts :
      (y r : ℕ)
      → (area_of t y r).blocks_free ≡ (
          if y == z && r == o
          then add32 (area_of s y r).blocks_free 1
          else (area_of s y r).blocks_free)

-- `t` is `s` with the block `page` taken out of area `o` of zone `z`.
pub record Removed (s t : Buddy) (z o page : ℕ) : Type 0 where
  pub same_cnt : t.pages_cnt ≡ s.pages_cnt
  pub same_zone : (q : ℕ) → (t.pages q).zone_type ≡ (s.pages q).zone_type
  pub same_reserved : (q : ℕ) → (t.pages q).reserved ≡ (s.pages q).reserved
  pub buddies : (q : ℕ) → (t.pages q).buddy ≡ (if q == page then false else (s.pages q).buddy)
  pub orders : (q : ℕ) → (t.pages q).order ≡ (s.pages q).order
  pub lists : (y r : ℕ) → (area_of t y r).mem_blocks ≡ without page (area_of s y r).mem_blocks
  pub counts :
      (y r : ℕ)
      → (area_of t y r).blocks_free ≡ (
          if y == z && r == o
          then sub32 (area_of s y r).blocks_free 1
          else (area_of s y r).blocks_free)
