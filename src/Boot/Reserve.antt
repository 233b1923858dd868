-- ===== src/Boot/Reserve.antt =====
-- Which pages the loops mark as reserved.
use ord_os.Base.{
  ℕ, zero, suc, ◌+◌, ◌*◌, ◌/◌, ◌%◌, ◌^◌, ◌<◌, ◌≡◌, ◌&&◌, ◌||◌, refl, Bool, true, false, Option,
  some, List, [], ◌∷◌, arith, ◌==◌, ltb, leb, if◌then◌else◌, add32, ap, sym, ◌∙◌, ℕ_discrete,
  dec_lt,
}
use ord_os.Buddy.{Page}
use ord_os.Boot.{
  E820Entry, type_ram, page_size, reserve, reserve_loop, e820_pre_init_pages,
  bootmem_pre_init_pages,
}

-- The pages that a loop from `addr` to `limit` marks.
abbrev pub visited : ℕ → ℕ → ℕ → ℕ → Bool
visited cnt addr limit k =
    leb (addr / page_size) k && ltb k cnt && ltb (addr % page_size + k * page_size) limit

-- Exactly the given pages are marked, besides those that were, and nothing else has changed.
pub record Marked (pages : ℕ → Page) (hit : ℕ → Bool) (out : Option (ℕ → Page)) : Type 0 where
  pub after : ℕ → Page
  pub returned : out ≡ some after
  pub marks : (k : ℕ) → after k ≡ record (pages k) { reserved = (pages k).reserved || hit k }

or_true : (b : Bool) → (b || true) ≡ true
or_true true = refl
or_true false = refl

or_false : (b : Bool) → (b || false) ≡ b
or_false true = refl
or_false false = refl

none_hit :
    (pages : ℕ → Page) (hit : ℕ → Bool) (k : ℕ)
    → hit k ≡ false
    → pages k ≡ record (pages k) { reserved = (pages k).reserved || hit k }
none_hit pages hit k e = ap (λ b. record (pages k) { reserved = b }) (sym (or_false _)) ∙ rw e refl

reserve_loop-more :
    (fuel : ℕ) (pages : ℕ → Page) (cnt addr limit : ℕ)
    → addr < limit
    → addr / page_size < cnt
    → reserve_loop (suc fuel) pages cnt addr limit
      ≡ reserve_loop fuel (reserve (addr / page_size) pages) cnt (add32 addr page_size) limit
unfolding reserve_loop
reserve_loop-more fuel pages cnt addr limit below in_range = ground arith

-- The first page and those of the rest of the loop.
visited_more :
    (pages : ℕ → Page) (cnt addr limit k : ℕ)
    → addr < limit
    → addr / page_size < cnt
    → record (reserve (addr / page_size) pages k) {
      reserved =
          (reserve (addr / page_size) pages k).reserved || visited cnt (addr + page_size) limit k;
    }
      ≡ record (pages k) { reserved = (pages k).reserved || visited cnt addr limit k }
visited_more pages cnt addr limit k below in_range = elim (ℕ_discrete k (addr / page_size)) [
  | yes here ↦
      let first : visited cnt addr limit k ≡ true = ground arith in
      let at : (k == addr / page_size) ≡ true = ground arith in
      rw (at, first, or_true (pages k).reserved) refl
  | no other ↦
      let same : visited cnt (addr + page_size) limit k ≡ visited cnt addr limit k = ground arith in
      let at : (k == addr / page_size) ≡ false = ground arith in rw (at, same) refl
]

pub reserve_loop-Marked :
    (fuel : ℕ) (pages : ℕ → Page) (cnt addr limit : ℕ)
    → addr < 2 ^ 32
    → cnt < 2 ^ 20
    → cnt < addr / page_size + fuel
    → 0 < fuel
    → Marked pages (visited cnt addr limit) (reserve_loop fuel pages cnt addr limit)
unfolding reserve_loop
reserve_loop-Marked zero pages cnt addr limit word small enough some_fuel = absurd (omega arith)
reserve_loop-Marked (suc fuel) pages cnt addr limit word small enough some_fuel =
    elim (dec_lt addr limit) [
      | no past ↦ record {
        after = pages;
        returned = ground arith;
        marks = λ k. none_hit pages (visited cnt addr limit) k (ground arith);
      }
      | yes below ↦ elim (dec_lt (addr / page_size) cnt) [
        | no out ↦ record {
          after = pages;
          returned = ground arith;
          marks = λ k. none_hit pages (visited cnt addr limit) k (ground arith);
        }
        | yes in_range ↦
            let next : add32 addr page_size ≡ addr + page_size = omega arith in
            let rest =
              reserve_loop-Marked fuel (reserve (addr / page_size) pages) cnt (addr + page_size)
                limit (omega arith) small (omega arith) (omega arith) in
            record {
              after = rest.after;
              returned =
                  reserve_loop-more fuel pages cnt addr limit below in_range
                  ∙ ap (λ a. reserve_loop fuel (reserve (addr / page_size) pages) cnt a limit) next
                  ∙ rest.returned;
              marks = λ k. rest.marks k ∙ visited_more pages cnt addr limit k below in_range;
            }
      ]
    ]

-- The pages of the entries that are not usable memory; the address of the first page has 32 bits only.
abbrev pub unusable : List E820Entry → ℕ → ℕ → Bool
unusable [] cnt k = false
unusable (e ∷ es) cnt k =
    let rest = unusable es cnt k in
    if e.type == type_ram
    then rest
    else visited cnt (e.base % 2 ^ 32) ((e.base + e.length) % 2 ^ 64) k || rest

pub or_or : (a b c : Bool) → ((a || b) || c) ≡ (a || (b || c))
or_or true b c = refl
or_or false b c = refl

-- `e820_pre_init_pages` ends, and marks exactly the pages of the entries that are not usable memory
-- and those that were marked; nothing else of a page changes.
pub e820_pre_init_pages-Marked :
    (es : List E820Entry) (pages : ℕ → Page) (cnt : ℕ)
    → cnt < 2 ^ 20
    → Marked pages (unusable es cnt) (e820_pre_init_pages es pages cnt)
unfolding e820_pre_init_pages
e820_pre_init_pages-Marked [] pages cnt small = record {
  after = pages;
  returned = refl;
  marks = λ k. none_hit pages (unusable [] cnt) k refl;
}
e820_pre_init_pages-Marked (e ∷ es) pages cnt small = elim (ℕ_discrete e.type type_ram) [
  | yes ram ↦
      let usable : (e.type == type_ram) ≡ true = ground arith in
      let rest = e820_pre_init_pages-Marked es pages cnt small in
      record {
        after = rest.after;
        returned = rw (e820_pre_init_pages, usable) rest.returned;
        marks = λ k. rw usable (rest.marks k);
      }
  | no other ↦
      let usable : (e.type == type_ram) ≡ false = ground arith in
      let first =
        reserve_loop-Marked (suc cnt) pages cnt (e.base % 2 ^ 32) ((e.base + e.length) % 2 ^ 64)
          (omega arith) small (omega arith) (omega arith) in
      let rest = e820_pre_init_pages-Marked es first.after cnt small in
      record {
        after = rest.after;
        returned = rw (e820_pre_init_pages, usable, first.returned) rest.returned;
        marks = λ k.
            rest.marks k
            ∙ ap (join k) (first.marks k)
            ∙ (rw
                (
                  usable,
                  or_or (pages k).reserved
                      (visited cnt (e.base % 2 ^ 32) ((e.base + e.length) % 2 ^ 64) k)
                      (unusable es cnt k),
                )
                refl);
      }
]
  where
    join : ℕ → Page → Page
    join k p = record p { reserved = p.reserved || unusable es cnt k }

-- `bootmem_pre_init_pages` marks exactly the pages from the start of the kernel to the end of what
-- was given out at boot.
pub bootmem_pre_init_pages-Marked :
    (pages : ℕ → Page) (cnt free_mem : ℕ)
    → cnt < 2 ^ 20
    → Marked pages (visited cnt 0x100_0000 free_mem) (bootmem_pre_init_pages pages cnt free_mem)
unfolding bootmem_pre_init_pages
bootmem_pre_init_pages-Marked pages cnt free_mem small =
    reserve_loop-Marked (suc cnt) pages cnt 0x100_0000 free_mem (omega arith) small (omega arith)
      (omega arith)
