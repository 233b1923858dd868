-- ===== src/Vpage/Walk.antt =====
-- How the processor translates an address, and a table in order.
use ord_os.Base.{
  ℕ, ◌+◌, ◌-◌, ◌*◌, ◌/◌, ◌%◌, ◌<◌, ◌^◌, ◌≡◌, ◌≢◌, refl, Option, none, some, ◌==◌, if◌then◌else◌,
  arith, ap, ◌∙◌, sym, bit_and, bit_or, not32, bit_and-high, bit_and-mask, bit_or-high, page_size,
}
use ord_os.Buddy.Blocks.{IsBuddy}
use ord_os.Buddy.Address.{zone_normal, kernel_vstart}
use ord_os.Buddy.InUse.{IsPage}
use ord_os.Vpage.{Paging, page_pte_index, page_paddr, page_pde_desc, is_present}

-- The address of a page that an entry leads to, if its present bit is set.
abbrev pub leads_to : ℕ → Option ℕ
leads_to w = if w % 2 == 1 then some (w / 2 ^ 12 * 2 ^ 12) else none

-- The physical address behind a virtual one, through the directory at physical address `cr`.
abbrev pub in_table : Paging → Option ℕ → ℕ → Option ℕ
in_table s none v = none
in_table s (some pt) v = elim (leads_to (s.words (kernel_vstart + pt) (v / 2 ^ 12 % 2 ^ 10))) [
  | none ↦ none
  | some base ↦ some (base + v % 2 ^ 12)
]

abbrev pub walk : Paging → ℕ → ℕ → Option ℕ
walk s cr v = in_table s (leads_to (s.words (kernel_vstart + cr) (v / 2 ^ 22))) v

-- The directory and the tables of user space are different pages in use.
abbrev pub Directed : Paging → ℕ → ℕ → ℕ → Type 0
Directed s cr i pt = leads_to (s.words (kernel_vstart + cr) i) ≡ some pt

pub record IsPaging (cr : ℕ) (s : Paging) : Type 0 where
  pub valid : IsBuddy s.buddy
  pub released : (s.buddy.zones zone_normal).lock ≡ 0
  pub directory : IsPage s.buddy (kernel_vstart + cr)
  pub word : (i : ℕ) → s.words (kernel_vstart + cr) i < 2 ^ 32
  pub table : (i pt : ℕ) → i < 768 → Directed s cr i pt → IsPage s.buddy (kernel_vstart + pt)
  pub not_directory : (i pt : ℕ) → i < 768 → Directed s cr i pt → pt ≢ cr
  pub own : (i j pt : ℕ) → i < 768 → j < 768 → Directed s cr i pt → Directed s cr j pt → i ≡ j

-- The bit operations of the source.
pub page_pte_index_lem : (v : ℕ) → page_pte_index v ≡ v / 2 ^ 12 % 2 ^ 10
unfolding page_pte_index
page_pte_index_lem v =
    ap (λ x. bit_and x (2 ^ 10 - 1)) split
    ∙ bit_and-mask 10 (v / 2 ^ 12 / 2 ^ 10) (v / 2 ^ 12 % 2 ^ 10) (omega arith)
  where
    split : v / 2 ^ 12 ≡ v / 2 ^ 12 / 2 ^ 10 * 2 ^ 10 + v / 2 ^ 12 % 2 ^ 10
    split = omega arith

pub page_paddr_lem : (w : ℕ) → w < 2 ^ 32 → page_paddr w ≡ w / 2 ^ 12 * 2 ^ 12
unfolding page_paddr
page_paddr_lem w small =
    ap (λ x. bit_and x (not32 (page_size - 1))) split
    ∙ bit_and-high 12 (w / 2 ^ 12) (w % 2 ^ 12) (2 ^ 20 - 1) (omega arith)
    ∙ ap (λ x. x * 2 ^ 12)
        (ap (λ x. bit_and x (2 ^ 20 - 1)) whole
          ∙ bit_and-mask 20 0 (w / 2 ^ 12) (omega (arith, small)))
  where
    split : w ≡ w / 2 ^ 12 * 2 ^ 12 + w % 2 ^ 12
    split = omega arith

    whole : w / 2 ^ 12 ≡ 0 * 2 ^ 20 + w / 2 ^ 12
    whole = omega arith

pub is_present_lem : (w : ℕ) → is_present w ≡ w % 2
unfolding is_present
is_present_lem w =
    ap (λ x. bit_and x (2 ^ 1 - 1)) split ∙ bit_and-mask 1 (w / 2) (w % 2) (omega arith)
  where
    split : w ≡ w / 2 * 2 ^ 1 + w % 2
    split = omega arith

-- The entry for page `p`, present, writable and for user code.
pub page_pde_desc_lem : (p : ℕ) → page_pde_desc (p * page_size) 1 1 1 ≡ p * page_size + 7
unfolding page_pde_desc
page_pde_desc_lem p =
    ap (λ x. bit_or (bit_or (bit_or x 1) 2) 4) first
    ∙ ap (λ x. bit_or (bit_or x 2) 4) (bit_or-high 12 p 0 1 (omega arith) (omega arith))
    ∙ ap (λ x. bit_or x 4) (bit_or-high 12 p 1 2 (omega arith) (omega arith))
    ∙ bit_or-high 12 p 3 4 (omega arith) (omega arith)
    ∙ last
  where
    first : p * page_size ≡ p * 2 ^ 12 + 0
    first = omega arith

    last : p * 2 ^ 12 + 7 ≡ p * page_size + 7
    last = omega arith

-- Two states that agree on what the translation of an address reads.
pub walk-same :
    (s s' : Paging) (cr v : ℕ)
    → s'.words (kernel_vstart + cr) (v / 2 ^ 22) ≡ s.words (kernel_vstart + cr) (v / 2 ^ 22)
    → ((pt : ℕ)
        → Directed s cr (v / 2 ^ 22) pt
        → s'.words (kernel_vstart + pt) (v / 2 ^ 12 % 2 ^ 10)
          ≡ s.words (kernel_vstart + pt) (v / 2 ^ 12 % 2 ^ 10))
    → walk s' cr v ≡ walk s cr v
walk-same s s' cr v e h = rw e (by_table (leads_to (s.words (kernel_vstart + cr) (v / 2 ^ 22))) h)
  where
    by_table :
        (o : Option ℕ)
        → ((pt : ℕ)
            → o ≡ some pt
            → s'.words (kernel_vstart + pt) (v / 2 ^ 12 % 2 ^ 10)
              ≡ s.words (kernel_vstart + pt) (v / 2 ^ 12 % 2 ^ 10))
        → in_table s' o v ≡ in_table s o v
    by_table none h = refl
    by_table (some pt) h = rw (in_table, h pt refl) refl

-- A translation in its two steps.
pub walk-steps :
    (s : Paging) (cr v pt base : ℕ)
    → Directed s cr (v / 2 ^ 22) pt
    → leads_to (s.words (kernel_vstart + pt) (v / 2 ^ 12 % 2 ^ 10)) ≡ some base
    → walk s cr v ≡ some (base + v % 2 ^ 12)
walk-steps s cr v pt base e e' = rw (e, in_table, e') refl

-- An address whose table has no entry, or that has no table.
pub walk-none :
    (s : Paging) (cr v pt : ℕ)
    → Directed s cr (v / 2 ^ 22) pt
    → leads_to (s.words (kernel_vstart + pt) (v / 2 ^ 12 % 2 ^ 10)) ≡ none
    → walk s cr v ≡ none
walk-none s cr v pt e e' = rw (e, in_table, e') refl

pub no_table :
    (s : Paging) (cr v : ℕ)
    → leads_to (s.words (kernel_vstart + cr) (v / 2 ^ 22)) ≡ none
    → walk s cr v ≡ none
no_table s cr v e = rw e refl

-- An entry that was written for page `p` leads to it.
pub leads_to-page : (p : ℕ) → leads_to (p * page_size + 7) ≡ some (p * page_size)
leads_to-page p = ground arith

-- A directory whose words have not changed.
pub IsPaging-kept :
    (s s' : Paging) (cr : ℕ)
    → IsPaging cr s
    → IsBuddy s'.buddy
    → (s'.buddy.zones zone_normal).lock ≡ 0
    → ((a : ℕ) → IsPage s.buddy a → IsPage s'.buddy a)
    → ((i : ℕ) → s'.words (kernel_vstart + cr) i ≡ s.words (kernel_vstart + cr) i)
    → IsPaging cr s'
IsPaging-kept s s' cr ok valid released pages same = record {
  valid = valid;
  released = released;
  directory = pages (kernel_vstart + cr) ok.directory;
  word = λ i. rw (same i) (ok.word i);
  table = λ i pt lt d. pages (kernel_vstart + pt) (ok.table i pt lt (before i pt d));
  not_directory = λ i pt lt d. ok.not_directory i pt lt (before i pt d);
  own = λ i j pt hi hj d d'. ok.own i j pt hi hj (before i pt d) (before j pt d');
}
  where
    before : (i pt : ℕ) → Directed s' cr i pt → Directed s cr i pt
    before i pt d = ap leads_to (sym (same i)) ∙ d
