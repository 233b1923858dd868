-- ===== src/Buddy/InUse.antt =====
-- Single pages of normal memory that are in use, at the addresses where the kernel sees them.
use ord_os.Base.{
  ℕ, ◌+◌, ◌≤◌, ◌<◌, ◌^◌, ◌≡◌, ◌≢◌, ◌⊎◌, ◌↔◌, inl, inr, refl, true, Option, none, some, arith, ◌∙◌,
  sym, subst, ap, page_size,
}
use ord_os.Buddy.{Buddy, buddy_alloc_page, buddy_free_page}
use ord_os.Buddy.Blocks.{IsBuddy, Held, Free, InBlock, zone_of}
use ord_os.Buddy.Free.{Freed, buddy_free_page-Freed}
use ord_os.Buddy.Alloc.{Taken, buddy_alloc_page-Allocated}
use ord_os.Buddy.Shape.{
  KeepsShapeAlone, buddy_free_page-KeepsShape, SameShape, KeepsShape, buddy_alloc_page-KeepsShape,
  IsUsed-Held, Held-not_Free,
}
use ord_os.Buddy.Address.{virt_of, zone_normal}

-- The address of a page of normal memory that is in use.
pub record IsPage (s : Buddy) (a : ℕ) : Type 0 where
  pub page : ℕ
  pub address : a ≡ virt_of page
  pub zone : (s.pages page).zone_type ≡ zone_normal
  pub held : Held s page 0

pub page_low :
    (s : Buddy) (p : ℕ)
    → IsBuddy s
    → Held s p 0
    → (s.pages p).zone_type ≡ zone_normal
    → (p < s.pages_cnt) × (p < 0x30000)
page_low s p ok held zone = (
  omega (arith, held.is_block.fits),
  normal (sym (ok.zone p (omega (arith, held.is_block.fits))) ∙ zone),
)
  where
    normal : zone_of p ≡ 1 → p < 0x30000
    normal e = ground arith

-- Nothing that was in use is taken away, and the page allocator is left in order.
pub record Keeps (s t : Buddy) : Type 0 where
  pub valid : IsBuddy t
  pub released : (t.zones zone_normal).lock ≡ 0
  pub pages : (a : ℕ) → IsPage s a → IsPage t a

pub IsPage-kept :
    (s t : Buddy) (a : ℕ)
    → IsBuddy s
    → IsBuddy t
    → SameShape s t
    → ((p : ℕ) → a ≡ virt_of p → Free t p → Free s p)
    → IsPage s a
    → IsPage t a
IsPage-kept s t a ok ok' shape back h = record {
  page = h.page;
  address = h.address;
  zone = shape.zone h.page ∙ h.zone;
  held =
      IsUsed-Held t h.page ok' (omega (arith, shape.cnt, h.held.is_block.fits))
        (shape.reserved h.page ∙ h.held.is_block.usable h.page (omega arith) (omega arith))
        (λ f. Held-not_Free s h.page h.held (back h.page h.address f));
}

-- Pages of normal memory lie below the end of the address space, a page apart.
pub page_address : (s : Buddy) (a : ℕ) → IsBuddy s → IsPage s a → a + page_size ≤ 2 ^ 32
page_address s a ok h =
    let low = page_low s h.page ok h.held h.zone in omega (arith, low.1, h.address)

pub pages_apart :
    (s : Buddy) (a b : ℕ)
    → IsPage s a
    → IsPage s b
    → b ≢ a
    → (a + page_size ≤ b) ⊎ (b + page_size ≤ a)
pages_apart s a b h g ne = omega (arith, h.address, g.address, ne)

pub virt-low :
    (s : Buddy) (p : ℕ) → IsBuddy s → IsPage s (virt_of p) → (p < s.pages_cnt) × (p < 0x30000)
virt-low s p ok h =
    let low = page_low s h.page ok h.held h.zone in
    (omega (arith, low.0, h.address), omega (arith, low.1, h.address))

-- What the allocation of one page of normal memory gives: null, if none is free, or a page that was
-- not in use.
abbrev pub OneTaken : Buddy → Option ℕ → Buddy → Type 0
OneTaken s none t =
    ((p : ℕ) → (s.pages p).buddy ≡ true → (s.pages p).zone_type ≢ zone_normal)
    × ((q : ℕ) → Free s q ↔ Free t q)
OneTaken s (some p) t =
    IsPage t (virt_of p)
    × ¬ IsPage s (virt_of p)
    × ((q : ℕ) → Free s q ↔ (Free t q ⊎ InBlock p 0 q))

pub record OnePage (s : Buddy) (out : Option (Option ℕ × Buddy)) : Type 0 where
  pub page : Option ℕ
  pub state : Buddy
  pub returned : out ≡ some (page, state)
  pub keeps : Keeps s state
  pub taken : OneTaken s page state

pub one_page :
    (s : Buddy)
    → IsBuddy s
    → (s.zones zone_normal).lock ≡ 0
    → OnePage s (buddy_alloc_page s zone_normal 0)
one_page s ok released =
    let a = buddy_alloc_page-Allocated s zone_normal 0 ok (omega arith) released in
    let shape : SameShape s a.state =
      subst (KeepsShape s) a.returned (buddy_alloc_page-KeepsShape s zone_normal 0) in
    record {
      page = a.page;
      state = a.state;
      returned = a.returned;
      keeps = record {
        valid = a.valid;
        released = a.released;
        pages = λ b h.
            IsPage-kept s a.state b ok a.valid shape (λ p e f. before a.page a.state a.taken p f) h;
      };
      taken = by_page a.page a.state a.taken;
    }
  where
    before :
        (page : Option ℕ) (t : Buddy) → Taken s zone_normal 0 page t → (p : ℕ) → Free t p → Free s p
    before none t taken p f = (taken.1 p).1 f
    before (some q) t taken p f = (taken.2 p).1 (inl f)

    virt_of-injective : (p q : ℕ) → virt_of p ≡ virt_of q → p ≡ q
    virt_of-injective p q e = omega (arith, e)

    by_page : (page : Option ℕ) (t : Buddy) → Taken s zone_normal 0 page t → OneTaken s page t
    by_page none t taken = (λ p free zone. absurd (omega (arith, taken.0 p free zone)), taken.1)
    by_page (some p) t taken = (
      record { page = p; address = refl; zone = taken.1; held = taken.0 },
      λ old.
          Held-not_Free s old.page old.held
            ((taken.2 old.page).1 (inr (ground (arith, virt_of-injective p old.page old.address)))),
      taken.2,
    )

-- What giving back one page of normal memory does.
pub record PageFreed (s : Buddy) (p : ℕ) (out : Option Buddy) : Type 0 where
  pub state : Buddy
  pub returned : out ≡ some state
  pub valid : IsBuddy state
  pub released : (state.zones zone_normal).lock ≡ 0
  pub pages : (a : ℕ) → a ≢ virt_of p → IsPage s a → IsPage state a
  pub freed : (q : ℕ) → Free state q ↔ (Free s q ⊎ InBlock p 0 q)

pub page_freed :
    (s : Buddy) (p : ℕ)
    → IsBuddy s
    → (s.zones zone_normal).lock ≡ 0
    → Held s p 0
    → (s.pages p).zone_type ≡ zone_normal
    → PageFreed s p (buddy_free_page s p 0)
page_freed s p ok released held zone = record {
  state = back.state;
  returned = back.returned;
  valid = back.valid;
  released = subst (λ z. (back.state.zones z).lock ≡ 0) zone back.released;
  pages = λ a ne. IsPage-kept s back.state a ok back.valid shape (λ q e. before a q ne e);
  freed = back.freed;
}
  where
    back : Freed s p 0 (s.pages p).zone_type (buddy_free_page s p 0)
    back = buddy_free_page-Freed s p 0 ok held (ap (λ z. (s.zones z).lock) zone ∙ released)

    shape : SameShape s back.state
    shape = subst (KeepsShapeAlone s) back.returned (buddy_free_page-KeepsShape s p 0)

    before : (a q : ℕ) → a ≢ virt_of p → a ≡ virt_of q → Free back.state q → Free s q
    before a q ne e f = elim ((back.freed q).0 f) [
      | inl old ↦ old
      | inr here ↦ absurd (ne (omega (arith, e, here.0, here.1)))
    ]

-- The same for a page that is known by its address.
pub page_at-PageFreed :
    (s : Buddy) (p : ℕ)
    → IsBuddy s
    → (s.zones zone_normal).lock ≡ 0
    → IsPage s (virt_of p)
    → PageFreed s p (buddy_free_page s p 0)
page_at-PageFreed s p ok released h =
    subst (λ q. PageFreed s q (buddy_free_page s q 0)) same
      (page_freed s h.page ok released h.held h.zone)
  where
    same : h.page ≡ p
    same = omega (arith, h.address)
