-- ===== src/ListHead/Laws.antt =====
-- The functions of lib/list_head.c refine lists of addresses.
use ord_os.Base.{
  ℕ, ◌≡◌, ◌≢◌, refl, false, ◌||◌, List, [], ◌∷◌, ◌++◌, arith, ◌==◌, among, Distinct, among-append,
}
use ord_os.ListHead.{Heap, list_init, list_add, list_add_tail}
use ord_os.ListHead.Ring.{Links, IsRing, SameOutside, frame, prev-mem, next-mem, Distinct-snoc}

-- `list_init` makes an empty ring and touches no other node.
pub list_init-IsRing :
    (h : Heap) (head : ℕ)
    → IsRing (list_init head h) head [] × SameOutside head [] h (list_init head h)
unfolding list_init
list_init-IsRing h head =
    (record { links = ground arith; out = refl; distinct = tt }, λ a o. ground arith)

-- What a splice of `new` between the last node of a segment and its end leaves in `g`.
record Appended (h g : Heap) (q new : ℕ) : Type 0 where
  last : g.next (h.prev q) ≡ new
  back : g.prev q ≡ new
  next : g.next new ≡ q
  prev : g.prev new ≡ h.prev q
  others_next : (a : ℕ) → a ≢ h.prev q → a ≢ new → g.next a ≡ h.next a
  others_prev : (a : ℕ) → a ≢ q → a ≢ new → g.prev a ≡ h.prev a

Links-snoc :
    (h g : Heap) (p : ℕ) (xs : List ℕ) (q new : ℕ)
    → Appended h g q new
    → Links h p xs q
    → Distinct (p ∷ xs)
    → among q xs ≡ false
    → (new == p || among new xs) ≡ false
    → Links g p (xs ++ (new ∷ [])) q
Links-snoc h g p [] q new s l d o n = ground (arith, s.last, s.back, s.next, s.prev)
Links-snoc h g p (x ∷ xs) q new s l d o n = (
  ground (arith, prev-mem h x xs q l.2, s.others_next p),
  ground (arith, s.others_prev x),
  Links-snoc h g x xs q new s l.2 d.1 (ground arith) (ground arith),
)

-- `list_add_tail` puts `new` behind the last entry, and writes only to the ring and to `new`.
pub list_add_tail-append :
    (h : Heap) (new head : ℕ) (xs : List ℕ)
    → IsRing h head xs
    → (new == head || among new xs) ≡ false
    → IsRing (list_add_tail new head h) head (xs ++ (new ∷ []))
      × SameOutside head (xs ++ (new ∷ [])) h (list_add_tail new head h)
unfolding list_add_tail
list_add_tail-append h new head xs r fresh = (
  record {
    links =
        Links-snoc h (list_add_tail new head h) head xs head new
          (record {
            last = ground arith;
            back = ground arith;
            next = ground (arith, prev-mem h head xs head r.links);
            prev = ground arith;
            others_next = λ a m n. ground arith;
            others_prev = λ a m n. ground arith;
          })
          r.links (r.out, r.distinct) r.out fresh;
    out = ground (arith, among-append head xs (new ∷ []), r.out);
    distinct = Distinct-snoc xs new r.distinct (ground arith);
  },
  λ a o. ground (arith, among-append a xs (new ∷ []), prev-mem h head xs head r.links),
)

-- `list_add` puts `new` before the first entry, and writes only to the ring and to `new`.
pub list_add-cons :
    (h : Heap) (new head : ℕ) (xs : List ℕ)
    → IsRing h head xs
    → (new == head || among new xs) ≡ false
    → IsRing (list_add new head h) head (new ∷ xs)
      × SameOutside head (new ∷ xs) h (list_add new head h)
unfolding list_add
list_add-cons h new head xs r fresh = (
  record {
    links = links xs r.links r.out r.distinct fresh;
    out = ground (arith, r.out);
    distinct = (ground arith, r.distinct);
  },
  λ a o. ground (arith, next-mem h head xs head r.links),
)
  where
    links :
        (ys : List ℕ)
        → Links h head ys head
        → among head ys ≡ false
        → Distinct ys
        → (new == head || among new ys) ≡ false
        → Links (list_add new head h) head (new ∷ ys) head
    links [] l o d n = ground arith
    links (y ∷ ys) l o d n = (
      ground arith,
      ground arith,
      (
        ground arith,
        ground arith,
        frame h (list_add new head h) y ys head l.2 (λ a i. ground arith) (λ a i. ground arith),
      ),
    )
