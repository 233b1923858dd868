-- ===== src/ListHead/Ring.antt =====
-- What a `struct list_head` stands for: the addresses of its entries, in order.
use ord_os.Base.{
  ℕ, ◌≡◌, refl, true, false, ◌||◌, List, [], ◌∷◌, ◌++◌, arith, ◌==◌, among, Distinct, among-append,
}
use ord_os.ListHead.{Heap}

-- From `p` the `next` pointers lead through `xs` to `q`, and the `prev` pointers lead back.
abbrev pub Links : Heap → ℕ → List ℕ → ℕ → Type 0
Links h p [] q = (h.next p ≡ q) × (h.prev q ≡ p)
Links h p (x ∷ xs) q = (h.next p ≡ x) × (h.prev x ≡ p) × Links h x xs q

-- `head` is the sentinel of a ring through the distinct entries `xs`.
pub record IsRing (h : Heap) (head : ℕ) (xs : List ℕ) : Type 0 where
  pub links : Links h head xs head
  pub out : among head xs ≡ false
  pub distinct : Distinct xs

-- `g` and `h` have the same links at every address that is neither `head` nor in `xs`.
abbrev pub SameOutside : ℕ → List ℕ → Heap → Heap → Type 0
SameOutside head xs h g =
    (a : ℕ) → (a == head || among a xs) ≡ false → (g.next a ≡ h.next a) × (g.prev a ≡ h.prev a)

-- Links survive a change that spares the `next` of `p` and `xs`, and the `prev` of `xs` and `q`.
pub frame :
    (h g : Heap) (p : ℕ) (xs : List ℕ) (q : ℕ)
    → Links h p xs q
    → ((a : ℕ) → (a == p || among a xs) ≡ true → g.next a ≡ h.next a)
    → ((a : ℕ) → (a == q || among a xs) ≡ true → g.prev a ≡ h.prev a)
    → Links g p xs q
frame h g p [] q l n v = ground (arith, n p, v q)
frame h g p (x ∷ xs) q l n v = (
  ground (arith, n p),
  ground (arith, v x),
  frame h g x xs q l.2 (λ a i. n a (ground arith)) (λ a i. v a (ground arith)),
)

-- The predecessor of the end stands in the segment.
pub prev-mem :
    (h : Heap) (p : ℕ) (xs : List ℕ) (q : ℕ)
    → Links h p xs q
    → (h.prev q == p || among (h.prev q) xs) ≡ true
prev-mem h p [] q l = ground arith
prev-mem h p (x ∷ xs) q l = ground (arith, prev-mem h x xs q l.2)

-- The successor of the start stands in the segment.
pub next-mem :
    (h : Heap) (p : ℕ) (xs : List ℕ) (q : ℕ)
    → Links h p xs q
    → (h.next p == q || among (h.next p) xs) ≡ true
next-mem h p [] q l = ground arith
next-mem h p (x ∷ xs) q l = ground arith

pub split :
    (h : Heap) (p : ℕ) (xs : List ℕ) (e : ℕ) (ys : List ℕ) (q : ℕ)
    → Links h p (xs ++ (e ∷ ys)) q
    → Links h p xs e × Links h e ys q
split h p [] e ys q l = ((l.0, l.1), l.2)
split h p (x ∷ xs) e ys q l =
    let (front, back) = split h x xs e ys q l.2 in ((l.0, l.1, front), back)

pub Distinct-append :
    (xs : List ℕ) (e : ℕ) (ys : List ℕ)
    → Distinct (xs ++ (e ∷ ys))
    → Distinct (xs ++ ys) × (among e xs ≡ false) × (among e ys ≡ false)
Distinct-append [] e ys d = (d.1, refl, d.0)
Distinct-append (x ∷ xs) e ys d =
    let (rest, front, back) = Distinct-append xs e ys d.1 in
    (
      (ground (arith, among-append x xs (e ∷ ys), among-append x xs ys), rest),
      ground (arith, among-append x xs (e ∷ ys)),
      back,
    )

pub Distinct-snoc :
    (xs : List ℕ) (e : ℕ) → Distinct xs → among e xs ≡ false → Distinct (xs ++ (e ∷ []))
Distinct-snoc [] e d out = (refl, tt)
Distinct-snoc (x ∷ xs) e d out =
    (ground (arith, among-append x xs (e ∷ [])), Distinct-snoc xs e d.1 (ground arith))
