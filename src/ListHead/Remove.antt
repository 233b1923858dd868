-- ===== src/ListHead/Remove.antt =====
-- `list_del`, `list_empty` and `list_pop` of lib/list_head.c refine lists of addresses.
use ord_os.Base.{
  ℕ, ◌≡◌, refl, true, false, ◌||◌, Option, none, some, List, [], ◌∷◌, ◌++◌, arith, ◌==◌, among,
  Distinct, among-append,
}
use ord_os.ListHead.{Heap, list_del, list_empty, list_pop}
use ord_os.ListHead.Ring.{
  Links, IsRing, SameOutside, frame, prev-mem, next-mem, split, Distinct-append,
}

-- Both ends of the segment behind `e` are joined to the node before it.
Links-close :
    (h : Heap) (p e : ℕ) (ys : List ℕ) (q : ℕ)
    → h.prev e ≡ p
    → Links h e ys q
    → Distinct (e ∷ ys)
    → (p == e || among p ys) ≡ false
    → (q == e || among q ys) ≡ false
    → Links (list_del e h) p ys q
unfolding list_del
Links-close h p e [] q b l d o n = ground arith
Links-close h p e (y ∷ ys) q b l d o n = (
  ground arith,
  ground arith,
  frame h (list_del e h) y ys q l.2 (λ a i. ground arith) (λ a i. ground arith),
)

Links-remove :
    (h : Heap) (p : ℕ) (xs : List ℕ) (e : ℕ) (ys : List ℕ) (q : ℕ)
    → Links h p (xs ++ (e ∷ ys)) q
    → Distinct (xs ++ (e ∷ ys))
    → among p (xs ++ (e ∷ ys)) ≡ false
    → among q (xs ++ (e ∷ ys)) ≡ false
    → Links (list_del e h) p (xs ++ ys) q
unfolding list_del
Links-remove h p [] e ys q l d o n = Links-close h p e ys q l.1 l.2 d o n
Links-remove h p (x ∷ xs) e ys q l d o n =
    let (front, back) = split h x xs e ys q l.2 in
    let before = prev-mem h x xs e front in
    let after = next-mem h e ys q back in
    let apart = Distinct-append (x ∷ xs) e ys d in
    let outside = among-append p xs (e ∷ ys) in
    let outside' = among-append x xs (e ∷ ys) in
    let outside'' = among-append q xs (e ∷ ys) in
    (ground arith, ground arith, Links-remove h x xs e ys q l.2 d.1 d.0 (ground arith))

-- `list_del` takes one entry out wherever it stands, keeps the order of the others, and writes
-- only to the nodes of the ring.
pub list_del-remove :
    (h : Heap) (head : ℕ) (xs : List ℕ) (e : ℕ) (ys : List ℕ)
    → IsRing h head (xs ++ (e ∷ ys))
    → IsRing (list_del e h) head (xs ++ ys) × SameOutside head (xs ++ (e ∷ ys)) h (list_del e h)
unfolding list_del
list_del-remove h head xs e ys r =
    let (front, back) = split h head xs e ys head r.links in
    let before = prev-mem h head xs e front in
    let after = next-mem h e ys head back in
    let apart = Distinct-append xs e ys r.distinct in
    (
      record {
        links = Links-remove h head xs e ys head r.links r.distinct r.out r.out;
        out = ground (arith, r.out, among-append head xs (e ∷ ys), among-append head xs ys);
        distinct = apart.0;
      },
      λ a o. ground (arith, among-append a xs (e ∷ ys)),
    )

-- `list_empty` is true exactly of the ring with no entries.
pub list_empty_iff :
    (h : Heap) (head : ℕ) (xs : List ℕ)
    → IsRing h head xs
    → list_empty head h ≡ elim xs [ [] ↦ true | _ ∷ _ ↦ false ]
unfolding list_empty
list_empty_iff h head [] r = ground (arith, r.links)
list_empty_iff h head (x ∷ xs) r = ground (arith, r.links, r.out)

-- What `list_pop` hands back of a ring: the first entry and the ring of the others, or null.
abbrev pub Popped : Heap → ℕ → List ℕ → Option ℕ × Heap → Type 0
Popped h head [] out = out ≡ (none, h)
Popped h head (x ∷ xs) out =
    (out.0 ≡ some x) × IsRing out.1 head xs × SameOutside head (x ∷ xs) h out.1

-- `list_pop` returns the first entry and leaves the ring of the others, writing to no other node;
-- on an empty ring it returns null and changes nothing.
pub list_pop_lem :
    (h : Heap) (head : ℕ) (xs : List ℕ) → IsRing h head xs → Popped h head xs (list_pop head h)
unfolding list_pop
list_pop_lem h head [] r = ground (arith, r.links)
list_pop_lem h head (x ∷ xs) r =
    let gone = list_del-remove h head [] x xs r in
    rw (list_empty_iff h head (x ∷ xs) r, r.links.0) (refl, gone.0, gone.1)
