-- ===== src/ListHead/Find.antt =====
-- `list_find` of lib/list_head.c is the position in the list of addresses.
use ord_os.Base.{
  ℕ, zero, suc, ◌+◌, ◌<◌, ◌^◌, ◌≡◌, refl, true, false, some, List, [], ◌∷◌, arith, ◌==◌,
  if◌then◌else◌, among, length, npos, Bool-cases, inl, inr, get_elem?, ap, ◌∙◌,
}
use ord_os.ListHead.{Heap, list_find, find_loop}
use ord_os.ListHead.Ring.{Links, IsRing}

-- The position of the first `e`, counted from `i`; `NPOS` if there is none.
unfoldable pub index_from : ℕ → ℕ → List ℕ → ℕ
index_from i e [] = npos
index_from i e (x ∷ xs) = if x == e then i else index_from (i + 1) e xs

find_loop-index :
    (fuel : ℕ) (h : Heap) (head e p : ℕ) (i : ℕ) (xs : List ℕ)
    → Links h p xs head
    → among head xs ≡ false
    → i + length xs < 2 ^ 32
    → length xs < fuel
    → find_loop fuel head e (h.next p) i h ≡ some (index_from i e xs)
unfolding find_loop index_from
find_loop-index zero h head e p i xs l o small f = absurd (omega arith)
find_loop-index (suc fuel) h head e p i [] l o small f = ground arith
find_loop-index (suc fuel) h head e p i (x ∷ xs) l o small f =
    ground (arith, find_loop-index fuel h head e x (i + 1) xs l.2)

-- `list_find` visits the entries in order and returns the position of the entry, or `NPOS` if the
-- ring does not hold it, given more fuel than entries and fewer than 2^31 entries.
pub list_find-index :
    (fuel : ℕ) (h : Heap) (head e : ℕ) (xs : List ℕ)
    → IsRing h head xs
    → length xs < 2 ^ 31
    → length xs < fuel
    → list_find fuel head e h ≡ some (index_from 0 e xs)
unfolding list_find
list_find-index fuel h head e xs r small f =
    find_loop-index fuel h head e head 0 xs r.links r.out (omega arith) f

-- Where an entry is found: its index and the address there.
index_from-mem :
    (i e : ℕ) (xs : List ℕ)
    → among e xs ≡ true
    → (j : ℕ) × (index_from i e xs ≡ i + j) × (j < length xs) × (get_elem? xs j ≡ some e)
unfolding index_from
index_from-mem i e [] m = absurd (ground arith)
index_from-mem i e (x ∷ xs) m = elim (Bool-cases (x == e)) [
  | inl same ↦ (0, ground arith, omega arith, ground arith)
  | inr other ↦
      let (j, at, small, there) = index_from-mem (i + 1) e xs (ground arith) in
      (suc j, rw other (omega arith), omega arith, there)
]

index_from-npos : (i e : ℕ) (xs : List ℕ) → among e xs ≡ false → index_from i e xs ≡ npos
unfolding index_from
index_from-npos i e [] m = refl
index_from-npos i e (x ∷ xs) m = ground (arith, index_from-npos (i + 1) e xs)

module _ (fuel : ℕ) (h : Heap) (head e : ℕ) (xs : List ℕ) (r : IsRing h head xs)
    (small : length xs < 2 ^ 31) (enough : length xs < fuel) where
  -- For an entry of the ring, `list_find` returns an index at which the entry stands.
  pub list_find-mem :
      among e xs ≡ true
      → (i : ℕ) × (list_find fuel head e h ≡ some i) × (i < length xs) × (get_elem? xs i ≡ some e)
  list_find-mem m =
      let (j, at, below, there) = index_from-mem 0 e xs m in
      (j, list_find-index fuel h head e xs r small enough ∙ ap some (omega arith), below, there)

  -- For any other address `list_find` returns `NPOS`.
  pub list_find-npos : among e xs ≡ false → list_find fuel head e h ≡ some npos
  list_find-npos m =
      list_find-index fuel h head e xs r small enough ∙ ap some (index_from-npos 0 e xs m)
