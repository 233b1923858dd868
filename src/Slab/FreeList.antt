-- ===== src/Slab/FreeList.antt =====
-- The free list of a page: a chain of offsets through the free objects.
use ord_os.Base.{
  ℕ, ◌+◌, ◌*◌, ◌≤◌, ◌<◌, ◌^◌, ◌≡◌, ◌≢◌, ◌⊎◌, inl, inr, true, List, [], ◌∷◌, ◌++◌, arith, among,
  among-append, Distinct, length, subst, sym, dec_lt, page_size,
}
use ord_os.Slab.{Memory, read16, Cache, header_size}

-- The offset of object `k` of a page whose first object lies at `lo`.
abbrev pub slot : ℕ → ℕ → ℕ → ℕ
slot lo size k = lo + k * size

-- From offset `p` the `next` fields lead through the given objects and end with 0.
abbrev pub Chain : Memory → ℕ → ℕ → List ℕ → ℕ → Type 0
Chain m lo size [] p = p ≡ 0
Chain m lo size (k ∷ ks) p = (p ≡ slot lo size k) × Chain m lo size ks (read16 m (slot lo size k))

-- Every number of the list is below `n`.
abbrev pub Below : ℕ → List ℕ → Type 0
Below n xs = (k : ℕ) → among k xs ≡ true → k < n

-- The objects of a page, free ones in the order of the chain and those that are handed out.
pub record IsCache (c : Cache) (lo : ℕ) (free live : List ℕ) : Type 0 where
  pub size : 2 ≤ c.obj_size
  pub header : header_size ≤ lo
  pub fits : lo + c.obj_cnt * c.obj_size ≤ page_size
  pub few : c.obj_cnt ≤ page_size
  pub chain : Chain c.memory lo c.obj_size free c.object
  pub below : Below c.obj_cnt (free ++ live)
  pub distinct : Distinct (free ++ live)
  pub free_count : c.obj_free ≡ length free
  pub live_count : length free + length live ≡ c.obj_cnt

-- Different objects do not overlap, and every object lies in the page.
pub slot_far :
    (lo size j k : ℕ)
    → j ≢ k
    → (slot lo size j + size ≤ slot lo size k) ⊎ (slot lo size k + size ≤ slot lo size j)
slot_far lo size j k ne = elim (dec_lt j k) [
  | yes lt ↦ inl (grind arith)
  | no ge ↦ inr (slot_before (omega arith))
]
  where
    slot_before : k < j → slot lo size k + size ≤ slot lo size j
    slot_before lt = grind arith

pub slot_inside :
    (lo size cnt k : ℕ) → lo + cnt * size ≤ page_size → k < cnt → slot lo size k + size ≤ page_size
slot_inside lo size cnt k fits lt = grind arith

-- A chain survives a change that spares the `next` fields of its objects.
pub Chain-frame :
    (m g : Memory) (lo size : ℕ) (ks : List ℕ) (p : ℕ)
    → Chain m lo size ks p
    → ((k : ℕ) → among k ks ≡ true → read16 g (slot lo size k) ≡ read16 m (slot lo size k))
    → Chain g lo size ks p
Chain-frame m g lo size [] p c same = c
Chain-frame m g lo size (k ∷ ks) p c same = (
  c.0,
  subst (Chain g lo size ks) (sym (same k (ground arith)))
      (Chain-frame m g lo size ks _ c.1 (λ j i. same j (ground arith))),
)

-- The first number of a list without repetition may stand between its two parts.
pub Distinct-move : (k : ℕ) (xs ys : List ℕ) → Distinct (k ∷ (xs ++ ys)) → Distinct (xs ++ (k ∷ ys))
Distinct-move k [] ys d = d
Distinct-move k (x ∷ xs) ys d = (
  ground (arith, among-append x xs (k ∷ ys), among-append x xs ys, d.1.0),
  Distinct-move k xs ys (ground arith, d.1.1),
)

-- The offset that a chain starts from fits a `u16`.
pub Chain-start :
    (m : Memory) (lo size cnt : ℕ) (ks : List ℕ) (p : ℕ)
    → Chain m lo size ks p
    → Below cnt ks
    → lo + cnt * size ≤ page_size
    → 2 ≤ size
    → p < 2 ^ 16
Chain-start m lo size cnt [] p c b fits two = omega arith
Chain-start m lo size cnt (k ∷ ks) p c b fits two =
    omega (arith, c.0, slot_inside lo size cnt k fits (b k (ground arith)))
