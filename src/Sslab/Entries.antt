-- ===== src/Sslab/Entries.antt =====
-- The table of the allocators of all sizes, and the choice of an entry.
use ord_os.Base.{
  ℕ, zero, suc, ◌+◌, ◌≤◌, ◌<◌, ◌^◌, ◌≡◌, ◌≢◌, ◌⊎◌, inl, inr, true, Option, none, some, List, arith,
  among, ◌∙◌, ap, sym, subst, ℕ_discrete, dec_lt,
}
use ord_os.Slab.{max_order, order_to_size, size_to_order}
use ord_os.Slab.Order.{size_to_order-IsOrder}
use ord_os.Sslab.{Sslab, Sslabs, Kmem, set_sslab}
use ord_os.Sslab.Objects.{IsSslab}

-- The allocator of objects of `2 ^ (i + 1)` bytes is entry `i + 1`; no page belongs to two of them.
pub record IsKmalloc (t : Sslabs) (k : Kmem) (free live : ℕ → List ℕ) : Type 0 where
  pub each : (i : ℕ) → i < max_order → IsSslab i (t (i + 1)) k free live
  pub own :
      (i j a : ℕ)
      → i < max_order
      → j < max_order
      → among a (t (i + 1)).caches ≡ true
      → among a (t (j + 1)).caches ≡ true
      → i ≡ j

-- The entry for objects of `size` bytes: the first that is large enough.
pub record IsClass (size i : ℕ) : Type 0 where
  pub order : size_to_order size ≡ some (i + 1)
  pub below : i < max_order
  pub enough : size ≤ order_to_size (i + 1)
  pub least : order_to_size i < size

pub size-IsClass : (size : ℕ) → 2 ≤ size → size ≤ 2 ^ 10 → (i : ℕ) × IsClass size i
unfolding order_to_size
size-IsClass size two small =
    let o = size_to_order-IsOrder size (omega (arith, small)) in
    at_order o.order o.returned o.enough o.least
  where
    at_order :
        (o : ℕ)
        → size_to_order size ≡ some o
        → size ≤ order_to_size o
        → ((p : ℕ) → p < o → order_to_size p < size)
        → (i : ℕ) × IsClass size i
    at_order zero e enough least = absurd (omega (arith, two, enough))
    at_order (suc i) e enough least = (
      i,
      record {
        order = e ∙ ap some next;
        below = elim (dec_lt i max_order) [
          | yes lt ↦ lt
          | no ge ↦ absurd (omega (arith, least max_order (omega (arith, ge)), small))
        ];
        enough = subst (λ x. size ≤ 2 ^ x) next enough;
        least = least i (omega arith);
      },
    )
      where
        next : suc i ≡ i + 1
        next = omega arith

-- Which entry of the changed table lists a page.
pub entry_at :
    (c : ℕ) (s : Sslab) (t : Sslabs) (i b : ℕ)
    → among b (set_sslab (c + 1) s t (i + 1)).caches ≡ true
    → ((i ≡ c) × (among b s.caches ≡ true)) ⊎ ((i ≢ c) × (among b (t (i + 1)).caches ≡ true))
entry_at c s t i b = elim (ℕ_discrete i c) [
  | yes e ↦ λ h. inl (e, subst (λ x. among b x.caches ≡ true) (here e) h)
  | no ne ↦ λ h. inr (ne, subst (λ x. among b x.caches ≡ true) (other ne) h)
]
  where
    here : i ≡ c → set_sslab (c + 1) s t (i + 1) ≡ s
    here e = ground (arith, e)

    other : i ≢ c → set_sslab (c + 1) s t (i + 1) ≡ t (i + 1)
    other ne = ground (arith, ne)

-- One of two cases at each entry.
pub by_entry {ℓ} :
    (c i : ℕ) (P : Sslab → Type ℓ) (s : Sslab) (t : Sslabs)
    → (i ≡ c → P s)
    → (i ≢ c → P (t (i + 1)))
    → P (set_sslab (c + 1) s t (i + 1))
by_entry c i P s t same other = elim (ℕ_discrete i c) [
  | yes e ↦ subst P (sym (here e)) (same e)
  | no ne ↦ subst P (sym (there ne)) (other ne)
]
  where
    here : i ≡ c → set_sslab (c + 1) s t (i + 1) ≡ s
    here e = ground (arith, e)

    there : i ≢ c → set_sslab (c + 1) s t (i + 1) ≡ t (i + 1)
    there ne = ground (arith, ne)

-- `sslab_global_alloc` behind the choice of the entry.
abbrev pub entry_taken :
    ℕ → Sslabs → Option (Option ℕ × Sslab × Kmem) → Option (Option ℕ × Sslabs × Kmem)
entry_taken c t none = none
entry_taken c t (some (obj, s, k')) = some (obj, set_sslab (c + 1) s t, k')
