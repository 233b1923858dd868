-- ===== src/Pid/Laws.antt =====
-- Ids in use are never handed out again before they are freed.
use ord_os.Base.{
  ℕ, ◌*◌, ◌<◌, ◌≡◌, refl, Bool, true, false, some, arith, ◌==◌, if◌then◌else◌, npos, inl, inr, ◌∙◌,
  sym, subst, Bool-cases,
}
use ord_os.Spin.{spin_unlock}
use ord_os.Bitmap.{Bitmap, bitmap_get, bitmap_set}
use ord_os.Bitmap.Bits.{IsValid, bitmap_get-set, bitmap_set-IsValid}
use ord_os.Spin.Laws.{spin_lock_released}
use ord_os.Bitmap.Find.{Fits}
use ord_os.Bitmap.Alloc.{size-bitmap_set, Allocated, claimed, full, bitmap_alloc-Allocated}
use ord_os.Pid.{Pidpool, pid_bitmap_size, pidpool_alloc, pidpool_free}

-- The ids are `0 .. 1023`; `in_use` is the bit of an id.
abbrev pub max_pids : ℕ
max_pids = pid_bitmap_size * 8

abbrev pub in_use : Pidpool → ℕ → Bool
in_use p pid = bitmap_get p.pids pid

pub record IsPool (p : Pidpool) : Type 0 where
  pub valid : IsValid p.pids
  pub size : p.pids.size ≡ pid_bitmap_size
  pub released : p.lock ≡ 0

-- A call of `pidpool_alloc` on a pool: the smallest id that was free, now in use, or `NPOS` from a
-- pool in which every id is in use.
pub data Given (p : Pidpool) : ℕ × Pidpool → Type 0 where
  fresh :
      {pid : ℕ} {q : Pidpool}
      → pid < max_pids
      → in_use p pid ≡ false
      → ((k : ℕ) → k < pid → in_use p k ≡ true)
      → ((k : ℕ) → in_use q k ≡ (if k == pid then true else in_use p k))
      → Given p (pid, q)
  exhausted :
      {pid : ℕ} {q : Pidpool}
      → pid ≡ npos
      → q ≡ p
      → ((k : ℕ) → k < max_pids → in_use p k ≡ true)
      → Given p (pid, q)

-- A bit at which no free run of length 1 starts is set.
taken : (b : Bitmap) (k : ℕ) → ¬ Fits b 1 false k → k < b.size * 8 → bitmap_get b k ≡ true
taken b k busy inside = elim (Bool-cases (bitmap_get b k)) [
  | inl set ↦ set
  | inr clear ↦
      absurd
        (busy (omega arith, λ j lo hi. subst (λ i. bitmap_get b i ≡ false) (omega arith) clear))
]

given :
    (p : Pidpool) (out : ℕ × Bitmap)
    → IsPool p
    → Allocated p.pids 1 out
    → Given p (out.0, record { pids = out.1; lock = spin_unlock 1 })
      × IsPool (record { pids = out.1; lock = spin_unlock 1 })
given p _ ok (claimed {r} ne fits first sets) = (
  fresh (omega (arith, fits.0, ok.size)) (fits.1 r (omega arith) (omega arith))
      (λ k lt. taken p.pids k (first k lt) (omega (arith, fits.0)))
      (λ k. ground (arith, sets.bits k)),
  record { valid = sets.valid; size = sets.size ∙ ok.size; released = refl },
)
given p _ ok (full e same none_free) = (
  exhausted e (ground (arith, ok.released))
      (λ k lt. taken p.pids k (none_free k) (omega (arith, ok.size))),
  record {
    valid = subst IsValid (sym same) ok.valid;
    size = ground (arith, ok.size);
    released = refl;
  },
)

-- `pidpool_alloc` returns with the lock released: it hands out the smallest id that is not in use
-- and marks that one alone, or `NPOS` exactly if all 1024 ids are in use, and changes nothing then.
pub pidpool_alloc-Given :
    (p : Pidpool)
    → IsPool p
    → (out : ℕ × Pidpool) × (pidpool_alloc p ≡ some out) × Given p out × IsPool out.1
unfolding pidpool_alloc
pidpool_alloc-Given p ok =
    let (out, returned, allocated) = bitmap_alloc-Allocated p.pids 1 ok.valid (omega arith) in
    let (given_out, pool) = given p out ok allocated in
    (
      (out.0, record { pids = out.1; lock = spin_unlock 1 }),
      rw (spin_lock_released p.lock ok.released, pidpool_alloc) (rw (returned) refl),
      given_out,
      pool,
    )

-- `pidpool_free` of an id of the pool makes that id, and no other, free.
pub pidpool_free_lem :
    (p : Pidpool) (pid : ℕ)
    → IsPool p
    → pid < max_pids
    → (q : Pidpool) × (pidpool_free p pid ≡ some q)
      × IsPool q
      × ((k : ℕ) → in_use q k ≡ (if k == pid then false else in_use p k))
unfolding pidpool_free
pidpool_free_lem p pid ok small = (
  record { pids = bitmap_set p.pids pid false; lock = spin_unlock 1 },
  rw (spin_lock_released p.lock ok.released, pidpool_free) refl,
  record {
    valid = bitmap_set-IsValid p.pids pid false ok.valid;
    size = size-bitmap_set p.pids pid false ∙ ok.size;
    released = refl;
  },
  λ k. ground (arith, bitmap_get-set p.pids pid k false ok.valid (omega (arith, ok.size))),
)
