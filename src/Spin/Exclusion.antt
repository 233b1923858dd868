-- ===== src/Spin/Exclusion.antt =====
-- Any number of threads that lock and unlock one spin lock, in any interleaving.
use ord_os.Base.{ℕ, ◌≡◌, refl, Bool, true, false, none, some, arith, ◌==◌, if◌then◌else◌}
use ord_os.Spin.{spin_try, spin_unlock}

-- Where a thread is: outside, in the loop of `spin_lock`, or between `spin_lock` and `spin_unlock`.
pub data Place : Type 0 where
  outside spinning critical : Place

abbrev pub is_critical : Place → Bool
is_critical critical = true
is_critical _ = false

pub record Threads : Type 0 where
  pub flag : ℕ
  pub place : ℕ → Place

abbrev pub move : ℕ → Place → (ℕ → Place) → ℕ → Place
move i p f j = if j == i then p else f j

-- One atomic action of thread `i`: it calls `spin_lock`, makes a round of its loop that fails or
-- succeeds, or stores 0 in `spin_unlock`.
pub data Step (t : Threads) : Threads → Type 0 where
  calls : (i : ℕ) → t.place i ≡ outside → Step t (record t { place = move i spinning t.place })
  retries : (i : ℕ) → t.place i ≡ spinning → spin_try t.flag ≡ none → Step t t
  enters :
      (i flag : ℕ)
      → t.place i ≡ spinning
      → spin_try t.flag ≡ some flag
      → Step t (record { flag = flag; place = move i critical t.place })
  leaves :
      (i : ℕ)
      → t.place i ≡ critical
      → Step t (record { flag = spin_unlock t.flag; place = move i outside t.place })

pub data Reach (t : Threads) : Threads → Type 0 where
  here : Reach t t
  next : {u v : Threads} → Reach t u → Step u v → Reach t v

-- The flag is 0 or 1, it is 0 only if no thread is inside, and two threads inside are one.
record Excludes (t : Threads) : Type 0 where
  free : t.flag ≡ 0 → (i : ℕ) → is_critical (t.place i) ≡ false
  one : (i j : ℕ) → t.place i ≡ critical → t.place j ≡ critical → i ≡ j

Step-Excludes : {t u : Threads} → Step t u → Excludes t → Excludes u
unfolding spin_try
Step-Excludes {t} (calls i e) x = record {
  free = λ z j. ground (arith, x.free z j);
  one = λ a b p q. ground (arith, x.one a b);
}
Step-Excludes {t} (retries i e w) x = x
Step-Excludes {t} (enters i flag e w) x = record {
  free = λ z j. ground arith;
  one = λ a b p q. ground (arith, x.free (ground arith) a, x.free (ground arith) b);
}
Step-Excludes {t} (leaves i e) x = record {
  free = λ z j. ground (arith, x.one i j);
  one = λ a b p q. ground (arith, x.one a b);
}

Reach-Excludes : {t u : Threads} → Excludes t → Reach t u → Excludes u
Reach-Excludes x here = x
Reach-Excludes x (next r s) = Step-Excludes s (Reach-Excludes x r)

-- From a released lock with every thread outside, no interleaving brings two threads into the
-- critical section at once.
pub mutual_exclusion :
    {u : Threads} (i j : ℕ)
    → Reach (record { flag = 0; place = λ k. outside }) u
    → u.place i ≡ critical
    → u.place j ≡ critical
    → i ≡ j
mutual_exclusion i j r p q =
    (Reach-Excludes (record { free = λ z k. refl; one = λ a b p' q'. cc }) r).one i j p q
