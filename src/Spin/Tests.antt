-- ===== src/Spin/Tests.antt =====
-- Two threads at one lock.
use ord_os.Base.{ℕ, ◌≡◌, refl, none, some}
use ord_os.Spin.{spin_lock, spin_try}
use ord_os.Spin.Exclusion.{
  outside, spinning, critical, Threads, move, calls, retries, enters, Reach, here, next,
  mutual_exclusion,
}

lock_twice : (spin_lock 0 ≡ some 1) × (spin_lock 1 ≡ none)
unfolding spin_lock
lock_twice = (refl, refl)

abbrev start : Threads
start = record { flag = 0; place = λ k. outside }

abbrev called : Threads
called = record start { place = move 4 spinning (move 3 spinning start.place) }

abbrev entered : Threads
entered = record { flag = 1; place = move 3 critical called.place }

-- Threads 3 and 4 call, 3 gets in, and 4 goes on spinning.
run : Reach start entered
unfolding spin_try
run =
    next (next (next (next here (calls 3 refl)) (calls 4 refl)) (enters 3 1 refl refl))
      (retries 4 refl refl)

mutual_exclusion_example : ◌≡◌ {A = ℕ} 3 3
mutual_exclusion_example = mutual_exclusion {u = entered} 3 3 run refl refl
