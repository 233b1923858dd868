-- ===== src/Sched/Sleep.antt =====
-- `task_sleep_ticks`: when the test of its loop lets the task go.
use ord_os.Base.{ℕ, ◌+◌, ◌≤◌, ◌<◌, ◌^◌, ◌≡◌, ◌⊎◌, true, false, arith, add32}
use ord_os.Sched.{sleep_over}

module _ (now ticks waited : ℕ) (small : now < 2 ^ 32) (short : ticks < 2 ^ 32)
    (seen : waited < 2 ^ 32) where
  -- Within 2^32 ticks of its start a sleep never ends before the given number of ticks has passed.
  pub sleep_never_early :
      sleep_over now (add32 now ticks) (add32 now waited) ≡ true → ticks ≤ waited
  unfolding sleep_over
  sleep_never_early h = ground arith

  -- Once that number has passed, the test succeeds, also where the clock has wrapped: until the clock
  -- is back at the start if the end of the sleep lies behind the wrap, and until the clock wraps if not.
  pub sleep_over_in_time :
      ticks ≤ waited
      → (2 ^ 32 ≤ now + ticks) ⊎ (now + waited < 2 ^ 32)
      → sleep_over now (add32 now ticks) (add32 now waited) ≡ true
  unfolding sleep_over
  sleep_over_in_time late window = ground arith

  -- A sleeper that is not run between the end of its sleep and the wrap of the clock goes on sleeping.
  pub sleep_missed :
      now + ticks < 2 ^ 32
      → 2 ^ 32 ≤ now + waited
      → sleep_over now (add32 now ticks) (add32 now waited) ≡ false
  unfolding sleep_over
  sleep_missed no_wrap wrapped = ground arith
