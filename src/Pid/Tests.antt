-- ===== src/Pid/Tests.antt =====
-- A new pool of ids, and the theorems at it.
use ord_os.Base.{ℕ, ◌<◌, ◌≡◌, refl, some, arith, replicate, get_or, get_or-replicate}
use ord_os.Pid.{Pidpool, pidpool_alloc}
use ord_os.Pid.Laws.{IsPool, Given, pidpool_alloc-Given}

abbrev fresh_pool : Pidpool
fresh_pool = record { pids = record { size = 128; bytes = replicate 128 0 }; lock = 0 }

fresh_pool-byte : (i : ℕ) → get_or (replicate 128 0) i 0 < 256
fresh_pool-byte i = omega (arith, get_or-replicate {A = ℕ} 128 i 0)

fresh_pool-IsPool : IsPool fresh_pool
fresh_pool-IsPool = record {
  valid = record { fits = omega arith; small = omega arith; bytes = fresh_pool-byte };
  size = refl;
  released = refl;
}

pidpool_alloc-Given_example :
    (out : ℕ × Pidpool) × (pidpool_alloc fresh_pool ≡ some out)
    × Given fresh_pool out
    × IsPool out.1
pidpool_alloc-Given_example = pidpool_alloc-Given fresh_pool fresh_pool-IsPool
