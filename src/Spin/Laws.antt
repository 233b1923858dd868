-- ===== src/Spin/Laws.antt =====
-- A released spin lock is taken at once.
use ord_os.Base.{ℕ, ◌≡◌, some, arith}
use ord_os.Spin.{spin_lock}

pub spin_lock_released : (flag : ℕ) → flag ≡ 0 → spin_lock flag ≡ some 1
unfolding spin_lock
spin_lock_released flag e = ground arith
