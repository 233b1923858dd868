-- ===== src/Spin.antt =====
-- The spin lock of kernel/task/sync.c: a flag taken by an atomic compare-and-exchange.
pub mod Exclusion
pub mod Laws
mod Tests
use ord_os.Base.{ℕ, Option, none, some, ◌==◌, if◌then◌else◌}

-- `lock; cmpxchg; sete`: what it returns, and what `*ptr` holds afterwards.
unfoldable pub atomic_cmpexchange : ℕ → ℕ → ℕ → ℕ × ℕ
atomic_cmpexchange ptr old new = if ptr == old then (1, new) else (0, ptr)

-- One round of the loop of `spin_lock`: the new flag, or `none` for another round.
unfoldable pub spin_try : ℕ → Option ℕ
unfolding atomic_cmpexchange
spin_try flag =
    let (ret, flag') = atomic_cmpexchange flag 0 1 in if ret == 0 then none else some flag'

-- `spin_lock` while nobody else writes the flag: a round that fails is followed by the same round,
-- so `none` means that it spins until another thread unlocks.
unfoldable pub spin_lock : ℕ → Option ℕ
unfolding spin_try
spin_lock flag = spin_try flag

abbrev pub spin_unlock : ℕ → ℕ
spin_unlock flag = 0
