-- ===== src/Slab/Memory.antt =====
-- Reads and writes of `obj->next` at a distance do not disturb one another.
use ord_os.Base.{refl, ℕ, ◌+◌, ◌≤◌, ◌<◌, ◌^◌, ◌≡◌, ◌⊎◌, arith}
use ord_os.Slab.{Memory, read16, write16, clear}

pub read16-write16_self : (m : Memory) (a v : ℕ) → v < 2 ^ 16 → read16 (write16 m a v) a ≡ v
unfolding read16 write16
read16-write16_self m a v h = ground arith

pub read16-write16_far :
    (m : Memory) (a b v : ℕ) → (a + 2 ≤ b) ⊎ (b + 2 ≤ a) → read16 (write16 m a v) b ≡ read16 m b
unfolding read16 write16
read16-write16_far m a b v h = ground arith

pub read16-clear_far :
    (m : Memory) (a n b : ℕ) → (a + n ≤ b) ⊎ (b + 2 ≤ a) → read16 (clear m a n) b ≡ read16 m b
unfolding read16 clear
read16-clear_far m a n b h = ground arith

pub read16-same :
    (g m : Memory) (a : ℕ) → g a ≡ m a → g (a + 1) ≡ m (a + 1) → read16 g a ≡ read16 m a
unfolding read16
read16-same g m a e e' = rw (e, e') refl
