-- ===== src/Pid.antt =====
-- kernel/task/pid.c: process ids from a bitmap. `pids.data` points to `buffer`, which the bitmap's
-- bytes stand for.
pub mod Laws
mod Tests
use ord_os.Base.{ℕ, Bool, false, Option, none, some, List}
use ord_os.Str.{memset}
use ord_os.Spin.{spin_lock, spin_unlock}
use ord_os.Bitmap.{Bitmap, bitmap_init, bitmap_alloc, bitmap_set}

-- `TASK_PID_BITMAP_SIZE`, in bytes.
abbrev pub pid_bitmap_size : ℕ
pid_bitmap_size = 128

pub record Pidpool : Type 0 where
  pub pids : Bitmap
  pub lock : ℕ

-- The lock is left as it is; a pool in static storage has it released.
unfoldable pub pidpool_init : List ℕ → ℕ → Pidpool
pidpool_init buffer lock = record {
  pids = bitmap_init (memset buffer 0 pid_bitmap_size) pid_bitmap_size;
  lock = lock;
}

-- `none` is a lock that is not released.
unfoldable pub pidpool_alloc : Pidpool → Option (ℕ × Pidpool)
pidpool_alloc p = elim (spin_lock p.lock) [
  | none ↦ none
  | some held ↦ elim (bitmap_alloc p.pids 1) [
    | none ↦ none
    | some (pid, b) ↦ some (pid, record { pids = b; lock = spin_unlock held })
  ]
]

unfoldable pub pidpool_free : Pidpool → ℕ → Option Pidpool
pidpool_free p pid = elim (spin_lock p.lock) [
  | none ↦ none
  | some held ↦ some (record { pids = bitmap_set p.pids pid false; lock = spin_unlock held })
]
