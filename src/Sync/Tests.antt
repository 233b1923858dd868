-- ===== src/Sync/Tests.antt =====
-- A free mutex, a held one with a waiter, and a semaphore, used by task 1 of three.
use ord_os.Base.{
  ℕ, ◌≡◌, refl, true, false, none, some, [], ◌∷◌, arith, ◌==◌, among, inl, if◌then◌else◌,
}
use ord_os.Sched.{Status, running, ready, blocked, Task, Sched}
use ord_os.Sched.Invariant.{IsScheduled}
use ord_os.Sync.{Waitable, semaphore_down, semaphore_up}
use ord_os.Sync.Waiting.{IsWaiting}
use ord_os.Sync.Mutex.{IsMutex, free, held, Queued, mutex_lock_held, Passed, mutex_unlock_lem}
use ord_os.Sync.Semaphore.{IsSemaphore, Down, semaphore_down-Down, Up, semaphore_up-Up}

abbrev task_in : Status → Task
task_in st = record {
  status = st;
  priority = 31;
  ticks = 31;
  elapsed_ticks = 0;
  page_table = 0x1000;
  stack = 0x200f80;
}

-- Task 1 runs, 3 is ready, all others are blocked; 2 is the idle task.
abbrev pub kernel : Sched
kernel = record {
  tasks =
      λ a. if a == 1 then task_in running else if a == 3 then task_in ready else task_in blocked;
  ready_list = 3 ∷ [];
  current = 1;
  ticks = 0;
  idle = 2;
  intr = true;
  cr3 = 0x1000;
  esp0 = 0x201000;
}

kernel-IsScheduled : IsScheduled kernel
kernel-IsScheduled = record {
  queued = record { distinct = (refl, tt); ready_iff = λ a. ground arith; null_out = refl };
  running_iff = λ a. ground arith;
  current_ne = omega arith;
  idle_ne = omega arith;
}

nobody-IsWaiting : IsWaiting kernel []
nobody-IsWaiting = record { distinct = tt; blocked = λ a i. cc; null_out = refl; idle_out = refl }

five-IsWaiting : IsWaiting kernel (5 ∷ [])
five-IsWaiting = record {
  distinct = (refl, tt);
  blocked = λ a i. ground arith;
  null_out = refl;
  idle_out = refl;
}

abbrev pub free_mutex : Waitable
free_mutex = record { value = 0; guard = 0; wait_queue = [] }

abbrev held_mutex : Waitable
held_mutex = record { value = 1; guard = 0; wait_queue = 5 ∷ [] }

pub free_mutex-IsMutex : IsMutex free_mutex kernel none
free_mutex-IsMutex = record {
  released = refl;
  holds = free refl refl;
  scheduled = kernel-IsScheduled;
  waiting = nobody-IsWaiting;
}

held_mutex-IsMutex :
    (holder : ℕ) → among holder (5 ∷ []) ≡ false → IsMutex held_mutex kernel (some holder)
held_mutex-IsMutex holder out = record {
  released = refl;
  holds = held holder refl out;
  scheduled = kernel-IsScheduled;
  waiting = five-IsWaiting;
}

mutex_lock_held_example : Queued held_mutex kernel 3
mutex_lock_held_example =
    mutex_lock_held held_mutex kernel 3 (held_mutex-IsMutex 3 refl) (omega arith) (omega arith)

mutex_unlock_lem_example : Passed held_mutex kernel
mutex_unlock_lem_example = mutex_unlock_lem held_mutex kernel 1 (held_mutex-IsMutex 1 refl)

held_mutex-IsSemaphore : IsSemaphore free_mutex kernel 3 3
held_mutex-IsSemaphore = record {
  released = refl;
  balance = omega arith;
  bounded = omega arith;
  no_idle_permit = inl refl;
  scheduled = kernel-IsScheduled;
  waiting = nobody-IsWaiting;
}

semaphore_down-Down_example : Down free_mutex kernel 3 3 (semaphore_down free_mutex kernel)
semaphore_down-Down_example =
    semaphore_down-Down free_mutex kernel 3 3 held_mutex-IsSemaphore (omega arith)

semaphore_up-Up_example : Up free_mutex kernel 3 3 (semaphore_up free_mutex kernel)
semaphore_up-Up_example = semaphore_up-Up free_mutex kernel 3 3 held_mutex-IsSemaphore (omega arith)
