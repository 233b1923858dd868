-- ===== src/Sync.antt =====
-- The mutex and the semaphore of kernel/task/sync.c. A call takes and returns the state of the
-- scheduler beside its own; the wait queue is the list that its ring stands for (ListHead).
pub mod Waiting
pub mod Mutex
pub mod Semaphore
pub mod Tests
use ord_os.Base.{
  ℕ, ◌-◌, Bool, true, false, Option, none, some, List, [], ◌∷◌, ◌++◌, ◌==◌, ltb, if◌then◌else◌,
  add32,
}
use ord_os.Intr.{intr_lock, intr_unlock}
use ord_os.Spin.{spin_lock, spin_unlock}
use ord_os.Sched.{Sched, null, task_park, task_unpark}

-- `struct mutex_lock` and `struct semaphore` in one: `value` is the `flag` of a mutex and the
-- `value` of a semaphore.
pub record Waitable : Type 0 where
  pub value : ℕ
  pub guard : ℕ
  pub wait_queue : List ℕ

-- A call that may block: it went on, or the caller waits in the queue and another task runs. The
-- Boolean is the interrupt flag that the caller gets back when it runs again.
pub data Blocking : Type 0 where
  passed : Waitable → Sched → Blocking
  parked : Waitable → Bool → Sched → Blocking

-- `mutex_lock_init` and `semaphore_init`.
unfoldable pub mutex_lock_init : Waitable
mutex_lock_init = record { value = 0; guard = 0; wait_queue = [] }

unfoldable pub semaphore_init : ℕ → Waitable
semaphore_init value = record { value = value; guard = 0; wait_queue = [] }

-- The caller goes to the end of the wait queue, `guard` is what is stored there, and it parks.
-- `none` is a null current task.
unfoldable pub wait_and_park : Waitable → Sched → Option Blocking
wait_and_park m s =
    let m' = record m { wait_queue = m.wait_queue ++ (s.current ∷ []) } in
    if s.current == null
    then none
    else elim (task_park s) [ none ↦ none | some (flag, s') ↦ some (parked m' flag s') ]

unfoldable pub mutex_lock : Waitable → Sched → Option Blocking
mutex_lock m s = elim (spin_lock m.guard) [
  | none ↦ none
  | some held ↦
      if m.value == 0
      then some (passed (record m { value = 1; guard = spin_unlock held }) s)
      else wait_and_park (record m { guard = spin_unlock held }) s
]

-- `list_empty`, or `list_pop` and `task_unpark` of the first waiter.
unfoldable pub wake_or : (ℕ → ℕ) → Waitable → Sched → Waitable × Sched
wake_or idle_value m s = elim m.wait_queue [
  | [] ↦ (record m { value = idle_value m.value }, s)
  | task ∷ rest ↦ (record m { wait_queue = rest }, task_unpark task s)
]

unfoldable pub mutex_unlock : Waitable → Sched → Option (Waitable × Sched)
mutex_unlock m s = elim (spin_lock m.guard) [
  | none ↦ none
  | some held ↦
      let (m', s') = wake_or (λ v. 0) m s in some (record m' { guard = spin_unlock held }, s')
]

unfoldable pub semaphore_down : Waitable → Sched → Option Blocking
semaphore_down m s = elim (spin_lock m.guard) [
  | none ↦ none
  | some held ↦
      if ltb 0 m.value
      then some (passed (record m { value = m.value - 1; guard = spin_unlock held }) s)
      else wait_and_park (record m { guard = spin_unlock held }) s
]

unfoldable pub semaphore_up : Waitable → Sched → Option (Waitable × Sched)
semaphore_up m s = elim (spin_lock m.guard) [
  | none ↦ none
  | some held ↦
      let (m', s') = wake_or (λ v. add32 v 1) m s in
      some (record m' { guard = spin_unlock held }, s')
]

-- The variants that turn interrupts off in place of the guard. A caller that was parked runs
-- `intr_unlock(istate)` when it runs again: `istate` is the flag that `parked` carries here, since
-- `task_park`, called with interrupts off, gives back that they are off.
unfoldable pub semaphore_down_nint : Waitable → Sched → Option Blocking
unfolding intr_lock intr_unlock
semaphore_down_nint m s =
    let (istate, off) = intr_lock s.intr in
    let s1 = record s { intr = off } in
    if ltb 0 m.value
    then some
        (passed (record m { value = m.value - 1 }) (record s1 { intr = intr_unlock istate off }))
    else elim (wait_and_park m s1) [
      | none ↦ none
      | some (passed m' s') ↦ some (passed m' s')
      | some (parked m' _ s') ↦ some (parked m' istate s')
    ]

unfoldable pub semaphore_up_nint : Waitable → Sched → Waitable × Sched
unfolding intr_lock intr_unlock
semaphore_up_nint m s =
    let (istate, off) = intr_lock s.intr in
    let (m', s') = wake_or (λ v. add32 v 1) m (record s { intr = off }) in
    (m', record s' { intr = intr_unlock istate s'.intr })
