-- ===== src/Sched/Invariant.antt =====
-- What the ready queue and the task states say of one another, and that a reschedule keeps it.
use ord_os.Base.{
  ℕ, ◌≡◌, ◌≢◌, true, false, List, [], ◌∷◌, ◌++◌, arith, ◌==◌, if◌then◌else◌, among, Distinct,
  among-append, Bool-cases,
}
use ord_os.ListHead.Ring.{Distinct-snoc}
use ord_os.Sched.{
  ready, is_running, is_ready, Task, Sched, update, null, set_status, add_ready, task_push,
  task_unpark,
}

-- The queue holds exactly the ready tasks, each once, and no null pointer.
pub record IsQueued (tasks : ℕ → Task) (queue : List ℕ) : Type 0 where
  pub distinct : Distinct queue
  pub ready_iff : (a : ℕ) → among a queue ≡ is_ready (tasks a).status
  pub null_out : among null queue ≡ false

-- In a state that runs a task: that task is the one that is running.
pub record IsScheduled (s : Sched) : Type 0 where
  pub queued : IsQueued s.tasks s.ready_list
  pub running_iff : (a : ℕ) → is_running (s.tasks a).status ≡ (a == s.current)
  pub current_ne : s.current ≢ null
  pub idle_ne : s.idle ≢ null

-- Between the end of one task's turn and the start of the next, nothing is running.
pub record IsBetween (s : Sched) : Type 0 where
  pub queued : IsQueued s.tasks s.ready_list
  pub stopped : (a : ℕ) → is_running (s.tasks a).status ≡ false
  pub current_ne : s.current ≢ null
  pub idle_ne : s.idle ≢ null
  pub masked : s.intr ≡ false

-- When `__task_schedule` is called: no task but the caller is still marked as running.
pub record IsTurnOver (s : Sched) : Type 0 where
  pub queued : IsQueued s.tasks s.ready_list
  pub only_current : (a : ℕ) → is_running (s.tasks a).status ≡ true → a ≡ s.current
  pub current_ne : s.current ≢ null
  pub idle_ne : s.idle ≢ null
  pub masked : s.intr ≡ false

pub add_ready-IsQueued :
    (tasks : ℕ → Task) (queue : List ℕ) (a : ℕ) (t : Task)
    → IsQueued tasks queue
    → among a queue ≡ false
    → a ≢ null
    → t.status ≡ ready
    → IsQueued (update tasks a t) (queue ++ (a ∷ []))
add_ready-IsQueued tasks queue a t q out ne st = record {
  distinct = Distinct-snoc queue a q.distinct out;
  ready_iff = λ b. ground (arith, among-append b queue (a ∷ []), q.ready_iff b);
  null_out = ground (arith, among-append null queue (a ∷ []), q.null_out);
}

-- `task_push` appends to the queue and leaves the interrupt flag as it was.
pub task_push_lem : (a : ℕ) (s : Sched) → task_push a s ≡ add_ready a s
unfolding task_push
task_push_lem a s = ground (arith, Bool-cases s.intr)

-- `task_unpark` on each branch. A task that is ready already stays where it is, and the interrupt
-- flag is off afterwards, whatever it was; any other task becomes ready at the end of the queue, and
-- the flag is as it was.
pub task_unpark_lem :
    (a : ℕ) (s : Sched)
    → task_unpark a s ≡ (
        if is_ready (s.tasks a).status
        then record s { intr = false }
        else set_status a ready (add_ready a s))
unfolding task_unpark
task_unpark_lem a s = ground (arith, Bool-cases s.intr)
