-- ===== src/Sched/Timer.antt =====
-- The timer interrupt, and the runs of it and of `task_yield`, `task_park` and `task_unpark`.
use ord_os.Base.{
  ℕ, ◌-◌, ◌≡◌, ◌≢◌, refl, Bool, false, Option, some, [], ◌∷◌, ◌++◌, arith, ◌==◌, if◌then◌else◌,
  Bool-cases, inl, inr, ◌∙◌, ap, subst, sym, ◌+◌, add32, ℕ_discrete, eq→==, ne→==, some_inj,
  some_inj,
}
use ord_os.Sched.{
  is_ready, Sched, null, set_task, task_unpark, task_schedule, task_schedule_handler, task_yield,
  task_park,
}
use ord_os.Sched.Invariant.{IsScheduled, IsTurnOver, add_ready-IsQueued, task_unpark_lem}
use ord_os.Sched.Schedule.{turn_queue, head_or, task_schedule-Switched}
use ord_os.Sched.Moves.{task_yield-Handed, task_park-Handed}

module _ (s : Sched) (k : IsScheduled s) where
  -- A timer interrupt in a well-formed state: the clock goes on, and the current task loses one tick
  -- of its slice; if none is left, it goes behind all ready tasks and the first of the queue runs.
  pub record Ticked (out : Option Sched) : Type 0 where
    pub after : Sched
    pub returns : out ≡ some after
    pub scheduled : IsScheduled after
    pub current : after.current ≡ (
        if (s.tasks s.current).ticks == 0
        then head_or (s.ready_list ++ (s.current ∷ [])) s.idle
        else s.current)
    pub slice :
        (s.tasks s.current).ticks ≢ 0
        → (after.tasks s.current).ticks + 1 ≡ (s.tasks s.current).ticks

  abbrev ticking : Sched
  ticking =
      set_task s.current
        (record (s.tasks s.current) { elapsed_ticks = add32 (s.tasks s.current).elapsed_ticks 1 })
        (record s { ticks = add32 s.ticks 1 })

  ticking-IsTurnOver : s.intr ≡ false → IsTurnOver ticking
  ticking-IsTurnOver off = record {
    queued = record {
      distinct = k.queued.distinct;
      ready_iff = λ a. ground (arith, k.queued.ready_iff a);
      null_out = k.queued.null_out;
    };
    only_current = λ a. ground (arith, k.running_iff a);
    current_ne = k.current_ne;
    idle_ne = k.idle_ne;
    masked = off;
  }

  handler_switch : (s.tasks s.current).ticks ≡ 0 → task_schedule_handler s ≡ task_schedule ticking
  unfolding task_schedule_handler
  handler_switch e = ground (arith, k.current_ne)

  abbrev sliced : Sched
  sliced =
      set_task s.current
        (record (s.tasks s.current) {
          elapsed_ticks = add32 (s.tasks s.current).elapsed_ticks 1;
          ticks = (s.tasks s.current).ticks - 1;
        })
        (record s { ticks = add32 s.ticks 1 })

  handler_slice : (s.tasks s.current).ticks ≢ 0 → task_schedule_handler s ≡ some sliced
  unfolding task_schedule_handler
  handler_slice e = ground (arith, k.current_ne)

  sliced-IsScheduled : IsScheduled sliced
  sliced-IsScheduled = record {
    queued = record {
      distinct = k.queued.distinct;
      ready_iff = λ a. ground (arith, k.queued.ready_iff a);
      null_out = k.queued.null_out;
    };
    running_iff = λ a. ground (arith, k.running_iff a);
    current_ne = k.current_ne;
    idle_ne = k.idle_ne;
  }

  ticking-queue : turn_queue ticking ≡ s.ready_list ++ (s.current ∷ [])
  ticking-queue = ground (arith, k.running_iff s.current)

  -- The timer interrupt never faults: the running task keeps the processor while ticks of its slice
  -- are left, each interrupt takes one, and after that it goes behind all ready tasks.
  pub task_schedule_handler-Ticked : s.intr ≡ false → Ticked (task_schedule_handler s)
  task_schedule_handler-Ticked off = elim (ℕ_discrete (s.tasks s.current).ticks 0) [
    | yes over ↦
        let w = task_schedule-Switched ticking (ticking-IsTurnOver off) in
        record {
          after = w.after;
          returns = handler_switch over ∙ w.returns;
          scheduled = w.scheduled;
          current = rw (eq→== _ _ over) (w.current ∙ ap (λ q. head_or q s.idle) ticking-queue);
          slice = λ left. absurd (left over);
        }
    | no left ↦ record {
      after = sliced;
      returns = handler_slice left;
      scheduled = sliced-IsScheduled;
      current = rw (ne→== _ _ left) refl;
      slice = λ _. ground arith;
    }
  ]

-- `task_unpark` of any task but the running one keeps a well-formed state.
pub task_unpark-IsScheduled :
    (a : ℕ) (s : Sched) → IsScheduled s → a ≢ null → a ≢ s.current → IsScheduled (task_unpark a s)
task_unpark-IsScheduled a s k ne other =
    rw task_unpark_lem (elim (Bool-cases (is_ready (s.tasks a).status)) [
      | inl already ↦ rw already (record {
        queued = k.queued;
        running_iff = k.running_iff;
        current_ne = k.current_ne;
        idle_ne = k.idle_ne;
      })
      | inr waits ↦ rw waits (record {
        queued =
            add_ready-IsQueued s.tasks s.ready_list a _ k.queued
              (ground (arith, k.queued.ready_iff a)) ne refl;
        running_iff = λ b. ground (arith, k.running_iff b);
        current_ne = k.current_ne;
        idle_ne = k.idle_ne;
      })
    ])

-- What the model of a run consists of: a timer interrupt, a call of one of three functions of task.c by
-- the running task, or a change of the interrupt flag by the code that runs. Each is one step, since
-- the three turn the interrupts off before they read or write anything. Not among the steps are the
-- creation of a task, which marks it as ready before it is in the queue, and the functions of sync.c,
-- which link the same node of a task into a wait queue and can be interrupted between that and
-- `task_park`.
pub data Step (s : Sched) : Sched → Type 0 where
  tick : {t : Sched} → task_schedule_handler (record s { intr = false }) ≡ some t → Step s t
  yields : {t : Sched} (flag : Bool) → task_yield s ≡ some (flag, t) → Step s t
  parks : {t : Sched} (flag : Bool) → task_park s ≡ some (flag, t) → Step s t
  unparks : (a : ℕ) → a ≢ null → a ≢ s.current → Step s (task_unpark a s)
  flags : (flag : Bool) → Step s (record s { intr = flag })

pub data Reach (s : Sched) : Sched → Type 0 where
  here : Reach s s
  next : {t u : Sched} → Reach s t → Step t u → Reach s u

set_flag-IsScheduled :
    (s : Sched) (flag : Bool) → IsScheduled s → IsScheduled (record s { intr = flag })
set_flag-IsScheduled s flag k = record {
  queued = k.queued;
  running_iff = k.running_iff;
  current_ne = k.current_ne;
  idle_ne = k.idle_ne;
}

Step-IsScheduled : {s t : Sched} → Step s t → IsScheduled s → IsScheduled t
Step-IsScheduled {s} (tick e) k =
    let w =
      task_schedule_handler-Ticked (record s { intr = false }) (set_flag-IsScheduled s false k)
        refl in
    subst IsScheduled (some_inj (sym w.returns ∙ e)) w.scheduled
Step-IsScheduled {s} (yields flag e) k =
    let w = task_yield-Handed s k in
    subst IsScheduled (ap (λ (p : Bool × Sched). p.1) (some_inj (sym w.returns ∙ e))) w.scheduled
Step-IsScheduled {s} (parks flag e) k =
    let w = task_park-Handed s k in
    subst IsScheduled (ap (λ (p : Bool × Sched). p.1) (some_inj (sym w.returns ∙ e))) w.scheduled
Step-IsScheduled {s} (unparks a ne other) k = task_unpark-IsScheduled a s k ne other
Step-IsScheduled {s} (flags flag) k = set_flag-IsScheduled s flag k

-- From a well-formed state, every run of timer interrupts, calls of `task_yield` and `task_park`, calls
-- of `task_unpark` on tasks other than the running one, and changes of the interrupt flag, in any
-- order, leads to well-formed states only: exactly one task is marked as running, and the queue holds
-- exactly the ready ones, each once. It says nothing of runs in which a task is created, or in which
-- a call of a mutex or of a semaphore is interrupted halfway.
pub Reach-IsScheduled : {s t : Sched} → IsScheduled s → Reach s t → IsScheduled t
Reach-IsScheduled k here = k
Reach-IsScheduled k (next r st) = Step-IsScheduled st (Reach-IsScheduled k r)
