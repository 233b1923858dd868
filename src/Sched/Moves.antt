-- ===== src/Sched/Moves.antt =====
-- The timer, `task_yield`, `task_park` and `task_unpark` in a well-formed state, and every state that
-- they lead to.
use ord_os.Base.{
  ℕ, ◌≡◌, refl, Bool, false, Option, none, some, List, [], ◌∷◌, ◌++◌, arith, ◌==◌, if◌then◌else◌,
  Bool-cases, ◌∙◌, ap, subst,
}
use ord_os.Sched.{
  Status, running, ready, blocked, is_running, Sched, set_status, add_ready, task_push,
  task_schedule, task_yield, task_park,
}
use ord_os.Sched.Invariant.{IsScheduled, IsTurnOver, add_ready-IsQueued, task_push_lem}
use ord_os.Sched.Schedule.{Switched, turn_queue, head_or, tail_of, task_schedule-Switched}

-- A call that ends in a switch: the flag that the caller gets back, and the state of the next task.
pub record Handed (s : Sched) (order : List ℕ) (left : Status) (out : Option (Bool × Sched))
    : Type 0 where
  pub after : Sched
  pub returns : out ≡ some (s.intr, after)
  pub scheduled : IsScheduled after
  pub masked : after.intr ≡ false
  pub current : after.current ≡ head_or order s.idle
  pub queue : after.ready_list ≡ tail_of order
  pub same_idle : after.idle ≡ s.idle
  pub statuses :
      (a : ℕ)
      → (after.tasks a).status ≡ (
          if a == after.current
          then running
          else if a == s.current
          then left
          else (s.tasks a).status)

module _ (s : Sched) (k : IsScheduled s) where
  abbrev yielding : Sched
  yielding = set_status s.current ready (add_ready s.current (record s { intr = false }))

  yielding-IsTurnOver : IsTurnOver yielding
  yielding-IsTurnOver = record {
    queued =
        add_ready-IsQueued s.tasks s.ready_list s.current _ k.queued
          (ground (arith, k.queued.ready_iff s.current, k.running_iff s.current)) k.current_ne refl;
    only_current = λ a. ground (arith, k.running_iff a);
    current_ne = k.current_ne;
    idle_ne = k.idle_ne;
    masked = refl;
  }

  abbrev yield_from : Sched → Option (Bool × Sched)
  yield_from pushed = elim (task_schedule (set_status s.current ready pushed)) [
    | none ↦ none
    | some s2 ↦ some (s.intr, s2)
  ]

  task_yield_pushes : task_yield s ≡ yield_from (task_push s.current (record s { intr = false }))
  unfolding task_yield
  task_yield_pushes = ground (arith, Bool-cases s.intr, k.current_ne)

  task_yield_step : task_yield s ≡ yield_from (add_ready s.current (record s { intr = false }))
  task_yield_step =
      task_yield_pushes ∙ ap yield_from (task_push_lem s.current (record s { intr = false }))

  abbrev parking : Sched
  parking = set_status s.current blocked (record s { intr = false })

  parking-IsTurnOver : IsTurnOver parking
  parking-IsTurnOver = record {
    queued = record {
      distinct = k.queued.distinct;
      ready_iff = λ a.
          ground
            (arith, k.queued.ready_iff a, k.running_iff s.current, k.queued.ready_iff s.current);
      null_out = k.queued.null_out;
    };
    only_current = λ a. ground (arith, k.running_iff a);
    current_ne = k.current_ne;
    idle_ne = k.idle_ne;
    masked = refl;
  }

  hand_over :
      (t : Sched) (left : Status)
      → t.idle ≡ s.idle
      → is_running left ≡ false
      → ((a : ℕ) → (t.tasks a).status ≡ (if a == s.current then left else (s.tasks a).status))
      → Switched t (task_schedule t)
      → Handed s
          (turn_queue t)
          left
          (elim (task_schedule t) [ none ↦ none | some s2 ↦ some (s.intr, s2) ])
  hand_over t left e stops same w = record {
    after = w.after;
    returns = rw w.returns refl;
    scheduled = w.scheduled;
    masked = w.masked;
    current = w.current ∙ ap (head_or (turn_queue t)) e;
    queue = w.queue;
    same_idle = w.same_idle ∙ e;
    statuses = λ a. ground (arith, w.statuses a, same a, k.running_iff a);
  }

  -- `task_yield` puts the caller behind all ready tasks and runs the first of the queue; the caller
  -- gets its interrupt flag back when it runs again.
  pub task_yield-Handed : Handed s (s.ready_list ++ (s.current ∷ [])) ready (task_yield s)
  task_yield-Handed = rw task_yield_step (
      subst (λ q. Handed s q ready (yield_from (add_ready s.current (record s { intr = false }))))
        (ground arith)
        (hand_over yielding ready refl refl (λ a. ground arith)
          (task_schedule-Switched yielding yielding-IsTurnOver)))

  abbrev park_from : Sched → Option (Bool × Sched)
  park_from t = elim (task_schedule t) [ none ↦ none | some s2 ↦ some (s.intr, s2) ]

  task_park_step : task_park s ≡ park_from parking
  unfolding task_park
  task_park_step = ground (arith, Bool-cases s.intr, k.current_ne)

  -- `task_park` runs the first ready task, or the idle task if none is ready; the caller is in no
  -- queue afterwards.
  pub task_park-Handed : Handed s s.ready_list blocked (task_park s)
  task_park-Handed = rw task_park_step (
      subst (λ q. Handed s q blocked (park_from parking)) (ground arith)
        (hand_over parking blocked refl refl (λ a. ground arith)
          (task_schedule-Switched parking parking-IsTurnOver)))
