-- ===== src/Sched/Schedule.antt =====
-- `__task_schedule` keeps the invariant and takes the tasks in the order of the queue.
use ord_os.Base.{
  ℕ, ◌≡◌, refl, false, ◌&&◌, Option, some, List, [], ◌∷◌, ◌++◌, arith, ◌==◌, if◌then◌else◌,
  Bool-cases, ◌∙◌, ap, inl, inr,
}
use ord_os.Sched.{
  Status, running, ready, is_running, is_ready, Sched, task_unpark, requeue, switch_to,
  pop_and_switch, is_nil, task_schedule,
}
use ord_os.Sched.Invariant.{IsScheduled, IsBetween, IsTurnOver, add_ready-IsQueued, task_unpark_lem}

requeue-IsBetween : (s : Sched) → IsTurnOver s → IsBetween (requeue s.current s)
unfolding requeue
requeue-IsBetween s o = elim (Bool-cases (is_running (s.tasks s.current).status)) [
  | inl runs ↦ rw runs (record {
    queued =
        add_ready-IsQueued s.tasks s.ready_list s.current _ o.queued
          (ground (arith, o.queued.ready_iff s.current)) o.current_ne refl;
    stopped = λ a. ground (arith, o.only_current a);
    current_ne = o.current_ne;
    idle_ne = o.idle_ne;
    masked = o.masked;
  })
  | inr waits ↦ rw waits (record {
    queued = o.queued;
    stopped = λ a. ground (arith, o.only_current a);
    current_ne = o.current_ne;
    idle_ne = o.idle_ne;
    masked = o.masked;
  })
]

-- With an empty queue the idle task is not ready, so it is put there.
wake_idle-IsBetween :
    (s : Sched)
    → IsBetween s
    → s.ready_list ≡ []
    → IsBetween (task_unpark s.idle s) × ((task_unpark s.idle s).ready_list ≡ s.idle ∷ [])
wake_idle-IsBetween s b e =
    rw (task_unpark_lem s.idle s, not_ready)
      (
        record {
          queued =
              add_ready-IsQueued s.tasks s.ready_list s.idle _ b.queued (ground arith) b.idle_ne
                refl;
          stopped = λ a. ground (arith, b.stopped a);
          current_ne = b.current_ne;
          idle_ne = b.idle_ne;
          masked = b.masked;
        },
        ground arith,
      )
  where
    not_ready : is_ready (s.tasks s.idle).status ≡ false
    not_ready = ground (arith, b.queued.ready_iff s.idle)

-- The head of the queue becomes the one running task.
switch_to-IsScheduled :
    (s : Sched) (next : ℕ) (rest : List ℕ)
    → IsBetween s
    → s.ready_list ≡ next ∷ rest
    → IsScheduled (switch_to next rest s)
unfolding switch_to
switch_to-IsScheduled s next rest b e = record {
  queued = record {
    distinct = ground (arith, b.queued.distinct);
    ready_iff =
        λ a. ground (arith, b.queued.ready_iff a, b.queued.ready_iff next, b.queued.distinct);
    null_out = ground (arith, b.queued.null_out);
  };
  running_iff = λ a. ground (arith, b.stopped a);
  current_ne = ground (arith, b.queued.null_out);
  idle_ne = b.idle_ne;
}

-- The queue once the caller of `__task_schedule` has been put back, if it was still running.
abbrev pub turn_queue : Sched → List ℕ
turn_queue s =
    if is_running (s.tasks s.current).status then s.ready_list ++ (s.current ∷ []) else s.ready_list

abbrev pub head_or : List ℕ → ℕ → ℕ
head_or [] d = d
head_or (x ∷ xs) d = x

abbrev pub tail_of : List ℕ → List ℕ
tail_of [] = []
tail_of (x ∷ xs) = xs

-- The status of task `a` once `next` runs: a caller that was still running is ready, and no other
-- task changes.
abbrev pub status_after : Sched → ℕ → ℕ → Status
status_after s next a =
    if a == next
    then running
    else if (a == s.current) && is_running (s.tasks a).status
    then ready
    else (s.tasks a).status

-- A reschedule without a fault: a well-formed state in which the first task of the queue runs, or
-- the idle task if there is none, with its page table loaded and the others queued in their order.
pub record Switched (s : Sched) (out : Option Sched) : Type 0 where
  pub after : Sched
  pub returns : out ≡ some after
  pub scheduled : IsScheduled after
  pub masked : after.intr ≡ false
  pub current : after.current ≡ head_or (turn_queue s) s.idle
  pub queue : after.ready_list ≡ tail_of (turn_queue s)
  pub same_idle : after.idle ≡ s.idle
  pub statuses : (a : ℕ) → (after.tasks a).status ≡ status_after s after.current a
  pub page_table : after.cr3 ≡ (s.tasks after.current).page_table

requeue-queue : (s : Sched) → (requeue s.current s).ready_list ≡ turn_queue s
unfolding requeue
requeue-queue s = ground arith

-- The part of `__task_schedule` behind `list_empty`.
abbrev pick : List ℕ → Sched → Option Sched
pick queue b =
    let s2 = if is_nil queue then task_unpark b.idle b else b in pop_and_switch s2.ready_list s2

pick_first :
    (b : Sched) (next : ℕ) (rest : List ℕ)
    → b.ready_list ≡ next ∷ rest
    → pick b.ready_list b ≡ some (switch_to next rest b)
unfolding pop_and_switch
pick_first b next rest q = ap (λ l. pick l b) q ∙ ap (λ l. pop_and_switch l b) q

pick_idle :
    (b : Sched)
    → b.ready_list ≡ []
    → (task_unpark b.idle b).ready_list ≡ b.idle ∷ []
    → pick b.ready_list b ≡ some (switch_to b.idle [] (task_unpark b.idle b))
unfolding pop_and_switch
pick_idle b q woken = ap (λ l. pick l b) q ∙ ap (λ l. pop_and_switch l (task_unpark b.idle b)) woken

unparked_status :
    (b : Sched) (a : ℕ)
    → ((task_unpark b.idle b).tasks a).status ≡ (if a == b.idle then ready else (b.tasks a).status)
unparked_status b a = ground (arith, task_unpark_lem b.idle b)

woken_status :
    (b : Sched) (a : ℕ)
    → ((switch_to b.idle [] (task_unpark b.idle b)).tasks a).status
      ≡ (if a == b.idle then running else (b.tasks a).status)
unfolding switch_to
woken_status b a = ground (arith, unparked_status b a)

module _ (s : Sched) (o : IsTurnOver s) where
  abbrev back : Sched
  back = requeue s.current s

  -- What `__task_schedule` does once its assertions hold.
  task_schedule_step : task_schedule s ≡ pick back.ready_list back
  unfolding task_schedule
  task_schedule_step = ground (arith, o.masked, o.current_ne)

  same_tables : (a : ℕ) → (back.tasks a).page_table ≡ (s.tasks a).page_table
  unfolding requeue
  same_tables a = ground arith

  same_idle : back.idle ≡ s.idle
  unfolding requeue
  same_idle = ground arith

  from_queue :
      (next : ℕ) (rest : List ℕ) → turn_queue s ≡ next ∷ rest → Switched s (task_schedule s)
  from_queue next rest e =
      let q : back.ready_list ≡ next ∷ rest = requeue-queue s ∙ e in
      let b = requeue-IsBetween s o in
      record {
        after = switch_to next rest back;
        returns = task_schedule_step ∙ pick_first back next rest q;
        scheduled = switch_to-IsScheduled back next rest b q;
        masked = unfold switch_to in b.masked;
        current = rw e (unfold switch_to in refl);
        queue = rw e (unfold switch_to in refl);
        same_idle = unfold switch_to requeue in ground arith;
        statuses = λ a. unfold switch_to requeue in ground arith;
        page_table = unfold switch_to in same_tables next;
      }

  from_idle : turn_queue s ≡ [] → Switched s (task_schedule s)
  from_idle e =
      let q : back.ready_list ≡ [] = requeue-queue s ∙ e in
      let (b, woken) = wake_idle-IsBetween back (requeue-IsBetween s o) q in
      record {
        after = switch_to back.idle [] (task_unpark back.idle back);
        returns = task_schedule_step ∙ pick_idle back q woken;
        scheduled = switch_to-IsScheduled (task_unpark back.idle back) back.idle [] b woken;
        masked = unfold switch_to in b.masked;
        current = rw e (unfold switch_to in same_idle);
        queue = rw e (unfold switch_to in refl);
        same_idle = unfold switch_to in ground (arith, task_unpark_lem back.idle back, same_idle);
        statuses = λ a. woken_status back a ∙ unfold requeue switch_to in ground arith;
        page_table =
            unfold switch_to in
            (ap (λ (t : Sched). (t.tasks back.idle).page_table) (task_unpark_lem back.idle back)
              ∙ ground (arith, same_tables back.idle));
      }

  -- `__task_schedule` called with interrupts off never faults: it runs the first task of the queue
  -- after putting the caller back if that was still running, or the idle task, and the result is
  -- well formed.
  pub task_schedule-Switched : Switched s (task_schedule s)
  task_schedule-Switched = by_queue (turn_queue s) refl
    where
      by_queue : (q : List ℕ) → turn_queue s ≡ q → Switched s (task_schedule s)
      by_queue [] e = from_idle e
      by_queue (next ∷ rest) e = from_queue next rest e
