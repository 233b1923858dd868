-- ===== src/Sync/Waiting.antt =====
-- The tasks in a wait queue are blocked, and stay so until they are woken.
use ord_os.Base.{
  ℕ, ◌≡◌, ◌≢◌, refl, true, false, ◌||◌, Option, some, List, [], ◌∷◌, ◌++◌, arith, ◌==◌, among,
  Distinct, among-append, ap, ne→==,
}
use ord_os.ListHead.Ring.{Distinct-snoc}
use ord_os.Sched.{
  Sched, Status, ready, blocked, null, add_ready, set_status, task_park, task_unpark,
}
use ord_os.Sched.Invariant.{IsScheduled, task_unpark_lem}
use ord_os.Sched.Schedule.{head_or}
use ord_os.Sched.Moves.{Handed, task_park-Handed}
use ord_os.Sched.Timer.{task_unpark-IsScheduled}
use ord_os.Sync.{Waitable, Blocking, parked, wait_and_park, wake_or}

-- The queue of a lock in a well-formed state: distinct blocked tasks, the idle task not among them.
pub record IsWaiting (s : Sched) (queue : List ℕ) : Type 0 where
  pub distinct : Distinct queue
  pub blocked : (a : ℕ) → among a queue ≡ true → (s.tasks a).status ≡ Status.blocked
  pub null_out : among null queue ≡ false
  pub idle_out : among s.idle queue ≡ false

-- A waiter is not the running task and is not in the ready queue.
pub waiting-ne :
    (s : Sched) (queue : List ℕ) (a : ℕ)
    → IsScheduled s
    → IsWaiting s queue
    → among a queue ≡ true
    → (a ≢ s.current) × (among a s.ready_list ≡ false)
waiting-ne s queue a k w m = (
  ground (arith, w.blocked a, k.running_iff a),
  ground (arith, w.blocked a, k.queued.ready_iff a),
)

-- The caller joins the queue and parks.
pub record Parked (m : Waitable) (s : Sched) (out : Option Blocking) : Type 0 where
  pub after : Sched
  pub returns :
      out ≡ some (parked (record m { wait_queue = m.wait_queue ++ (s.current ∷ []) }) s.intr after)
  pub scheduled : IsScheduled after
  pub waiting : IsWaiting after (m.wait_queue ++ (s.current ∷ []))
  pub current : after.current ≡ head_or s.ready_list s.idle
  pub masked : after.intr ≡ false

module _ (m : Waitable) (s : Sched) (k : IsScheduled s) (w : IsWaiting s m.wait_queue)
    (busy : s.current ≢ s.idle) where
  abbrev handed : Handed s s.ready_list blocked (task_park s)
  handed = task_park-Handed s k

  -- The task that runs next is none of the waiters, nor the caller.
  next_out : (a : ℕ) → (among a m.wait_queue || (a == s.current)) ≡ true → a ≢ handed.after.current
  next_out a i = by_queue s.ready_list refl
    where
      by_queue : (q : List ℕ) → s.ready_list ≡ q → a ≢ handed.after.current
      by_queue [] e = ground (arith, handed.current, w.idle_out)
      by_queue (x ∷ xs) e =
          ground (arith, handed.current, w.blocked a, k.queued.ready_iff x, k.running_iff x)

  pub wait_and_park-Parked : Parked m s (wait_and_park m s)
  unfolding wait_and_park
  wait_and_park-Parked = record {
    after = handed.after;
    returns = rw (ne→== _ _ k.current_ne, handed.returns) refl;
    scheduled = handed.scheduled;
    waiting = record {
      distinct =
          Distinct-snoc m.wait_queue s.current w.distinct
            (ground (arith, w.blocked s.current, k.running_iff s.current));
      blocked = λ a i. ground (
        arith,
        among-append a m.wait_queue (s.current ∷ []),
        handed.statuses a,
        next_out a,
        w.blocked a,
      );
      null_out =
          ground (arith, among-append null m.wait_queue (s.current ∷ []), w.null_out, k.current_ne);
      idle_out =
          rw handed.same_idle
            (ground (arith, among-append s.idle m.wait_queue (s.current ∷ []), w.idle_out));
    };
    current = handed.current;
    masked = handed.masked;
  }

-- The first waiter becomes ready behind all ready tasks; the others go on waiting.
pub record Woken (s : Sched) (task : ℕ) (rest : List ℕ) (after : Sched) : Type 0 where
  pub scheduled : IsScheduled after
  pub waiting : IsWaiting after rest
  pub ready_list : after.ready_list ≡ s.ready_list ++ (task ∷ [])
  pub current : after.current ≡ s.current
  pub intr : after.intr ≡ s.intr

pub task_unpark-Woken :
    (s : Sched) (task : ℕ) (rest : List ℕ)
    → IsScheduled s
    → IsWaiting s (task ∷ rest)
    → Woken s task rest (task_unpark task s)
task_unpark-Woken s task rest k w = record {
  scheduled =
      task_unpark-IsScheduled task s k (ground (arith, w.null_out))
        (waiting-ne s (task ∷ rest) task k w (ground arith)).0;
  waiting = rw effect (record {
    distinct = w.distinct.1;
    blocked = λ a i. ground (arith, w.blocked a, w.distinct);
    null_out = ground (arith, w.null_out);
    idle_out = ground (arith, w.idle_out);
  });
  ready_list = ap (λ (t : Sched). t.ready_list) effect;
  current = ap (λ (t : Sched). t.current) effect;
  intr = ap (λ (t : Sched). t.intr) effect;
}
  where
    effect : task_unpark task s ≡ set_status task ready (add_ready task s)
    effect = ground (arith, task_unpark_lem task s, w.blocked task)

-- What the unlocking functions do to their queue, for an empty queue and for a first waiter.
pub wake_or_empty :
    (f : ℕ → ℕ) (m : Waitable) (s : Sched)
    → m.wait_queue ≡ []
    → wake_or f m s ≡ (record m { value = f m.value }, s)
unfolding wake_or
wake_or_empty f m s e = ground arith

pub wake_or_first :
    (f : ℕ → ℕ) (m : Waitable) (s : Sched) (task : ℕ) (rest : List ℕ)
    → m.wait_queue ≡ task ∷ rest
    → wake_or f m s ≡ (record m { wait_queue = rest }, task_unpark task s)
unfolding wake_or
wake_or_first f m s task rest e = ground arith
