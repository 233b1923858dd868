-- ===== src/Sync/Semaphore.antt =====
-- `semaphore_down` and `semaphore_up`: permits are neither lost nor made up.
use mathlib.Core.List.{append-nil}
use ord_os.Base.{
  ℕ, ◌+◌, ◌-◌, ◌<◌, ◌^◌, ◌≡◌, ◌≢◌, refl, Option, some, List, [], ◌∷◌, ◌++◌, arith, ltb,
  if◌then◌else◌, length, inl, inr, ◌⊎◌, ◌∙◌, ap, sym, subst, add32, dec_lt,
}
use ord_os.Spin.Laws.{spin_lock_released}
use ord_os.Sched.{Sched, task_unpark}
use ord_os.Sched.Invariant.{IsScheduled}
use ord_os.Sched.Schedule.{tail_of}
use ord_os.Sync.{
  Waitable, Blocking, passed, parked, semaphore_down, semaphore_up, wait_and_park, wake_or,
}
use ord_os.Sync.Waiting.{
  IsWaiting, wait_and_park-Parked, task_unpark-Woken, wake_or_empty, wake_or_first,
}
use ord_os.Sync.Mutex.{wakes}

-- `granted` is the number of calls of `semaphore_down` that have gone on or been let on, and `given`
-- the initial value and the number of calls of `semaphore_up` together.
pub record IsSemaphore (m : Waitable) (s : Sched) (granted given : ℕ) : Type 0 where
  pub released : m.guard ≡ 0
  pub balance : m.value + granted ≡ given
  pub bounded : given < 2 ^ 32
  pub no_idle_permit : (m.value ≡ 0) ⊎ (m.wait_queue ≡ [])
  pub scheduled : IsScheduled s
  pub waiting : IsWaiting s m.wait_queue

-- A call of `semaphore_down`: with a permit left it takes one and goes on; without, it waits at the
-- end of the queue and is granted nothing yet.
pub data Down (m : Waitable) (s : Sched) (granted given : ℕ) : Option Blocking → Type 0 where
  taken :
      {out : Option Blocking} (after : Waitable)
      → out ≡ some (passed after s)
      → m.value ≢ 0
      → IsSemaphore after s (granted + 1) given
      → Down m s granted given out
  waits :
      {out : Option Blocking} (after : Waitable) (next : Sched)
      → out ≡ some (parked after s.intr next)
      → m.value ≡ 0
      → after.wait_queue ≡ m.wait_queue ++ (s.current ∷ [])
      → IsSemaphore after next granted given
      → Down m s granted given out

down_step :
    (m : Waitable) (s : Sched)
    → m.guard ≡ 0
    → semaphore_down m s ≡ (
        if ltb 0 m.value
        then some (passed (record m { value = m.value - 1; guard = 0 }) s)
        else wait_and_park (record m { guard = 0 }) s)
unfolding semaphore_down
down_step m s e = rw (spin_lock_released m.guard e, semaphore_down) refl

-- `semaphore_down` never blocks while permits are left and always blocks when none is; permits and
-- grants add up to what was given, before and after.
pub semaphore_down-Down :
    (m : Waitable) (s : Sched) (granted given : ℕ)
    → IsSemaphore m s granted given
    → s.current ≢ s.idle
    → Down m s granted given (semaphore_down m s)
semaphore_down-Down m s granted given ok busy = elim (dec_lt 0 m.value) [
  | yes left ↦
      taken (record m { value = m.value - 1; guard = 0 }) (down_step m s ok.released ∙ ground arith)
        (omega arith)
        (record {
          released = refl;
          balance = omega (arith, ok.balance);
          bounded = ok.bounded;
          no_idle_permit = ground (arith, ok.no_idle_permit);
          scheduled = ok.scheduled;
          waiting = ok.waiting;
        })
  | no used ↦
      let w = wait_and_park-Parked (record m { guard = 0 }) s ok.scheduled ok.waiting busy in
      waits (record m { guard = 0; wait_queue = m.wait_queue ++ (s.current ∷ []) }) w.after
        (down_step m s ok.released ∙ ground (arith, w.returns)) (omega arith) refl
        (record {
          released = refl;
          balance = ok.balance;
          bounded = ok.bounded;
          no_idle_permit = inl (omega arith);
          scheduled = w.scheduled;
          waiting = w.waiting;
        })
]

-- A call of `semaphore_up`: one more permit, or one more grant for the task that waited longest.
pub record Up (m : Waitable) (s : Sched) (granted given : ℕ) (out : Option (Waitable × Sched))
    : Type 0 where
  pub lock : Waitable
  pub after : Sched
  pub returns : out ≡ some (lock, after)
  pub semaphore : IsSemaphore lock after (granted + length (wakes m.wait_queue)) (given + 1)
  pub order : lock.wait_queue ≡ tail_of m.wait_queue
  pub ready_list : after.ready_list ≡ s.ready_list ++ wakes m.wait_queue
  pub current : after.current ≡ s.current
  pub intr : after.intr ≡ s.intr

abbrev unguard : Waitable × Sched → Option (Waitable × Sched)
unguard (m, s) = some (record m { guard = 0 }, s)

up_step :
    (m : Waitable) (s : Sched)
    → m.guard ≡ 0
    → semaphore_up m s ≡ unguard (wake_or (λ v. add32 v 1) m s)
unfolding semaphore_up
up_step m s e = rw (spin_lock_released m.guard e, semaphore_up) refl

-- `semaphore_up` returns without blocking: it makes the first waiter ready and grants it the permit,
-- or keeps the permit in the value if nobody waits; the value does not wrap while fewer than 2^32
-- permits were given.
pub semaphore_up-Up :
    (m : Waitable) (s : Sched) (granted given : ℕ)
    → IsSemaphore m s granted given
    → given + 1 < 2 ^ 32
    → Up m s granted given (semaphore_up m s)
semaphore_up-Up m s granted given ok small = by_queue m.wait_queue refl
  where
    by_queue : (q : List ℕ) → m.wait_queue ≡ q → Up m s granted given (semaphore_up m s)
    by_queue [] e = record {
      lock = record m { value = add32 m.value 1; guard = 0 };
      after = s;
      returns = up_step m s ok.released ∙ ap unguard (wake_or_empty (λ v. add32 v 1) m s e);
      semaphore = rw e (record {
        released = refl;
        balance = omega (arith, ok.balance);
        bounded = small;
        no_idle_permit = inr refl;
        scheduled = ok.scheduled;
        waiting = rw e at ok.waiting;
      });
      order = rw e refl;
      ready_list = rw e (sym (append-nil _));
      current = refl;
      intr = refl;
    }
    by_queue (x ∷ xs) e =
        let w = task_unpark-Woken s x xs ok.scheduled (subst (IsWaiting s) e ok.waiting) in
        record {
          lock = record m { wait_queue = xs; guard = 0 };
          after = task_unpark x s;
          returns =
              up_step m s ok.released ∙ ap unguard (wake_or_first (λ v. add32 v 1) m s x xs e);
          semaphore = rw e (record {
            released = refl;
            balance = omega (arith, ok.balance);
            bounded = small;
            no_idle_permit = inl (ground (arith, ok.no_idle_permit));
            scheduled = w.scheduled;
            waiting = w.waiting;
          });
          order = rw e refl;
          ready_list = rw e w.ready_list;
          current = w.current;
          intr = w.intr;
        }
