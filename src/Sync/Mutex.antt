-- ===== src/Sync/Mutex.antt =====
-- `mutex_lock` and `mutex_unlock`: one holder at a time, handed over in the order of arrival.
use ord_os.Base.{
  ℕ, ◌≡◌, ◌≢◌, refl, false, Option, none, some, List, [], ◌∷◌, ◌++◌, arith, among, among-append,
  sym, subst, ◌∙◌, ap,
}
use mathlib.Core.List.{append-nil}
use ord_os.Sched.{task_unpark}
use ord_os.Spin.Laws.{spin_lock_released}
use ord_os.Sched.{Sched}
use ord_os.Sched.Invariant.{IsScheduled}
use ord_os.Sched.Schedule.{head_or, tail_of}
use ord_os.Sync.{Waitable, passed, parked, mutex_lock, mutex_unlock, wait_and_park, wake_or}
use ord_os.Sync.Waiting.{
  IsWaiting, wait_and_park-Parked, task_unpark-Woken, wake_or_empty, wake_or_first,
}

-- Who holds the mutex, and what its fields say of that: the flag is set exactly while it is held,
-- nobody waits for a free mutex, and the holder does not wait.
pub data Holds (m : Waitable) : Option ℕ → Type 0 where
  free : m.value ≡ 0 → m.wait_queue ≡ [] → Holds m none
  held : (task : ℕ) → m.value ≡ 1 → among task m.wait_queue ≡ false → Holds m (some task)

pub record IsMutex (m : Waitable) (s : Sched) (holder : Option ℕ) : Type 0 where
  pub released : m.guard ≡ 0
  pub holds : Holds m holder
  pub scheduled : IsScheduled s
  pub waiting : IsWaiting s m.wait_queue

-- Locking a free mutex: the caller goes on at once and holds it.
pub record Taken (m : Waitable) (s : Sched) : Type 0 where
  pub after : Waitable
  pub returns : mutex_lock m s ≡ some (passed after s)
  pub mutex : IsMutex after s (some s.current)

-- `mutex_lock` of a mutex that nobody holds returns at once and makes the caller the holder.
pub mutex_lock_free : (m : Waitable) (s : Sched) → IsMutex m s none → Taken m s
unfolding mutex_lock
mutex_lock_free m s ok = by_holds ok.holds
  where
    by_holds : Holds m none → Taken m s
    by_holds (free clear empty) = record {
      after = record m { value = 1; guard = 0 };
      returns = rw (spin_lock_released m.guard ok.released, mutex_lock) (ground arith);
      mutex = record {
        released = refl;
        holds = held s.current refl (ground arith);
        scheduled = ok.scheduled;
        waiting = ok.waiting;
      };
    }

held_fields :
    {m : Waitable} {task : ℕ}
    → Holds m (some task)
    → (m.value ≡ 1) × (among task m.wait_queue ≡ false)
held_fields (held task set out) = (set, out)

mutex_lock_busy :
    (m : Waitable) (s : Sched)
    → m.guard ≡ 0
    → m.value ≡ 1
    → mutex_lock m s ≡ wait_and_park (record m { guard = 0 }) s
unfolding mutex_lock
mutex_lock_busy m s e set = rw (spin_lock_released m.guard e, mutex_lock) (ground arith)

-- Locking a held mutex: the caller waits behind all others, and the holder stays the same.
pub record Queued (m : Waitable) (s : Sched) (holder : ℕ) : Type 0 where
  pub lock : Waitable
  pub after : Sched
  pub returns : mutex_lock m s ≡ some (parked lock s.intr after)
  pub mutex : IsMutex lock after (some holder)
  pub order : lock.wait_queue ≡ m.wait_queue ++ (s.current ∷ [])
  pub current : after.current ≡ head_or s.ready_list s.idle

-- `mutex_lock` of a mutex that another task holds never lets the caller through: it waits at the end
-- of the queue, blocked, and the next ready task (or the idle task) runs.
pub mutex_lock_held :
    (m : Waitable) (s : Sched) (holder : ℕ)
    → IsMutex m s (some holder)
    → holder ≢ s.current
    → s.current ≢ s.idle
    → Queued m s holder
mutex_lock_held m s holder ok other busy =
    let (set, out) = held_fields ok.holds in
    let waits = wait_and_park-Parked (record m { guard = 0 }) s ok.scheduled ok.waiting busy in
    record {
      lock = record m { guard = 0; wait_queue = m.wait_queue ++ (s.current ∷ []) };
      after = waits.after;
      returns = mutex_lock_busy m s ok.released set ∙ waits.returns;
      mutex = record {
        released = refl;
        holds = held holder set (ground (arith, among-append holder m.wait_queue (s.current ∷ [])));
        scheduled = waits.scheduled;
        waiting = waits.waiting;
      };
      order = refl;
      current = waits.current;
    }

-- Unlocking: the first waiter holds the mutex next and is ready, or nobody holds it.
abbrev pub head_of : List ℕ → Option ℕ
head_of [] = none
head_of (x ∷ xs) = some x

abbrev pub wakes : List ℕ → List ℕ
wakes [] = []
wakes (x ∷ xs) = x ∷ []

pub record Passed (m : Waitable) (s : Sched) : Type 0 where
  pub lock : Waitable
  pub after : Sched
  pub returns : mutex_unlock m s ≡ some (lock, after)
  pub mutex : IsMutex lock after (head_of m.wait_queue)
  pub order : lock.wait_queue ≡ tail_of m.wait_queue
  pub ready_list : after.ready_list ≡ s.ready_list ++ wakes m.wait_queue
  pub current : after.current ≡ s.current
  pub intr : after.intr ≡ s.intr

abbrev unguard : Waitable × Sched → Option (Waitable × Sched)
unguard (m, s) = some (record m { guard = 0 }, s)

mutex_unlock_step :
    (m : Waitable) (s : Sched) → m.guard ≡ 0 → mutex_unlock m s ≡ unguard (wake_or (λ v. 0) m s)
unfolding mutex_unlock
mutex_unlock_step m s e = rw (spin_lock_released m.guard e, mutex_unlock) refl

-- `mutex_unlock` hands the mutex to the task that has waited longest, which becomes ready behind all
-- ready tasks, or frees it if nobody waits; the caller keeps the processor.
pub mutex_unlock_lem :
    (m : Waitable) (s : Sched) (holder : ℕ) → IsMutex m s (some holder) → Passed m s
mutex_unlock_lem m s holder ok = by_queue m.wait_queue refl
  where
    by_queue : (q : List ℕ) → m.wait_queue ≡ q → Passed m s
    by_queue [] e = record {
      lock = record m { value = 0; guard = 0 };
      after = s;
      returns = mutex_unlock_step m s ok.released ∙ ap unguard (wake_or_empty (λ v. 0) m s e);
      mutex = rw e (record {
        released = refl;
        holds = free refl refl;
        scheduled = ok.scheduled;
        waiting = rw e at ok.waiting;
      });
      order = rw e refl;
      ready_list = rw e (sym (append-nil _));
      current = refl;
      intr = refl;
    }
    by_queue (x ∷ xs) e =
        let waiting : IsWaiting s (x ∷ xs) = subst (IsWaiting s) e ok.waiting in
        let w = task_unpark-Woken s x xs ok.scheduled waiting in
        record {
          lock = record m { wait_queue = xs; guard = 0 };
          after = task_unpark x s;
          returns =
              mutex_unlock_step m s ok.released ∙ ap unguard (wake_or_first (λ v. 0) m s x xs e);
          mutex = rw e (record {
            released = refl;
            holds = held x (held_fields ok.holds).0 waiting.distinct.0;
            scheduled = w.scheduled;
            waiting = w.waiting;
          });
          order = rw e refl;
          ready_list = rw e w.ready_list;
          current = w.current;
          intr = w.intr;
        }
