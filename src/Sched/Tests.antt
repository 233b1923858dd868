-- ===== src/Sched/Tests.antt =====
-- A main task 1, an idle task 2 that is blocked and a task 3 that is ready.
use ord_os.Base.{
  ℕ, ◌≤◌, ◌≡◌, refl, Bool, true, false, Option, none, some, [], ◌∷◌, arith, ◌==◌, if◌then◌else◌,
  add32,
}
use ord_os.Sched.{
  Status, running, ready, blocked, is_ready, Task, Sched, set_status, add_ready, task_push,
  task_unpark, task_schedule, task_yield, task_park, sleep_over,
}
use ord_os.Sched.Invariant.{IsScheduled, IsTurnOver, task_unpark_lem}
use ord_os.Sched.Schedule.{Switched, task_schedule-Switched}
use ord_os.Sched.Timer.{here, next, flags, unparks, Reach-IsScheduled}
use ord_os.Sched.Sleep.{sleep_never_early, sleep_missed}

abbrev task_in : Status → Task
task_in st = record {
  status = st;
  priority = 31;
  ticks = 31;
  elapsed_ticks = 0;
  page_table = 0x1000;
  stack = 0x200f80;
}

abbrev kernel : Sched
kernel = record {
  tasks =
      λ a. if a == 1 then task_in running else if a == 3 then task_in ready else task_in blocked;
  ready_list = 3 ∷ [];
  current = 1;
  ticks = 0;
  idle = 2;
  intr = true;
  cr3 = 0x1000;
  esp0 = 0x201000;
}

abbrev masked : Sched
masked = record kernel { intr = false }

pub kernel-IsScheduled : IsScheduled kernel
kernel-IsScheduled = record {
  queued = record { distinct = (refl, tt); ready_iff = λ a. ground arith; null_out = refl };
  running_iff = λ a. ground arith;
  current_ne = omega arith;
  idle_ne = omega arith;
}

masked-IsScheduled : IsScheduled masked
masked-IsScheduled = record {
  queued = kernel-IsScheduled.queued;
  running_iff = kernel-IsScheduled.running_iff;
  current_ne = omega arith;
  idle_ne = omega arith;
}

masked-IsTurnOver : IsTurnOver masked
masked-IsTurnOver = record {
  queued = kernel-IsScheduled.queued;
  only_current = λ a. ground arith;
  current_ne = omega arith;
  idle_ne = omega arith;
  masked = refl;
}

abbrev current_of : Option (Bool × Sched) → ℕ
current_of none = 0
current_of (some (flag, s)) = s.current

turns :
    (current_of (task_yield kernel) ≡ 3)
    × (current_of (task_park (record kernel { ready_list = [] })) ≡ 2)
unfolding task_yield task_push task_schedule task_park
turns = (refl, refl)

-- The idle task is woken with interrupts on; task 3 is ready already, and they stay off.
unpark_twice : ((task_unpark 2 kernel).intr ≡ true) × ((task_unpark 3 kernel).intr ≡ false)
unfolding task_unpark
unpark_twice = (refl, refl)

task_schedule-Switched_example : Switched masked (task_schedule masked)
task_schedule-Switched_example = task_schedule-Switched masked masked-IsTurnOver

Reach-IsScheduled_example : IsScheduled (task_unpark 2 masked)
Reach-IsScheduled_example =
    Reach-IsScheduled kernel-IsScheduled
      (next (next here (flags false)) (unparks 2 (omega arith) (omega arith)))

task_unpark_lem_example : task_unpark 3 kernel ≡ (
    if is_ready (kernel.tasks 3).status
    then record kernel { intr = false }
    else set_status 3 ready (add_ready 3 kernel))
task_unpark_lem_example = task_unpark_lem 3 kernel

sleep_never_early_example : 100 ≤ 150
sleep_never_early_example =
    sleep_never_early 5 100 150 (omega arith) (omega arith) (omega arith)
      (unfold sleep_over in refl)

sleep_missed_example : sleep_over 4294967190 (add32 4294967190 100) (add32 4294967190 110) ≡ false
sleep_missed_example =
    sleep_missed 4294967190 100 110 (omega arith) (omega arith) (omega arith) (omega arith)
      (omega arith)
