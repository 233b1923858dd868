-- ===== src/Sched.antt =====
-- kernel/task/task.c: the ready queue, the current task, and the functions that move tasks between
-- running, ready and blocked. Tasks are named by the address of their `struct task`; the ready list
-- is the list that its ring stands for (ListHead).
pub mod Invariant
pub mod Schedule
pub mod Moves
pub mod Timer
pub mod Sleep
mod Tests
use ord_os.Base.{
  ℕ, zero, suc, ◌-◌, Bool, true, false, ◌&&◌, ◌||◌, not, Option, none, some, List, [], ◌∷◌, ◌++◌,
  ◌==◌, ltb, leb, if◌then◌else◌, add32, page_size, page_base,
}
use ord_os.Intr.{intr_lock, intr_unlock}

-- `enum task_status`
pub data Status : Type 0 where
  running ready blocked dead : Status

abbrev pub is_running : Status → Bool
is_running running = true
is_running _ = false

abbrev pub is_ready : Status → Bool
is_ready ready = true
is_ready _ = false

-- The fields of `struct task` that scheduling reads and writes.
pub record Task : Type 0 where
  pub status : Status
  pub priority : ℕ
  pub ticks : ℕ
  pub elapsed_ticks : ℕ
  pub page_table : ℕ
  pub stack : ℕ

-- The static variables of task.c with the idle task of kthread.c, the interrupt flag, CR3 and the
-- `esp0` of the TSS.
pub record Sched : Type 0 where
  pub tasks : ℕ → Task
  pub ready_list : List ℕ
  pub current : ℕ
  pub ticks : ℕ
  pub idle : ℕ
  pub intr : Bool
  pub cr3 : ℕ
  pub esp0 : ℕ

abbrev pub update : (ℕ → Task) → ℕ → Task → ℕ → Task
update f a t b = if b == a then t else f b

abbrev pub set_task : ℕ → Task → Sched → Sched
set_task a t s = record s { tasks = update s.tasks a t }

abbrev pub set_status : ℕ → Status → Sched → Sched
set_status a st s = set_task a (record (s.tasks a) { status = st }) s

abbrev pub null : ℕ
null = 0

-- `list_add_tail(&task->node, &__task_ready_list)`
abbrev pub add_ready : ℕ → Sched → Sched
add_ready a s = record s { ready_list = s.ready_list ++ (a ∷ []) }

unfoldable pub task_push : ℕ → Sched → Sched
unfolding intr_lock intr_unlock
task_push a s =
    let (old, off) = intr_lock s.intr in
    let s' = add_ready a (record s { intr = off }) in record s' { intr = intr_unlock old s'.intr }

-- The early return leaves the interrupt flag as `intr_lock` left it.
unfoldable pub task_unpark : ℕ → Sched → Sched
unfolding intr_lock intr_unlock task_push
task_unpark a s =
    let (old, off) = intr_lock s.intr in
    let s1 = record s { intr = off } in
    let s2 = set_status a ready (task_push a s1) in
    if is_ready (s.tasks a).status then s1 else record s2 { intr = intr_unlock old s2.intr }

-- `tss_update_esp`: the end of the page that holds the kernel stack.
unfoldable pub kernel_esp : ℕ → ℕ
kernel_esp stack = page_base (add32 stack page_size)

-- `curr->status == RUNNING`: the task goes to the end of the queue with a new time slice.
unfoldable pub requeue : ℕ → Sched → Sched
requeue a s =
    let t = s.tasks a in
    if is_running t.status
    then set_task a (record t { ticks = t.priority; status = ready }) (add_ready a s)
    else s

-- `next` becomes the current task. Control passes to it in `_asm_task_switch_to`.
unfoldable pub switch_to : ℕ → List ℕ → Sched → Sched
unfolding kernel_esp
switch_to next rest s = record (set_status next running s) {
  ready_list = rest;
  current = next;
  cr3 = (s.tasks next).page_table;
  esp0 = kernel_esp (s.tasks next).stack;
}

-- `LIST_ENTRY(list_pop(&__task_ready_list), ...)`; a null entry faults.
unfoldable pub pop_and_switch : List ℕ → Sched → Option Sched
pop_and_switch [] s = none
pop_and_switch (next ∷ rest) s = some (switch_to next rest s)

abbrev pub is_nil : List ℕ → Bool
is_nil [] = true
is_nil (x ∷ xs) = false

-- `none` is a failed assertion (interrupts on, no current task) or a null dereference.
unfoldable pub task_schedule : Sched → Option Sched
unfolding requeue task_unpark pop_and_switch switch_to
task_schedule s =
    let s1 = requeue s.current s in
    let s2 = if is_nil s1.ready_list then task_unpark s1.idle s1 else s1 in
    if s.intr || s.current == null then none else pop_and_switch s2.ready_list s2

-- The timer interrupt, entered through an interrupt gate, which turns the flag off.
unfoldable pub task_schedule_handler : Sched → Option Sched
task_schedule_handler s =
    let t = s.tasks s.current in
    let s1 = record s { ticks = add32 s.ticks 1 } in
    let t1 = record t { elapsed_ticks = add32 t.elapsed_ticks 1 } in
    if s.current == null
    then none
    else if not (t.ticks == 0)
    then some (set_task s.current (record t1 { ticks = t.ticks - 1 }) s1)
    else task_schedule (set_task s.current t1 s1)

-- `task_yield` and `task_park` up to the switch. The Boolean is the local `intr_status`, which
-- `intr_unlock` gets when the caller runs again.
unfoldable pub task_yield : Sched → Option (Bool × Sched)
unfolding intr_lock
task_yield s =
    let (old, off) = intr_lock s.intr in
    let s1 = set_status s.current ready (task_push s.current (record s { intr = off })) in
    if s.current == null
    then none
    else elim (task_schedule s1) [ none ↦ none | some s2 ↦ some (old, s2) ]

unfoldable pub task_park : Sched → Option (Bool × Sched)
unfolding intr_lock
task_park s =
    let (old, off) = intr_lock s.intr in
    let s1 = set_status s.current blocked (record s { intr = off }) in
    if s.current == null
    then none
    else elim (task_schedule s1) [ none ↦ none | some s2 ↦ some (old, s2) ]

-- The test of the loop of `task_sleep_ticks`: whether the sleep that began at `now` is over.
unfoldable pub sleep_over : ℕ → ℕ → ℕ → Bool
sleep_over now end clock = if ltb end now then ltb clock now && leb end clock else leb end clock
