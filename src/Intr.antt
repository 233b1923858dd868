-- ===== src/Intr.antt =====
-- The interrupt flag: `intr_set_status` of kernel/interrupt/interrupt.c, `intr_lock` and
-- `intr_unlock` of include/kernel/task/sync.h. The flag is a `bool`.
use ord_os.Base.{Bool, true, false, ◌&&◌, not, if◌then◌else◌}

-- The old status, and the flag after `sti`, `cli` or neither.
unfoldable pub intr_set_status : Bool → Bool → Bool × Bool
intr_set_status status old =
    if status && not old
    then (old, true)
    else if not status && old
    then (old, false)
    else (old, old)

unfoldable pub intr_lock : Bool → Bool × Bool
unfolding intr_set_status
intr_lock flag = intr_set_status false flag

unfoldable pub intr_unlock : Bool → Bool → Bool
unfolding intr_set_status
intr_unlock old flag = (intr_set_status old flag).1
