-- ===== src/Locked.antt =====
-- The functions of kernel/utils/print.c that hold the mutex of the console while they print.
pub mod Laws
mod Tests
use ord_os.Base.{ℕ, ◌+◌, Bool, Option, none, some, List}
use ord_os.Str.{Bytes, store, strlen}
use ord_os.Sched.{Sched}
use ord_os.Sync.{Waitable, Blocking, passed, parked, mutex_lock_init, mutex_lock, mutex_unlock}
use ord_os.Console.{Screen, kscrclear, puts_loop}
use ord_os.Format.{cleared, kvsprint}

-- A call that has printed and released the mutex, or whose caller waits for it.
pub data Printing : Type 0 where
  printed : Waitable → Sched → Screen → Printing
  waiting : Waitable → Bool → Sched → Printing

unfoldable pub init_print : Screen → Waitable × Screen
init_print screen = (mutex_lock_init, kscrclear screen)

-- `kputs` from the point where the caller has the mutex, at once or when it runs again.
unfoldable pub kputs_locked : ℕ → Bytes → ℕ → Waitable → Sched → Screen → Option Printing
kputs_locked fuel m str plock s screen = elim (puts_loop fuel m str screen) [
  | none ↦ none
  | some screen' ↦ elim (mutex_unlock plock s) [
    | none ↦ none
    | some (plock', s') ↦ some (printed plock' s' screen')
  ]
]

unfoldable pub kputs : ℕ → Bytes → ℕ → Waitable → Sched → Screen → Option Printing
kputs fuel m str plock s screen = elim (mutex_lock plock s) [
  | none ↦ none
  | some (passed plock' s') ↦ kputs_locked fuel m str plock' s' screen
  | some (parked plock' flag s') ↦ some (waiting plock' flag s')
]

unfoldable pub kprint : ℕ → ℕ → Bytes → ℕ → ℕ → List ℕ → Waitable → Sched → Screen → Option Printing
kprint rounds fuel m buf str args plock s screen =
    elim (kvsprint rounds fuel (cleared m buf) buf str args) [
      | none ↦ none
      | some g ↦ kputs fuel g buf plock s screen
    ]

unfoldable pub kprintln :
    ℕ → ℕ → Bytes → ℕ → ℕ → List ℕ → Waitable → Sched → Screen → Option Printing
kprintln rounds fuel m buf str args plock s screen =
    elim (kvsprint rounds fuel (cleared m buf) buf str args) [
      | none ↦ none
      | some g ↦ elim (strlen fuel g buf) [
        | none ↦ none
        | some buf_len ↦
            kputs fuel (store (store g (buf + buf_len) 10) (buf + buf_len + 1) 0) buf plock s screen
      ]
    ]
