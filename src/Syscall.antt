-- ===== src/Syscall.antt =====
-- kernel/interrupt/syscall.c, and lib/syscall.c on the other side of `int 0x80`: the dispatch of a
-- system call by its number, `getpid` and `write`.
pub mod Message
pub mod Laws
mod Tests
use ord_os.Base.{ℕ, ◌+◌, Bool, Option, none, some, List, [], ◌∷◌, ◌==◌, leb, if◌then◌else◌, npos}
use ord_os.Str.{Bytes, strlen}
use ord_os.Console.{Screen, kputs_nint}
use ord_os.Format.{kprintln_nint}

-- What a call leaves: its value, the interrupt flag and the screen.
pub record Answer : Type 0 where
  pub value : ℕ
  pub intr : Bool
  pub screen : Screen

-- What the handler finds in the kernel: the pid of the current task, the address where the frame of
-- `kprintln_nint` lies, and those of the literals of its two messages: each a format, which has the
-- text of `KLOG_WITH` in front, and the name of a level.
pub record Kernel : Type 0 where
  pub pid : ℕ
  pub frame : ℕ
  pub invalid_format : ℕ
  pub error_level : ℕ
  pub unhandled_format : ℕ
  pub warning_level : ℕ

-- `INTR_SYSCALL_SIZE`.
abbrev pub table_size : ℕ
table_size = 16

-- `pid` is `task_get_current()->pid`.
unfoldable pub sys_getpid : ℕ → Bool → Screen → Answer
sys_getpid pid intr s = record { value = pid; intr = intr; screen = s }

-- The file and the length are not used.
unfoldable pub sys_write : ℕ → Bytes → ℕ → Bool → Screen → Option Answer
sys_write fuel m buf intr s = elim (kputs_nint fuel m buf intr s) [
  | none ↦ none
  | some (intr', s') ↦ elim (strlen fuel m buf) [
    | none ↦ none
    | some len ↦ some (record { value = len; intr = intr'; screen = s' })
  ]
]

-- `return (void*)NPOS` behind a message.
unfoldable pub refuse : Option (Bool × Screen) → Option Answer
refuse none = none
refuse (some (intr, s)) = some (record { value = npos; intr = intr; screen = s })

-- `__sysall_table` has the two functions and null pointers behind them. `KERROR_NINT` and
-- `KWARNING_NINT` are `kprintln_nint` at the default log level; `fuel` bounds its loops too.
unfoldable pub syscall_common_handler :
    ℕ → Bytes → Kernel → ℕ → ℕ → ℕ → ℕ → Bool → Screen → Option Answer
unfolding refuse
syscall_common_handler fuel m k index arg1 arg2 arg3 intr s =
    if leb table_size index
    then refuse
        (kprintln_nint fuel fuel m k.frame k.invalid_format (k.error_level ∷ index ∷ []) intr s)
    else if index == 0
    then some (sys_getpid k.pid intr s)
    else if index == 1
    then sys_write fuel m arg2 intr s
    else refuse
        (kprintln_nint fuel fuel m k.frame k.unhandled_format (k.warning_level ∷ index ∷ []) intr s)

-- `write` and `getpid`: the interrupt hands the registers to the handler.
unfoldable pub write : ℕ → Bytes → Kernel → ℕ → ℕ → ℕ → Bool → Screen → Option Answer
write fuel m k fd buf len intr s = syscall_common_handler fuel m k 1 fd buf len intr s

unfoldable pub getpid : ℕ → Bytes → Kernel → ℕ → ℕ → ℕ → Bool → Screen → Option Answer
getpid fuel m k ebx ecx edx intr s = syscall_common_handler fuel m k 0 ebx ecx edx intr s
