-- ===== src/Locked/Laws.antt =====
-- `kputs` and `kprint` on a mutex that nobody holds.
use ord_os.Base.{ℕ, ◌+◌, ◌≤◌, ◌<◌, ◌≡◌, ◌⊎◌, refl, true, none, some, List, arith, length}
use ord_os.Str.{Bytes}
use ord_os.Str.Text.{Text}
use ord_os.Sched.{Sched}
use ord_os.Sync.{Waitable}
use ord_os.Sync.Mutex.{IsMutex, Taken, Passed, mutex_lock_free, mutex_unlock_lem}
use ord_os.Console.{Screen, dp_size, kget_cursor}
use ord_os.Console.Print.{Displayed, Plain, put_all, put_all-Displayed, puts_loop-put_all}
use ord_os.Format.{bufsize, cleared}
use ord_os.Format.Ready.{Formats}
use ord_os.Format.Print.{kvsprint-Copied}
use ord_os.Format.Shown.{cleared_zero}
use ord_os.Locked.{printed, kputs, kputs_locked, kprint}

-- With the mutex, `kputs` prints the string and hands the mutex on.
kputs_locked-put_all :
    (fuel : ℕ) (m : Bytes) (str : ℕ) (cs : List ℕ) (plock : Waitable) (s : Sched) (screen : Screen)
    (done : Passed plock s)
    → Text m str cs
    → length cs < fuel
    → kputs_locked fuel m str plock s screen
      ≡ some (printed done.lock done.after (put_all cs screen))
unfolding kputs_locked
kputs_locked-put_all fuel m str cs plock s screen done t enough =
    rw (kputs_locked, puts_loop-put_all fuel m str cs screen t enough, done.returns) refl

-- `kputs` of a string, with a mutex that nobody holds: it takes the mutex, prints the string and
-- releases the mutex.
pub kputs-Printed :
    (fuel : ℕ) (m : Bytes) (str : ℕ) (cs : List ℕ) (plock : Waitable) (s : Sched) (screen : Screen)
    → IsMutex plock s none
    → Text m str cs
    → length cs < fuel
    → (taken : Taken plock s) × (done : Passed taken.after s) × (kputs fuel m str plock s screen
        ≡ some (printed done.lock done.after (put_all cs screen)))
unfolding kputs
kputs-Printed fuel m str cs plock s screen ok t enough =
    let taken = mutex_lock_free plock s ok in
    let done = mutex_unlock_lem taken.after s s.current taken.mutex in
    (
      taken,
      done,
      rw (kputs, taken.returns)
          (kputs_locked-put_all fuel m str cs taken.after s screen done t enough),
    )

-- `kprint` of a format and arguments that stand for a text of less than 256 characters without control
-- characters that fits on the rest of the screen, with a mutex that nobody holds: it takes the mutex,
-- shows the text behind the cursor and releases the mutex.
pub kprint-Displayed :
    (rounds fuel : ℕ) (m : Bytes) (buf str : ℕ) (args fs out : List ℕ) (plock : Waitable)
    (s : Sched) (screen : Screen)
    → IsMutex plock s none
    → Formats true (cleared m buf) buf (buf + bufsize) args fs out
    → Text (cleared m buf) str fs
    → (str + length fs < buf) ⊎ (buf + bufsize ≤ str)
    → length fs < rounds
    → bufsize ≤ fuel
    → length out < bufsize
    → Plain out
    → kget_cursor screen + length out < dp_size
    → (taken : Taken plock s) × (done : Passed taken.after s) × (t : Screen) × (kprint rounds fuel m
          buf str args plock s screen
        ≡ some (printed done.lock done.after t))
      × Displayed screen out t
unfolding kprint
kprint-Displayed rounds fuel m buf str args fs out plock s screen ok formats text apart more enough
      room plain fits =
    let copied =
      kvsprint-Copied rounds fuel (cleared m buf) buf (buf + bufsize) str args fs out formats text
        apart (cleared_zero m buf) (omega arith) more (omega arith) in
    let (taken, done, shown) =
      kputs-Printed fuel copied.memory buf out plock s screen ok copied.text (omega arith) in
    (
      taken,
      done,
      put_all out screen,
      rw (kprint, copied.returned) shown,
      put_all-Displayed out screen plain fits,
    )
