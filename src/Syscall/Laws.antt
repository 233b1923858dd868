-- ===== src/Syscall/Laws.antt =====
-- System calls: numbers without a function, and `write`.
use ord_os.Base.{
  ℕ, ◌+◌, ◌≤◌, ◌<◌, ◌^◌, ◌≡◌, inl, inr, refl, Bool, false, some, List, [], ◌∷◌, arith, ◌==◌, leb,
  if◌then◌else◌, npos, length, length-append, among, Bool-cases, subst,
}
use ord_os.Str.{Bytes}
use ord_os.Str.Text.{Text, strlen-length}
use ord_os.Console.{Screen, dp_size, kget_cursor, kputchar}
use ord_os.Console.Print.{Displayed, Plain, put_all, kputs_nint-put_all}
use ord_os.Format.{kprintln_nint}
use ord_os.Format.Shown.{kprintln_nint-Displayed}
use ord_os.Syscall.{Kernel, table_size, refuse, sys_write, syscall_common_handler, write}
use ord_os.Syscall.Message.{
  error_word, warning_word, invalid_text, unhandled_text, format_of, message, Literal, HasMessages,
  message-Formats, message-Plain, length-message, all_visible-Plain,
}

-- The message of a call by a number that has no function.
abbrev pub refusal : ℕ → List ℕ
refusal index =
    if leb table_size index
    then message error_word invalid_text index
    else message warning_word unhandled_text index

-- A message on the screen, and -1.
refused :
    (fuel : ℕ) (m : Bytes) (frame str p index : ℕ) (level text : List ℕ) (intr : Bool) (s : Screen)
    → Literal m frame str (format_of text)
    → Literal m frame p level
    → among 37 text ≡ false
    → among 0 text ≡ false
    → Plain level
    → Plain text
    → length level + length text < 200
    → index < 2 ^ 32
    → 256 ≤ fuel
    → kget_cursor s + length (message level text index) < dp_size
    → (t : Screen) × (refuse (kprintln_nint fuel fuel m frame str (p ∷ index ∷ []) intr s)
        ≡ some (record { value = npos; intr = intr; screen = kputchar 10 t }))
      × Displayed s (message level text index) t
unfolding refuse
refused fuel m frame str p index level text intr s lit name no_percent no_zero plain plain' short
      word enough fits =
    let size = length-message level text index in
    let (t, shown, displayed) =
      kprintln_nint-Displayed fuel fuel m frame str (p ∷ index ∷ []) (format_of text)
        (message level text index) intr s
        (message-Formats m frame p index level text name no_percent no_zero word) lit.text lit.apart
        (omega (arith, short, length-append text (37 ∷ 117 ∷ []))) enough
        (message-Plain level text index plain plain') fits (omega (arith, short, size)) in
    (t, rw shown refl, displayed)

-- A call by a number that has no function, in the table or behind its end, with the literals of the
-- messages in the memory and room for the message on the rest of the screen: behind the cursor it
-- shows "[ ERROR ] syscall: invalid index: " and the number for one behind the end of the table, and
-- "[ WARNING ] unhandled syscall: " and the number for an empty entry, changes no other cell and puts
-- a line feed; it returns -1 and leaves the interrupt flag as it was.
pub syscall_common_handler-unknown :
    (fuel : ℕ) (m : Bytes) (k : Kernel) (index arg1 arg2 arg3 : ℕ) (intr : Bool) (s : Screen)
    → 2 ≤ index
    → index < 2 ^ 32
    → HasMessages m k
    → 256 ≤ fuel
    → kget_cursor s + length (refusal index) < dp_size
    → (t : Screen) × (syscall_common_handler fuel m k index arg1 arg2 arg3 intr s
        ≡ some (record { value = npos; intr = intr; screen = kputchar 10 t }))
      × Displayed s (refusal index) t
unfolding syscall_common_handler
syscall_common_handler-unknown fuel m k index arg1 arg2 arg3 intr s known word lits enough fits =
    elim (Bool-cases (leb table_size index)) [
      | inl e ↦
          let room : kget_cursor s + length (message error_word invalid_text index) < dp_size =
            subst
              (λ b.
                kget_cursor s
                  + length (
                      if b
                      then message error_word invalid_text index
                      else message warning_word unhandled_text index)
                < dp_size)
              e fits in
          rw (syscall_common_handler, e)
            (refused fuel m k.frame k.invalid_format k.error_level index error_word invalid_text
              intr s lits.invalid lits.error refl refl (all_visible-Plain error_word refl)
              (all_visible-Plain invalid_text refl) (omega arith) word enough room)
      | inr e ↦
          let room : kget_cursor s + length (message warning_word unhandled_text index) < dp_size =
            subst
              (λ b.
                kget_cursor s
                  + length (
                      if b
                      then message error_word invalid_text index
                      else message warning_word unhandled_text index)
                < dp_size)
              e fits in
          rw (syscall_common_handler, e, not_getpid, not_write)
            (refused fuel m k.frame k.unhandled_format k.warning_level index warning_word
              unhandled_text intr s lits.unhandled lits.warning refl refl
              (all_visible-Plain warning_word refl) (all_visible-Plain unhandled_text refl)
              (omega arith) word enough room)
    ]
  where
    not_getpid : (index == 0) ≡ false
    not_getpid = ground arith

    not_write : (index == 1) ≡ false
    not_write = ground arith

sys_write-put_all :
    (fuel : ℕ) (m : Bytes) (buf : ℕ) (cs : List ℕ) (intr : Bool) (s : Screen)
    → Text m buf cs
    → length cs < fuel
    → sys_write fuel m buf intr s
      ≡ some (record { value = length cs; intr = intr; screen = put_all cs s })
unfolding sys_write
sys_write-put_all fuel m buf cs intr s t enough =
    rw
      (
        sys_write,
        kputs_nint-put_all fuel m buf cs intr s t enough,
        strlen-length fuel m buf cs t enough,
      )
      refl

-- What `write` does with a string: it is put on the screen, and its length is returned.
pub write-put_all :
    (fuel : ℕ) (m : Bytes) (k : Kernel) (fd buf len : ℕ) (cs : List ℕ) (intr : Bool) (s : Screen)
    → Text m buf cs
    → length cs < fuel
    → write fuel m k fd buf len intr s
      ≡ some (record { value = length cs; intr = intr; screen = put_all cs s })
unfolding write syscall_common_handler
write-put_all fuel m k fd buf len cs intr s t enough =
    sys_write-put_all fuel m buf cs intr s t enough
