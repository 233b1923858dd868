-- ===== src/User/Print.antt =====
-- `vsprint` and `print`: the text that a format stands for, in a buffer and on the screen.
use ord_os.Base.{
  ℕ, ◌+◌, ◌≤◌, ◌<◌, ◌≡◌, ◌⊎◌, refl, Bool, false, Option, none, some, List, [], ◌∷◌, ◌++◌, arith,
  ◌==◌, length, length-append, ap, ap₂, ◌∙◌,
}
use ord_os.Str.{Bytes, store, strlen}
use ord_os.Str.Text.{Text, strlen-length}
use ord_os.Console.{Screen, dp_size, kget_cursor, kputchar}
use ord_os.Console.Print.{Displayed, Plain, put_all, put_all-Displayed}
use ord_os.Format.{
  Place, bufsize, cleared, format_loop, kvsprint_i32, kvsprint_u32, kvsprint_s, kvsprint_default,
  is_signed, is_hex,
}
use ord_os.Format.Ready.{Formats, is_conversion}
use ord_os.Format.Switch.{IsSwitch, with_arg-some, hex_only}
use ord_os.Format.Print.{closed, start_at, format_loop-Copied}
use ord_os.Format.Shown.{cleared_zero, Text-snoc, put_all-snoc}
use ord_os.Syscall.{Kernel, Answer}
use ord_os.Syscall.Laws.{write-put_all}
use ord_os.User.{vsprint_convert, vsprint, puts, print, println}

vsprint_convert-IsSwitch : (fuel : ℕ) → IsSwitch false fuel (vsprint_convert fuel)
unfolding vsprint_convert
vsprint_convert-IsSwitch fuel = record {
  on_signed = λ s s' args num c h e.
      rw (vsprint_convert, h) (with_arg-some (λ n. kvsprint_i32 fuel s n 10) num args s' e);
  on_unsigned = λ s s' args num e. with_arg-some (λ n. kvsprint_u32 fuel s n 10) num args s' e;
  on_hex = λ s s' args num c h e.
      rw (vsprint_convert, (hex_only c h).0, (hex_only c h).1, h)
        (with_arg-some (λ n. kvsprint_u32 fuel s n 16) num args s' e);
  on_string = λ s s' args str e. with_arg-some (λ n. kvsprint_s fuel s n) str args s' e;
  on_char = λ s args c h. absurd (ground arith);
  on_percent = λ s args. refl;
  on_other = other;
}
  where
    other :
        (s : Place) (args : List ℕ) (c : ℕ)
        → is_conversion false c ≡ false
        → vsprint_convert fuel s args c ≡ some (kvsprint_default s, args)
    other s args c h =
        rw (vsprint_convert, not_signed, not_unsigned, not_hex, not_string, not_percent) refl
      where
        not_signed : is_signed c ≡ false
        not_signed = ground arith

        not_unsigned : (c == 117) ≡ false
        not_unsigned = ground arith

        not_hex : is_hex c ≡ false
        not_hex = ground arith

        not_string : (c == 115) ≡ false
        not_string = ground arith

        not_percent : (c == 37) ≡ false
        not_percent = ground arith

-- The length of what was written, behind the end of the loop.
abbrev measured : ℕ → ℕ → Option Bytes → Option (ℕ × Bytes)
measured fuel buf none = none
measured fuel buf (some g) = elim (strlen fuel g buf) [ none ↦ none | some len ↦ some (len, g) ]

vsprint-measured :
    (rounds fuel : ℕ) (m : Bytes) (buf fmt : ℕ) (args : List ℕ)
    → vsprint rounds fuel m buf fmt args
      ≡ measured fuel buf
          (closed (format_loop (vsprint_convert fuel) rounds (start_at m buf fmt) args))
unfolding vsprint
vsprint-measured rounds fuel m buf fmt args =
    finish (format_loop (vsprint_convert fuel) rounds (start_at m buf fmt) args)
  where
    finish :
        (o : Option Place)
        → elim o [
          | none ↦ none
          | some s ↦ elim (strlen fuel (store s.memory s.buf 0) buf) [
            | none ↦ none
            | some len ↦ some (len, store s.memory s.buf 0)
          ]
        ]
          ≡ measured fuel buf (closed o)
    finish none = refl
    finish (some s) = refl

-- `vsprint`, under the conditions under which `kvsprint` is right and without `%c`: it ends, the text
-- stands in the block as a string, no byte beside it has changed, and the length of the text is
-- returned.
pub vsprint-Text :
    (rounds fuel : ℕ) (m : Bytes) (buf hi fmt : ℕ) (args fs out : List ℕ)
    → Formats false m buf hi args fs out
    → Text m fmt fs
    → (fmt + length fs < buf) ⊎ (hi ≤ fmt)
    → ((b : ℕ) → buf ≤ b → b < hi → m b ≡ 0)
    → buf + length out < hi
    → length fs < rounds
    → length out < fuel
    → (g : Bytes) × (vsprint rounds fuel m buf fmt args ≡ some (length out, g))
      × Text g buf out
      × ((b : ℕ) → (b < buf) ⊎ (buf + length out < b) → g b ≡ m b)
vsprint-Text rounds fuel m buf hi fmt args fs out d t apart clear fits more enough =
    let done =
      format_loop-Copied false rounds fuel (vsprint_convert fuel) m buf hi fmt args fs out
        (vsprint_convert-IsSwitch fuel) d t apart clear fits more enough in
    (
      done.memory,
      vsprint-measured rounds fuel m buf fmt args
          ∙ ap (measured fuel buf) done.returned
          ∙ (rw (measured, strlen-length fuel done.memory buf out done.text enough) refl),
      done.text,
      done.others,
    )

puts-put_all :
    (fuel : ℕ) (m : Bytes) (k : Kernel) (str : ℕ) (cs : List ℕ) (intr : Bool) (s : Screen)
    → Text m str cs
    → length cs < fuel
    → puts fuel m k str intr s
      ≡ some (record { value = length cs; intr = intr; screen = put_all cs s })
unfolding puts
puts-put_all fuel m k str cs intr s t enough =
    rw (puts, strlen-length fuel m str cs t enough)
      (write-put_all fuel m k 0 str (length cs) cs intr s t enough)

module _ (rounds fuel : ℕ) (m : Bytes) (k : Kernel) (buf str : ℕ) (args fs out : List ℕ)
    (intr : Bool) (s : Screen)
    (formats : Formats false (cleared m buf) buf (buf + bufsize) args fs out)
    (text : Text (cleared m buf) str fs) (apart : (str + length fs < buf) ⊎ (buf + bufsize ≤ str))
    (more : length fs < rounds) (enough : bufsize ≤ fuel) (plain : Plain out)
    (fits : kget_cursor s + length out < dp_size) where
  -- `print` of a user program, of a format and arguments that stand for a text of less than 256
  -- characters that fits on the rest of the screen and has no control characters: the system call
  -- shows the text behind the cursor, changes no other cell and leaves the interrupt flag as it was,
  -- and the length of the text is returned.
  pub print-Displayed :
      length out < bufsize
      → (a : Answer) × (print rounds fuel m k buf str args intr s ≡ some a)
        × (a.value ≡ length out)
        × (a.intr ≡ intr)
        × Displayed s out a.screen
  unfolding print
  print-Displayed room =
      let (g, returned, t, others) =
        vsprint-Text rounds fuel (cleared m buf) buf (buf + bufsize) str args fs out formats text
          apart (cleared_zero m buf) (omega arith) more (omega arith) in
      (
        record { value = length out; intr = intr; screen = put_all out s },
        rw (print, returned) (puts-put_all fuel g k buf out intr s t (omega arith)),
        refl,
        refl,
        put_all-Displayed out s plain fits,
      )

  -- `println` of a user program, of a format and arguments that stand for a text of less than 255
  -- characters that fits on the rest of the screen and has no control characters: the system call
  -- shows the text behind the cursor and puts a line feed, and one more than the length of the text is
  -- returned.
  pub println-Displayed :
      length out + 1 < bufsize
      → (t : Screen) × (println rounds fuel m k buf str args intr s
          ≡ some (record { value = length out + 1; intr = intr; screen = kputchar 10 t }))
        × Displayed s out t
  unfolding println
  println-Displayed room =
      let (g, returned, t, others) =
        vsprint-Text rounds fuel (cleared m buf) buf (buf + bufsize) str args fs out formats text
          apart (cleared_zero m buf) (omega arith) more (omega arith) in
      let line = Text-snoc g buf 10 out t (omega arith) in
      let size = length-append out (10 ∷ []) in
      (
        put_all out s,
        rw (println, returned)
            (puts-put_all fuel _ k buf (out ++ (10 ∷ [])) intr s line (omega (arith, size))
              ∙ ap₂ (λ n t. some (record { value = n; intr = intr; screen = t }))
                  (omega (arith, size)) (put_all-snoc 10 out s)),
        put_all-Displayed out s plain fits,
      )
