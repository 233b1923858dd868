-- ===== src/Format/Shown.antt =====
-- `kprint_nint` and `kprintln_nint`: formatted text on the screen.
use ord_os.Base.{
  ℕ, ◌+◌, ◌≤◌, ◌<◌, ◌≡◌, ◌≢◌, ◌⊎◌, refl, Bool, true, some, List, [], ◌∷◌, ◌++◌, arith, length,
  length-append, ap, ◌∙◌, subst,
}
use ord_os.Str.{Bytes, store}
use ord_os.Str.Text.{Text, strlen-length}
use ord_os.Str.Copy.{Copied}
use ord_os.Console.{Screen, dp_size, kget_cursor, kputchar}
use ord_os.Console.Print.{
  Displayed, Plain, put_all, put_all-Displayed, kputs_nint-put_all, kputs_nint-Displayed,
}
use ord_os.Format.{bufsize, cleared, kvsprint, kprint_nint, kprintln_nint}
use ord_os.Format.Ready.{Formats}
use ord_os.Format.Print.{kvsprint-Copied}

pub cleared_zero : (m : Bytes) (buf b : ℕ) → buf ≤ b → b < buf + bufsize → cleared m buf b ≡ 0
unfolding cleared
cleared_zero m buf b from to = ground arith

pub Text-snoc :
    (m : Bytes) (p c : ℕ) (cs : List ℕ)
    → Text m p cs
    → c ≢ 0
    → Text (store (store m (p + length cs) c) (p + length cs + 1) 0) p (cs ++ (c ∷ []))
unfolding store
Text-snoc m p c [] t some_char = (ground arith, some_char, ground arith)
Text-snoc m p c (x ∷ cs) t some_char = (
  ground (arith, t.0),
  t.1,
  subst (λ q. Text (store (store m q c) (q + 1) 0) (p + 1) (cs ++ (c ∷ []))) (omega arith)
      (Text-snoc m (p + 1) c cs t.2 some_char),
)

pub put_all-snoc :
    (c : ℕ) (cs : List ℕ) (s : Screen) → put_all (cs ++ (c ∷ [])) s ≡ kputchar c (put_all cs s)
put_all-snoc c [] s = refl
put_all-snoc c (x ∷ cs) s = put_all-snoc c cs (kputchar x s)

module _ (rounds fuel : ℕ) (m : Bytes) (buf str : ℕ) (args fs out : List ℕ) (intr : Bool)
    (s : Screen) (formats : Formats true (cleared m buf) buf (buf + bufsize) args fs out)
    (text : Text (cleared m buf) str fs) (apart : (str + length fs < buf) ⊎ (buf + bufsize ≤ str))
    (more : length fs < rounds) (enough : bufsize ≤ fuel) (plain : Plain out)
    (fits : kget_cursor s + length out < dp_size) where
  printed :
      length out < bufsize
      → Copied (cleared m buf) buf out (kvsprint rounds fuel (cleared m buf) buf str args)
  printed room =
      kvsprint-Copied rounds fuel (cleared m buf) buf (buf + bufsize) str args fs out formats text
        apart (cleared_zero m buf) (omega arith) more (omega arith)

  -- `kprint_nint`, of a format and arguments that stand for a text of less than 256 characters that
  -- fits on the rest of the screen and has no control characters: the text is shown behind the
  -- cursor, the cursor stands behind it, no other cell has changed, and the interrupt flag is as
  -- before.
  pub kprint_nint-Displayed :
      length out < bufsize
      → (t : Screen) × (kprint_nint rounds fuel m buf str args intr s ≡ some (intr, t))
        × Displayed s out t
  unfolding kprint_nint
  kprint_nint-Displayed room =
      let done = printed room in
      let (t, shown, displayed) =
        kputs_nint-Displayed fuel done.memory buf out intr s done.text (omega arith) plain fits in
      (t, rw (kprint_nint, done.returned) shown, displayed)

  -- `kprintln_nint`, of a format and arguments that stand for a text of less than 255 characters that
  -- fits on the rest of the screen and has no control characters: the text is shown behind the
  -- cursor, then a line feed is put, and the interrupt flag is as before.
  pub kprintln_nint-Displayed :
      length out + 1 < bufsize
      → (t : Screen) × (kprintln_nint rounds fuel m buf str args intr s
          ≡ some (intr, kputchar 10 t))
        × Displayed s out t
  unfolding kprintln_nint
  kprintln_nint-Displayed room =
      let done = printed (omega arith) in
      let line = Text-snoc done.memory buf 10 out done.text (omega arith) in
      (
        put_all out s,
        rw
            (
              kprintln_nint,
              done.returned,
              strlen-length fuel done.memory buf out done.text (omega arith),
            )
            (kputs_nint-put_all fuel _ buf (out ++ (10 ∷ [])) intr s line
                (omega (arith, length-append out (10 ∷ [])))
              ∙ ap (λ t. some (intr, t)) (put_all-snoc 10 out s)),
        put_all-Displayed out s plain fits,
      )
