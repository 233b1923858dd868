-- ===== src/Format/Print.antt =====
-- `kvsprint` writes what its format and its arguments stand for.
use ord_os.Base.{
  ℕ, zero, suc, ◌+◌, ◌≤◌, ◌<◌, ◌≡◌, ◌≢◌, ◌⊎◌, inr, refl, Bool, true, false, Option, none, some,
  List, [], ◌∷◌, ◌++◌, arith, u8, among, among-append, length, length-append, ap, ap₂, sym, ◌∙◌,
  subst, get_or,
}
use ord_os.Str.{Bytes, store}
use ord_os.Str.Text.{Text}
use ord_os.Str.Lay.{lay, lay-Text, lay_other, Text-same, Text-first, store_same}
use ord_os.Str.Copy.{Copied}
use ord_os.Num.Numeral.{numeral, numeral-no_zero, signed}
use ord_os.Format.{Place, kvsprint, Switch, format_loop, format_round, kvsprint_convert}
use ord_os.Format.Pieces.{
  emitted, signed-no_zero, kvsprint_i32-signed, kvsprint_u32-numeral, kvsprint_s-text,
}
use ord_os.Format.Ready.{
  Formats, done, plain, percent, decimal, unsigned, hex, string, char, IsReady, IsReady-Text,
  emitted-IsReady,
}
use ord_os.Format.Switch.{
  emitted-emitted, loop_more, loop_end, round_default, round_convert, IsSwitch, char-emitted,
  percent-emitted, kvsprint_convert-IsSwitch,
}

module _ (chars : Bool) (m : Bytes) (lo hi fuel : ℕ) (switch : Switch)
    (laws : IsSwitch chars fuel switch) where
  -- A round that lays down `cs`, and the rest of the loop.
  follow :
      (rounds n c : ℕ) (s : Place) (fs gs args args' cs out : List ℕ)
      → IsReady m lo hi s (c ∷ fs) (length (cs ++ out))
      → n + length gs ≡ suc (length fs)
      → Text m (s.fmt + n) gs
      → format_round switch s args ≡ some (emitted s n cs, args')
      → (IsReady m lo hi (emitted s n cs) gs (length out)
          → format_loop switch rounds (emitted s n cs) args'
            ≡ some (emitted (emitted s n cs) (length gs) out))
      → format_loop switch (suc rounds) s args ≡ some (emitted s (suc (length fs)) (cs ++ out))
  follow rounds n c s fs gs args args' cs out ready shorter t round rest =
      loop_more switch rounds s (emitted s n cs) args args' some_char round
      ∙ rest (emitted-IsReady m lo hi s (c ∷ fs) gs n (length out) cs room shorter t)
      ∙ ap some (emitted-emitted s n (length gs) cs out)
      ∙ ap (λ k. some (emitted s k (cs ++ out))) shorter
    where
      room : IsReady m lo hi s (c ∷ fs) (length cs + length out)
      room = subst (IsReady m lo hi s (c ∷ fs)) (length-append cs out) ready

      here : Text s.memory s.fmt (c ∷ fs)
      here = IsReady-Text m lo hi s (c ∷ fs) (length (cs ++ out)) ready

      some_char : s.memory s.fmt ≢ 0
      some_char zero_here = here.1 (sym here.0 ∙ zero_here)

  -- The two characters of a conversion.
  converts :
      (rounds c : ℕ) (s : Place) (fs args args' cs out : List ℕ)
      → IsReady m lo hi s (37 ∷ c ∷ fs) (length (cs ++ out))
      → switch s args c ≡ some (emitted s 2 cs, args')
      → (IsReady m lo hi (emitted s 2 cs) fs (length out)
          → format_loop switch rounds (emitted s 2 cs) args'
            ≡ some (emitted (emitted s 2 cs) (length fs) out))
      → format_loop switch (suc rounds) s args
        ≡ some (emitted s (suc (suc (length fs))) (cs ++ out))
  converts rounds c s fs args args' cs out ready e rest =
      follow rounds 2 37 s (c ∷ fs) fs args args' cs out ready (omega arith)
        (subst (λ q. Text m q fs) (omega arith) ready.format.2.2)
        (round_convert switch s args c here.0 here.2.0 ∙ e) rest
    where
      here : Text s.memory s.fmt (37 ∷ c ∷ fs)
      here = IsReady-Text m lo hi s (37 ∷ c ∷ fs) (length (cs ++ out)) ready

  -- The byte behind the next characters, and their number.
  ready_end :
      (s : Place) (fs cs out : List ℕ)
      → IsReady m lo hi s fs (length (cs ++ out))
      → s.memory (s.buf + length cs) ≡ 0
  ready_end s fs cs out ready =
      ready.clear _ (omega arith) (omega (arith, length-append cs out, ready.fits))

  format_loop-Formats :
      (rounds : ℕ) (s : Place) (args fs out : List ℕ)
      → Formats chars m lo hi args fs out
      → IsReady m lo hi s fs (length out)
      → length fs < rounds
      → length out < fuel
      → format_loop switch rounds s args ≡ some (emitted s (length fs) out)
  format_loop-Formats zero s args fs out d ready more enough = absurd (omega arith)
  format_loop-Formats (suc rounds) s args fs out (done _) ready more enough =
      loop_end switch rounds s args (IsReady-Text m lo hi s [] 0 ready)
      ∙ ap₂ (λ b f. some (record { buf = b; fmt = f; memory = s.memory })) (omega arith)
          (omega arith)
  format_loop-Formats (suc rounds) s args fs out (plain _ c fs' out' other some_char d) ready more
        enough =
      let here = IsReady-Text m lo hi s (c ∷ fs') (length (c ∷ out')) ready in
      follow rounds 1 c s fs' fs' args args (c ∷ []) out' ready (omega arith) ready.format.2
        (round_default chars fuel switch s args c (get_or fs' 0 0) laws here.0
          (Text-first s.memory (s.fmt + 1) fs' here.2) other)
        (λ next. format_loop-Formats rounds _ args fs' out' d next (omega arith) (omega arith))
  format_loop-Formats (suc rounds) s args fs out (percent _ fs' out' d) ready more enough =
      converts rounds 37 s fs' args args (37 ∷ []) out' ready
        (laws.on_percent s args ∙ ap (λ t. some (t, args)) (percent-emitted s))
        (λ next. format_loop-Formats rounds _ args fs' out' d next (omega arith) (omega arith))
  format_loop-Formats (suc rounds) s args fs out (char c args' fs' out' has some_char d) ready more
        enough =
      converts rounds 99 s fs' args args' (u8 c ∷ []) out' ready
        (laws.on_char s args' c has ∙ ap (λ t. some (t, args')) (char-emitted s c))
        (λ next. format_loop-Formats rounds _ args' fs' out' d next (omega arith) (omega arith))
  format_loop-Formats (suc rounds) s args fs out (decimal num c args' fs' out' h word small d) ready
        more enough =
      let size = length-append (signed 10 num) out' in
      converts rounds c s fs' args args' (signed 10 num) out' ready
        (laws.on_signed s _ args' num c h (
          kvsprint_i32-signed fuel s num word small
            (ready_end s (37 ∷ c ∷ fs') (signed 10 num) out' ready) (omega (arith, size))))
        (λ next.
          format_loop-Formats rounds _ args' fs' out' d next (omega arith) (omega (arith, size)))
  format_loop-Formats (suc rounds) s args fs out (unsigned num args' fs' out' word d) ready more
        enough =
      let size = length-append (numeral 33 10 num) out' in
      converts rounds 117 s fs' args args' (numeral 33 10 num) out' ready
        (laws.on_unsigned s _ args' num (
          kvsprint_u32-numeral fuel s num 10 (omega arith) (omega arith) word
            (ready_end s (37 ∷ 117 ∷ fs') (numeral 33 10 num) out' ready) (omega (arith, size))))
        (λ next.
          format_loop-Formats rounds _ args' fs' out' d next (omega arith) (omega (arith, size)))
  format_loop-Formats (suc rounds) s args fs out (hex num c args' fs' out' h word d) ready more
        enough =
      let size = length-append (numeral 33 16 num) out' in
      converts rounds c s fs' args args' (numeral 33 16 num) out' ready
        (laws.on_hex s _ args' num c h (
          kvsprint_u32-numeral fuel s num 16 (omega arith) (omega arith) word
            (ready_end s (37 ∷ c ∷ fs') (numeral 33 16 num) out' ready) (omega (arith, size))))
        (λ next.
          format_loop-Formats rounds _ args' fs' out' d next (omega arith) (omega (arith, size)))
  format_loop-Formats (suc rounds) s args fs out (string str cs args' fs' out' t apart d) ready more
        enough =
      let size = length-append cs out' in
      converts rounds 115 s fs' args args' cs out' ready
        (laws.on_string s _ args' str (
          kvsprint_s-text fuel s str cs
            (Text-same m s.memory str cs (λ b from to. ready.outside b (ground arith)) t)
            (ground (arith, size, ready.fits, ready.behind)) (omega (arith, size))))
        (λ next.
          format_loop-Formats rounds _ args' fs' out' d next (omega arith) (omega (arith, size)))

Text-no_zero : (m : Bytes) (p : ℕ) (cs : List ℕ) → Text m p cs → among 0 cs ≡ false
Text-no_zero m p [] t = refl
Text-no_zero m p (c ∷ cs) t = ground (arith, t.1, Text-no_zero m (p + 1) cs t.2)

no_zero-append :
    (xs ys : List ℕ) → among 0 xs ≡ false → among 0 ys ≡ false → among 0 (xs ++ ys) ≡ false
no_zero-append xs ys e e' = among-append 0 xs ys ∙ rw (e, e') refl

Formats-no_zero :
    (chars : Bool) (m : Bytes) (lo hi : ℕ) (args fs out : List ℕ)
    → Formats chars m lo hi args fs out
    → among 0 out ≡ false
Formats-no_zero chars m lo hi args fs out (done _) = refl
Formats-no_zero chars m lo hi args fs out (plain _ c fs' out' other some_char d) =
    ground (arith, Formats-no_zero chars m lo hi args fs' out' d)
Formats-no_zero chars m lo hi args fs out (percent _ fs' out' d) =
    Formats-no_zero chars m lo hi args fs' out' d
Formats-no_zero chars m lo hi args fs out (decimal num c args' fs' out' h word small d) =
    no_zero-append (signed 10 num) out' (signed-no_zero 10 num (omega arith) (omega arith))
      (Formats-no_zero chars m lo hi args' fs' out' d)
Formats-no_zero chars m lo hi args fs out (unsigned num args' fs' out' word d) =
    no_zero-append (numeral 33 10 num) out' (numeral-no_zero 33 10 num (omega arith) (omega arith))
      (Formats-no_zero chars m lo hi args' fs' out' d)
Formats-no_zero chars m lo hi args fs out (hex num c args' fs' out' h word d) =
    no_zero-append (numeral 33 16 num) out' (numeral-no_zero 33 16 num (omega arith) (omega arith))
      (Formats-no_zero chars m lo hi args' fs' out' d)
Formats-no_zero chars m lo hi args fs out (string str cs args' fs' out' t apart d) =
    no_zero-append cs out' (Text-no_zero m str cs t)
      (Formats-no_zero chars m lo hi args' fs' out' d)
Formats-no_zero chars m lo hi args fs out (char c args' fs' out' has some_char d) =
    ground (arith, some_char, Formats-no_zero chars m lo hi args' fs' out' d)

-- A loop that is followed by `*buf = '\0'`.
abbrev pub closed : Option Place → Option Bytes
closed none = none
closed (some s) = some (store s.memory s.buf 0)

abbrev pub start_at : Bytes → ℕ → ℕ → Place
start_at m buf fmt = record { buf = buf; fmt = fmt; memory = m }

-- The loop, with any `switch`, in a block of 0 bytes that has room for the text and does not overlap
-- the format or a string among the arguments.
pub format_loop-Copied :
    (chars : Bool) (rounds fuel : ℕ) (switch : Switch) (m : Bytes) (buf hi fmt : ℕ)
    (args fs out : List ℕ)
    → IsSwitch chars fuel switch
    → Formats chars m buf hi args fs out
    → Text m fmt fs
    → (fmt + length fs < buf) ⊎ (hi ≤ fmt)
    → ((b : ℕ) → buf ≤ b → b < hi → m b ≡ 0)
    → buf + length out < hi
    → length fs < rounds
    → length out < fuel
    → Copied m buf out (closed (format_loop switch rounds (start_at m buf fmt) args))
format_loop-Copied chars rounds fuel switch m buf hi fmt args fs out laws d t apart clear fits more
      enough =
    record {
      memory = lay m buf out;
      returned =
          ap closed (
            format_loop-Formats chars m buf hi fuel switch laws rounds (start_at m buf fmt) args fs
              out d ready more enough)
          ∙ ap some (store_same (lay m buf out) (buf + length out) 0 end);
      text =
          lay-Text m buf out (Formats-no_zero chars m buf hi args fs out d)
            (clear _ (omega arith) fits);
      others = λ b far. lay_other m buf b out (ground arith);
    }
  where
    ready : IsReady m buf hi (start_at m buf fmt) fs (length out)
    ready = record {
      outside = λ b far. refl;
      clear = clear;
      format = t;
      apart = apart;
      behind = omega arith;
      fits = fits;
    }

    end : lay m buf out (buf + length out) ≡ 0
    end = lay_other m buf _ out (inr (omega arith)) ∙ clear _ (omega arith) fits

kvsprint-closed :
    (rounds fuel : ℕ) (m : Bytes) (buf fmt : ℕ) (args : List ℕ)
    → kvsprint rounds fuel m buf fmt args
      ≡ closed (format_loop (kvsprint_convert fuel) rounds (start_at m buf fmt) args)
unfolding kvsprint
kvsprint-closed rounds fuel m buf fmt args = refl

-- `kvsprint`, of a format and arguments that stand for a text, into a block of 0 bytes that has room
-- for the text and does not overlap the format or a string among the arguments: it ends, the text
-- stands in the block as a string, and no byte beside it has changed.
pub kvsprint-Copied :
    (rounds fuel : ℕ) (m : Bytes) (buf hi fmt : ℕ) (args fs out : List ℕ)
    → Formats true m buf hi args fs out
    → Text m fmt fs
    → (fmt + length fs < buf) ⊎ (hi ≤ fmt)
    → ((b : ℕ) → buf ≤ b → b < hi → m b ≡ 0)
    → buf + length out < hi
    → length fs < rounds
    → length out < fuel
    → Copied m buf out (kvsprint rounds fuel m buf fmt args)
kvsprint-Copied rounds fuel m buf hi fmt args fs out d t apart clear fits more enough =
    subst (Copied m buf out) (sym (kvsprint-closed rounds fuel m buf fmt args)) (
      format_loop-Copied true rounds fuel (kvsprint_convert fuel) m buf hi fmt args fs out
        (kvsprint_convert-IsSwitch fuel) d t apart clear fits more enough)
