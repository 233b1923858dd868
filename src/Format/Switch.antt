-- ===== src/Format/Switch.antt =====
-- One round of the loop of `kvsprint`, for each character of the `switch`.
use ord_os.Base.{
  ℕ, suc, ◌+◌, ◌≡◌, ◌≢◌, ◌&&◌, ℕ_discrete, refl, Bool, true, false, Option, none, some, List, [],
  ◌∷◌, ◌++◌, arith, ◌==◌, u8, length, length-append, ap, ◌∙◌,
}
use ord_os.Str.Lay.{lay, lay-append}
use ord_os.Format.{
  Place, Switch, format_loop, format_round, kvsprint_convert, kvsprint_default, kvsprint_percent,
  kvsprint_char, with_arg, is_signed, is_hex, kvsprint_i32, kvsprint_u32, kvsprint_s,
}
use ord_os.Format.Pieces.{emitted}
use ord_os.Format.Ready.{is_conversion}

-- What is laid down in two steps.
pub emitted-emitted :
    (s : Place) (n k : ℕ) (cs out : List ℕ)
    → emitted (emitted s n cs) k out ≡ emitted s (n + k) (cs ++ out)
emitted-emitted s n k cs out =
    rw (length-append cs out, lay-append s.memory s.buf cs out, sums)
      (ap
        (λ f. record {
          buf = s.buf + (length cs + length out);
          fmt = f;
          memory = lay (lay s.memory s.buf cs) (s.buf + length cs) out;
        })
        (omega arith))
  where
    sums : s.buf + length cs + length out ≡ s.buf + (length cs + length out)
    sums = omega arith

pub loop_more :
    (switch : Switch) (rounds : ℕ) (s s' : Place) (args args' : List ℕ)
    → s.memory s.fmt ≢ 0
    → format_round switch s args ≡ some (s', args')
    → format_loop switch (suc rounds) s args ≡ format_loop switch rounds s' args'
unfolding format_loop
loop_more switch rounds s s' args args' more e = rw (format_loop, e, again) refl
  where
    again : (s.memory s.fmt == 0) ≡ false
    again = ground arith

pub loop_end :
    (switch : Switch) (rounds : ℕ) (s : Place) (args : List ℕ)
    → s.memory s.fmt ≡ 0
    → format_loop switch (suc rounds) s args ≡ some s
unfolding format_loop
loop_end switch rounds s args end = rw (format_loop, stop) refl
  where
    stop : (s.memory s.fmt == 0) ≡ true
    stop = ground arith

pub round_convert :
    (switch : Switch) (s : Place) (args : List ℕ) (c : ℕ)
    → s.memory s.fmt ≡ 37
    → s.memory (s.fmt + 1) ≡ c
    → format_round switch s args ≡ switch s args c
unfolding format_round
round_convert switch s args c e e' = rw (format_round, e, e') refl

default-emitted :
    (s : Place) (c : ℕ) → s.memory s.fmt ≡ c → kvsprint_default s ≡ emitted s 1 (c ∷ [])
unfolding kvsprint_default
default-emitted s c e = rw (kvsprint_default, e) refl

-- What the proof asks of a `switch`: each letter calls its helper on the next argument.
pub record IsSwitch (chars : Bool) (fuel : ℕ) (switch : Switch) : Type 0 where
  pub on_signed :
      (s s' : Place) (args : List ℕ) (num c : ℕ)
      → is_signed c ≡ true
      → kvsprint_i32 fuel s num 10 ≡ some s'
      → switch s (num ∷ args) c ≡ some (s', args)
  pub on_unsigned :
      (s s' : Place) (args : List ℕ) (num : ℕ)
      → kvsprint_u32 fuel s num 10 ≡ some s'
      → switch s (num ∷ args) 117 ≡ some (s', args)
  pub on_hex :
      (s s' : Place) (args : List ℕ) (num c : ℕ)
      → is_hex c ≡ true
      → kvsprint_u32 fuel s num 16 ≡ some s'
      → switch s (num ∷ args) c ≡ some (s', args)
  pub on_string :
      (s s' : Place) (args : List ℕ) (str : ℕ)
      → kvsprint_s fuel s str ≡ some s'
      → switch s (str ∷ args) 115 ≡ some (s', args)
  pub on_char :
      (s : Place) (args : List ℕ) (c : ℕ)
      → chars ≡ true
      → switch s (c ∷ args) 99 ≡ some (kvsprint_char s c, args)
  pub on_percent : (s : Place) (args : List ℕ) → switch s args 37 ≡ some (kvsprint_percent s, args)
  pub on_other :
      (s : Place) (args : List ℕ) (c : ℕ)
      → is_conversion chars c ≡ false
      → switch s args c ≡ some (kvsprint_default s, args)

pub char-emitted : (s : Place) (c : ℕ) → kvsprint_char s c ≡ emitted s 2 (u8 c ∷ [])
unfolding kvsprint_char
char-emitted s c = refl

pub percent-emitted : (s : Place) → kvsprint_percent s ≡ emitted s 2 (37 ∷ [])
unfolding kvsprint_percent
percent-emitted s = refl

-- A conversion that succeeds on the next argument.
pub with_arg-some :
    (convert : ℕ → Option Place) (arg : ℕ) (args : List ℕ) (s : Place)
    → convert arg ≡ some s
    → with_arg (arg ∷ args) convert ≡ some (s, args)
with_arg-some convert arg args s e = ap carry e
  where
    carry : Option Place → Option (Place × List ℕ)
    carry none = none
    carry (some t) = some (t, args)

-- A character that is copied.
pub round_default :
    (chars : Bool) (fuel : ℕ) (switch : Switch) (s : Place) (args : List ℕ) (c d : ℕ)
    → IsSwitch chars fuel switch
    → s.memory s.fmt ≡ c
    → s.memory (s.fmt + 1) ≡ d
    → (c == 37 && is_conversion chars d) ≡ false
    → format_round switch s args ≡ some (emitted s 1 (c ∷ []), args)
unfolding format_round
round_default chars fuel switch s args c d laws e e' other = elim (ℕ_discrete c 37) [
  | yes sign ↦
      round_convert switch s args d (e ∙ sign) e'
      ∙ laws.on_other s args d (ground (arith, other))
      ∙ ap (λ t. some (t, args)) (default-emitted s c e)
  | no copied ↦
      let letter : (s.memory s.fmt == 37) ≡ false = ground (arith, e) in
      rw (format_round, letter) (ap (λ t. some (t, args)) (default-emitted s c e))
]

-- The letters that are none of the first three, and those that are none at all.
pub hex_only : (c : ℕ) → is_hex c ≡ true → (is_signed c ≡ false) × ((c == 117) ≡ false)
hex_only c h = (ground arith, ground arith)

pub kvsprint_convert-IsSwitch : (fuel : ℕ) → IsSwitch true fuel (kvsprint_convert fuel)
unfolding kvsprint_convert
kvsprint_convert-IsSwitch fuel = record {
  on_signed = λ s s' args num c h e.
      rw (kvsprint_convert, h) (with_arg-some (λ n. kvsprint_i32 fuel s n 10) num args s' e);
  on_unsigned = λ s s' args num e. with_arg-some (λ n. kvsprint_u32 fuel s n 10) num args s' e;
  on_hex = λ s s' args num c h e.
      rw (kvsprint_convert, (hex_only c h).0, (hex_only c h).1, h)
        (with_arg-some (λ n. kvsprint_u32 fuel s n 16) num args s' e);
  on_string = λ s s' args str e. with_arg-some (λ n. kvsprint_s fuel s n) str args s' e;
  on_char = λ s args c h. refl;
  on_percent = λ s args. refl;
  on_other = other;
}
  where
    other :
        (s : Place) (args : List ℕ) (c : ℕ)
        → is_conversion true c ≡ false
        → kvsprint_convert fuel s args c ≡ some (kvsprint_default s, args)
    other s args c h =
        rw (kvsprint_convert, not_signed, not_unsigned, not_hex, not_string, not_char, not_percent)
          refl
      where
        not_signed : is_signed c ≡ false
        not_signed = ground arith

        not_unsigned : (c == 117) ≡ false
        not_unsigned = ground arith

        not_hex : is_hex c ≡ false
        not_hex = ground arith

        not_string : (c == 115) ≡ false
        not_string = ground arith

        not_char : (c == 99) ≡ false
        not_char = ground arith

        not_percent : (c == 37) ≡ false
        not_percent = ground arith
