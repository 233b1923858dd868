-- ===== src/Num/Digits.antt =====
-- `utoa` writes the digits of a number.
use ord_os.Base.{
  among, among-append, ◌≢◌, ◌&&◌, not, double, ℕ, zero, suc, ◌+◌, ◌-◌, ◌*◌, ◌/◌, ◌%◌, ◌≤◌, ◌<◌, ◌^◌,
  ◌≡◌, ◌⊎◌, refl, Bool, true, false, Option, some, List, [], ◌∷◌, ◌++◌, arith, ◌==◌, if◌then◌else◌,
  ltb, length, length-append, ap, ◌∙◌, get_or, full_table, table_entry, dec_lt,
}
use ord_os.Str.{Bytes, store}
use ord_os.Num.{digits, utoa_impl, utoa}

-- The number that a list of characters stands for, behind the digits read so far.
abbrev pub digit_value : ℕ → ℕ
digit_value c = if ltb c 58 then c - 48 else c - 87

abbrev pub number : ℕ → ℕ → List ℕ → ℕ
number base acc [] = acc
number base acc (c ∷ cs) = number base (acc * base + digit_value c) cs

pub number-append :
    (base acc c : ℕ) (cs : List ℕ)
    → number base acc (cs ++ (c ∷ [])) ≡ number base acc cs * base + digit_value c
number-append base acc c [] = refl
number-append base acc c (x ∷ cs) = number-append base (acc * base + digit_value x) c cs

abbrev right_digit : ℕ → Bool
right_digit v = digit_value (get_or digits v 0) == v && not (get_or digits v 0 == 0)

all_right : full_table right_digit 16 ≡ true
unfolding full_table
all_right = refl

digit_value-digits : (v : ℕ) → v < 16 → digit_value (get_or digits v 0) ≡ v
digit_value-digits v h = ground (arith, table_entry right_digit v 16 h all_right)

pub digits-ne-zero : (v : ℕ) → v < 16 → get_or digits v 0 ≢ 0
digits-ne-zero v h = ground (arith, table_entry right_digit v 16 h all_right)

-- The given characters stand at `p`.
abbrev pub Spells : Bytes → ℕ → List ℕ → Type 0
Spells m p [] = Unit
Spells m p (c ∷ cs) = (m p ≡ c) × Spells m (p + 1) cs

-- What `__utoa_impl` does: it writes the digits of the number at `p`, and nothing beside them.
pub record Written (m : Bytes) (p value base : ℕ) (out : Option (ℕ × Bytes)) : Type 0 where
  pub chars : List ℕ
  pub memory : Bytes
  pub returned : out ≡ some (p + length chars, memory)
  pub text : Spells memory p chars
  pub no_zero : among 0 chars ≡ false
  pub value_of : number base 0 chars ≡ value
  pub others : (b : ℕ) → (b < p) ⊎ (p + length chars ≤ b) → memory b ≡ m b

Spells-append :
    (m g : Bytes) (p c : ℕ) (cs : List ℕ)
    → Spells m p cs
    → ((b : ℕ) → b < p + length cs → g b ≡ m b)
    → g (p + length cs) ≡ c
    → Spells g p (cs ++ (c ∷ []))
Spells-append m g p c [] t same e = ground (arith, e)
Spells-append m g p c (x ∷ cs) t same e = (
  same p (omega arith) ∙ t.0,
  Spells-append m g (p + 1) c cs t.1 (λ b h. same b (omega arith)) (ap g (omega arith) ∙ e),
)

pub one_digit :
    (fuel : ℕ) (m : Bytes) (p value base : ℕ)
    → value < base
    → utoa_impl (suc fuel) m p value base ≡ some (p + 1, store m p (get_or digits value 0))
unfolding utoa_impl
one_digit fuel m p value base h = ground arith

one_digit-Written :
    (fuel : ℕ) (m : Bytes) (p value base : ℕ)
    → value < base
    → base ≤ 16
    → Written m p value base (utoa_impl (suc fuel) m p value base)
unfolding store
one_digit-Written fuel m p value base h small = record {
  chars = get_or digits value 0 ∷ [];
  memory = store m p (get_or digits value 0);
  returned = one_digit fuel m p value base h;
  text = (ground arith, tt);
  no_zero = ground (arith, digits-ne-zero value (omega arith));
  value_of = omega (arith, digit_value-digits value (omega arith));
  others = λ b far. ground arith;
}

-- The second call goes on where the first one ended.
pub utoa_impl-more :
    (fuel : ℕ) (m g : Bytes) (p q value base : ℕ)
    → ¬ (value < base)
    → utoa_impl fuel m p (value / base) base ≡ some (q, g)
    → utoa_impl (suc fuel) m p value base ≡ utoa_impl fuel g q (value % base) base
unfolding utoa_impl
utoa_impl-more fuel m g p q value base ge e = rw (more, e) refl
  where
    more : ltb value base ≡ false
    more = ground (arith, ge)

pub half : (n value base : ℕ) → 2 ≤ base → value < 2 ^ suc n → value / base < 2 ^ n
half n value base two enough = omega (arith, double (value / base) base two)

-- The digits of `value / base` are followed by that of `value % base`.
more_digits-Written :
    (fuel : ℕ) (m : Bytes) (p value base : ℕ)
    → ¬ (value < base)
    → 2 ≤ base
    → base ≤ 16
    → Written m p (value / base) base (utoa_impl (suc fuel) m p (value / base) base)
    → Written m p value base (utoa_impl (suc (suc fuel)) m p value base)
unfolding store
more_digits-Written fuel m p value base ge two small high = record {
  chars = high.chars ++ (last ∷ []);
  memory = store high.memory (p + length high.chars) last;
  returned =
      utoa_impl-more (suc fuel) m high.memory p _ value base ge high.returned
      ∙ one_digit fuel high.memory _ (value % base) base (omega arith)
      ∙ ap (λ n. some (n, store high.memory (p + length high.chars) last))
          (omega (arith, length-append high.chars (last ∷ [])));
  text =
      Spells-append high.memory _ p last high.chars high.text (λ b h. ground arith) (ground arith);
  no_zero = ground (
    arith,
    among-append 0 high.chars (last ∷ []),
    high.no_zero,
    digits-ne-zero (value % base) (omega arith),
  );
  value_of =
      number-append base 0 last high.chars
      ∙ (rw (high.value_of, digit_value-digits (value % base) (omega arith)) (omega arith));
  others = λ b far. ground (
    arith,
    length-append high.chars (last ∷ []),
    high.others b (ground (arith, length-append high.chars (last ∷ []))),
  );
}
  where
    last : ℕ
    last = get_or digits (value % base) 0

pub utoa_impl-Written :
    (fuel : ℕ) (m : Bytes) (p value base : ℕ)
    → 2 ≤ base
    → base ≤ 16
    → value < 2 ^ fuel
    → 0 < fuel
    → Written m p value base (utoa_impl fuel m p value base)
utoa_impl-Written zero m p value base two small enough some_fuel = absurd (omega arith)
utoa_impl-Written (suc zero) m p value base two small enough some_fuel =
    one_digit-Written zero m p value base (omega arith) small
utoa_impl-Written (suc (suc fuel)) m p value base two small enough some_fuel =
    elim (dec_lt value base) [
      | yes lt ↦ one_digit-Written (suc fuel) m p value base lt small
      | no ge ↦ more_digits-Written fuel m p value base ge two small (
          utoa_impl-Written (suc fuel) m p (value / base) base two small
            (half (suc fuel) value base two enough) (omega arith))
    ]

pub record Spelled (m : Bytes) (buffer value base : ℕ) (out : Option Bytes) : Type 0 where
  pub chars : List ℕ
  pub memory : Bytes
  pub returned : out ≡ some memory
  pub text : Spells memory buffer chars
  pub value_of : number base 0 chars ≡ value
  pub others : (b : ℕ) → (b < buffer) ⊎ (buffer + length chars ≤ b) → memory b ≡ m b

-- `utoa` for the bases 2 to 16 ends: it writes characters that spell the number in the base, from the
-- buffer on, and changes no other byte.
pub utoa-Spelled :
    (m : Bytes) (buffer value base : ℕ)
    → 2 ≤ base
    → base ≤ 16
    → value < 2 ^ 32
    → Spelled m buffer value base (utoa m buffer value base)
unfolding utoa
utoa-Spelled m buffer value base two small word = record {
  chars = written.chars;
  memory = written.memory;
  returned = rw (utoa, written.returned) refl;
  text = written.text;
  value_of = written.value_of;
  others = written.others;
}
  where
    written : Written m buffer value base (utoa_impl 33 m buffer value base)
    written = utoa_impl-Written 33 m buffer value base two small (omega arith) (omega arith)
