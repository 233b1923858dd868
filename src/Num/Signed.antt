-- ===== src/Num/Signed.antt =====
-- `itoa` writes what `utoa` writes, behind a sign, and a 0 byte.
use ord_os.Base.{
  among, ℕ, zero, suc, ◌+◌, ◌-◌, ◌/◌, ◌%◌, ◌≤◌, ◌<◌, ◌^◌, ◌≡◌, ◌≢◌, ◌⊎◌, inl, refl, true, false,
  Option, none, some, List, [], ◌∷◌, arith, ◌==◌, ltb, leb, length, ap, sym, ◌∙◌, subst, get_or,
  dec_lt, double, fun_ext, sub32,
}
use ord_os.Str.{Bytes, store}
use ord_os.Str.Text.{Text}
use ord_os.Str.Copy.{store_other, store_self}
use ord_os.Num.{digits, utoa_impl, itoa_digits, itoa_impl}
use ord_os.Num.Digits.{one_digit, utoa_impl-more, utoa_impl-Written, Spells, number, half}

-- The 0 byte behind what was written.
abbrev pub ended : Option (ℕ × Bytes) → Option (ℕ × Bytes)
ended none = none
ended (some (q, g)) = some (q, store g q 0)

store-store : (m : Bytes) (p v w : ℕ) → store (store m p v) p w ≡ store m p w
unfolding store
store-store m p v w = fun_ext (λ b. ground arith)

itoa_digit :
    (fuel : ℕ) (m : Bytes) (p value base : ℕ)
    → value < 2 ^ 31
    → value < base
    → itoa_impl (suc fuel) m p value base
      ≡ some (p + 1, store (store m p (get_or digits value 0)) (p + 1) 0)
unfolding itoa_impl itoa_digits
itoa_digit fuel m p value base small lt = ground arith

itoa_more :
    (fuel : ℕ) (m g g' : Bytes) (p q r value base : ℕ)
    → value < 2 ^ 31
    → ¬ (value < base)
    → itoa_impl fuel m p (value / base) base ≡ some (q, g)
    → itoa_impl fuel g q (value % base) base ≡ some (r, g')
    → itoa_impl (suc fuel) m p value base ≡ some (r, store g' r 0)
unfolding itoa_impl itoa_digits
itoa_more fuel m g g' p q r value base small ge e e' =
    rw (itoa_impl, sign, smallest, itoa_digits, below, e, e') refl
  where
    sign : leb (2 ^ 31) value ≡ false
    sign = ground arith

    below : ltb value base ≡ false
    below = ground arith

    smallest : (value == 2 ^ 31) ≡ false
    smallest = ground arith

-- The calls for the digits in front and for the last digit: the second overwrites the 0 byte that the
-- first has left.
ended_more :
    (fuel : ℕ) (m g : Bytes) (p q value base : ℕ)
    → value < 2 ^ 31
    → ¬ (value < base)
    → 2 ≤ base
    → utoa_impl (suc fuel) m p (value / base) base ≡ some (q, g)
    → itoa_impl (suc fuel) m p (value / base) base ≡ some (q, store g q 0)
    → itoa_impl (suc (suc fuel)) m p value base ≡ ended (utoa_impl (suc (suc fuel)) m p value base)
ended_more fuel m g p q value base small ge two e e' =
    itoa_more (suc fuel) m (store g q 0) _ p q (q + 1) value base small ge e'
      (itoa_digit fuel (store g q 0) q (value % base) base (omega arith) (omega arith))
    ∙ ap (λ h. some (q + 1, h)) (store-store (store (store g q 0) q last) (q + 1) 0 0)
    ∙ ap (λ h. some (q + 1, store h (q + 1) 0)) (store-store g q 0 last)
    ∙ sym (
        ap ended (
          utoa_impl-more (suc fuel) m g p q value base ge e
          ∙ one_digit fuel g q (value % base) base (omega arith)))
  where
    last : ℕ
    last = get_or digits (value % base) 0

-- `__itoa_impl` of a number that is not negative, in a base from 2 to 16, is `__utoa_impl` followed
-- by a 0 byte, if the fuel is at least the number of its bits.
pub itoa_impl-utoa_impl :
    (fuel : ℕ) (m : Bytes) (p value base : ℕ)
    → 2 ≤ base
    → base ≤ 16
    → value < 2 ^ 31
    → value < 2 ^ fuel
    → 0 < fuel
    → itoa_impl fuel m p value base ≡ ended (utoa_impl fuel m p value base)
itoa_impl-utoa_impl zero m p value base two small pos enough some_fuel = absurd (omega arith)
itoa_impl-utoa_impl (suc zero) m p value base two small pos enough some_fuel =
    itoa_digit zero m p value base pos (omega arith)
    ∙ sym (ap ended (one_digit zero m p value base (omega arith)))
itoa_impl-utoa_impl (suc (suc fuel)) m p value base two small pos enough some_fuel =
    elim (dec_lt value base) [
      | yes lt ↦
          itoa_digit (suc fuel) m p value base pos lt
          ∙ sym (ap ended (one_digit (suc fuel) m p value base lt))
      | no ge ↦
          let less : value / base < 2 ^ suc fuel = half (suc fuel) value base two enough in
          let high =
            utoa_impl-Written (suc fuel) m p (value / base) base two small less (omega arith) in
          ended_more fuel m high.memory p _ value base pos ge two high.returned (
            itoa_impl-utoa_impl (suc fuel) m p (value / base) base two small
              (omega (arith, double (value / base) base two)) less (omega arith)
            ∙ ap ended high.returned)
    ]

-- The sign of a negative number is written, and then its absolute value.
pub itoa_negative :
    (fuel : ℕ) (m : Bytes) (p value base : ℕ)
    → 2 ^ 31 < value
    → value < 2 ^ 32
    → itoa_impl (suc fuel) m p value base
      ≡ itoa_impl (suc fuel) (store m p 45) (p + 1) (2 ^ 32 - value) base
unfolding itoa_impl
itoa_negative fuel m p value base neg word =
    rw (itoa_impl, sign, smallest, absolute, sign', smallest') refl
  where
    sign : leb (2 ^ 31) value ≡ true
    sign = ground arith

    smallest : (value == 2 ^ 31) ≡ false
    smallest = ground arith

    absolute : sub32 0 value ≡ 2 ^ 32 - value
    absolute = omega arith

    sign' : leb (2 ^ 31) (2 ^ 32 - value) ≡ false
    sign' = ground arith

    smallest' : (2 ^ 32 - value == 2 ^ 31) ≡ false
    smallest' = ground arith

-- Characters that stand somewhere, none of them 0, with a 0 byte behind them are a string.
Text-of-Spells :
    (m : Bytes) (p : ℕ) (cs : List ℕ)
    → Spells m p cs
    → among 0 cs ≡ false
    → Text (store m (p + length cs) 0) p cs
unfolding store
Text-of-Spells m p [] t z = ground arith
Text-of-Spells m p (c ∷ cs) t z = (
  ground (arith, t.0),
  ground arith,
  subst (λ q. Text (store m q 0) (p + 1) cs) (omega arith)
      (Text-of-Spells m (p + 1) cs t.1 (ground arith)),
)

-- A string is written from `p` on, and nothing before it or behind its 0 byte; `q` is its end.
pub record Printed (m : Bytes) (p : ℕ) (cs : List ℕ) (out : Option (ℕ × Bytes)) : Type 0 where
  pub memory : Bytes
  pub returned : out ≡ some (p + length cs, memory)
  pub text : Text memory p cs
  pub others : (b : ℕ) → (b < p) ⊎ (p + length cs < b) → memory b ≡ m b

-- The digits of a number in a base.
abbrev pub IsNumeral : ℕ → ℕ → List ℕ → Type 0
IsNumeral base value cs = (number base 0 cs ≡ value) × (among 0 cs ≡ false)

positive-Printed :
    (m : Bytes) (p value base : ℕ)
    → 2 ≤ base
    → base ≤ 16
    → value < 2 ^ 31
    → (cs : List ℕ) × IsNumeral base value cs × Printed m p cs (itoa_impl 33 m p value base)
positive-Printed m p value base two small pos =
    let w = utoa_impl-Written 33 m p value base two small (omega arith) (omega arith) in
    (
      w.chars,
      (w.value_of, w.no_zero),
      record {
        memory = store w.memory (p + length w.chars) 0;
        returned =
            itoa_impl-utoa_impl 33 m p value base two small pos (omega arith) (omega arith)
            ∙ ap ended w.returned;
        text = Text-of-Spells w.memory p w.chars w.text w.no_zero;
        others = λ b far.
            store_other w.memory (p + length w.chars) 0 b (ground arith)
            ∙ w.others b (ground arith);
      },
    )

sign_first :
    (m : Bytes) (p value base : ℕ) (cs : List ℕ)
    → 2 ^ 31 < value
    → value < 2 ^ 32
    → Printed (store m p 45) (p + 1) cs (itoa_impl 33 (store m p 45) (p + 1) (2 ^ 32 - value) base)
    → Printed m p (45 ∷ cs) (itoa_impl 33 m p value base)
sign_first m p value base cs neg word r = record {
  memory = r.memory;
  returned =
      itoa_negative 32 m p value base neg word
      ∙ r.returned
      ∙ ap (λ q. some (q, r.memory)) (omega arith);
  text = (r.others p (inl (omega arith)) ∙ store_self m p 45, omega arith, r.text);
  others = λ b far. r.others b (ground arith) ∙ store_other m p 45 b (ground arith);
}

-- The text of a signed number.
pub data IsSigned (base value : ℕ) : List ℕ → Type 0 where
  plain : (cs : List ℕ) → value < 2 ^ 31 → IsNumeral base value cs → IsSigned base value cs
  negative :
      (cs : List ℕ)
      → 2 ^ 31 < value
      → IsNumeral base (2 ^ 32 - value) cs
      → IsSigned base value (45 ∷ cs)

-- `itoa` in a base from 2 to 16 of a number that is not the smallest: it writes a string, the digits
-- of the absolute value behind a `-` if the number is negative, and changes no byte but those of the
-- string and its 0 byte.
pub itoa_impl-Printed :
    (m : Bytes) (p value base : ℕ)
    → 2 ≤ base
    → base ≤ 16
    → value < 2 ^ 32
    → value ≢ 2 ^ 31
    → (cs : List ℕ) × IsSigned base value cs × Printed m p cs (itoa_impl 33 m p value base)
itoa_impl-Printed m p value base two small word not_smallest = elim (dec_lt value (2 ^ 31)) [
  | yes pos ↦
      let (cs, numeral, r) = positive-Printed m p value base two small pos in
      (cs, plain cs pos numeral, r)
  | no neg ↦
      let (cs, numeral, r) =
        positive-Printed (store m p 45) (p + 1) (2 ^ 32 - value) base two small (omega arith) in
      (
        45 ∷ cs,
        negative cs (omega arith) numeral,
        sign_first m p value base cs (omega arith) word r,
      )
]
