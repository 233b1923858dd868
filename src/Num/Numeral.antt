-- ===== src/Num/Numeral.antt =====
-- The characters that `utoa` and `itoa` write.
use ord_os.Base.{
  ℕ, zero, suc, ◌+◌, ◌-◌, ◌/◌, ◌%◌, ◌≤◌, ◌<◌, ◌^◌, ◌≡◌, ◌≢◌, inr, refl, false, some, List, [], ◌∷◌,
  ◌++◌, arith, if◌then◌else◌, ltb, length, length-append, among, among-append, ap, sym, subst, ◌∙◌,
  get_or, dec_lt,
}
use ord_os.Str.{Bytes, store}
use ord_os.Str.Lay.{lay, lay-append, lay_other, store_same}
use ord_os.Str.Copy.{store_other}
use ord_os.Num.{digits, utoa_impl, itoa_impl, utoa, itoa}
use ord_os.Num.Digits.{one_digit, utoa_impl-more, half, digits-ne-zero}
use ord_os.Num.Signed.{ended, itoa_impl-utoa_impl, itoa_negative}

-- The digits of a number of at most `fuel` bits.
abbrev pub numeral : ℕ → ℕ → ℕ → List ℕ
numeral zero base value = []
numeral (suc fuel) base value =
    let rest = numeral fuel base (value / base) in
    if ltb value base
    then get_or digits value 0 ∷ []
    else rest ++ (get_or digits (value % base) 0 ∷ [])

-- `-` stands in front of a negative number.
abbrev pub signed : ℕ → ℕ → List ℕ
signed base value =
    if ltb value (2 ^ 31) then numeral 33 base value else 45 ∷ numeral 33 base (2 ^ 32 - value)

pub numeral_digit :
    (fuel base value : ℕ)
    → value < base
    → numeral (suc fuel) base value ≡ get_or digits value 0 ∷ []
numeral_digit fuel base value lt = ground arith

pub numeral_more :
    (fuel base value : ℕ)
    → ¬ (value < base)
    → numeral (suc fuel) base value
      ≡ numeral fuel base (value / base) ++ (get_or digits (value % base) 0 ∷ [])
numeral_more fuel base value ge = ground arith

pub numeral-no_zero :
    (fuel base value : ℕ) → 2 ≤ base → base ≤ 16 → among 0 (numeral fuel base value) ≡ false
numeral-no_zero zero base value two small = refl
numeral-no_zero (suc fuel) base value two small = elim (dec_lt value base) [
  | yes lt ↦
      rw (numeral_digit fuel base value lt) (ground (arith, digits-ne-zero value (omega arith)))
  | no ge ↦ rw (numeral_more fuel base value ge) (
      ground (
        arith,
        among-append 0 (numeral fuel base (value / base)) (get_or digits (value % base) 0 ∷ []),
        numeral-no_zero fuel base (value / base) two small,
        digits-ne-zero (value % base) (omega arith),
      ))
]

utoa_impl-lay :
    (fuel : ℕ) (m : Bytes) (p value base : ℕ)
    → 2 ≤ base
    → base ≤ 16
    → value < 2 ^ fuel
    → 0 < fuel
    → utoa_impl fuel m p value base
      ≡ some (p + length (numeral fuel base value), lay m p (numeral fuel base value))
utoa_impl-lay zero m p value base two small enough some_fuel = absurd (omega arith)
utoa_impl-lay (suc zero) m p value base two small enough some_fuel =
    rw (numeral_digit zero base value (omega arith)) (one_digit zero m p value base (omega arith))
utoa_impl-lay (suc (suc fuel)) m p value base two small enough some_fuel =
    elim (dec_lt value base) [
      | yes lt ↦
          rw (numeral_digit (suc fuel) base value lt) (one_digit (suc fuel) m p value base lt)
      | no ge ↦
          let cs = numeral (suc fuel) base (value / base) in
          let last = get_or digits (value % base) 0 in
          rw (numeral_more (suc fuel) base value ge) (
            utoa_impl-more (suc fuel) m (lay m p cs) p _ value base ge (
              utoa_impl-lay (suc fuel) m p (value / base) base two small
                (half (suc fuel) value base two enough) (omega arith))
            ∙ one_digit fuel (lay m p cs) _ (value % base) base (omega arith)
            ∙ ap (λ g. some (p + length cs + 1, g)) (sym (lay-append m p cs (last ∷ [])))
            ∙ ap (λ n. some (n, lay m p (cs ++ (last ∷ []))))
                (omega (arith, length-append cs (last ∷ []))))
    ]

-- `utoa` lays down the digits.
pub utoa-numeral :
    (m : Bytes) (p value base : ℕ)
    → 2 ≤ base
    → base ≤ 16
    → value < 2 ^ 32
    → utoa m p value base ≡ some (lay m p (numeral 33 base value))
unfolding utoa
utoa-numeral m p value base two small word =
    rw (utoa, utoa_impl-lay 33 m p value base two small (omega arith) (omega arith)) refl

itoa_impl-numeral :
    (m : Bytes) (p value base : ℕ)
    → 2 ≤ base
    → base ≤ 16
    → value < 2 ^ 31
    → m (p + length (numeral 33 base value)) ≡ 0
    → itoa_impl 33 m p value base
      ≡ some (p + length (numeral 33 base value), lay m p (numeral 33 base value))
itoa_impl-numeral m p value base two small pos end =
    itoa_impl-utoa_impl 33 m p value base two small pos (omega arith) (omega arith)
    ∙ ap ended (utoa_impl-lay 33 m p value base two small (omega arith) (omega arith))
    ∙ ap (λ g. some (p + length (numeral 33 base value), g))
        (store_same _ _ 0 (lay_other m p _ (numeral 33 base value) (inr (omega arith)) ∙ end))

-- `itoa` lays down the digits behind the sign, where a 0 byte follows already.
pub itoa-signed :
    (m : Bytes) (p value base : ℕ)
    → 2 ≤ base
    → base ≤ 16
    → value < 2 ^ 32
    → value ≢ 2 ^ 31
    → m (p + length (signed base value)) ≡ 0
    → itoa m p value base ≡ some (lay m p (signed base value))
unfolding itoa
itoa-signed m p value base two small word not_smallest end = elim (dec_lt value (2 ^ 31)) [
  | yes pos ↦
      let text : signed base value ≡ numeral 33 base value = ground arith in
      rw (itoa, text, itoa_impl-numeral m p value base two small pos (subst at text end)) refl
  | no neg ↦
      let text : signed base value ≡ 45 ∷ numeral 33 base (2 ^ 32 - value) = ground arith in
      let behind : store m p 45 (p + 1 + length (numeral 33 base (2 ^ 32 - value))) ≡ 0 =
        store_other m p 45 _ (omega arith) ∙ ap m (omega arith) ∙ subst at text end in
      rw
        (
          itoa,
          text,
          itoa_negative 32 m p value base (omega arith) word,
          itoa_impl-numeral (store m p 45) (p + 1) (2 ^ 32 - value) base two small (omega arith)
              behind,
        )
        refl
]
  where
    at : List ℕ → Type 0
    at cs = m (p + length cs) ≡ 0
