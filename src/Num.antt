-- ===== src/Num.antt =====
-- lib/types.c: numbers written as text.
pub mod Digits
pub mod Signed
pub mod Numeral
mod Tests
use ord_os.Base.{
  ℕ, zero, suc, ◌+◌, ◌/◌, ◌%◌, Option, none, some, List, [], ◌∷◌, get_or, ltb, leb, ◌==◌, ◌^◌,
  sub32, if◌then◌else◌,
}
use ord_os.Str.{Bytes, store}

-- `digits`, the characters 0 to 9 and a to f.
abbrev pub digits : List ℕ
digits = 48 ∷ 49 ∷ 50 ∷ 51 ∷ 52 ∷ 53 ∷ 54 ∷ 55 ∷ 56 ∷ 57 ∷ 97 ∷ 98 ∷ 99 ∷ 100 ∷ 101 ∷ 102 ∷ []

-- `__utoa_impl`: `p` is `*buffer`. The second call is for a number below the base.
unfoldable pub utoa_impl : ℕ → Bytes → ℕ → ℕ → ℕ → Option (ℕ × Bytes)
utoa_impl zero m p value base = none
utoa_impl (suc fuel) m p value base =
    let high = utoa_impl fuel m p (value / base) base in
    let both : Option (ℕ × Bytes) = elim high [
      | none ↦ none
      | some (q, g) ↦ utoa_impl fuel g q (value % base) base
    ] in
    if ltb value base then some (p + 1, store m p (get_or digits value 0)) else both

-- Every call but the last has at most half the number, so 33 calls in a row are enough for 32 bits.
unfoldable pub utoa : Bytes → ℕ → ℕ → ℕ → Option Bytes
utoa m buffer value base = elim (utoa_impl 33 m buffer value base) [
  | none ↦ none
  | some (q, g) ↦ some g
]

-- `__itoa_impl` from the test `value < base` on; `call` is a call of the function itself.
unfoldable pub itoa_digits :
    (Bytes → ℕ → ℕ → Option (ℕ × Bytes)) → ℕ → Bytes → ℕ → ℕ → Option (ℕ × Bytes)
itoa_digits call base m p value =
    if ltb value base
    then some (p + 1, store (store m p (get_or digits value 0)) (p + 1) 0)
    else elim (call m p (value / base)) [
      | none ↦ none
      | some (q, g) ↦ elim (call g q (value % base)) [
        | none ↦ none
        | some (r, g') ↦ some (r, store g' r 0)
      ]
    ]

-- A negative `value` has the pattern of at least `2 ^ 31`; `-value` of the smallest number is
-- undefined, `none`.
unfoldable pub itoa_impl : ℕ → Bytes → ℕ → ℕ → ℕ → Option (ℕ × Bytes)
itoa_impl zero m p value base = none
itoa_impl (suc fuel) m p value base =
    let call = λ (g : Bytes) (q v : ℕ). itoa_impl fuel g q v base in
    if value == 2 ^ 31
    then none
    else if leb (2 ^ 31) value
    then itoa_digits call base (store m p 45) (p + 1) (sub32 0 value)
    else itoa_digits call base m p value

unfoldable pub itoa : Bytes → ℕ → ℕ → ℕ → Option Bytes
itoa m buffer value base = elim (itoa_impl 33 m buffer value base) [
  | none ↦ none
  | some (q, g) ↦ some g
]
