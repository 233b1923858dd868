-- ===== src/Base/Bits.antt =====
-- The bit operations at variables: masks of low bits, and one bit flipped or cleared.
use Prim.Native.Nat.{
  ℕ, zero, suc, ◌+◌, ◌-◌, ◌*◌, ◌/◌, ◌%◌, ◌^◌, ◌≤◌, ◌<◌, min, max, digits, differ, bit_and, bit_or,
  bit_xor, bit_and-bitwise, bit_or-bitwise, bit_xor-bitwise,
}
use mathlib.Core.Path.{◌≡◌, refl, sym, ap, ap₂, ◌∙◌}
use native.Mathlib.Omega.{arith}
use native.Mathlib.Decide.{dec_le}
use ord_os.Base.Tests.{◌==◌, if◌then◌else◌}

-- An operation on digits that treats a number that has run out as one with digits 0.
module _ (z : ℕ → ℕ) (f : ℕ → ℕ → ℕ) (run_out : (b : ℕ) → z b ≡ z (b / 2) * 2 + f 0 (b % 2)) where
  more_digits : (n m a b : ℕ) → a ≤ n → a ≤ m → digits z f n a b ≡ digits z f m a b
  more_digits zero zero a b p q = refl
  more_digits zero (suc m) zero b p q = refl
  more_digits zero (suc m) (suc a) b p q = absurd (omega arith)
  more_digits (suc n) zero zero b p q = refl
  more_digits (suc n) zero (suc a) b p q = absurd (omega arith)
  more_digits (suc n) (suc m) zero b p q = refl
  more_digits (suc n) (suc m) (suc a) b p q =
      ap (λ d. d * 2 + f (suc a % 2) (b % 2))
        (more_digits n m (suc a / 2) (b / 2) (omega arith) (omega arith))

  low_digit :
      (a b : ℕ) → digits z f a a b ≡ digits z f (a / 2) (a / 2) (b / 2) * 2 + f (a % 2) (b % 2)
  low_digit zero b = run_out b
  low_digit (suc a) b =
      ap (λ d. d * 2 + f (suc a % 2) (b % 2))
        (more_digits a (suc a / 2) (suc a / 2) (b / 2) (omega arith) (omega arith))

pub bit_and-low : (a b : ℕ) → bit_and a b ≡ bit_and (a / 2) (b / 2) * 2 + min (a % 2) (b % 2)
bit_and-low a b =
    bit_and-bitwise a b
    ∙ low_digit (λ b. 0) min (λ b. omega arith) a b
    ∙ ap (λ d. d * 2 + min (a % 2) (b % 2)) (sym (bit_and-bitwise (a / 2) (b / 2)))

pub bit_xor-low : (a b : ℕ) → bit_xor a b ≡ bit_xor (a / 2) (b / 2) * 2 + differ (a % 2) (b % 2)
bit_xor-low a b =
    bit_xor-bitwise a b
    ∙ low_digit (λ b. b) differ (λ b. omega arith) a b
    ∙ ap (λ d. d * 2 + differ (a % 2) (b % 2)) (sym (bit_xor-bitwise (a / 2) (b / 2)))

bit_xor-zero : (n a : ℕ) → a ≤ n → bit_xor a 0 ≡ a
bit_xor-zero zero a h = rw (zero_of a h) refl
  where
    zero_of : (a : ℕ) → a ≤ 0 → a ≡ 0
    zero_of a h = omega arith
bit_xor-zero (suc n) a h = elim (dec_le a n) [
  | yes below ↦ bit_xor-zero n a below
  | no last ↦
      omega (arith, bit_xor-low a 0, bit_xor-zero n (a / 2) (omega arith), differ-zero (a % 2))
]
  where
    differ-zero : (d : ℕ) → differ d 0 ≡ d
    differ-zero zero = refl
    differ-zero (suc d) = refl

bit_and-zero : (n a : ℕ) → a ≤ n → bit_and a 0 ≡ 0
bit_and-zero zero a h = rw (zero_of a h) refl
  where
    zero_of : (a : ℕ) → a ≤ 0 → a ≡ 0
    zero_of a h = omega arith
bit_and-zero (suc n) a h = elim (dec_le a n) [
  | yes below ↦ bit_and-zero n a below
  | no last ↦ omega (arith, bit_and-low a 0, bit_and-zero n (a / 2) (omega arith))
]

pub pow_pos : (k : ℕ) → 0 < 2 ^ k
pow_pos zero = omega arith
pow_pos (suc k) = omega (arith, pow_pos k)

pub pow_suc : (k : ℕ) → 2 ^ suc k ≡ 2 * 2 ^ k
pow_suc k = omega arith

mul-pow_suc : (q k : ℕ) → q * 2 ^ suc k ≡ 2 * (q * 2 ^ k)
mul-pow_suc q k = grind (arith, pow_suc k)

-- The lowest `k` bits of `q * 2 ^ k + r` are `r`.
pub bit_and-mask : (k q r : ℕ) → r < 2 ^ k → bit_and (q * 2 ^ k + r) (2 ^ k - 1) ≡ r
bit_and-mask zero q r h = omega (arith, bit_and-zero (q * 1 + r) (q * 1 + r) (omega arith))
bit_and-mask (suc k) q r h = omega (
  arith,
  bit_and-low (q * 2 ^ suc k + r) (2 ^ suc k - 1),
  ap₂ bit_and left right,
  bit_and-mask k q (r / 2) (omega (arith, pow_suc k)),
  mul-pow_suc q k,
  pow_suc k,
  pow_pos k,
)
  where
    left : (q * 2 ^ suc k + r) / 2 ≡ q * 2 ^ k + r / 2
    left = omega (arith, mul-pow_suc q k)

    right : (2 ^ suc k - 1) / 2 ≡ 2 ^ k - 1
    right = omega (arith, pow_suc k, pow_pos k)

-- Bit `k` of a multiple of `2 ^ k` flipped: the neighbour of a block.
pub bit_xor-flip :
    (k q : ℕ)
    → bit_xor (q * 2 ^ k) (2 ^ k) ≡ (if q % 2 == 0 then (q + 1) * 2 ^ k else (q - 1) * 2 ^ k)
bit_xor-flip zero q =
    ground (arith, bit_xor-low (q * 1) 1, bit_xor-zero (q * 1 / 2) (q * 1 / 2) (omega arith))
bit_xor-flip (suc k) q = ground (
  arith,
  bit_xor-low (q * 2 ^ suc k) (2 ^ suc k),
  ap₂ bit_xor left right,
  bit_xor-flip k q,
  mul-pow_suc q k,
  mul-pow_suc (q + 1) k,
  mul-pow_suc (q - 1) k,
  pow_suc k,
)
  where
    left : q * 2 ^ suc k / 2 ≡ q * 2 ^ k
    left = omega (arith, mul-pow_suc q k)

    right : 2 ^ suc k / 2 ≡ 2 ^ k
    right = omega (arith, pow_suc k)

-- Bit `k` of a multiple of `2 ^ k` cleared, in words of `n` bits: the lower block of a pair.
pub bit_and-clear :
    (k n q : ℕ)
    → k < n
    → q * 2 ^ k < 2 ^ n
    → bit_and (q * 2 ^ k) (2 ^ n - 1 - 2 ^ k) ≡ q / 2 * 2 * 2 ^ k
bit_and-clear k zero q lt h = absurd (omega arith)
bit_and-clear zero (suc n) q lt h = omega (
  arith,
  bit_and-low (q * 1) (2 ^ suc n - 1 - 1),
  ap₂ bit_and left right,
  bit_and-mask n 0 (q / 2) (omega (arith, pow_suc n)),
  pow_suc n,
  pow_pos n,
)
  where
    left : q * 1 / 2 ≡ 0 * 2 ^ n + q / 2
    left = omega arith

    right : (2 ^ suc n - 1 - 1) / 2 ≡ 2 ^ n - 1
    right = omega (arith, pow_suc n, pow_pos n)
bit_and-clear (suc k) (suc n) q lt h = omega (
  arith,
  bit_and-low (q * 2 ^ suc k) (2 ^ suc n - 1 - 2 ^ suc k),
  ap₂ bit_and left right,
  bit_and-clear k n q (omega arith) (omega (arith, mul-pow_suc q k, pow_suc n)),
  mul-pow_suc q k,
  mul-pow_suc (q / 2 * 2) k,
)
  where
    left : q * 2 ^ suc k / 2 ≡ q * 2 ^ k
    left = omega (arith, mul-pow_suc q k)

    right : (2 ^ suc n - 1 - 2 ^ suc k) / 2 ≡ 2 ^ n - 1 - 2 ^ k
    right = omega (arith, pow_suc n, pow_suc k, pow_pos n)

-- A mask without low bits takes them away.
pub bit_and-high :
    (k q r m : ℕ) → r < 2 ^ k → bit_and (q * 2 ^ k + r) (m * 2 ^ k) ≡ bit_and q m * 2 ^ k
bit_and-high zero q r m h = omega (arith, ap₂ bit_and left right)
  where
    left : q * 1 + r ≡ q
    left = omega (arith, h)

    right : m * 1 ≡ m
    right = omega arith
bit_and-high (suc k) q r m h = omega (
  arith,
  bit_and-low (q * 2 ^ suc k + r) (m * 2 ^ suc k),
  ap₂ bit_and left right,
  bit_and-high k q (r / 2) m (omega (arith, pow_suc k)),
  mul-pow_suc q k,
  mul-pow_suc m k,
  mul-pow_suc (bit_and q m) k,
)
  where
    left : (q * 2 ^ suc k + r) / 2 ≡ q * 2 ^ k + r / 2
    left = omega (arith, mul-pow_suc q k)

    right : m * 2 ^ suc k / 2 ≡ m * 2 ^ k
    right = omega (arith, mul-pow_suc m k)

bit_or-low : (a b : ℕ) → bit_or a b ≡ bit_or (a / 2) (b / 2) * 2 + max (a % 2) (b % 2)
bit_or-low a b =
    bit_or-bitwise a b
    ∙ low_digit (λ b. b) max (λ b. omega arith) a b
    ∙ ap (λ d. d * 2 + max (a % 2) (b % 2)) (sym (bit_or-bitwise (a / 2) (b / 2)))

bit_or-zero : (n a : ℕ) → a ≤ n → bit_or a 0 ≡ a
bit_or-zero zero a h = rw (zero_of a h) refl
  where
    zero_of : (a : ℕ) → a ≤ 0 → a ≡ 0
    zero_of a h = omega arith
bit_or-zero (suc n) a h = elim (dec_le a n) [
  | yes below ↦ bit_or-zero n a below
  | no last ↦ omega (arith, bit_or-low a 0, bit_or-zero n (a / 2) (omega arith))
]

-- Low bits put into a number leave the others as they are.
pub bit_or-high :
    (k q r s : ℕ) → r < 2 ^ k → s < 2 ^ k → bit_or (q * 2 ^ k + r) s ≡ q * 2 ^ k + bit_or r s
bit_or-high zero q r s h h' =
    ap₂ (λ x y. bit_or (q * 1 + x) y) none none'
    ∙ bit_or-zero (q * 1 + 0) (q * 1 + 0) (omega arith)
    ∙ sym (ap₂ (λ x y. q * 1 + bit_or x y) none none')
  where
    none : r ≡ 0
    none = omega (arith, h)

    none' : s ≡ 0
    none' = omega (arith, h')
bit_or-high (suc k) q r s h h' = omega (
  arith,
  bit_or-low (q * 2 ^ suc k + r) s,
  bit_or-low r s,
  ap (λ x. bit_or x (s / 2)) half,
  ap (λ x. max x (s % 2)) rest,
  bit_or-high k q (r / 2) (s / 2) (omega (arith, pow_suc k)) (omega (arith, pow_suc k)),
  mul-pow_suc q k,
)
  where
    half : (q * 2 ^ suc k + r) / 2 ≡ q * 2 ^ k + r / 2
    half = omega (arith, mul-pow_suc q k)

    rest : (q * 2 ^ suc k + r) % 2 ≡ r % 2
    rest = omega (arith, mul-pow_suc q k)

-- A mask and its complement in words of `n` bits split a word, and a mask bounds what it leaves.
pub bit_and-split :
    (n x m : ℕ)
    → x < 2 ^ n
    → m < 2 ^ n
    → (bit_and x m + bit_and x (2 ^ n - 1 - m) ≡ x) × (bit_and x m ≤ m)
bit_and-split zero x m hx hm = (
  omega (arith, ap₂ bit_and none none', ap₂ bit_and none none''),
  omega (arith, ap₂ bit_and none none'),
)
  where
    none : x ≡ 0
    none = omega (arith, hx)

    none' : m ≡ 0
    none' = omega (arith, hm)

    none'' : 2 ^ zero - 1 - m ≡ 0
    none'' = omega arith
bit_and-split (suc n) x m hx hm =
    let half =
      bit_and-split n (x / 2) (m / 2) (omega (arith, pow_suc n)) (omega (arith, pow_suc n)) in
    (
      omega (
        arith,
        bit_and-low x m,
        bit_and-low x (2 ^ suc n - 1 - m),
        ap (bit_and (x / 2)) rest,
        half.0,
        pow_suc n,
        pow_pos n,
        digit,
      ),
      omega (arith, bit_and-low x m, half.1),
    )
  where
    rest : (2 ^ suc n - 1 - m) / 2 ≡ 2 ^ n - 1 - m / 2
    rest = omega (arith, pow_suc n, hm)

    digit : (2 ^ suc n - 1 - m) % 2 ≡ 1 - m % 2
    digit = omega (arith, pow_suc n, hm)
