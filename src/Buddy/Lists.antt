-- ===== src/Buddy/Lists.antt =====
-- Lists of page numbers: taking one out, and how long a list of different numbers can be.
use ord_os.Base.{
  ℕ, zero, suc, ◌+◌, ◌≤◌, ◌<◌, ◌≡◌, refl, true, false, ◌&&◌, not, List, [], ◌∷◌, ◌==◌, arith,
  if◌then◌else◌, among, Distinct, length,
}
use ord_os.Buddy.{without}

pub among-without : (q p : ℕ) (xs : List ℕ) → among q (without p xs) ≡ (among q xs && not (q == p))
among-without q p [] = refl
among-without q p (x ∷ xs) = ground (arith, among-without q p xs)

pub Distinct-without : (p : ℕ) (xs : List ℕ) → Distinct xs → Distinct (without p xs)
Distinct-without p [] d = tt
Distinct-without p (x ∷ xs) d = ground (arith, among-without x p xs, Distinct-without p xs d.1)

pub without-absent : (p : ℕ) (xs : List ℕ) → among p xs ≡ false → without p xs ≡ xs
without-absent p [] h = refl
without-absent p (x ∷ xs) h = ground (arith, without-absent p xs)

pub length-without :
    (p : ℕ) (xs : List ℕ)
    → Distinct xs
    → length xs ≡ length (without p xs) + (if among p xs then 1 else 0)
length-without p [] d = refl
length-without p (x ∷ xs) d = ground (arith, length-without p xs d.1, without-absent p xs, d.0)

-- Different numbers below `n` are at most `n` many.
pub Distinct-length-le :
    (n : ℕ) (xs : List ℕ) → Distinct xs → ((k : ℕ) → among k xs ≡ true → k < n) → length xs ≤ n
Distinct-length-le zero [] d b = omega arith
Distinct-length-le zero (x ∷ xs) d b = absurd (omega (arith, b x (ground arith)))
Distinct-length-le (suc n) xs d b = ground (
  arith,
  length-without n xs d,
  Distinct-length-le n (without n xs) (Distinct-without n xs d)
      (λ k h. ground (arith, b k, among-without k n xs)),
)
