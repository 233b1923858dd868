-- ===== src/Str/Compare.antt =====
-- `strcmp` and `memcmp`.
use ord_os.Base.{
  ℕ, zero, suc, ◌+◌, ◌<◌, ◌≡◌, refl, Option, none, some, List, [], ◌∷◌, arith, ◌==◌, if◌then◌else◌,
  ltb, length, npos, sub32,
}
use ord_os.Str.{Bytes, strcmp, char_below, memcmp}
use ord_os.Str.Text.{Text}

-- The characters in which two strings first differ; a string that ends has 0 there.
abbrev pub first_difference : List ℕ → List ℕ → Option (ℕ × ℕ)
first_difference [] [] = none
first_difference [] (d ∷ ds) = some (0, d)
first_difference (c ∷ cs) [] = some (c, 0)
first_difference (c ∷ cs) (d ∷ ds) =
    let rest = first_difference cs ds in if c == d then rest else some (c, d)

-- The sign that include/lib/string.h documents, of the first difference: 1 if the first string is the
-- greater one there, and -1 (`npos`) if it is not.
abbrev pub documented_sign : Option (ℕ × ℕ) → ℕ
documented_sign none = 0
documented_sign (some (c, d)) = if char_below d c then 1 else npos

-- `strcmp` is decided by the first difference of its strings, but with the opposite of the sign that
-- include/lib/string.h documents: it returns -1 if the first string is the greater one there and 1 if
-- the second is; as documented, it returns 0 if they do not differ.
pub strcmp-first_difference :
    (fuel : ℕ) (m : Bytes) (p q : ℕ) (cs ds : List ℕ)
    → Text m p cs
    → Text m q ds
    → length cs < fuel
    → strcmp fuel m p q ≡ some (sub32 0 (documented_sign (first_difference cs ds)))
unfolding strcmp char_below
strcmp-first_difference zero m p q cs ds t u enough = absurd (omega arith)
strcmp-first_difference (suc fuel) m p q [] [] t u enough = ground arith
strcmp-first_difference (suc fuel) m p q [] (d ∷ ds) t u enough = ground arith
strcmp-first_difference (suc fuel) m p q (c ∷ cs) [] t u enough = ground arith
strcmp-first_difference (suc fuel) m p q (c ∷ cs) (d ∷ ds) t u enough =
    ground (arith, strcmp-first_difference fuel m (p + 1) (q + 1) cs ds t.2 u.2 (omega arith))

-- `memcmp` of at least one byte, when it does not return 1 for the first bytes, looks at the second
-- bytes, and at no later ones, however long the blocks are.
pub memcmp_lem :
    (n : ℕ) (m : Bytes) (p q : ℕ)
    → memcmp (suc n) m p q
      ≡ (if ltb (m q) (m p) then 1 else if ltb (m (p + 1)) (m (q + 1)) then npos else 0)
unfolding memcmp
memcmp_lem zero m p q = refl
memcmp_lem (suc n) m p q = ground (arith, memcmp_lem n m p q)
