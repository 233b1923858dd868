-- ===== src/Str/Tests.antt =====
-- Instances of the theorems at the string "ab", at address 1, and blocks beside it.
use ord_os.Base.{ℕ, ◌≡◌, refl, some, List, [], ◌∷◌, arith, ◌==◌, if◌then◌else◌, sub32}
use ord_os.Str.{Bytes, strcmp, char_below, strchrs}
use ord_os.Str.Text.{Text, strchrs-count, count}
use ord_os.Str.Compare.{strcmp-first_difference, first_difference, documented_sign}

abbrev text_bytes : Bytes
text_bytes b = if b == 1 then 97 else if b == 2 then 98 else 0

abbrev ab : List ℕ
ab = 97 ∷ (98 ∷ [])

ab-Text : Text text_bytes 1 ab
ab-Text = (refl, omega arith, (refl, omega arith, refl))

empty-Text : Text text_bytes 10 []
empty-Text = refl

strcmp_sign : strcmp 3 text_bytes 10 1 ≡ some 1
unfolding strcmp char_below
strcmp_sign = refl

strchrs-count_example : strchrs 5 text_bytes 1 98 ≡ some (count 98 ab)
strchrs-count_example = strchrs-count 5 text_bytes 1 98 ab ab-Text (omega arith) (omega arith)

strcmp-first_difference_example :
    strcmp 5 text_bytes 1 10 ≡ some (sub32 0 (documented_sign (first_difference ab [])))
strcmp-first_difference_example =
    strcmp-first_difference 5 text_bytes 1 10 ab [] ab-Text empty-Text (omega arith)
