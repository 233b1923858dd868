-- ===== src/Format/Tests.antt =====
-- Instances of the theorems: the format "n=%d" at address 1, and a buffer at 100.
use ord_os.Base.{ℕ, ◌≡◌, inl, refl, true, List, [], ◌∷◌, arith, ◌==◌, if◌then◌else◌}
use ord_os.Str.{Bytes}
use ord_os.Str.Text.{Text}
use ord_os.Str.Copy.{Copied}
use ord_os.Console.{Screen, blank, kget_cursor}
use ord_os.Format.{kvsprint, cleared}
use ord_os.Format.Ready.{Formats, done, plain, decimal}
use ord_os.Format.Print.{kvsprint-Copied}

abbrev pub clear_screen : Screen
clear_screen = record { cells = λ i. blank; cursor_high = 0; cursor_low = 0 }

pub home : kget_cursor clear_screen ≡ 0
unfolding kget_cursor
home = refl

abbrev pub format_bytes : Bytes
format_bytes b =
    if b == 1 then 110 else if b == 2 then 61 else if b == 3 then 37 else if b == 4 then 100 else 0

abbrev pub format : List ℕ
format = 110 ∷ 61 ∷ 37 ∷ 100 ∷ []

-- The text "n=-42".
abbrev pub line : List ℕ
line = 110 ∷ 61 ∷ 45 ∷ 52 ∷ 50 ∷ []

pub line-Formats : (m : Bytes) (hi : ℕ) → Formats true m 100 hi (0xffff_ffd6 ∷ []) format line
line-Formats m hi = plain _ 110 _ _ refl (omega arith) (
    plain _ 61 _ _ refl (omega arith)
      (decimal 0xffff_ffd6 100 [] [] [] refl (omega arith) (omega arith) (done [])))

format-Text : Text format_bytes 1 format
format-Text =
    (refl, omega arith, (refl, omega arith, (refl, omega arith, (refl, omega arith, refl))))

pub format-Text-cleared : Text (cleared format_bytes 100) 1 format
unfolding cleared
format-Text-cleared =
    (refl, omega arith, (refl, omega arith, (refl, omega arith, (refl, omega arith, refl))))

kvsprint-Copied_example :
    Copied format_bytes 100 line (kvsprint 5 300 format_bytes 100 1 (0xffff_ffd6 ∷ []))
kvsprint-Copied_example =
    kvsprint-Copied 5 300 format_bytes 100 200 1 (0xffff_ffd6 ∷ []) format line (line-Formats _ _)
      format-Text (inl (omega arith)) (λ b from to. ground arith) (omega arith) (omega arith)
      (omega arith)
