-- ===== src/User/Tests.antt =====
-- Instances of the theorems: the format "%x!" at address 1, and a buffer at 100.
use ord_os.Base.{ℕ, ◌≡◌, inl, refl, true, false, some, List, [], ◌∷◌, arith, ◌==◌, if◌then◌else◌}
use ord_os.Str.{Bytes}
use ord_os.Str.Text.{Text}
use ord_os.Console.{Screen, blank, kget_cursor}
use ord_os.Console.Print.{Displayed}
use ord_os.Format.{cleared}
use ord_os.Format.Ready.{Formats, done, plain, hex}
use ord_os.Syscall.{Kernel, Answer}
use ord_os.User.{print}
use ord_os.User.Print.{print-Displayed}

abbrev clear_screen : Screen
clear_screen = record { cells = λ i. blank; cursor_high = 0; cursor_low = 0 }

home : kget_cursor clear_screen ≡ 0
unfolding kget_cursor
home = refl

abbrev format_bytes : Bytes
format_bytes b = if b == 1 then 37 else if b == 2 then 120 else if b == 3 then 33 else 0

abbrev format : List ℕ
format = 37 ∷ 120 ∷ 33 ∷ []

-- The text "2a!".
abbrev line : List ℕ
line = 50 ∷ 97 ∷ 33 ∷ []

line-Formats : (m : Bytes) (hi : ℕ) → Formats false m 100 hi (42 ∷ []) format line
line-Formats m hi =
    hex 42 120 [] (33 ∷ []) (33 ∷ []) refl (omega arith)
      (plain _ 33 _ _ refl (omega arith) (done []))

format-Text : Text format_bytes 1 format
format-Text = (refl, omega arith, (refl, omega arith, (refl, omega arith, refl)))

format-Text-cleared : Text (cleared format_bytes 100) 1 format
unfolding cleared
format-Text-cleared = (refl, omega arith, (refl, omega arith, (refl, omega arith, refl)))

abbrev kernel : Kernel
kernel = record {
  pid = 7;
  frame = 1000;
  invalid_format = 0;
  error_level = 0;
  unhandled_format = 0;
  warning_level = 0;
}

print-Displayed_example :
    (a : Answer) × (print 5 300 format_bytes kernel 100 1 (42 ∷ []) true clear_screen ≡ some a)
    × (a.value ≡ 3)
    × (a.intr ≡ true)
    × Displayed clear_screen line a.screen
print-Displayed_example =
    print-Displayed 5 300 format_bytes kernel 100 1 (42 ∷ []) format line true clear_screen
      (line-Formats _ _) format-Text-cleared (inl (omega arith)) (omega arith) (omega arith)
      (refl, (refl, (refl, tt))) (omega (arith, home)) (omega arith)
