-- ===== src/Console/Tests.antt =====
-- Instances of the theorems on a blank screen, and the string "ab" at address 1.
use ord_os.Base.{
  ℕ, ◌-◌, ◌*◌, ◌<◌, ◌≡◌, refl, true, some, List, [], ◌∷◌, arith, ◌==◌, leb, if◌then◌else◌,
}
use ord_os.Str.{Bytes}
use ord_os.Str.Text.{Text}
use ord_os.Console.{Screen, blank, width, height, dp_size, kget_cursor, kputchar, kputs_nint}
use ord_os.Console.Scroll.{scrolled}
use ord_os.Console.Char.{moved, written, kputchar_lem}
use ord_os.Console.Print.{Displayed, kputs_nint-Displayed, kputs_nint-cursor}

abbrev clear_screen : Screen
clear_screen = record { cells = λ i. blank; cursor_high = 0; cursor_low = 0 }

abbrev text_bytes : Bytes
text_bytes b = if b == 1 then 97 else if b == 2 then 98 else 0

abbrev ab : List ℕ
ab = 97 ∷ (98 ∷ [])

ab-Text : Text text_bytes 1 ab
ab-Text = (refl, omega arith, (refl, omega arith, refl))

home : kget_cursor clear_screen ≡ 0
unfolding kget_cursor
home = refl

kputchar_lem_example :
    let next = moved 97 (kget_cursor clear_screen) in
    let cells = written 97 (kget_cursor clear_screen) clear_screen.cells in
    (kget_cursor (kputchar 97 clear_screen)
      ≡ (if leb dp_size next then (height - 1) * width else next))
    × ((k : ℕ)
        → (kputchar 97 clear_screen).cells k
          ≡ (if leb dp_size next then scrolled 1 cells k else cells k))
kputchar_lem_example = kputchar_lem 97 clear_screen (omega (arith, home))

kputs_nint-Displayed_example :
    (t : Screen) × (kputs_nint 3 text_bytes 1 true clear_screen ≡ some (true, t))
    × Displayed clear_screen ab t
kputs_nint-Displayed_example =
    kputs_nint-Displayed 3 text_bytes 1 ab true clear_screen ab-Text (omega arith)
      (refl, (refl, tt)) (omega (arith, home))

kputs_nint-cursor_example :
    (t : Screen) × (kputs_nint 3 text_bytes 1 true clear_screen ≡ some (true, t))
    × (kget_cursor t < dp_size)
kputs_nint-cursor_example =
    kputs_nint-cursor 3 text_bytes 1 ab true clear_screen ab-Text (omega arith)
      (omega (arith, home))
