-- ===== src/Syscall/Tests.antt =====
-- Instances of the theorems: the literals of the messages from address 1 on, and a call by the number 20.
use ord_os.Base.{
  ℕ, ◌+◌, ◌<◌, ◌≡◌, inl, refl, Bool, true, some, List, [], ◌∷◌, arith, ◌==◌, ◌&&◌, not, npos,
  length, get_or,
}
use ord_os.Str.{Bytes}
use ord_os.Str.Text.{Text}
use ord_os.Console.{Screen, blank, dp_size, kget_cursor, kputchar}
use ord_os.Console.Print.{Displayed}
use ord_os.Format.{cleared}
use ord_os.Syscall.{Kernel, syscall_common_handler}
use ord_os.Syscall.Message.{
  error_word, warning_word, invalid_text, unhandled_text, format_of, HasMessages,
}
use ord_os.Syscall.Laws.{refusal, syscall_common_handler-unknown}

abbrev literals : List ℕ
literals =
    0 ∷ 91 ∷ 32 ∷ 37 ∷ 115 ∷ 32 ∷ 93 ∷ 32 ∷ 115 ∷ 121 ∷ 115 ∷ 99 ∷ 97 ∷ 108 ∷ 108 ∷ 58 ∷ 32 ∷ 105
    ∷ 110 ∷ 118 ∷ 97 ∷ 108 ∷ 105 ∷ 100 ∷ 32 ∷ 105 ∷ 110 ∷ 100 ∷ 101 ∷ 120 ∷ 58 ∷ 32 ∷ 37 ∷ 117 ∷ 0
    ∷ 69 ∷ 82 ∷ 82 ∷ 79 ∷ 82 ∷ 0 ∷ 91 ∷ 32 ∷ 37 ∷ 115 ∷ 32 ∷ 93 ∷ 32 ∷ 117 ∷ 110 ∷ 104 ∷ 97 ∷ 110
    ∷ 100 ∷ 108 ∷ 101 ∷ 100 ∷ 32 ∷ 115 ∷ 121 ∷ 115 ∷ 99 ∷ 97 ∷ 108 ∷ 108 ∷ 58 ∷ 32 ∷ 37 ∷ 117 ∷ 0
    ∷ 87 ∷ 65 ∷ 82 ∷ 78 ∷ 73 ∷ 78 ∷ 71 ∷ 0 ∷ []

abbrev memory : Bytes
memory b = get_or literals b 0

abbrev kernel : Kernel
kernel = record {
  pid = 7;
  frame = 1000;
  invalid_format = 1;
  error_level = 35;
  unhandled_format = 41;
  warning_level = 70;
}

abbrev stands : Bytes → ℕ → List ℕ → Bool
stands m p [] = m p == 0
stands m p (c ∷ cs) = (m p == c) && not (c == 0) && stands m (p + 1) cs

stands-Text : (m : Bytes) (p : ℕ) (cs : List ℕ) → stands m p cs ≡ true → Text m p cs
stands-Text m p [] h = ground arith
stands-Text m p (c ∷ cs) h = (ground arith, ground arith, stands-Text m (p + 1) cs (ground arith))

kernel-HasMessages : HasMessages memory kernel
unfolding cleared
kernel-HasMessages = record {
  invalid = record {
    text = stands-Text (cleared memory 1000) 1 (format_of invalid_text) refl;
    apart = inl (omega arith);
  };
  error = record {
    text = stands-Text (cleared memory 1000) 35 error_word refl;
    apart = inl (omega arith);
  };
  unhandled = record {
    text = stands-Text (cleared memory 1000) 41 (format_of unhandled_text) refl;
    apart = inl (omega arith);
  };
  warning = record {
    text = stands-Text (cleared memory 1000) 70 warning_word refl;
    apart = inl (omega arith);
  };
}

abbrev clear_screen : Screen
clear_screen = record { cells = λ i. blank; cursor_high = 0; cursor_low = 0 }

room : kget_cursor clear_screen + length (refusal 20) < dp_size
unfolding kget_cursor
room = omega arith

syscall_common_handler-unknown_example :
    (t : Screen) × (syscall_common_handler 256 memory kernel 20 1 2 3 true clear_screen
      ≡ some (record { value = npos; intr = true; screen = kputchar 10 t }))
    × Displayed clear_screen (refusal 20) t
syscall_common_handler-unknown_example =
    syscall_common_handler-unknown 256 memory kernel 20 1 2 3 true clear_screen (omega arith)
      (omega arith) kernel-HasMessages (omega arith) room
