-- ===== src/Syscall/Message.antt =====
-- The two messages of `syscall_common_handler`: their formats, and the texts that these stand for.
use ord_os.Base.{
  ℕ, zero, suc, ◌+◌, ◌/◌, ◌%◌, ◌≤◌, ◌<◌, ◌^◌, ◌≡◌, ◌⊎◌, ◌&&◌, refl, Bool, true, false, List, [],
  ◌∷◌, ◌++◌, arith, length, length-append, among, get_or, dec_lt, not, full_table, table_entry,
}
use ord_os.Str.{Bytes}
use ord_os.Str.Text.{Text}
use ord_os.Num.{digits}
use ord_os.Num.Numeral.{numeral, numeral_digit, numeral_more}
use ord_os.Console.Char.{is_control}
use ord_os.Console.Print.{Plain}
use ord_os.Format.{cleared, bufsize}
use ord_os.Format.Ready.{Formats, done, plain, string, unsigned}
use ord_os.Syscall.{Kernel}

-- "ERROR" and "WARNING".
abbrev pub error_word : List ℕ
error_word = 69 ∷ 82 ∷ 82 ∷ 79 ∷ 82 ∷ []

abbrev pub warning_word : List ℕ
warning_word = 87 ∷ 65 ∷ 82 ∷ 78 ∷ 73 ∷ 78 ∷ 71 ∷ []

-- What stands between the level and the number: " ] syscall: invalid index: " and
-- " ] unhandled syscall: ".
abbrev pub invalid_text : List ℕ
invalid_text =
    32 ∷ 93 ∷ 32 ∷ 115 ∷ 121 ∷ 115 ∷ 99 ∷ 97 ∷ 108 ∷ 108 ∷ 58 ∷ 32 ∷ 105 ∷ 110 ∷ 118 ∷ 97 ∷ 108
    ∷ 105 ∷ 100 ∷ 32 ∷ 105 ∷ 110 ∷ 100 ∷ 101 ∷ 120 ∷ 58 ∷ 32 ∷ []

abbrev pub unhandled_text : List ℕ
unhandled_text =
    32 ∷ 93 ∷ 32 ∷ 117 ∷ 110 ∷ 104 ∷ 97 ∷ 110 ∷ 100 ∷ 108 ∷ 101 ∷ 100 ∷ 32 ∷ 115 ∷ 121 ∷ 115 ∷ 99
    ∷ 97 ∷ 108 ∷ 108 ∷ 58 ∷ 32 ∷ []

-- "[ %s", the text between, and "%u"; and what is shown for it.
abbrev pub format_of : List ℕ → List ℕ
format_of text = 91 ∷ 32 ∷ 37 ∷ 115 ∷ (text ++ (37 ∷ 117 ∷ []))

abbrev pub message : List ℕ → List ℕ → ℕ → List ℕ
message level text index = 91 ∷ 32 ∷ (level ++ (text ++ (numeral 33 10 index ++ [])))

-- A literal stands in the memory, beside the frame of `kprintln_nint`.
pub record Literal (m : Bytes) (frame p : ℕ) (cs : List ℕ) : Type 0 where
  pub text : Text (cleared m frame) p cs
  pub apart : (p + length cs < frame) ⊎ (frame + bufsize ≤ p)

-- The literals of the two messages are where the handler takes them from.
pub record HasMessages (m : Bytes) (k : Kernel) : Type 0 where
  pub invalid : Literal m k.frame k.invalid_format (format_of invalid_text)
  pub error : Literal m k.frame k.error_level error_word
  pub unhandled : Literal m k.frame k.unhandled_format (format_of unhandled_text)
  pub warning : Literal m k.frame k.warning_level warning_word

plain_text :
    (m : Bytes) (lo hi : ℕ) (cs args fs out : List ℕ)
    → among 37 cs ≡ false
    → among 0 cs ≡ false
    → Formats true m lo hi args fs out
    → Formats true m lo hi args (cs ++ fs) (cs ++ out)
plain_text m lo hi [] args fs out no_percent no_zero rest = rest
plain_text m lo hi (c ∷ cs) args fs out no_percent no_zero rest =
    plain args c (cs ++ fs) (cs ++ out) (ground arith) (ground arith)
      (plain_text m lo hi cs args fs out (ground arith) (ground arith) rest)

-- The format of a message, with a level and a number, stands for the message.
pub message-Formats :
    (m : Bytes) (frame p index : ℕ) (level text : List ℕ)
    → Literal m frame p level
    → among 37 text ≡ false
    → among 0 text ≡ false
    → index < 2 ^ 32
    → Formats true
        (cleared m frame)
        frame
        (frame + bufsize)
        (p ∷ index ∷ [])
        (format_of text)
        (message level text index)
message-Formats m frame p index level text lit no_percent no_zero word =
    plain _ 91 _ _ refl (omega arith) (
      plain _ 32 _ _ refl (omega arith) (
        string p level (index ∷ []) (text ++ (37 ∷ 117 ∷ [])) (text ++ (numeral 33 10 index ++ []))
          lit.text (ground (arith, lit.apart))
          (plain_text _ _ _ text (index ∷ []) _ _ no_percent no_zero
            (unsigned index [] [] [] word (done [])))))

abbrev visible : ℕ → Bool
visible v = not (is_control (get_or digits v 0))

all_visible : full_table visible 16 ≡ true
unfolding full_table
all_visible = refl

digit_visible : (v : ℕ) → v < 16 → is_control (get_or digits v 0) ≡ false
digit_visible v lt =
    opened (is_control (get_or digits v 0)) (table_entry visible v 16 lt all_visible)
  where
    opened : (b : Bool) → not b ≡ true → b ≡ false
    opened b h = ground arith

abbrev pub all_visible_in : List ℕ → Bool
all_visible_in [] = true
all_visible_in (c ∷ cs) = not (is_control c) && all_visible_in cs

pub all_visible-Plain : (cs : List ℕ) → all_visible_in cs ≡ true → Plain cs
all_visible-Plain [] h = tt
all_visible-Plain (c ∷ cs) h = (ground arith, all_visible-Plain cs (ground arith))

pub Plain-append : (cs ds : List ℕ) → Plain cs → Plain ds → Plain (cs ++ ds)
Plain-append [] ds p q = q
Plain-append (c ∷ cs) ds p q = (p.0, Plain-append cs ds p.1 q)

-- The digits of a number move the cursor nowhere else, and there are no more than bits.
numeral-Plain : (fuel base value : ℕ) → 2 ≤ base → base ≤ 16 → Plain (numeral fuel base value)
numeral-Plain zero base value two small = tt
numeral-Plain (suc fuel) base value two small = elim (dec_lt value base) [
  | yes lt ↦ rw (numeral_digit fuel base value lt) (digit_visible value (omega arith), tt)
  | no ge ↦ rw (numeral_more fuel base value ge) (
      Plain-append (numeral fuel base (value / base)) _
        (numeral-Plain fuel base (value / base) two small)
        (digit_visible (value % base) (omega arith), tt))
]

length-numeral : (fuel base value : ℕ) → length (numeral fuel base value) ≤ fuel
length-numeral zero base value = omega arith
length-numeral (suc fuel) base value = elim (dec_lt value base) [
  | yes lt ↦ rw (numeral_digit fuel base value lt) (omega arith)
  | no ge ↦
      rw
        (
          numeral_more fuel base value ge,
          length-append (numeral fuel base (value / base)) (get_or digits (value % base) 0 ∷ []),
        )
        (omega (arith, length-numeral fuel base (value / base)))
]

-- A message has visible characters only, and fits into the buffer of `kprintln_nint`.
pub message-Plain :
    (level text : List ℕ) (index : ℕ) → Plain level → Plain text → Plain (message level text index)
message-Plain level text index p q = (
  refl,
  (
    refl,
    Plain-append level _ p (
        Plain-append text _ q (
          Plain-append (numeral 33 10 index) []
            (numeral-Plain 33 10 index (omega arith) (omega arith)) tt)),
  ),
)

pub length-message :
    (level text : List ℕ) (index : ℕ)
    → length (message level text index) ≤ 35 + length level + length text
length-message level text index = omega (
  arith,
  length-append level (text ++ (numeral 33 10 index ++ [])),
  length-append text (numeral 33 10 index ++ []),
  length-append (numeral 33 10 index) [],
  length-numeral 33 10 index,
)
