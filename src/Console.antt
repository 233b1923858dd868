-- ===== src/Console.antt =====
-- kernel/utils/print.c: the text screen of 80 by 25 cells and the hardware cursor. The cells stand
-- for the VGA memory, which holds what was written last; the two bytes of the cursor for the
-- registers of the VGA controller.
pub mod Scroll
pub mod Char
pub mod Print
mod Tests
use ord_os.Base.{
  ℕ, zero, suc, ◌+◌, ◌-◌, ◌*◌, ◌/◌, ◌%◌, ◌^◌, Bool, true, false, Option, none, some, ◌==◌, ltb, leb,
  if◌then◌else◌, u8, u16, bit_or,
}
use ord_os.Str.{Bytes}
use ord_os.Intr.{intr_lock, intr_unlock}

-- `VGA_BUF_WIDTH`, `VGA_BUF_HEIGHT`, `VGA_DP_SIZE`, and a blank cell.
abbrev pub width : ℕ
width = 80

abbrev pub height : ℕ
height = 25

abbrev pub dp_size : ℕ
dp_size = 2000

abbrev pub blank : ℕ
blank = 0x0720

pub record Screen : Type 0 where
  pub cells : ℕ → ℕ
  pub cursor_high : ℕ
  pub cursor_low : ℕ

unfoldable pub kfill_buf : ℕ → ℕ → Screen → Screen
kfill_buf cursor value s = record s { cells = λ i. if i == cursor then value else s.cells i }

unfoldable pub kget_cursor : Screen → ℕ
kget_cursor s = bit_or (s.cursor_high * 2 ^ 8) s.cursor_low

unfoldable pub kset_cursor : ℕ → Screen → Screen
kset_cursor cur s =
    if leb dp_size cur then s else record s { cursor_high = cur / 2 ^ 8; cursor_low = cur % 2 ^ 8 }

-- The loop that blanks `n` cells from `i` on, and the one that copies `n` cells from `offset` behind.
unfoldable pub blank_loop : ℕ → ℕ → Screen → Screen
blank_loop zero i s = s
blank_loop (suc n) i s = blank_loop n (i + 1) (kfill_buf i blank s)

unfoldable pub copy_loop : ℕ → ℕ → ℕ → Screen → Screen
copy_loop zero offset i s = s
copy_loop (suc n) offset i s = copy_loop n offset (i + 1) (kfill_buf i (s.cells (i + offset)) s)

unfoldable pub kscrclear : Screen → Screen
kscrclear s = kset_cursor 0 (blank_loop dp_size 0 s)

unfoldable pub kscrscroll : ℕ → Screen → Screen
kscrscroll rows s =
    if rows == 0
    then s
    else if leb height rows
    then kscrclear s
    else let first = (height - rows) * width in
      blank_loop (dp_size - first) first (copy_loop first (rows * width) 0 s)

unfoldable pub kputdefault : ℕ → ℕ → Screen → ℕ × Screen
kputdefault c cursor s = (u16 (cursor + 1), kfill_buf cursor (bit_or (u8 c) (0x07 * 2 ^ 8)) s)

unfoldable pub kputcr : ℕ → ℕ
kputcr cursor = cursor - cursor % width

unfoldable pub kputlf : ℕ → ℕ
kputlf cursor = u16 (cursor + (width - cursor % width))

unfoldable pub kputbs : ℕ → ℕ
kputbs cursor = u16 (cursor + 2 ^ 16 - 1)

-- The `switch` of `__kputchar`: the new cursor, and the screen.
unfoldable pub place : ℕ → ℕ → Screen → ℕ × Screen
unfolding kputdefault kputcr kputlf kputbs
place c cursor s =
    if c == 10
    then (kputlf cursor, s)
    else if c == 13
    then (kputcr cursor, s)
    else if c == 8
    then (kputbs cursor, s)
    else kputdefault c cursor s

unfoldable pub kputchar : ℕ → Screen → Screen
unfolding place
kputchar c s =
    let (cursor, s') = place c (kget_cursor s) s in
    if leb dp_size cursor
    then kset_cursor ((height - 1) * width + 0) (kscrscroll 1 s')
    else kset_cursor cursor s'

-- The loop of `kputs` and `kputs_nint`, with fuel.
unfoldable pub puts_loop : ℕ → Bytes → ℕ → Screen → Option Screen
puts_loop zero m str s = none
puts_loop (suc fuel) m str s =
    let rest = puts_loop fuel m (str + 1) (kputchar (m str) s) in
    if m str == 0 then some s else rest

-- The Boolean is the interrupt flag.
unfoldable pub kputs_nint : ℕ → Bytes → ℕ → Bool → Screen → Option (Bool × Screen)
unfolding intr_lock intr_unlock
kputs_nint fuel m str intr s =
    let (istate, off) = intr_lock intr in
    elim (puts_loop fuel m str s) [ none ↦ none | some s' ↦ some (intr_unlock istate off, s') ]
