-- ===== src/Console/Char.antt =====
-- `__kputchar`.
use ord_os.Base.{
  ℕ, ◌+◌, ◌-◌, ◌*◌, ◌/◌, ◌<◌, ◌^◌, ◌≡◌, inl, inr, Bool, ◌&&◌, ◌||◌, not, arith, ◌==◌, leb,
  if◌then◌else◌, ◌∙◌, bit_or, Bool-cases, u8,
}
use ord_os.Console.{
  Screen, width, height, dp_size, kfill_buf, kget_cursor, kset_cursor, kscrscroll, kputdefault,
  kputcr, kputlf, kputbs, place, kputchar,
}
use ord_os.Console.Scroll.{scrolled, kscrscroll-scrolled, kget_cursor-kset_cursor}

-- Where the cursor stands after a character, before the end of the screen is looked at.
abbrev pub moved : ℕ → ℕ → ℕ
moved c cursor =
    if c == 10
    then (cursor / width + 1) * width
    else if c == 13
    then cursor / width * width
    else if c == 8
    then (if cursor == 0 then 2 ^ 16 - 1 else cursor - 1)
    else cursor + 1

-- A character that moves the cursor only.
abbrev pub is_control : ℕ → Bool
is_control c = c == 10 || c == 13 || c == 8

-- The cells after a character is written at the cursor, before the screen scrolls.
abbrev pub written : ℕ → ℕ → (ℕ → ℕ) → ℕ → ℕ
written c cursor cells k =
    if not (is_control c) && k == cursor then bit_or (u8 c) (0x07 * 2 ^ 8) else cells k

place_lem :
    (c cursor : ℕ) (s : Screen)
    → cursor < dp_size
    → ((place c cursor s).0 ≡ moved c cursor)
      × ((k : ℕ) → (place c cursor s).1.cells k ≡ written c cursor s.cells k)
unfolding place kputdefault kputcr kputlf kputbs kfill_buf
place_lem c cursor s h = (ground arith, λ k. ground arith)

kset_cursor-cells : (cur : ℕ) (s : Screen) (k : ℕ) → (kset_cursor cur s).cells k ≡ s.cells k
unfolding kset_cursor
kset_cursor-cells cur s k = ground arith

-- The end of `__kputchar`.
abbrev finish : ℕ → Screen → Screen
finish cursor s =
    if leb dp_size cursor
    then kset_cursor ((height - 1) * width + 0) (kscrscroll 1 s)
    else kset_cursor cursor s

finish_lem :
    (cursor : ℕ) (s : Screen)
    → (kget_cursor (finish cursor s)
        ≡ (if leb dp_size cursor then (height - 1) * width else cursor))
      × ((k : ℕ)
          → (finish cursor s).cells k
            ≡ (if leb dp_size cursor then scrolled 1 s.cells k else s.cells k))
finish_lem cursor s = elim (Bool-cases (leb dp_size cursor)) [
  | inl over ↦ rw over (
    kget_cursor-kset_cursor 1920 (kscrscroll 1 s) (omega arith),
    λ k.
        kset_cursor-cells 1920 (kscrscroll 1 s) k
        ∙ (kscrscroll-scrolled 1 s (omega arith) (omega arith)).1 k,
  )
  | inr on ↦
      rw on
        (kget_cursor-kset_cursor cursor s (ground (arith, on)), λ k. kset_cursor-cells cursor s k)
]

-- `__kputchar` with the cursor on the screen leaves it on the screen. A character that is no control
-- character is written at the cursor. If the cursor then stands behind the screen, as it does too
-- when a backspace is put at the first cell, the screen scrolls by a row and the cursor goes to the
-- start of the last row; else nothing more changes.
pub kputchar_lem :
    (c : ℕ) (s : Screen)
    → kget_cursor s < dp_size
    → let next = moved c (kget_cursor s) in
      let cells = written c (kget_cursor s) s.cells in
      (kget_cursor (kputchar c s) ≡ (if leb dp_size next then (height - 1) * width else next))
      × ((k : ℕ)
          → (kputchar c s).cells k ≡ (if leb dp_size next then scrolled 1 cells k else cells k))
unfolding kputchar
kputchar_lem c s h =
    let (cursor, cells) = place_lem c (kget_cursor s) s h in
    let (cursor', cells') =
      finish_lem (place c (kget_cursor s) s).0 (place c (kget_cursor s) s).1 in
    (
      ground (arith, cursor, cursor'),
      λ k. ground (arith, cursor, cells k, cells (k + width), cells' k),
    )
