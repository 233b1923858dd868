-- ===== src/Console/Scroll.antt =====
-- Clearing and scrolling, and the cursor's registers.
use ord_os.Base.{
  ℕ, zero, suc, ◌+◌, ◌-◌, ◌*◌, ◌/◌, ◌%◌, ◌<◌, ◌^◌, ◌≡◌, refl, Bool, true, false, ◌&&◌, arith, ◌==◌,
  ltb, leb, if◌then◌else◌, ◌∙◌, bit_or, full_table, table_entry,
}
use ord_os.Console.{
  Screen, width, height, dp_size, blank, kfill_buf, kget_cursor, kset_cursor, blank_loop, copy_loop,
  kscrclear, kscrscroll,
}

-- Only the cells differ.
abbrev pub SameCursor : Screen → Screen → Type 0
SameCursor s t = (t.cursor_high ≡ s.cursor_high) × (t.cursor_low ≡ s.cursor_low)

blank_loop_lem :
    (n i : ℕ) (s : Screen)
    → SameCursor s (blank_loop n i s)
      × ((k : ℕ)
          → (blank_loop n i s).cells k ≡ (if leb i k && ltb k (i + n) then blank else s.cells k))
unfolding blank_loop kfill_buf
blank_loop_lem zero i s = ((refl, refl), λ k. ground arith)
blank_loop_lem (suc n) i s =
    let (same, cells) = blank_loop_lem n (i + 1) (kfill_buf i blank s) in
    (same, λ k. ground (arith, cells k))

-- The cells are read before they are written, since the loop goes upwards.
copy_loop_lem :
    (n w i : ℕ) (s : Screen)
    → 0 < w
    → SameCursor s (copy_loop n w i s)
      × ((k : ℕ)
          → (copy_loop n w i s).cells k
            ≡ (if leb i k && ltb k (i + n) then s.cells (k + w) else s.cells k))
unfolding copy_loop kfill_buf
copy_loop_lem zero w i s pos = ((refl, refl), λ k. ground arith)
copy_loop_lem (suc n) w i s pos =
    let (same, cells) = copy_loop_lem n w (i + 1) (kfill_buf i (s.cells (i + w)) s) pos in
    (same, λ k. ground (arith, cells k))

-- What the cells hold after scrolling by some rows.
abbrev pub scrolled : ℕ → (ℕ → ℕ) → ℕ → ℕ
scrolled rows cells k =
    if leb dp_size k
    then cells k
    else if ltb (k + rows * width) dp_size
    then cells (k + rows * width)
    else blank

scroll_steps :
    (rows : ℕ) (s : Screen)
    → 0 < rows
    → rows < height
    → kscrscroll rows s
      ≡ blank_loop
          (dp_size - (height - rows) * width)
          ((height - rows) * width)
          (copy_loop ((height - rows) * width) (rows * width) 0 s)
unfolding kscrscroll
scroll_steps rows s some_row few = rw (kscrscroll, some, below) refl
  where
    some : (rows == 0) ≡ false
    some = ground arith

    below : leb height rows ≡ false
    below = ground arith

-- `__kscrscroll` by 1 to 24 rows moves every cell up by that many rows, blanks the rows at the bottom,
-- and changes neither memory behind the screen nor the cursor.
pub kscrscroll-scrolled :
    (rows : ℕ) (s : Screen)
    → 0 < rows
    → rows < height
    → SameCursor s (kscrscroll rows s)
      × ((k : ℕ) → (kscrscroll rows s).cells k ≡ scrolled rows s.cells k)
kscrscroll-scrolled rows s some_row few =
    rw (scroll_steps rows s some_row few)
      ((bottom.0.0 ∙ upper.0.0, bottom.0.1 ∙ upper.0.1), λ k. ground (arith, bottom.1 k, upper.1 k))
  where
    first : ℕ
    first = (height - rows) * width

    t : Screen
    t = copy_loop ((height - rows) * width) (rows * width) 0 s

    upper :
        SameCursor s t
        × ((k : ℕ)
            → t.cells k
              ≡ (if leb 0 k && ltb k (0 + first) then s.cells (k + rows * width) else s.cells k))
    upper = copy_loop_lem first (rows * width) 0 s (omega arith)

    bottom :
        SameCursor t (blank_loop (dp_size - first) first t)
        × ((k : ℕ)
            → (blank_loop (dp_size - first) first t).cells k
              ≡ (if leb first k && ltb k (first + (dp_size - first)) then blank else t.cells k))
    bottom = blank_loop_lem (dp_size - first) first t

-- `__kscrclear` blanks the whole screen and puts the cursor home.
pub kscrclear_lem :
    (s : Screen)
    → (kget_cursor (kscrclear s) ≡ 0)
      × ((k : ℕ) → (kscrclear s).cells k ≡ (if ltb k dp_size then blank else s.cells k))
unfolding kscrclear kset_cursor kget_cursor
kscrclear_lem s = (refl, λ k. ground (arith, (blank_loop_lem dp_size 0 s).1 k))

round_trip : ℕ → Bool
round_trip cur = bit_or (cur / 2 ^ 8 * 2 ^ 8) (cur % 2 ^ 8) == cur

round_trips : full_table round_trip dp_size ≡ true
unfolding full_table round_trip
round_trips = refl

-- A cursor on the screen that was set is read back.
pub kget_cursor-kset_cursor :
    (cur : ℕ) (s : Screen) → cur < dp_size → kget_cursor (kset_cursor cur s) ≡ cur
unfolding kget_cursor kset_cursor round_trip
kget_cursor-kset_cursor cur s h = ground (arith, table_entry round_trip cur dp_size h round_trips)
