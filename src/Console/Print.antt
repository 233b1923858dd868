-- ===== src/Console/Print.antt =====
-- `kputs` and `kputs_nint`: a string on the screen.
use ord_os.Base.{
  ℕ, zero, suc, ◌+◌, ◌*◌, ◌≤◌, ◌<◌, ◌^◌, ◌≡◌, ◌⊎◌, inl, refl, Bool, true, false, some, List, [],
  ◌∷◌, arith, ◌==◌, if◌then◌else◌, ap, ◌∙◌, subst, bit_or, u8, length,
}
use ord_os.Intr.{intr_lock, intr_unlock}
use ord_os.Str.{Bytes}
use ord_os.Str.Text.{Text}
use ord_os.Console.{Screen, dp_size, kget_cursor, kputchar, puts_loop, kputs_nint}
use ord_os.Console.Char.{is_control, kputchar_lem}

-- The characters stand in the cells from `k` on, in light grey on black.
abbrev pub Shown : Screen → ℕ → List ℕ → Type 0
Shown s k [] = Unit
Shown s k (c ∷ cs) = (s.cells k ≡ bit_or (u8 c) (0x07 * 2 ^ 8)) × Shown s (k + 1) cs

-- None of the characters moves the cursor elsewhere.
abbrev pub Plain : List ℕ → Type 0
Plain [] = Unit
Plain (c ∷ cs) = (is_control c ≡ false) × Plain cs

-- The screen after each character in turn.
abbrev pub put_all : List ℕ → Screen → Screen
put_all [] s = s
put_all (c ∷ cs) s = put_all cs (kputchar c s)

pub puts_loop-put_all :
    (fuel : ℕ) (m : Bytes) (p : ℕ) (cs : List ℕ) (s : Screen)
    → Text m p cs
    → length cs < fuel
    → puts_loop fuel m p s ≡ some (put_all cs s)
unfolding puts_loop
puts_loop-put_all zero m p cs s t enough = absurd (omega arith)
puts_loop-put_all (suc fuel) m p [] s t enough = ground arith
puts_loop-put_all (suc fuel) m p (c ∷ cs) s t enough =
    rw more (puts_loop-put_all fuel m (p + 1) cs (kputchar c s) t.2 (omega arith))
  where
    more : puts_loop (suc fuel) m p s ≡ puts_loop fuel m (p + 1) (kputchar c s)
    more = ground (arith, t.0, t.1, ap (λ x. puts_loop fuel m (p + 1) (kputchar x s)) t.0)

pub kputs_nint-put_all :
    (fuel : ℕ) (m : Bytes) (str : ℕ) (cs : List ℕ) (intr : Bool) (s : Screen)
    → Text m str cs
    → length cs < fuel
    → kputs_nint fuel m str intr s ≡ some (intr, put_all cs s)
unfolding kputs_nint intr_lock intr_unlock
kputs_nint-put_all fuel m str cs true s t enough =
    rw (kputs_nint, puts_loop-put_all fuel m str cs s t enough) refl
kputs_nint-put_all fuel m str cs false s t enough =
    rw (kputs_nint, puts_loop-put_all fuel m str cs s t enough) refl

-- One plain character that does not fill the screen.
one_plain :
    (c : ℕ) (s : Screen)
    → is_control c ≡ false
    → kget_cursor s + 1 < dp_size
    → (kget_cursor (kputchar c s) ≡ kget_cursor s + 1)
      × ((k : ℕ)
          → (kputchar c s).cells k
            ≡ (if k == kget_cursor s then bit_or (u8 c) (0x07 * 2 ^ 8) else s.cells k))
one_plain c s plain fits =
    let (cursor, cells) = kputchar_lem c s (omega arith) in
    (ground (arith, cursor, plain), λ k. ground (arith, cells k, plain))

-- The text is shown from the old cursor on, the cursor stands behind it, all other cells are as
-- before.
pub record Displayed (s : Screen) (cs : List ℕ) (t : Screen) : Type 0 where
  pub cursor : kget_cursor t ≡ kget_cursor s + length cs
  pub shown : Shown t (kget_cursor s) cs
  pub others :
      (k : ℕ) → (k < kget_cursor s) ⊎ (kget_cursor s + length cs ≤ k) → t.cells k ≡ s.cells k

pub put_all-Displayed :
    (cs : List ℕ) (s : Screen)
    → Plain cs
    → kget_cursor s + length cs < dp_size
    → Displayed s cs (put_all cs s)
put_all-Displayed [] s plain fits = record {
  cursor = omega arith;
  shown = tt;
  others = λ k h. refl;
}
put_all-Displayed (c ∷ cs) s plain fits =
    let (cursor, cells) = one_plain c s plain.0 (omega arith) in
    let rest = put_all-Displayed cs (kputchar c s) plain.1 (omega (arith, cursor)) in
    record {
      cursor = omega (arith, rest.cursor, cursor);
      shown = (
        rest.others (kget_cursor s) (inl (omega (arith, cursor)))
            ∙ ground (arith, cells (kget_cursor s)),
        subst (λ k. Shown (put_all cs (kputchar c s)) k cs) cursor rest.shown,
      );
      others = λ k h. rest.others k (ground (arith, cursor)) ∙ ground (arith, cells k);
    }

-- `kputs_nint` of a string without control characters that fits on the rest of the screen shows it
-- there behind the cursor, moves the cursor behind it, changes no other cell, and leaves the
-- interrupt flag as it was.
pub kputs_nint-Displayed :
    (fuel : ℕ) (m : Bytes) (str : ℕ) (cs : List ℕ) (intr : Bool) (s : Screen)
    → Text m str cs
    → length cs < fuel
    → Plain cs
    → kget_cursor s + length cs < dp_size
    → (t : Screen) × (kputs_nint fuel m str intr s ≡ some (intr, t)) × Displayed s cs t
kputs_nint-Displayed fuel m str cs intr s t enough plain fits = (
  put_all cs s,
  kputs_nint-put_all fuel m str cs intr s t enough,
  put_all-Displayed cs s plain fits,
)

put_all-cursor :
    (cs : List ℕ) (s : Screen) → kget_cursor s < dp_size → kget_cursor (put_all cs s) < dp_size
put_all-cursor [] s h = h
put_all-cursor (c ∷ cs) s h =
    put_all-cursor cs (kputchar c s) (ground (arith, (kputchar_lem c s h).0))

-- Whatever string `kputs_nint` prints, it ends, with the cursor on the screen and the interrupt flag
-- as it was.
pub kputs_nint-cursor :
    (fuel : ℕ) (m : Bytes) (str : ℕ) (cs : List ℕ) (intr : Bool) (s : Screen)
    → Text m str cs
    → length cs < fuel
    → kget_cursor s < dp_size
    → (t : Screen) × (kputs_nint fuel m str intr s ≡ some (intr, t)) × (kget_cursor t < dp_size)
kputs_nint-cursor fuel m str cs intr s t enough on =
    (put_all cs s, kputs_nint-put_all fuel m str cs intr s t enough, put_all-cursor cs s on)
