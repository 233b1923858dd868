-- ===== src/Bitmap/Alloc.antt =====
-- `bitmap_alloc` claims the first free run.
use ord_os.Base.{
  ℕ, zero, suc, ◌*◌, ◌+◌, ◌<◌, ◌≤◌, ◌≡◌, ◌≢◌, refl, Bool, true, false, ◌&&◌, some, arith, ltb, leb,
  ◌==◌, if◌then◌else◌, npos, add32, subst, ◌∙◌, ne→==, eq→==,
}
use ord_os.Bitmap.{Bitmap, set_run, bitmap_alloc, bitmap_get, bitmap_set}
use ord_os.Bitmap.Bits.{IsValid, bitmap_get-set, bitmap_set-IsValid}
use ord_os.Bitmap.Find.{Fits, IsFirstFit, at, nowhere, bitmap_find-IsFirstFit}

-- `i` is one of the `n` indices from `s` on.
abbrev pub in_run : ℕ → ℕ → ℕ → Bool
in_run s n i = leb s i && ltb i (s + n)

-- `c` is `b` with the bits of a run set and all others as before.
pub record RunSet (b : Bitmap) (s n : ℕ) (c : Bitmap) : Type 0 where
  pub size : c.size ≡ b.size
  pub valid : IsValid c
  pub bits : (j : ℕ) → bitmap_get c j ≡ (if in_run s n j then true else bitmap_get b j)

pub size-bitmap_set : (b : Bitmap) (i : ℕ) (v : Bool) → (bitmap_set b i v).size ≡ b.size
unfolding bitmap_set
size-bitmap_set b i v = refl

set_run-RunSet :
    (n index i : ℕ) (b : Bitmap)
    → IsValid b
    → index + i + n ≤ b.size * 8
    → RunSet b (index + i) n (set_run n index i b)
unfolding set_run
set_run-RunSet zero index i b ok fits = record { size = refl; valid = ok; bits = λ j. ground arith }
set_run-RunSet (suc n) index i b ok fits =
    let small_sum : add32 index i ≡ index + i = omega (arith, ok.small) in
    let small_next : add32 i 1 ≡ i + 1 = omega (arith, ok.small) in
    let rest =
      set_run-RunSet n index (i + 1) (bitmap_set b (index + i) true)
        (bitmap_set-IsValid b (index + i) true ok)
        (omega (arith, size-bitmap_set b (index + i) true)) in
    rw (small_sum, small_next)
      (record {
        size = rest.size ∙ size-bitmap_set b (index + i) true;
        valid = rest.valid;
        bits =
            λ j. ground (arith, rest.bits j, bitmap_get-set b (index + i) j true ok (omega arith));
      })

-- What `bitmap_alloc` hands back: the first free run, now set, or `NPOS` and the bitmap as it was.
pub data Allocated (b : Bitmap) (size : ℕ) : ℕ × Bitmap → Type 0 where
  claimed :
      {r : ℕ} {c : Bitmap}
      → r ≢ npos
      → Fits b size false r
      → ((s : ℕ) → s < r → ¬ Fits b size false s)
      → RunSet b r size c
      → Allocated b size (r, c)
  full :
      {r : ℕ} {c : Bitmap}
      → r ≡ npos
      → c ≡ b
      → ((s : ℕ) → ¬ Fits b size false s)
      → Allocated b size (r, c)

alloc_at :
    (b : Bitmap) (size r : ℕ)
    → IsValid b
    → IsFirstFit b size false r
    → Allocated b size (r, if r == npos then b else set_run size r 0 b)
alloc_at b size _ ok (nowhere {r} e gone) = full e (rw (eq→== r npos e)) gone
alloc_at b size _ ok (at {r} ne fits first) = claimed ne fits first (
    rw (ne→== r npos ne) (
      subst (λ k. RunSet b k size (set_run size r 0 b)) (omega arith)
        (set_run-RunSet size r 0 b ok (omega (arith, fits.0)))))

-- `bitmap_alloc` on a valid bitmap returns: it sets exactly the bits of the first free run of
-- `size` bits and returns its index, or finds that there is none, returns `NPOS` and changes nothing.
pub bitmap_alloc-Allocated :
    (b : Bitmap) (size : ℕ)
    → IsValid b
    → 0 < size
    → (out : ℕ × Bitmap) × (bitmap_alloc b size ≡ some out) × Allocated b size out
unfolding bitmap_alloc
bitmap_alloc-Allocated b size ok positive =
    let (r, returned, first) = bitmap_find-IsFirstFit b size false ok positive in
    (
      (r, if r == npos then b else set_run size r 0 b),
      rw (returned, bitmap_alloc) refl,
      alloc_at b size r ok first,
    )
