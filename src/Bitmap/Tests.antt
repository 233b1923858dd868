-- ===== src/Bitmap/Tests.antt =====
-- A bitmap of two bytes, and the theorems at it.
use ord_os.Base.{ℕ, zero, suc, ◌<◌, ◌≡◌, refl, false, some, [], ◌∷◌, arith, npos, get_or}
use ord_os.Bitmap.{
  Bitmap, bitmap_get, bitmap_set, bitmap_find, bitmap_alloc, scan_run, find_from, set_run, test_bit,
  put_bit,
}
use ord_os.Bitmap.Bits.{IsValid}
use ord_os.Bitmap.Find.{IsFirstFit, bitmap_find-IsFirstFit}
use ord_os.Bitmap.Alloc.{Allocated, bitmap_alloc-Allocated}

-- Bits 0 to 3 and bit 6 are set.
abbrev two_bytes : Bitmap
two_bytes = record { size = 2; bytes = 0x4f ∷ 0 ∷ [] }

two_bytes-byte : (i : ℕ) → get_or two_bytes.bytes i 0 < 256
two_bytes-byte zero = omega arith
two_bytes-byte (suc zero) = omega arith
two_bytes-byte (suc (suc i)) = omega arith

two_bytes-IsValid : IsValid two_bytes
two_bytes-IsValid = record { fits = omega arith; small = omega arith; bytes = two_bytes-byte }

-- A run of three does not fit before bit 7; none of ten fits.
finds :
    (bitmap_find two_bytes 2 false ≡ some 4)
    × (bitmap_find two_bytes 3 false ≡ some 7)
    × (bitmap_find two_bytes 10 false ≡ some npos)
unfolding bitmap_find find_from scan_run bitmap_get test_bit
finds = (refl, refl, refl)

claims : bitmap_alloc two_bytes 3 ≡ some (7, record { size = 2; bytes = 0xcf ∷ 3 ∷ [] })
unfolding bitmap_alloc bitmap_find find_from scan_run bitmap_get test_bit set_run bitmap_set put_bit
claims = refl

bitmap_find-IsFirstFit_example :
    (r : ℕ) × (bitmap_find two_bytes 3 false ≡ some r) × IsFirstFit two_bytes 3 false r
bitmap_find-IsFirstFit_example =
    bitmap_find-IsFirstFit two_bytes 3 false two_bytes-IsValid (omega arith)

bitmap_alloc-Allocated_example :
    (out : ℕ × Bitmap) × (bitmap_alloc two_bytes 3 ≡ some out) × Allocated two_bytes 3 out
bitmap_alloc-Allocated_example = bitmap_alloc-Allocated two_bytes 3 two_bytes-IsValid (omega arith)
