-- ===== src/Bitmap.antt =====
-- kernel/utils/bitmap.c: bits in an array of bytes, and first-fit search for a run of bits.
pub mod Bits
pub mod Find
pub mod Alloc
mod Tests
use ord_os.Base.{
  ℕ, zero, suc, ◌-◌, ◌*◌, ◌/◌, ◌%◌, Bool, true, false, ◌&&◌, ◌||◌, not, Option, none, some, List,
  ltb, ◌==◌, bool_eq, if◌then◌else◌, get_or, set, u8, u32, add32, sub32, not32, bit, bit_and,
  bit_or, npos, max_ssize,
}
use ord_os.Str.{memset}

-- `bytes` is the array that `data` points to. A read behind it, which C leaves undefined, gives 0.
pub record Bitmap : Type 0 where
  pub size : ℕ
  pub bytes : List ℕ

-- The bit `1 << k` of a byte, read, set and cleared; `~` acts on an `int`.
unfoldable pub test_bit : ℕ → ℕ → Bool
test_bit x k = not (bit_and x (bit k) == 0)

unfoldable pub put_bit : ℕ → ℕ → Bool → ℕ
put_bit x k value = if value then u8 (bit_or x (bit k)) else u8 (bit_and x (not32 (bit k)))

unfoldable pub bitmap_init : List ℕ → ℕ → Bitmap
bitmap_init buffer byte_size = record { size = byte_size; bytes = memset buffer 0 byte_size }

unfoldable pub bitmap_get : Bitmap → ℕ → Bool
bitmap_get b index = test_bit (get_or b.bytes (index / 8) 0) (index % 8)

unfoldable pub bitmap_set : Bitmap → ℕ → Bool → Bitmap
bitmap_set b index value = record b {
  bytes = set b.bytes (index / 8) (put_bit (get_or b.bytes (index / 8) 0) (index % 8) value);
}

-- How the inner loop of `bitmap_find` ends: by `return`, by its test, or without fuel.
pub data Scan : Type 0 where
  found : ℕ → Scan
  stopped : ℕ → Scan
  out_of_fuel : Scan

abbrev pub total_bits : Bitmap → ℕ
total_bits b = u32 (b.size * 8)

module _ (b : Bitmap) (size : ℕ) (value : Bool) where
  unfoldable pub scan_run : ℕ → ℕ → ℕ → Scan
  scan_run zero start end = out_of_fuel
  scan_run (suc fuel) start end =
      let more = scan_run fuel start (add32 end 1) in
      if ltb end (total_bits b) && bool_eq (bitmap_get b end) value
      then (if sub32 (add32 end 1) start == size
          then found
              (if ltb max_ssize (sub32 (add32 end 1) 1) || ltb max_ssize start then npos else start)
          else more)
      else stopped end

  unfoldable pub find_from : ℕ → ℕ → Option ℕ
  find_from zero start = none
  find_from (suc fuel) start =
      let next : Option ℕ = elim (scan_run (suc (total_bits b)) start start) [
        | found r ↦ some r
        | stopped end ↦ find_from fuel (add32 end 1)
        | out_of_fuel ↦ none
      ] in
      if ltb start (total_bits b) then next else some npos

  -- Both loops advance at least one bit a round, so one round more than there are bits is enough.
  unfoldable pub bitmap_find : Option ℕ
  bitmap_find = find_from (suc (total_bits b)) 0

-- The loop of `bitmap_alloc`, from `i` on with `n` rounds left.
unfoldable pub set_run : ℕ → ℕ → ℕ → Bitmap → Bitmap
set_run zero index i b = b
set_run (suc n) index i b = set_run n index (add32 i 1) (bitmap_set b (add32 index i) true)

unfoldable pub bitmap_alloc : Bitmap → ℕ → Option (ℕ × Bitmap)
bitmap_alloc b size = elim (bitmap_find b size false) [
  | none ↦ none
  | some index ↦ some (index, if index == npos then b else set_run size index 0 b)
]
