-- ===== src/Mkfs/Blocks.antt =====
-- The bitmap of the blocks of a new file system.
use ord_os.Base.{
  ℕ, ◌+◌, ◌-◌, ◌*◌, ◌/◌, ◌%◌, ◌<◌, ◌^◌, ◌≡◌, ◌≢◌, refl, Bool, true, false, ◌==◌, ltb, leb,
  if◌then◌else◌, arith, full_table, none, some, add32, sub32,
}
use ord_os.Mkfs.{Bytes, div_up, clear_loop, mark_blocks, block_bitmap}

cleared : ℕ → Bool
cleared r = clear_loop (r + 1) 0 0xff == 256 - 2 ^ (r + 1)

-- The bit of a block.
abbrev pub bit_of : Bytes → ℕ → ℕ
bit_of m k = m (k / 8) / 2 ^ (k % 8) % 2

abbrev low_bit : ℕ → ℕ → Bool
low_bit r k = (256 - 2 ^ (r + 1)) / 2 ^ k % 2 == (if leb k r then 0 else 1)

abbrev low_bits : ℕ → Bool
low_bits r = full_table (low_bit r) 8

-- The buffer that is filled lies in the block of memory, unless there are whole sectors of blocks.
pub block_bitmap-mark_blocks :
    (free_size : ℕ) (m : Bytes)
    → free_size % 4096 ≢ 0
    → free_size < 2 ^ 31
    → block_bitmap (div_up free_size 4096) free_size m ≡ some (mark_blocks free_size m)
unfolding block_bitmap div_up
block_bitmap-mark_blocks free_size m part small = rw (block_bitmap, inside) refl
  where
    inside :
        ltb
          (sub32 (add32 free_size 4096) 1 / 4096 * 512)
          (free_size / 8 + (512 - free_size / 8 % 512))
        ≡ false
    inside = ground (arith, part, small)

-- For whole sectors of blocks the byte behind the block of memory is written.
pub block_bitmap-none :
    (free_size : ℕ) (m : Bytes)
    → free_size % 4096 ≡ 0
    → free_size < 2 ^ 31
    → block_bitmap (div_up free_size 4096) free_size m ≡ none
unfolding block_bitmap div_up
block_bitmap-none free_size m whole small = rw (block_bitmap, outside) refl
  where
    outside :
        ltb
          (sub32 (add32 free_size 4096) 1 / 4096 * 512)
          (free_size / 8 + (512 - free_size / 8 % 512))
        ≡ true
    outside = ground (arith, whole, small)
