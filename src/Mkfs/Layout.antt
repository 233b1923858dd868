-- ===== src/Mkfs/Layout.antt =====
-- The layout of a new file system, and the superblock on the disk.
use ord_os.Base.{ℕ, ◌+◌, ◌*◌, ◌/◌, ◌%◌, ◌≤◌, ◌<◌, ◌^◌, ◌≡◌, refl, arith, List, [], ◌∷◌}
use ord_os.Mkfs.{
  Superblock, Bytes, div_up, inode_bmap_size, inode_table_size, free_blocks, block_bmap_size,
  new_superblock, words_of, put32, get32, superblock_of,
}

-- The regions of a partition: the boot sector, the superblock, the two bitmaps, the table of inodes and
-- the blocks, one behind the other and inside the partition, and a bitmap with a bit for every block.
pub record IsLayout (start cnt : ℕ) (sb : Superblock) : Type 0 where
  pub block_bitmap : sb.block_bitmap_start ≡ start + 2
  pub inode_bitmap : sb.inode_bitmap_start ≡ sb.block_bitmap_start + sb.block_bitmap_sec_cnt
  pub inode_table : sb.inode_table_start ≡ sb.inode_bitmap_start + sb.inode_bitmap_sec_cnt
  pub data_blocks : sb.data_start ≡ sb.inode_table_start + sb.inode_table_sec_cnt
  pub blocks : sb.data_start + free_blocks cnt ≤ start + cnt
  pub block_bits : free_blocks cnt ≤ sb.block_bitmap_sec_cnt * (512 * 8)
  pub inode_bits : sb.inode_cnt ≤ sb.inode_bitmap_sec_cnt * (512 * 8)
  pub some_block : 0 < free_blocks cnt

-- A partition of at least 126 sectors has room for the layout.
pub new_superblock-IsLayout :
    (start cnt : ℕ)
    → 126 ≤ cnt
    → start + cnt < 2 ^ 32
    → cnt < 2 ^ 31
    → IsLayout start cnt (new_superblock start cnt)
unfolding new_superblock free_blocks block_bmap_size inode_bmap_size inode_table_size div_up
new_superblock-IsLayout start cnt room words small = record {
  block_bitmap = omega arith;
  inode_bitmap = omega arith;
  inode_table = omega arith;
  data_blocks = omega arith;
  blocks = omega arith;
  block_bits = omega arith;
  inode_bits = omega arith;
  some_block = omega arith;
}

word_back :
    (w : ℕ)
    → w < 2 ^ 32
    → w / 2 ^ 0 % 256
        + 2 ^ 8 * (w / 2 ^ 8 % 256)
        + 2 ^ 16 * (w / 2 ^ 16 % 256)
        + 2 ^ 24 * (w / 2 ^ 24 % 256)
      ≡ w
word_back w h = omega (arith, h)

-- Words that fit are read back from the bytes of the structure.
abbrev pub Fits : List ℕ → Type 0
Fits [] = Unit
Fits (w ∷ ws) = (w < 2 ^ 32) × Fits ws

-- The superblock that is read back from the disk is the one that was written.
pub superblock_of-put32 :
    (sb : Superblock) → Fits (words_of sb) → superblock_of (put32 (words_of sb)) ≡ sb
unfolding superblock_of get32 put32 words_of
superblock_of-put32 sb fits =
    rw
      (
        word_back sb.magic fits.0,
        word_back sb.sec_cnt fits.1.0,
        word_back sb.inode_cnt fits.1.1.0,
        word_back sb.sec_start fits.1.1.1.0,
        word_back sb.block_bitmap_start fits.1.1.1.1.0,
        word_back sb.block_bitmap_sec_cnt fits.1.1.1.1.1.0,
        word_back sb.inode_bitmap_start fits.1.1.1.1.1.1.0,
        word_back sb.inode_bitmap_sec_cnt fits.1.1.1.1.1.1.1.0,
        word_back sb.inode_table_start fits.1.1.1.1.1.1.1.1.0,
        word_back sb.inode_table_sec_cnt fits.1.1.1.1.1.1.1.1.1.0,
        word_back sb.data_start fits.1.1.1.1.1.1.1.1.1.1.0,
        word_back sb.root_inode_idx fits.1.1.1.1.1.1.1.1.1.1.1.0,
        word_back sb.dirent_size fits.1.1.1.1.1.1.1.1.1.1.1.1.0,
      )
      refl

pub new_superblock-Fits :
    (start cnt : ℕ)
    → 126 ≤ cnt
    → start + cnt < 2 ^ 32
    → cnt < 2 ^ 31
    → Fits (words_of (new_superblock start cnt))
unfolding words_of new_superblock free_blocks block_bmap_size inode_bmap_size inode_table_size
    div_up
new_superblock-Fits start cnt room words small = (
  omega arith,
  (
    omega arith,
    (
      omega arith,
      (
        omega arith,
        (
          omega arith,
          (
            omega arith,
            (
              omega arith,
              (
                omega arith,
                (omega arith, (omega arith, (omega arith, (omega arith, (omega arith, tt))))),
              ),
            ),
          ),
        ),
      ),
    ),
  ),
)

get32-same :
    (b c : Bytes) → ((k : ℕ) → k < 512 → b k ≡ c k) → (a : ℕ) → a < 500 → get32 b a ≡ get32 c a
unfolding get32
get32-same b c h a lt =
    rw
      (h a (omega arith), h (a + 1) (omega arith), h (a + 2) (omega arith), h (a + 3) (omega arith))
      refl

-- Only the first 52 bytes matter.
pub superblock_of-same :
    (b c : Bytes) → ((k : ℕ) → k < 512 → b k ≡ c k) → superblock_of b ≡ superblock_of c
unfolding superblock_of
superblock_of-same b c h =
    rw
      (
        get32-same b c h 0 (omega arith),
        get32-same b c h 4 (omega arith),
        get32-same b c h 8 (omega arith),
        get32-same b c h 12 (omega arith),
        get32-same b c h 16 (omega arith),
        get32-same b c h 20 (omega arith),
        get32-same b c h 24 (omega arith),
        get32-same b c h 28 (omega arith),
        get32-same b c h 32 (omega arith),
        get32-same b c h 36 (omega arith),
        get32-same b c h 40 (omega arith),
        get32-same b c h 44 (omega arith),
        get32-same b c h 48 (omega arith),
      )
      refl
