-- ===== src/Mkfs.antt =====
-- scripts/mkfs.c: the layout of a file system on a partition, and what `partition_create_fs` writes.
-- The file and the heap of the host are parameters. Sizes are those of the structures of
-- include/kernel/filesystem/filesystem.h.
pub mod Layout
pub mod Blocks
pub mod Create
mod Tests
use ord_os.Base.{
  ℕ, zero, suc, ◌+◌, ◌-◌, ◌*◌, ◌/◌, ◌%◌, ◌^◌, Bool, true, false, Option, none, some, List, [], ◌∷◌,
  ◌==◌, leb, ltb, ◌&&◌, if◌then◌else◌, get_or, add32, sub32, u32, bit_and, bit_or,
}

-- `FS_SUPERBLOCK_MAGIC`, `FS_MAX_FILES`, `sizeof(struct dinode)` and `sizeof(struct direntry)`.
abbrev pub magic_number : ℕ
magic_number = 0x4246_5353

abbrev pub max_files : ℕ
max_files = 1024

abbrev pub dinode_size : ℕ
dinode_size = 60

abbrev pub direntry_size : ℕ
direntry_size = 24

-- `struct superblock`, less its padding.
pub record Superblock : Type 0 where
  pub magic : ℕ
  pub sec_cnt : ℕ
  pub inode_cnt : ℕ
  pub sec_start : ℕ
  pub block_bitmap_start : ℕ
  pub block_bitmap_sec_cnt : ℕ
  pub inode_bitmap_start : ℕ
  pub inode_bitmap_sec_cnt : ℕ
  pub inode_table_start : ℕ
  pub inode_table_sec_cnt : ℕ
  pub data_start : ℕ
  pub root_inode_idx : ℕ
  pub dirent_size : ℕ

-- The bytes of a buffer.
abbrev pub Bytes : Type 0
Bytes = ℕ → ℕ

-- `DIV_UP` on 32 bits.
unfoldable pub div_up : ℕ → ℕ → ℕ
div_up x y = sub32 (add32 x y) 1 / y

unfoldable pub inode_bmap_size : ℕ
inode_bmap_size = div_up max_files (512 * 8)

unfoldable pub inode_table_size : ℕ
inode_table_size = div_up (max_files * dinode_size) 512

-- `free_size` after the first estimate of the bitmap of the blocks, and the size of that bitmap.
unfoldable pub free_blocks : ℕ → ℕ
unfolding inode_bmap_size inode_table_size
free_blocks sec_cnt =
    let free_size = sub32 sec_cnt (inode_bmap_size + inode_table_size + 2) in
    sub32 free_size (div_up free_size (512 * 8))

unfoldable pub block_bmap_size : ℕ → ℕ
unfolding free_blocks
block_bmap_size sec_cnt = div_up (free_blocks sec_cnt) (512 * 8)

unfoldable pub new_superblock : ℕ → ℕ → Superblock
new_superblock start cnt =
    let block_bitmap = add32 start 2 in
    let inode_bitmap = add32 block_bitmap (block_bmap_size cnt) in
    let inode_table = add32 inode_bitmap inode_bmap_size in
    record {
      magic = magic_number;
      sec_cnt = cnt;
      inode_cnt = max_files;
      sec_start = start;
      block_bitmap_start = block_bitmap;
      block_bitmap_sec_cnt = block_bmap_size cnt;
      inode_bitmap_start = inode_bitmap;
      inode_bitmap_sec_cnt = inode_bmap_size;
      inode_table_start = inode_table;
      inode_table_sec_cnt = inode_table_size;
      data_start = add32 inode_table inode_table_size;
      root_inode_idx = 0;
      dirent_size = direntry_size;
    }

-- The structure in memory: 13 little-endian words and 460 bytes of padding.
unfoldable pub words_of : Superblock → List ℕ
words_of sb =
    sb.magic
    ∷ (sb.sec_cnt
        ∷ (sb.inode_cnt
            ∷ (sb.sec_start
                ∷ (sb.block_bitmap_start
                    ∷ (sb.block_bitmap_sec_cnt
                        ∷ (sb.inode_bitmap_start
                            ∷ (sb.inode_bitmap_sec_cnt
                                ∷ (sb.inode_table_start
                                    ∷ (sb.inode_table_sec_cnt
                                        ∷ (sb.data_start
                                            ∷ (sb.root_inode_idx ∷ (sb.dirent_size ∷ []))))))))))))

unfoldable pub put32 : List ℕ → Bytes
put32 ws k = get_or ws (k / 4) 0 / 2 ^ (8 * (k % 4)) % 256

unfoldable pub get32 : Bytes → ℕ → ℕ
get32 b a = b a + 2 ^ 8 * b (a + 1) + 2 ^ 16 * b (a + 2) + 2 ^ 24 * b (a + 3)

unfoldable pub superblock_of : Bytes → Superblock
unfolding get32
superblock_of b = record {
  magic = get32 b 0;
  sec_cnt = get32 b 4;
  inode_cnt = get32 b 8;
  sec_start = get32 b 12;
  block_bitmap_start = get32 b 16;
  block_bitmap_sec_cnt = get32 b 20;
  inode_bitmap_start = get32 b 24;
  inode_bitmap_sec_cnt = get32 b 28;
  inode_table_start = get32 b 32;
  inode_table_sec_cnt = get32 b 36;
  data_start = get32 b 40;
  root_inode_idx = get32 b 44;
  dirent_size = get32 b 48;
}

-- A byte with bit `i` cleared, and the loop that clears the bits from `i` on, `n` of them.
unfoldable pub clear_bit : ℕ → ℕ → ℕ
clear_bit b i = bit_and b (255 - 2 ^ i)

unfoldable pub clear_loop : ℕ → ℕ → ℕ → ℕ
unfolding clear_bit
clear_loop zero i b = b
clear_loop (suc n) i b = clear_loop n (i + 1) (clear_bit b i)

-- What the bitmap of the blocks has in memory: bit 0 is set, then the bytes from `free_size / 8` to the
-- end of their sector, and then the bits of the first of them up to `free_size % 8` are cleared.
unfoldable pub mark_blocks : ℕ → Bytes → Bytes
unfolding clear_loop
mark_blocks free_size m k =
    let last = free_size / 8 in
    let size = 512 - last % 512 in
    if k == last
    then clear_loop (free_size % 8 + 1) 0 0xff
    else if leb last k && ltb k (last + size)
    then 0xff
    else if k == 0
    then bit_or (m 0) 1
    else m k

-- The buffer that `malloc` gave has `sec_cnt` sectors; `none` is a write behind its end.
unfoldable pub block_bitmap : ℕ → ℕ → Bytes → Option Bytes
unfolding mark_blocks
block_bitmap sec_cnt free_size m =
    let last = free_size / 8 in
    let size = 512 - last % 512 in
    if ltb (sec_cnt * 512) (last + size) then none else some (mark_blocks free_size m)

unfoldable pub inode_bitmap : Bytes → Bytes
inode_bitmap m k = if k == 0 then bit_or (m 0) 1 else m k

-- A word written into a buffer.
unfoldable pub store32 : ℕ → ℕ → Bytes → Bytes
store32 a w m k = if leb a k && ltb k (a + 4) then w / 2 ^ (8 * (k - a)) % 256 else m k

-- The inode of the root directory: `iid`, `size` and `direct[0]`.
unfoldable pub inode_table : ℕ → Bytes → Bytes
unfolding store32
inode_table data_start m = store32 8 data_start (store32 0 0 (store32 4 (direntry_size * 2) m))

-- The entries `.` and `..`: number, name and type.
unfoldable pub store8 : ℕ → ℕ → Bytes → Bytes
store8 a v m k = if k == a then v else m k

unfoldable pub root_dir : Bytes → Bytes
unfolding store8 store32
root_dir m = store32 44 1 (
    store8 30 0 (
      store8 29 46
        (store8 28 46 (store32 24 0 (store32 20 1 (store8 5 0 (store8 4 46 (store32 0 0 m))))))))

-- `fseek` followed by `fwrite` or `fread` of blocks of 512 bytes, on a file of type `F`: they give the
-- number of blocks that were written or read.
pub record Stdio (F : Type 0) : Type 0 where
  pub fwrite : F → ℕ → ℕ → Bytes → ℕ × F
  pub fread : F → ℕ → ℕ → ℕ × Bytes

module _ {F : Type 0} (io : Stdio F) where
  unfoldable pub image_read_sec : F → ℕ → ℕ → Bool × Bytes
  image_read_sec fp sec cnt =
      let (num_read, buf) = io.fread fp (sec * 512) cnt in (num_read == cnt, buf)

  unfoldable pub image_write_sec : F → Bytes → ℕ → ℕ → Bool × F
  image_write_sec fp buf sec cnt =
      let (num_written, fp') = io.fwrite fp (sec * 512) cnt buf in (num_written == cnt, fp')

  -- The next step, unless this one failed. `none` is a write behind the end of a buffer, after which
  -- nothing is known of the program.
  abbrev pub and_then : Option (Bool × F) → (F → Option (Bool × F)) → Option (Bool × F)
  and_then none next = none
  and_then (some (true, fp)) next = next fp
  and_then (some (false, fp)) next = some (false, fp)

  -- What `malloc` gave, filled and written.
  unfoldable pub fill_and_write :
      Option Bytes → (Bytes → Option Bytes) → ℕ → ℕ → F → Option (Bool × F)
  unfolding image_write_sec
  fill_and_write none fill sec cnt fp = some (false, fp)
  fill_and_write (some m) fill sec cnt fp = elim (fill m) [
    | none ↦ none
    | some buf ↦ some (image_write_sec fp buf sec cnt)
  ]

  -- `m1` to `m4` are what `malloc` gives. The buffers but the first are a sector at least, and only their
  -- first sector is filled.
  unfoldable pub partition_create_fs : (m1 m2 m3 m4 : Option Bytes) → ℕ → ℕ → F → Option (Bool × F)
  unfolding image_write_sec fill_and_write new_superblock
  partition_create_fs m1 m2 m3 m4 start cnt fp =
      let sb = new_superblock start cnt in
      and_then (some (image_write_sec fp (put32 (words_of sb)) (start + 1) 1)) (λ fp.
        and_then
          (fill_and_write m1 (block_bitmap sb.block_bitmap_sec_cnt (free_blocks cnt))
            sb.block_bitmap_start sb.block_bitmap_sec_cnt fp)
          (λ fp.
            and_then
              (fill_and_write m2 (λ m. some (inode_bitmap m)) sb.inode_bitmap_start
                sb.inode_bitmap_sec_cnt fp)
              (λ fp.
                and_then
                  (fill_and_write m3 (λ m. some (inode_table sb.data_start m)) sb.inode_table_start
                    sb.inode_table_sec_cnt fp)
                  (λ fp. fill_and_write m4 (λ m. some (root_dir m)) sb.data_start 1 fp))))

  -- The buffer is taken to be there: the result of its `malloc` is not checked.
  unfoldable pub partition_check_fs : ℕ → F → Bool
  unfolding image_read_sec superblock_of
  partition_check_fs start fp =
      let (ok, buf) = image_read_sec fp (start + 1) 1 in
      ok && (superblock_of buf).magic == magic_number
