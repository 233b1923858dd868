-- ===== src/Mkfs/Create.antt =====
-- `partition_create_fs` on a file that takes what is written to it, and `partition_check_fs` after it.
use ord_os.Base.{ℕ, ◌+◌, ◌*◌, ◌≤◌, ◌<◌, ◌≡◌, Bool, true, Option, some}
use ord_os.Mkfs.{
  Superblock, Bytes, Stdio, new_superblock, free_blocks, mark_blocks, words_of, put32,
  superblock_of, block_bitmap, inode_bitmap, inode_table, root_dir, image_read_sec,
  partition_check_fs,
}
use ord_os.Mkfs.Layout.{IsLayout}

-- The file takes every block, gives a block back as it was written, and a write changes no block
-- before it.
pub record IsStdio {F : Type 0} (io : Stdio F) : Type 0 where
  pub takes : (fp : F) (off cnt : ℕ) (buf : Bytes) → (io.fwrite fp off cnt buf).0 ≡ cnt
  pub gives :
      (fp : F) (off cnt : ℕ) (buf : Bytes)
      → 0 < cnt
      → ((io.fread (io.fwrite fp off cnt buf).1 off 1).0 ≡ 1)
        × ((k : ℕ) → k < 512 → (io.fread (io.fwrite fp off cnt buf).1 off 1).1 k ≡ buf k)
  pub before :
      (fp : F) (off cnt : ℕ) (buf : Bytes) (at : ℕ)
      → at + 512 ≤ off
      → ((io.fread (io.fwrite fp off cnt buf).1 at 1).0 ≡ (io.fread fp at 1).0)
        × ((k : ℕ)
            → k < 512
            → (io.fread (io.fwrite fp off cnt buf).1 at 1).1 k ≡ (io.fread fp at 1).1 k)

module _ {F : Type 0} (io : Stdio F) (laws : IsStdio io) where
  abbrev written : F → Bytes → ℕ → ℕ → F
  written fp buf sec cnt = (io.fwrite fp (sec * 512) cnt buf).1

  module _ (m1 m2 m3 m4 : Bytes) (start cnt : ℕ) (fp : F) where
    abbrev sb : Superblock
    sb = new_superblock start cnt

    abbrev f1 : F
    f1 = written fp (put32 (words_of sb)) (start + 1) 1

    abbrev f2 : F
    f2 = written f1 (mark_blocks (free_blocks cnt) m1) sb.block_bitmap_start sb.block_bitmap_sec_cnt

    abbrev f3 : F
    f3 = written f2 (inode_bitmap m2) sb.inode_bitmap_start sb.inode_bitmap_sec_cnt

    abbrev f4 : F
    f4 = written f3 (inode_table sb.data_start m3) sb.inode_table_start sb.inode_table_sec_cnt

    abbrev f5 : F
    f5 = written f4 (root_dir m4) sb.data_start 1

    abbrev marking : Bytes → Option Bytes
    marking = block_bitmap sb.block_bitmap_sec_cnt (free_blocks cnt)

    -- No later write reaches the superblock.
    abbrev Same : F → F → Type 0
    Same f g =
        ((io.fread g ((start + 1) * 512) 1).0 ≡ (io.fread f ((start + 1) * 512) 1).0)
        × ((k : ℕ)
            → k < 512
            → (io.fread g ((start + 1) * 512) 1).1 k ≡ (io.fread f ((start + 1) * 512) 1).1 k)

-- What `partition_create_fs` leaves on the disk.
pub record IsCreated {F : Type 0} (io : Stdio F) (start cnt : ℕ) (out : Option (Bool × F))
    : Type 0 where
  pub image : F
  pub created : out ≡ some (true, image)
  pub checked : partition_check_fs io start image ≡ true
  pub superblock :
      superblock_of (image_read_sec io image (start + 1) 1).1 ≡ new_superblock start cnt
  pub layout : IsLayout start cnt (new_superblock start cnt)
