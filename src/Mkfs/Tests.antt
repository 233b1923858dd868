-- ===== src/Mkfs/Tests.antt =====
-- Instances of the theorems: a file that is an array of bytes, and a partition of 2048 sectors.
use ord_os.Base.{◌+◌, ◌-◌, ◌*◌, ◌%◌, ◌≡◌, refl, ◌&&◌, leb, ltb, if◌then◌else◌}
use ord_os.Mkfs.{Bytes, Stdio, div_up, inode_bmap_size, inode_table_size, free_blocks}

abbrev array : Stdio Bytes
array = record {
  fwrite = λ fp off cnt buf.
      (cnt, λ k. if leb off k && ltb k (off + cnt * 512) then buf (k - off) else fp k);
  fread = λ fp off cnt. (cnt, λ k. fp (off + k));
}

abbrev heap : Bytes
heap k = 0xaa

-- The number of blocks on a partition of 2048 sectors, and on one that is filled by 4096 blocks.
some_blocks : free_blocks 2048 ≡ 1924
unfolding free_blocks inode_bmap_size inode_table_size div_up
some_blocks = refl

whole_sectors : free_blocks 4221 % 4096 ≡ 0
unfolding free_blocks inode_bmap_size inode_table_size div_up
whole_sectors = refl
