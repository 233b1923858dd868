-- ===== src/Partition.antt =====
-- The list of partitions in kernel/device/disk/partition.c and its look-ups, and the table of disks in
-- kernel/device/disk/disk.c. A partition is its address, and the list is the list of the addresses
-- that its ring links (ListHead).
pub mod Lookup
mod Tests
use ord_os.Base.{
  ℕ, zero, suc, ◌+◌, ◌*◌, ◌/◌, ◌%◌, Option, none, some, List, [], ◌∷◌, ◌==◌, ltb, leb,
  if◌then◌else◌, add32, sub32, npos,
}
use ord_os.Str.{Bytes, strcmp}

-- `name_of` gives the address of the name in a partition; `nullptr` is 0. `fuel` bounds the names.
unfoldable pub partition_get_by_name : ℕ → Bytes → (ℕ → ℕ) → List ℕ → ℕ → Option ℕ
partition_get_by_name fuel m name_of [] name = some 0
partition_get_by_name fuel m name_of (p ∷ ps) name = elim (strcmp fuel m (name_of p) name) [
  | none ↦ none
  | some order ↦
      let rest = partition_get_by_name fuel m name_of ps name in if order == 0 then some p else rest
]

unfoldable pub index_get_loop : List ℕ → ℕ → ℕ → ℕ
index_get_loop [] index cnt = 0
index_get_loop (p ∷ ps) index cnt =
    let rest = index_get_loop ps index (add32 cnt 1) in if cnt == index then p else rest

unfoldable pub partition_get_by_index : List ℕ → ℕ → ℕ
partition_get_by_index ps index = index_get_loop ps index 0

unfoldable pub get_index_loop : List ℕ → ℕ → ℕ → ℕ
get_index_loop [] partition cnt = npos
get_index_loop (p ∷ ps) partition cnt =
    let rest = get_index_loop ps partition (add32 cnt 1) in if p == partition then cnt else rest

unfoldable pub partition_get_index : List ℕ → ℕ → ℕ
partition_get_index ps partition = get_index_loop ps partition 0

unfoldable pub cnt_loop : List ℕ → ℕ → ℕ
cnt_loop [] cnt = cnt
cnt_loop (p ∷ ps) cnt = cnt_loop ps (add32 cnt 1)

unfoldable pub partition_get_cnt : List ℕ → ℕ
partition_get_cnt ps = cnt_loop ps 0

-- A disk is its place in `__disks`; `disk_cnt` is what the BIOS has counted, `none` is the panic.
unfoldable pub disk_get : ℕ → ℕ → Option ℕ
disk_get disk_cnt index = if leb disk_cnt index then none else some index

unfoldable pub disk_get_index : ℕ → ℕ → Option ℕ
disk_get_index disk_cnt idx = if ltb disk_cnt idx then none else some idx
