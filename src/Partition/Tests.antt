-- ===== src/Partition/Tests.antt =====
-- An instance: three partitions.
use ord_os.Base.{ℕ, ◌<◌, ◌≡◌, refl, List, [], ◌∷◌, arith}
use ord_os.Partition.{partition_get_by_index, partition_get_index, partition_get_cnt}
use ord_os.Partition.Lookup.{partition_get_by_index-index}

abbrev three_partitions : List ℕ
three_partitions = 0x1000 ∷ 0x1040 ∷ 0x1080 ∷ []

partition_get_by_index-index_example :
    (partition_get_index three_partitions 0x1040 < partition_get_cnt three_partitions)
    × (partition_get_by_index three_partitions (partition_get_index three_partitions 0x1040)
        ≡ 0x1040)
partition_get_by_index-index_example =
    partition_get_by_index-index three_partitions 0x1040 refl (omega arith)
