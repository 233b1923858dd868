-- ===== src/Partition/Lookup.antt =====
-- Partitions by index, and the index of a partition.
use ord_os.Base.{
  ℕ, ◌+◌, ◌≤◌, ◌<◌, ◌^◌, ◌≡◌, true, false, List, [], ◌∷◌, arith, ◌==◌, among, length, ap, ◌∙◌,
  add32, ℕ_discrete,
}
use ord_os.Partition.{
  index_get_loop, partition_get_by_index, get_index_loop, partition_get_index, cnt_loop,
  partition_get_cnt,
}

get_index_loop_bounds :
    (ps : List ℕ) (p cnt : ℕ)
    → among p ps ≡ true
    → cnt + length ps < 2 ^ 32
    → (cnt ≤ get_index_loop ps p cnt) × (get_index_loop ps p cnt < cnt + length ps)
unfolding get_index_loop
get_index_loop_bounds [] p cnt listed small = absurd (ground arith)
get_index_loop_bounds (q ∷ ps) p cnt listed small = elim (ℕ_discrete q p) [
  | yes same ↦ (ground arith, ground arith)
  | no other ↦
      let next : add32 cnt 1 ≡ cnt + 1 = omega arith in
      let (low, high) = get_index_loop_bounds ps p (cnt + 1) (ground arith) (omega arith) in
      let more : get_index_loop (q ∷ ps) p cnt ≡ get_index_loop ps p (cnt + 1) =
        ground (arith, ap (get_index_loop ps p) next) in
      (omega (arith, more, low), omega (arith, more, high))
]

index-get_loop :
    (ps : List ℕ) (p cnt : ℕ)
    → among p ps ≡ true
    → cnt + length ps < 2 ^ 32
    → index_get_loop ps (get_index_loop ps p cnt) cnt ≡ p
unfolding index_get_loop get_index_loop
index-get_loop [] p cnt listed small = absurd (ground arith)
index-get_loop (q ∷ ps) p cnt listed small = elim (ℕ_discrete q p) [
  | yes same ↦ ground arith
  | no other ↦
      let next : add32 cnt 1 ≡ cnt + 1 = omega arith in
      let (low, high) = get_index_loop_bounds ps p (cnt + 1) (ground arith) (omega arith) in
      let skip : (q == p) ≡ false = ground arith in
      let later : (cnt == get_index_loop ps p (cnt + 1)) ≡ false = ground (arith, low) in
      rw (skip, next, later) (index-get_loop ps p (cnt + 1) (ground arith) (omega arith))
]

cnt_loop-length :
    (ps : List ℕ) (cnt : ℕ) → cnt + length ps < 2 ^ 32 → cnt_loop ps cnt ≡ cnt + length ps
unfolding cnt_loop
cnt_loop-length [] cnt small = omega arith
cnt_loop-length (p ∷ ps) cnt small =
    let next : add32 cnt 1 ≡ cnt + 1 = omega arith in
    rw next (cnt_loop-length ps (cnt + 1) (omega arith) ∙ omega arith)

-- Of a partition in a list of fewer than 2^32, `partition_get_index` gives an index below the number
-- that `partition_get_cnt` gives, and `partition_get_by_index` finds it again under that index.
pub partition_get_by_index-index :
    (ps : List ℕ) (p : ℕ)
    → among p ps ≡ true
    → length ps < 2 ^ 32
    → (partition_get_index ps p < partition_get_cnt ps)
      × (partition_get_by_index ps (partition_get_index ps p) ≡ p)
unfolding partition_get_index partition_get_by_index partition_get_cnt
partition_get_by_index-index ps p listed small =
    let (low, high) = get_index_loop_bounds ps p 0 listed (omega arith) in
    (
      omega (arith, high, cnt_loop-length ps 0 (omega arith)),
      index-get_loop ps p 0 listed (omega arith),
    )
