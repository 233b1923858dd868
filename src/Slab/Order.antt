-- ===== src/Slab/Order.antt =====
-- `sslab_size_to_order` finds the least power of two that holds a size.
use ord_os.Base.{
  ℕ, zero, suc, ◌+◌, ◌*◌, ◌%◌, ◌≤◌, ◌<◌, ◌^◌, ◌≡◌, ◌≢◌, refl, Bool, true, Option, some, arith, ltb,
  sym, subst, ap, full_table, table_entry, ◌==◌, dec_lt,
}
use ord_os.Slab.{order_to_size, order_loop, size_to_order}

-- The order of a size: the least one whose objects are large enough.
pub record IsOrder (size : ℕ) (out : Option ℕ) : Type 0 where
  pub order : ℕ
  pub returned : out ≡ some order
  pub enough : size ≤ order_to_size order
  pub least : (o : ℕ) → o < order → order_to_size o < size

order_step : (order : ℕ) → order < 31 → 2 ^ order * 2 % 2 ^ 32 ≡ 2 ^ (order + 1)
unfolding full_table
order_step order h = ground (arith, table_entry doubles order 31 h all_double)
  where
    doubles : ℕ → Bool
    doubles o = 2 ^ o * 2 % 2 ^ 32 == 2 ^ (o + 1)

    all_double : full_table doubles 31 ≡ true
    all_double = refl

below_31 : (order size : ℕ) → order ≤ 31 → 2 ^ order < size → size ≤ 2 ^ 31 → order < 31
below_31 order size b more s = elim (dec_lt order 31) [
  | yes lt ↦ lt
  | no ge ↦ absurd (last (omega arith))
]
  where
    last : order ≢ 31
    last e = omega (arith, more, s, ap (λ o. 2 ^ o) e)

order_loop-IsOrder :
    (fuel order size : ℕ)
    → order + fuel ≡ 33
    → order ≤ 31
    → size ≤ 2 ^ 31
    → ((o : ℕ) → o < order → order_to_size o < size)
    → IsOrder size (order_loop fuel (2 ^ order) order size)
unfolding order_loop order_to_size
order_loop-IsOrder zero order size e b s before = absurd (omega arith)
order_loop-IsOrder (suc fuel) order size e b s before = elim (dec_lt (2 ^ order) size) [
  | yes more ↦ subst (IsOrder size) (sym (again more (below_31 order size b more s))) (
      order_loop-IsOrder fuel (order + 1) size (omega arith)
        (omega (arith, below_31 order size b more s)) s (λ o lt. below o more lt))
  | no done ↦ record {
    order = order;
    returned = ground arith;
    enough = omega arith;
    least = before;
  }
]
  where
    again :
        2 ^ order < size
        → order < 31
        → order_loop (suc fuel) (2 ^ order) order size
          ≡ order_loop fuel (2 ^ (order + 1)) (order + 1) size
    again more lt = rw (order_step order lt, more_test) refl
      where
        more_test : ltb (2 ^ order) size ≡ true
        more_test = ground arith

    below : (o : ℕ) → 2 ^ order < size → o < order + 1 → order_to_size o < size
    below o more lt = elim (dec_lt o order) [
      | yes lt' ↦ before o lt'
      | no ge ↦ subst (λ x. 2 ^ x < size) (same ge) more
    ]
      where
        same : ¬ (o < order) → order ≡ o
        same ge = omega arith

-- `sslab_size_to_order` of a size up to 2 GiB ends, with the least order whose objects hold it.
pub size_to_order-IsOrder : (size : ℕ) → size ≤ 2 ^ 31 → IsOrder size (size_to_order size)
unfolding size_to_order
size_to_order-IsOrder size h =
    order_loop-IsOrder 33 0 size refl (omega arith) h (λ o lt. absurd (omega arith))
