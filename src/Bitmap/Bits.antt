-- ===== src/Bitmap/Bits.antt =====
-- `bitmap_set` and `bitmap_get` on single bits.
use ord_os.Base.{
  ℕ, ◌*◌, ◌+◌, ◌/◌, ◌%◌, ◌<◌, ◌≤◌, ◌^◌, ◌≡◌, ◌≢◌, refl, Bool, true, false, arith, ◌==◌, ==→eq,
  bool_eq, if◌then◌else◌, length, get_or, set, length-set, set-outside, get_or-set_self,
  get_or-set_ne, Bool-cases, inl, inr, dec_lt,
}
use ord_os.Base.{full_table, table_entry}
use ord_os.Bitmap.{Bitmap, test_bit, put_bit, bitmap_get, bitmap_set}

-- The array holds `size` bytes, and the bits can be numbered by a `ssize_t`.
pub record IsValid (b : Bitmap) : Type 0 where
  pub fits : b.size ≤ length b.bytes
  pub small : b.size * 8 ≤ 2 ^ 31
  pub bytes : (i : ℕ) → get_or b.bytes i 0 < 256

-- One row: byte `n % 256`, written bit `n / 256 % 8`, read bit `n / 2048`.
put_test_row : Bool → ℕ → Bool
unfolding test_bit put_bit
put_test_row v n =
    bool_eq (test_bit (put_bit (n % 256) (n / 256 % 8) v) (n / 2048))
      (if n / 256 % 8 == n / 2048 then v else test_bit (n % 256) (n / 2048))

put_test_true : full_table (put_test_row true) 16384 ≡ true
unfolding full_table put_test_row
put_test_true = refl

put_test_false : full_table (put_test_row false) 16384 ≡ true
unfolding full_table put_test_row
put_test_false = refl

pub bool_eq→eq : (a b : Bool) → bool_eq a b ≡ true → a ≡ b
bool_eq→eq true b h = ground arith
bool_eq→eq false true h = ground arith
bool_eq→eq false false h = refl

pub bool_eq-ne : (a b : Bool) → bool_eq a b ≡ false → a ≢ b
bool_eq-ne true b h = ground arith
bool_eq-ne false true h = ground arith
bool_eq-ne false false h = ground arith

row : (v : Bool) (n : ℕ) → n < 16384 → put_test_row v n ≡ true
row true n h = table_entry (put_test_row true) n 16384 h put_test_true
row false n h = table_entry (put_test_row false) n 16384 h put_test_false

index_parts :
    (x k j : ℕ)
    → x < 256
    → k < 8
    → let n = x + 256 * k + 2048 * j in (n % 256 ≡ x) × (n / 256 % 8 ≡ k) × (n / 2048 ≡ j)
index_parts x k j hx hk = omega arith

row_at :
    (v : Bool) (n x k j : ℕ)
    → n % 256 ≡ x
    → n / 256 % 8 ≡ k
    → n / 2048 ≡ j
    → put_test_row v n ≡ true
    → test_bit (put_bit x k v) j ≡ (if k == j then v else test_bit x j)
unfolding put_test_row
row_at v n x k j p q r h = rw (← p, ← q, ← r) (bool_eq→eq _ _ h)

test_bit-put_bit :
    (x k j : ℕ) (v : Bool)
    → x < 256
    → k < 8
    → j < 8
    → test_bit (put_bit x k v) j ≡ (if k == j then v else test_bit x j)
test_bit-put_bit x k j v hx hk hj =
    let parts = index_parts x k j hx hk in
    let n = x + 256 * k + 2048 * j in
    row_at v n x k j parts.0 parts.1 parts.2 (row v n (omega arith))

put_bit-lt : (x k : ℕ) (v : Bool) → put_bit x k v < 256
unfolding put_bit
put_bit-lt x k true = omega arith
put_bit-lt x k false = omega arith

-- `bitmap_set` keeps the bitmap valid.
pub bitmap_set-IsValid : (b : Bitmap) (i : ℕ) (v : Bool) → IsValid b → IsValid (bitmap_set b i v)
unfolding bitmap_set
bitmap_set-IsValid b i v ok = record {
  fits = rw length-set ok.fits;
  small = ok.small;
  bytes = bytes;
}
  where
    byte : ℕ
    byte = put_bit (get_or b.bytes (i / 8) 0) (i % 8) v

    bytes : (j : ℕ) → get_or (set b.bytes (i / 8) byte) j 0 < 256
    bytes j = elim (dec_lt (i / 8) (length b.bytes)) [
      | yes inside ↦ ground (
        arith,
        get_or-set_self b.bytes (i / 8) byte 0,
        get_or-set_ne b.bytes (i / 8) j byte 0,
        put_bit-lt (get_or b.bytes (i / 8) 0) (i % 8) v,
        ok.bytes j,
        Bool-cases (i / 8 == j),
      )
      | no outside ↦ rw (set-outside b.bytes (i / 8) byte outside) (ok.bytes j)
    ]

-- A bit that was written reads back, and every other bit is as before.
pub bitmap_get-set :
    (b : Bitmap) (i j : ℕ) (v : Bool)
    → IsValid b
    → i < b.size * 8
    → bitmap_get (bitmap_set b i v) j ≡ (if i == j then v else bitmap_get b j)
unfolding bitmap_get bitmap_set
bitmap_get-set b i j v ok h = elim (Bool-cases (i / 8 == j / 8)) [
  | inl same ↦
      let e : i / 8 ≡ j / 8 = ==→eq _ _ same in
      let stored =
        get_or-set_self b.bytes (i / 8) (put_bit (get_or b.bytes (i / 8) 0) (i % 8) v) 0
          (omega (arith, ok.fits)) in
      rw
        (
          ← e,
          stored,
          test_bit-put_bit (get_or b.bytes (i / 8) 0) (i % 8) (j % 8) v (ok.bytes (i / 8))
              (omega arith) (omega arith),
        )
        (ground arith)
  | inr other ↦ ground (
    arith,
    get_or-set_ne b.bytes (i / 8) (j / 8) (put_bit (get_or b.bytes (i / 8) 0) (i % 8) v) 0,
  )
]
