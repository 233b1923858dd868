-- ===== src/Base/Tables.antt =====
-- Facts over a small range, checked by evaluation.
use Prim.Native.Nat.{ℕ, zero, suc, ◌+◌, ◌<◌}
use mathlib.Core.Path.{◌≡◌}
use mathlib.Core.Bool.{Bool, true, ◌&&◌}
use native.Mathlib.Omega.{arith}
use native.Mathlib.Decide.{ℕ_discrete}
use ord_os.Base.Tests.{ltb, leb, ◌==◌, if◌then◌else◌}

-- A table of Booleans with no false entry below `n`.
unfoldable pub full_table : (ℕ → Bool) → ℕ → Bool
full_table entry zero = true
full_table entry (suc n) = full_table entry n && entry n

pub table_entry : (entry : ℕ → Bool) (i n : ℕ) → i < n → full_table entry n ≡ true → entry i ≡ true
unfolding full_table
table_entry entry i zero below checked = absurd (omega arith)
table_entry entry i (suc n) below checked = ground (arith, table_entry entry i n)

-- A loop that writes the entry `i` and then those from `i + 1` on has written those from `i` on.
pub range_step {ℓ} :
    {A : Type ℓ} (f : ℕ → A) (d : A) (i n j : ℕ)
    → (if leb (i + 1) j && ltb j (i + 1 + n) then f j else if j == i then f i else d)
      ≡ (if leb i j && ltb j (i + suc n) then f j else d)
range_step f d i n j = elim (ℕ_discrete j i) [
  | yes same ↦ rw same (ground arith)
  | no other ↦ ground arith
]
