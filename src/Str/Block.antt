-- ===== src/Str/Block.antt =====
-- `memcpy` between blocks that do not overlap.
use ord_os.Base.{ℕ, zero, suc, ◌+◌, ◌≤◌, ◌<◌, ◌≡◌, ◌⊎◌, inl, refl, arith}
use ord_os.Str.{Bytes, store, memcpy}

-- The block at `d` is what the block at `s` was, and no other byte has changed.
pub record IsCopy (n : ℕ) (m : Bytes) (d s : ℕ) (g : Bytes) : Type 0 where
  pub copy : (i : ℕ) → i < n → g (d + i) ≡ m (s + i)
  pub others : (b : ℕ) → (b < d) ⊎ (d + n ≤ b) → g b ≡ m b

IsCopy-suc :
    (n : ℕ) (m : Bytes) (d s : ℕ) (g : Bytes)
    → (d + suc n ≤ s) ⊎ (s + suc n ≤ d)
    → IsCopy n (store m d (m s)) (d + 1) (s + 1) g
    → IsCopy (suc n) m d s g
unfolding store
IsCopy-suc n m d s g apart rest = record {
  copy = at;
  others = λ b far. ground (arith, rest.others b (ground arith));
}
  where
    at : (i : ℕ) → i < suc n → g (d + i) ≡ m (s + i)
    at zero h = ground (arith, rest.others d (inl (omega arith)))
    at (suc i) h = ground (arith, rest.copy i (omega arith))

-- `memcpy` between blocks that do not overlap copies every byte and changes no other.
pub memcpy-IsCopy :
    (n : ℕ) (m : Bytes) (d s : ℕ) → (d + n ≤ s) ⊎ (s + n ≤ d) → IsCopy n m d s (memcpy n m d s)
unfolding memcpy
memcpy-IsCopy zero m d s apart = record { copy = λ i h. absurd (omega arith); others = λ b h. refl }
memcpy-IsCopy (suc n) m d s apart =
    IsCopy-suc n m d s _ apart (memcpy-IsCopy n (store m d (m s)) (d + 1) (s + 1) (ground arith))
