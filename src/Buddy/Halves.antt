-- ===== src/Buddy/Halves.antt =====
-- A block and its two halves; a block and its neighbour.
use ord_os.Base.{
  ℕ, zero, suc, ◌+◌, ◌-◌, ◌*◌, ◌/◌, ◌%◌, ◌≤◌, ◌<◌, ◌^◌, ◌≡◌, ◌≢◌, ◌⊎◌, inl, inr, refl, Bool, true,
  ◌==◌, arith, some, if◌then◌else◌, ltb, ap, sym, ◌∙◌, dec_lt, ℕ_discrete, pow_pos, pow_suc,
  bit_xor-flip, bit_and-clear, full_table, table_entry, not32, bit_and, bit_xor,
}
use ord_os.Buddy.{Buddy, max_order, buddy_page_to_buddy, buddy_page_ascend, page_index_is_overflow}
use ord_os.Buddy.Blocks.{zone_of, IsBlock, Held}

-- A bound that is a multiple of the size of an aligned block does not cut it.
uncut : (b c w m k : ℕ) → b ≡ c * w → k < w → ltb (m * w + k) b ≡ ltb (m * w) b
uncut b c w m k e h = elim (dec_lt m c) [
  | yes lt ↦ ground (arith, below lt, e)
  | no ge ↦ ground (arith, above ge, e)
]
  where
    below : m < c → m * w + w ≤ c * w
    below lt = grind arith

    above : ¬ (m < c) → c * w ≤ m * w
    above ge = grind arith

divides : ℕ → ℕ → Bool
divides b o = b == b / 2 ^ o * 2 ^ o

dma_end : full_table (divides 0x1000) (suc max_order) ≡ true
unfolding full_table divides
dma_end = refl

normal_end : full_table (divides 0x30000) (suc max_order) ≡ true
unfolding full_table divides
normal_end = refl

-- All pages of a block lie in one zone.
pub zone_of-block :
    (m o k : ℕ) → o ≤ max_order → k < 2 ^ o → zone_of (m * 2 ^ o + k) ≡ zone_of (m * 2 ^ o)
unfolding divides
zone_of-block m o k small h =
    rw
      (
        uncut 0x1000 (0x1000 / 2 ^ o) (2 ^ o) m k dma h,
        uncut 0x30000 (0x30000 / 2 ^ o) (2 ^ o) m k normal h,
      )
      refl
  where
    dma : 0x1000 ≡ 0x1000 / 2 ^ o * 2 ^ o
    dma = ground (arith, table_entry (divides 0x1000) o (suc max_order) (omega arith) dma_end)

    normal : 0x30000 ≡ 0x30000 / 2 ^ o * 2 ^ o
    normal =
        ground (arith, table_entry (divides 0x30000) o (suc max_order) (omega arith) normal_end)

doubled : (m o : ℕ) → m * 2 ^ suc o ≡ m * 2 * 2 ^ o
doubled m o = grind (arith, pow_suc o)

next_multiple : (m w : ℕ) → (m + 1) * w ≡ m * w + w
next_multiple m w = grind arith

module _ (s : Buddy) (p o : ℕ) (b : IsBlock s p (suc o)) where
  pub lower-IsBlock : IsBlock s p o
  lower-IsBlock = record {
    order_small = omega (arith, b.order_small);
    multiple = b.multiple * 2;
    aligned = b.aligned ∙ doubled b.multiple o;
    fits = omega (arith, b.fits, pow_suc o);
    usable = λ k lo hi. b.usable k lo (omega (arith, pow_suc o));
  }

  pub upper-IsBlock : IsBlock s (p + 2 ^ o) o
  upper-IsBlock = record {
    order_small = omega (arith, b.order_small);
    multiple = b.multiple * 2 + 1;
    aligned =
        omega (arith, b.aligned, doubled b.multiple o, next_multiple (b.multiple * 2) (2 ^ o));
    fits = omega (arith, b.fits, pow_suc o);
    usable = λ k lo hi. b.usable k (omega arith) (omega (arith, pow_suc o));
  }

-- The neighbour of a block whose number is even is the block behind it.
pub buddy-upper :
    (s : Buddy) (p o : ℕ) → IsBlock s p (suc o) → buddy_page_to_buddy s p o ≡ some (p + 2 ^ o)
unfolding buddy_page_to_buddy page_index_is_overflow
buddy-upper s p o b = rw flip (ground (arith, b.fits, pow_suc o, pow_pos o))
  where
    flip : bit_xor p (2 ^ o) ≡ p + 2 ^ o
    flip = ground (
      arith,
      ap (λ x. bit_xor x (2 ^ o)) (b.aligned ∙ doubled b.multiple o),
      bit_xor-flip o (b.multiple * 2),
      next_multiple (b.multiple * 2) (2 ^ o),
      b.aligned,
      doubled b.multiple o,
    )

-- Block `b` and block `p` of order `o` are the halves of the block of order `o + 1` at `low`.
pub record Neighbour (p o b low : ℕ) : Type 0 where
  pub multiple : ℕ
  pub aligned : low ≡ multiple * 2 ^ suc o
  pub halves : ((low ≡ p) × (b ≡ p + 2 ^ o)) ⊎ ((low ≡ b) × (p ≡ b + 2 ^ o))

previous_multiple : (m w : ℕ) → m % 2 ≢ 0 → (m - 1) * w + w ≡ m * w
previous_multiple zero w odd = absurd (odd refl)
previous_multiple (suc m) w odd = grind arith

half_of :
    (m w : ℕ) → (m % 2 ≡ 0 → m / 2 * 2 * w ≡ m * w) × (m % 2 ≢ 0 → m / 2 * 2 * w ≡ (m - 1) * w)
half_of m w = (λ e. ap (λ x. x * w) (omega arith), λ e. ap (λ x. x * w) (omega arith))

pub buddy-Neighbour :
    (s : Buddy) (p o b : ℕ)
    → s.pages_cnt ≤ 2 ^ 20
    → IsBlock s p o
    → o < max_order
    → buddy_page_to_buddy s p o ≡ some b
    → Neighbour p o b (buddy_page_ascend p o)
unfolding buddy_page_to_buddy page_index_is_overflow buddy_page_ascend
buddy-Neighbour s p o b small block below found = record {
  multiple = m / 2;
  aligned = ascend ∙ sym (doubled (m / 2) o);
  halves = elim (ℕ_discrete (m % 2) 0) [
    | yes even ↦ inl (
      ascend ∙ (half_of m (2 ^ o)).0 even ∙ sym block.aligned,
      ground (arith, found, flip, next_multiple m (2 ^ o), block.aligned),
    )
    | no odd ↦ inr (
      ground (arith, ascend, (half_of m (2 ^ o)).1 odd, found, flip),
      ground (arith, found, flip, previous_multiple m (2 ^ o) odd, block.aligned),
    )
  ];
}
  where
    m : ℕ
    m = block.multiple

    flip : bit_xor p (2 ^ o) ≡ (if m % 2 == 0 then (m + 1) * 2 ^ o else (m - 1) * 2 ^ o)
    flip = ap (λ x. bit_xor x (2 ^ o)) block.aligned ∙ bit_xor-flip o m

    ascend : bit_and p (not32 (2 ^ o)) ≡ m / 2 * 2 * 2 ^ o
    ascend =
        ap (λ x. bit_and x (not32 (2 ^ o))) block.aligned
        ∙ bit_and-clear o 32 m (omega arith) (omega (arith, block.fits, small, block.aligned))

-- Two blocks in use that are neighbours are one block in use.
pub Held-join :
    (s : Buddy) (p o b low : ℕ)
    → Neighbour p o b low
    → Held s p o
    → Held s b o
    → o < max_order
    → Held s low (suc o)
Held-join s p o b low n hp hb below = record {
  is_block = record {
    order_small = below;
    multiple = n.multiple;
    aligned = n.aligned;
    fits = ground (arith, n.halves, hp.is_block.fits, hb.is_block.fits, pow_suc o);
    usable =
        λ k lo hi. ground (arith, n.halves, hp.is_block.usable k, hb.is_block.usable k, pow_suc o);
  };
  clear = λ q free. ground (
    arith,
    n.halves,
    hp.clear q free,
    hb.clear q free,
    pow_suc o,
    pow_pos o,
    pow_pos (s.pages q).order,
  );
}
