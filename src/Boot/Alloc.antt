-- ===== src/Boot/Alloc.antt =====
-- `bootmem_alloc`: blocks one behind the other, up to the end of the memory.
use ord_os.Base.{
  ℕ, ◌+◌, ◌-◌, ◌*◌, ◌≤◌, ◌<◌, ◌^◌, ◌≡◌, ◌⊎◌, inl, inr, refl, true, Option, none, some, arith, ap₂,
  ltb, leb, ◌&&◌, if◌then◌else◌, add32, sub32, not32, bit_and, bit_and-split, Bool-cases,
}
use ord_os.Slab.{align_up}
use ord_os.Buddy.Address.{kernel_vstart}
use ord_os.Boot.{Bootmem, bootmem_alloc}

-- `ALIGN_UP` does not round down, and adds less than the alignment, also when that is no power of two.
pub align_up-bounds :
    (x a : ℕ) → 0 < a → x + a ≤ 2 ^ 32 → (x ≤ align_up x a) × (align_up x a < x + a)
unfolding align_up
align_up-bounds x a some_byte words =
    let parts =
      bit_and-split 32 (x + a - 1) (a - 1) (omega (arith, some_byte, words))
        (omega (arith, some_byte, words)) in
    (omega (arith, parts.0, parts.1, same), omega (arith, parts.0, parts.1, same))
  where
    same : align_up x a ≡ bit_and (x + a - 1) (2 ^ 32 - 1 - (a - 1))
    same = ap₂ bit_and left right
      where
        left : sub32 (add32 x a) 1 ≡ x + a - 1
        left = omega (arith, some_byte, words)

        right : not32 (sub32 a 1) ≡ 2 ^ 32 - 1 - (a - 1)
        right = omega (arith, some_byte, words)

-- A block behind all that were given before, inside the memory, filled with zeros.
pub record Block (size : ℕ) (b : Bootmem) (out : Option (ℕ × Bootmem)) : Type 0 where
  pub ptr : ℕ
  pub state : Bootmem
  pub returned : out ≡ some (ptr, state)
  pub behind : kernel_vstart + b.free_mem ≤ ptr
  pub next : ptr + size ≡ kernel_vstart + state.free_mem
  pub fits : state.free_mem ≤ b.mem_end
  pub same_end : state.mem_end ≡ b.mem_end
  pub zeroed : (i : ℕ) → i < size → state.memory (ptr + i) ≡ 0
  pub kept : (a : ℕ) → a < kernel_vstart + b.free_mem → state.memory a ≡ b.memory a

-- `bootmem_alloc` of some bytes, where the memory ends at 1 GiB or below and the block, rounded up to
-- its size, ends below 4 GiB, so that no address wraps around, gives a block behind everything that
-- was given before and inside the memory, filled with zeros, and changes no byte before it; or it
-- panics, and then fewer than twice as many bytes were left.
pub bootmem_alloc-Block :
    (size : ℕ) (b : Bootmem)
    → 0 < size
    → b.mem_end ≤ 2 ^ 30
    → b.free_mem + 2 * size ≤ 2 ^ 32
    → Block size b (bootmem_alloc size b)
      ⊎ ((bootmem_alloc size b ≡ none) × (b.mem_end < b.free_mem + 2 * size))
unfolding bootmem_alloc
bootmem_alloc-Block size b some_byte low room =
    elim (Bool-cases (ltb b.mem_end (add32 base size))) [
      | inl e ↦ inr (rw (bootmem_alloc, e) refl, short e)
      | inr e ↦ inl (record {
        ptr = add32 base kernel_vstart;
        state = record b {
          free_mem = add32 base size;
          memory = λ a. if leb ptr a && ltb a (ptr + size) then 0 else b.memory a;
        };
        returned = rw (bootmem_alloc, e) refl;
        behind = ground (arith, e, low, room, bounds);
        next = ground (arith, e, low, room, bounds);
        fits = ground (arith, e);
        same_end = refl;
        zeroed = λ i lt. ground arith;
        kept = λ a lt. ground (arith, e, low, room, bounds);
      })
    ]
  where
    base : ℕ
    base = align_up b.free_mem size

    ptr : ℕ
    ptr = add32 base kernel_vstart

    bounds : (b.free_mem ≤ base) × (base < b.free_mem + size)
    bounds = align_up-bounds b.free_mem size some_byte (omega (arith, room))

    short : ltb b.mem_end (add32 base size) ≡ true → b.mem_end < b.free_mem + 2 * size
    short e = ground (arith, e, bounds)
