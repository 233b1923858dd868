-- ===== src/Format/Pieces.antt =====
-- What each conversion of `kvsprint` lays down in the buffer.
use ord_os.Base.{
  ℕ, ◌+◌, ◌-◌, ◌≤◌, ◌<◌, ◌^◌, ◌≡◌, ◌≢◌, ◌⊎◌, refl, false, some, List, arith, among, length,
}
use ord_os.Str.{strlen}
use ord_os.Str.Text.{Text, strlen-length}
use ord_os.Str.Lay.{lay, lay-Text, memcpy-lay}
use ord_os.Num.Numeral.{numeral, signed, numeral-no_zero, utoa-numeral, itoa-signed}
use ord_os.Format.{Place, kvsprint_i32, kvsprint_u32, kvsprint_s}

-- The characters are laid down at the place, and `n` characters of the format are read.
abbrev pub emitted : Place → ℕ → List ℕ → Place
emitted s n cs = record { buf = s.buf + length cs; fmt = s.fmt + n; memory = lay s.memory s.buf cs }

pub signed-no_zero : (base value : ℕ) → 2 ≤ base → base ≤ 16 → among 0 (signed base value) ≡ false
signed-no_zero base value two small = ground (
  arith,
  numeral-no_zero 33 base value two small,
  numeral-no_zero 33 base (2 ^ 32 - value) two small,
)

strlen-lay :
    (fuel : ℕ) (s : Place) (cs : List ℕ)
    → among 0 cs ≡ false
    → s.memory (s.buf + length cs) ≡ 0
    → length cs < fuel
    → strlen fuel (lay s.memory s.buf cs) s.buf ≡ some (length cs)
strlen-lay fuel s cs some_chars end enough =
    strlen-length fuel _ s.buf cs (lay-Text s.memory s.buf cs some_chars end) enough

pub kvsprint_i32-signed :
    (fuel : ℕ) (s : Place) (num : ℕ)
    → num < 2 ^ 32
    → num ≢ 2 ^ 31
    → s.memory (s.buf + length (signed 10 num)) ≡ 0
    → length (signed 10 num) < fuel
    → kvsprint_i32 fuel s num 10 ≡ some (emitted s 2 (signed 10 num))
unfolding kvsprint_i32
kvsprint_i32-signed fuel s num word not_smallest end enough =
    rw
      (
        kvsprint_i32,
        itoa-signed s.memory s.buf num 10 (omega arith) (omega arith) word not_smallest end,
        strlen-lay fuel s (signed 10 num) (signed-no_zero 10 num (omega arith) (omega arith)) end
            enough,
      )
      refl

pub kvsprint_u32-numeral :
    (fuel : ℕ) (s : Place) (num base : ℕ)
    → 2 ≤ base
    → base ≤ 16
    → num < 2 ^ 32
    → s.memory (s.buf + length (numeral 33 base num)) ≡ 0
    → length (numeral 33 base num) < fuel
    → kvsprint_u32 fuel s num base ≡ some (emitted s 2 (numeral 33 base num))
unfolding kvsprint_u32
kvsprint_u32-numeral fuel s num base two small word end enough =
    rw
      (
        kvsprint_u32,
        utoa-numeral s.memory s.buf num base two small word,
        strlen-lay fuel s (numeral 33 base num) (numeral-no_zero 33 base num two small) end enough,
      )
      refl

pub kvsprint_s-text :
    (fuel : ℕ) (s : Place) (str : ℕ) (cs : List ℕ)
    → Text s.memory str cs
    → (s.buf + length cs ≤ str) ⊎ (str + length cs < s.buf)
    → length cs < fuel
    → kvsprint_s fuel s str ≡ some (emitted s 2 cs)
unfolding kvsprint_s
kvsprint_s-text fuel s str cs t apart enough =
    rw
      (
        kvsprint_s,
        strlen-length fuel s.memory str cs t enough,
        memcpy-lay s.memory s.buf str cs t apart,
      )
      refl
