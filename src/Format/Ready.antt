-- ===== src/Format/Ready.antt =====
-- The text that a format stands for, and the state of `kvsprint` between two characters of it.
use ord_os.Base.{
  ℕ, ◌+◌, ◌≤◌, ◌<◌, ◌^◌, ◌≡◌, ◌≢◌, ◌⊎◌, inr, ◌||◌, ◌&&◌, Bool, true, false, List, [], ◌∷◌, ◌++◌,
  arith, ◌==◌, u8, length, ◌∙◌, get_or,
}
use ord_os.Str.{Bytes}
use ord_os.Str.Text.{Text}
use ord_os.Str.Lay.{lay_other, Text-same}
use ord_os.Num.Numeral.{numeral, signed}
use ord_os.Format.{Place, is_signed, is_hex}
use ord_os.Format.Pieces.{emitted}

-- A character behind a `%` that asks for a conversion; `chars` says whether `%c` is one.
abbrev pub is_conversion : Bool → ℕ → Bool
is_conversion chars c =
    is_signed c || c == 117 || is_hex c || c == 115 || (chars && c == 99) || c == 37

-- The text that a format and a list of arguments stand for, where the strings among the arguments
-- stand in a memory, outside of the block from `lo` to `hi`.
pub data Formats (chars : Bool) (m : Bytes) (lo hi : ℕ) : List ℕ → List ℕ → List ℕ → Type 0 where
  done : (args : List ℕ) → Formats chars m lo hi args [] []
  plain :
      (args : List ℕ) (c : ℕ) (fs out : List ℕ)
      → (c == 37 && is_conversion chars (get_or fs 0 0)) ≡ false
      → c ≢ 0
      → Formats chars m lo hi args fs out
      → Formats chars m lo hi args (c ∷ fs) (c ∷ out)
  percent :
      (args fs out : List ℕ)
      → Formats chars m lo hi args fs out
      → Formats chars m lo hi args (37 ∷ 37 ∷ fs) (37 ∷ out)
  decimal :
      (num c : ℕ) (args fs out : List ℕ)
      → is_signed c ≡ true
      → num < 2 ^ 32
      → num ≢ 2 ^ 31
      → Formats chars m lo hi args fs out
      → Formats chars m lo hi (num ∷ args) (37 ∷ c ∷ fs) (signed 10 num ++ out)
  unsigned :
      (num : ℕ) (args fs out : List ℕ)
      → num < 2 ^ 32
      → Formats chars m lo hi args fs out
      → Formats chars m lo hi (num ∷ args) (37 ∷ 117 ∷ fs) (numeral 33 10 num ++ out)
  hex :
      (num c : ℕ) (args fs out : List ℕ)
      → is_hex c ≡ true
      → num < 2 ^ 32
      → Formats chars m lo hi args fs out
      → Formats chars m lo hi (num ∷ args) (37 ∷ c ∷ fs) (numeral 33 16 num ++ out)
  string :
      (str : ℕ) (cs args fs out : List ℕ)
      → Text m str cs
      → (hi ≤ str) ⊎ (str + length cs < lo)
      → Formats chars m lo hi args fs out
      → Formats chars m lo hi (str ∷ args) (37 ∷ 115 ∷ fs) (cs ++ out)
  char :
      (c : ℕ) (args fs out : List ℕ)
      → chars ≡ true
      → u8 c ≢ 0
      → Formats chars m lo hi args fs out
      → Formats chars m lo hi (c ∷ args) (37 ∷ 99 ∷ fs) (u8 c ∷ out)

module _ (m : Bytes) (lo hi : ℕ) where
  -- The loop between two rounds: the memory has changed in the block only, the rest of the block is
  -- 0, and the text that is left of the format and the output lie where they should.
  pub record IsReady (s : Place) (fs : List ℕ) (room : ℕ) : Type 0 where
    pub outside : (b : ℕ) → (b < lo) ⊎ (hi ≤ b) → s.memory b ≡ m b
    pub clear : (b : ℕ) → s.buf ≤ b → b < hi → s.memory b ≡ 0
    pub format : Text m s.fmt fs
    pub apart : (s.fmt + length fs < lo) ⊎ (hi ≤ s.fmt)
    pub behind : lo ≤ s.buf
    pub fits : s.buf + room < hi

  pub IsReady-Text :
      (s : Place) (fs : List ℕ) (room : ℕ) → IsReady s fs room → Text s.memory s.fmt fs
  IsReady-Text s fs room r =
      Text-same m s.memory s.fmt fs (λ b from to. r.outside b (ground arith)) r.format

  -- After characters are laid down and the rest of the format is `gs`.
  pub emitted-IsReady :
      (s : Place) (fs gs : List ℕ) (n room : ℕ) (cs : List ℕ)
      → IsReady s fs (length cs + room)
      → n + length gs ≡ length fs
      → Text m (s.fmt + n) gs
      → IsReady (emitted s n cs) gs room
  emitted-IsReady s fs gs n room cs r shorter t = record {
    outside = λ b far. lay_other s.memory s.buf b cs (ground arith) ∙ r.outside b far;
    clear = λ b from to. lay_other s.memory s.buf b cs (inr from) ∙ r.clear b (omega arith) to;
    format = t;
    apart = ground arith;
    behind = omega (arith, r.behind);
    fits = omega (arith, r.fits);
  }
