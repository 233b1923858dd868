-- ===== src/Str/Text.antt =====
-- Walks through a string: its length, and the search for a character.
use ord_os.Base.{
  ℕ, zero, suc, ◌+◌, ◌<◌, ◌^◌, ◌≡◌, ◌≢◌, ◌⊎◌, refl, Bool, true, false, Option, none, some, List, [],
  ◌∷◌, arith, ◌==◌, if◌then◌else◌, length, add32,
}
use ord_os.Str.{
  Bytes, store, end_loop, strlen, strchr, strrchr, strrchr_loop, strchrs, strchrs_loop,
}

-- At `p` stands the string of the given characters, none of them 0, and its 0 byte.
abbrev pub Text : Bytes → ℕ → List ℕ → Type 0
Text m p [] = m p ≡ 0
Text m p (c ∷ cs) = (m p ≡ c) × (c ≢ 0) × Text m (p + 1) cs

-- A write outside the string and its 0 byte does not change it.
pub Text-store :
    (m : Bytes) (p q v : ℕ) (cs : List ℕ)
    → Text m p cs
    → (q < p) ⊎ (p + length cs < q)
    → Text (store m q v) p cs
unfolding store
Text-store m p q v [] t far = ground arith
Text-store m p q v (c ∷ cs) t far =
    (ground arith, t.1, Text-store m (p + 1) q v cs t.2 (ground arith))

pub end_loop_lem :
    (fuel : ℕ) (m : Bytes) (p : ℕ) (cs : List ℕ)
    → Text m p cs
    → length cs < fuel
    → end_loop fuel m p ≡ some (p + length cs)
unfolding end_loop
end_loop_lem zero m p cs t enough = absurd (omega arith)
end_loop_lem (suc fuel) m p [] t enough = ground arith
end_loop_lem (suc fuel) m p (c ∷ cs) t enough =
    ground (arith, end_loop_lem fuel m (p + 1) cs t.2 (omega arith))

-- `strlen` gives the number of characters, if it is given more fuel than there are.
pub strlen-length :
    (fuel : ℕ) (m : Bytes) (p : ℕ) (cs : List ℕ)
    → Text m p cs
    → length cs < fuel
    → strlen fuel m p ≡ some (length cs)
unfolding strlen
strlen-length fuel m p cs t enough = rw (strlen, end_loop_lem fuel m p cs t enough) (ground arith)

-- The first and the last place of a character, and how often it stands, in a list.
abbrev pub next_place : Option ℕ → Option ℕ
next_place none = none
next_place (some i) = some (suc i)

abbrev pub first_place : ℕ → List ℕ → Option ℕ
first_place c [] = none
first_place c (x ∷ xs) = let rest = next_place (first_place c xs) in if x == c then some 0 else rest

abbrev pub count : ℕ → List ℕ → ℕ
count c [] = 0
count c (x ∷ xs) = let rest = count c xs in if x == c then suc rest else rest

abbrev pub pointer_to : ℕ → Option ℕ → ℕ
pointer_to p none = 0
pointer_to p (some i) = p + i

pointer_to-next_place : (p : ℕ) (o : Option ℕ) → pointer_to p (next_place o) ≡ pointer_to (p + 1) o
pointer_to-next_place p none = refl
pointer_to-next_place p (some i) = omega arith

-- `strchr` of a character other than 0 points to its first place, or is null if there is none.
pub strchr-first_place :
    (fuel : ℕ) (m : Bytes) (p c : ℕ) (cs : List ℕ)
    → Text m p cs
    → c ≢ 0
    → length cs < fuel
    → strchr fuel m p c ≡ some (pointer_to p (first_place c cs))
unfolding strchr
strchr-first_place zero m p c cs t some_char enough = absurd (omega arith)
strchr-first_place (suc fuel) m p c [] t some_char enough = ground arith
strchr-first_place (suc fuel) m p c (x ∷ cs) t some_char enough = ground (
  arith,
  strchr-first_place fuel m (p + 1) c cs t.2 some_char (omega arith),
  pointer_to-next_place p (first_place c cs),
)

strchrs_loop_lem :
    (fuel : ℕ) (m : Bytes) (p c n : ℕ) (cs : List ℕ)
    → Text m p cs
    → length cs < fuel
    → n + length cs < 2 ^ 32
    → strchrs_loop fuel m p c n ≡ some (n + count c cs)
unfolding strchrs_loop
strchrs_loop_lem zero m p c n cs t enough small = absurd (omega arith)
strchrs_loop_lem (suc fuel) m p c n [] t enough small = ground arith
strchrs_loop_lem (suc fuel) m p c n (x ∷ cs) t enough small =
    ground (arith, strchrs_loop_lem fuel m (p + 1) c (if m p == c then add32 n 1 else n) cs t.2)

-- `strchrs` counts a character in a string of less than 4 GiB.
pub strchrs-count :
    (fuel : ℕ) (m : Bytes) (p c : ℕ) (cs : List ℕ)
    → Text m p cs
    → length cs < fuel
    → length cs < 2 ^ 32
    → strchrs fuel m p c ≡ some (count c cs)
unfolding strchrs
strchrs-count fuel m p c cs t enough small =
    ground (arith, strchrs_loop_lem fuel m p c 0 cs t enough (omega arith))

-- The last place of a character in a list.
abbrev pub later_place : Bool → Option ℕ → Option ℕ
later_place here (some i) = some (suc i)
later_place here none = if here then some 0 else none

abbrev pub last_place : ℕ → List ℕ → Option ℕ
last_place c [] = none
last_place c (x ∷ xs) = later_place (x == c) (last_place c xs)

abbrev pub pointer_or : ℕ → ℕ → Option ℕ → ℕ
pointer_or last p none = last
pointer_or last p (some i) = p + i

pointer_or-later_place :
    (last p : ℕ) (here : Bool) (o : Option ℕ)
    → pointer_or last p (later_place here o) ≡ pointer_or (if here then p else last) (p + 1) o
pointer_or-later_place last p true none = omega arith
pointer_or-later_place last p false none = refl
pointer_or-later_place last p here (some i) = omega arith

strrchr_loop_lem :
    (fuel : ℕ) (m : Bytes) (p c last : ℕ) (cs : List ℕ)
    → Text m p cs
    → length cs < fuel
    → strrchr_loop fuel m p c last ≡ some (pointer_or last p (last_place c cs))
unfolding strrchr_loop
strrchr_loop_lem zero m p c last cs t enough = absurd (omega arith)
strrchr_loop_lem (suc fuel) m p c last [] t enough = ground arith
strrchr_loop_lem (suc fuel) m p c last (x ∷ cs) t enough = ground (
  arith,
  strrchr_loop_lem fuel m (p + 1) c (if m p == c then p else last) cs t.2 (omega arith),
  pointer_or-later_place last p (x == c) (last_place c cs),
)

-- `strrchr` points to the last place of the character, or is null if there is none.
pub strrchr-last_place :
    (fuel : ℕ) (m : Bytes) (p c : ℕ) (cs : List ℕ)
    → Text m p cs
    → length cs < fuel
    → strrchr fuel m p c ≡ some (pointer_or 0 p (last_place c cs))
unfolding strrchr
strrchr-last_place fuel m p c cs t enough = strrchr_loop_lem fuel m p c 0 cs t enough
