-- ===== src/Str.antt =====
-- lib/string.c: strings that end with 0, and memory blocks. A pointer is an address in a memory of
-- bytes that no string wraps around; a `char` is signed. A loop that a missing 0 byte could keep
-- going runs on fuel, and `none` says that the fuel did not suffice.
pub mod Text
pub mod Lay
pub mod Copy
pub mod Compare
pub mod Block
mod Tests
use ord_os.Base.{
  ℕ, zero, suc, ◌+◌, ◌-◌, ◌%◌, Bool, true, false, ◌&&◌, not, Option, none, some, List, [], ◌∷◌,
  ◌==◌, ltb, if◌then◌else◌, npos, add32,
}

-- `memset` on the block that starts with the list; a write behind its end has no effect.
unfoldable pub memset : List ℕ → ℕ → ℕ → List ℕ
memset xs c zero = xs
memset [] c (suc n) = []
memset (x ∷ xs) c (suc n) = c ∷ memset xs c n

abbrev pub Bytes : Type 0
Bytes = ℕ → ℕ

-- The assignment `*p = v`.
unfoldable pub store : Bytes → ℕ → ℕ → Bytes
store m p v q = if q == p then v else m q

-- `a < b` for two `char`s.
unfoldable pub char_below : ℕ → ℕ → Bool
char_below a b = ltb ((a + 128) % 256) ((b + 128) % 256)

-- The pointer that a walk to the end of a string stops at.
unfoldable pub end_loop : ℕ → Bytes → ℕ → Option ℕ
end_loop zero m p = none
end_loop (suc fuel) m p = let rest = end_loop fuel m (p + 1) in if m p == 0 then some p else rest

unfoldable pub strlen : ℕ → Bytes → ℕ → Option ℕ
unfolding end_loop
strlen fuel m str = elim (end_loop fuel m str) [ none ↦ none | some p ↦ some (p - str) ]

unfoldable pub copy_loop : ℕ → Bytes → ℕ → ℕ → Option Bytes
copy_loop zero m dest src = none
copy_loop (suc fuel) m dest src =
    let m' = store m dest (m src) in
    let rest = copy_loop fuel m' (dest + 1) (src + 1) in if m src == 0 then some m' else rest

unfoldable pub strcpy : ℕ → Bytes → ℕ → ℕ → Option (ℕ × Bytes)
strcpy fuel m dest src = elim (copy_loop fuel m dest src) [
  | none ↦ none
  | some m' ↦ some (dest, m')
]

unfoldable pub strncpy_loop : ℕ → Bytes → ℕ → ℕ → Bytes
strncpy_loop zero m dest src = m
strncpy_loop (suc n) m dest src =
    let m' = store m dest (m src) in
    let rest = strncpy_loop n m' (dest + 1) (src + 1) in if m src == 0 then m' else rest

unfoldable pub strncpy : Bytes → ℕ → ℕ → ℕ → ℕ × Bytes
strncpy m dest src n = (dest, strncpy_loop n m dest src)

unfoldable pub strcat : ℕ → Bytes → ℕ → ℕ → Option (ℕ × Bytes)
unfolding strcpy
strcat fuel m dest src = elim (end_loop fuel m dest) [
  | none ↦ none
  | some p ↦ elim (copy_loop fuel m p src) [ none ↦ none | some m' ↦ some (dest, m') ]
]

-- -1 is `npos`.
unfoldable pub strcmp : ℕ → Bytes → ℕ → ℕ → Option ℕ
strcmp zero m p q = none
strcmp (suc fuel) m p q =
    let rest = strcmp fuel m (p + 1) (q + 1) in
    if not (m p == 0) && m p == m q
    then rest
    else some (if char_below (m q) (m p) then npos else if m p == m q then 0 else 1)

-- `nullptr` is 0.
unfoldable pub strchr : ℕ → Bytes → ℕ → ℕ → Option ℕ
strchr zero m p c = none
strchr (suc fuel) m p c =
    let rest = strchr fuel m (p + 1) c in
    if not (m p == 0) && not (m p == c) then rest else some (if m p == c then p else 0)

unfoldable pub strrchr_loop : ℕ → Bytes → ℕ → ℕ → ℕ → Option ℕ
strrchr_loop zero m p c last = none
strrchr_loop (suc fuel) m p c last =
    let rest = strrchr_loop fuel m (p + 1) c (if m p == c then p else last) in
    if m p == 0 then some last else rest

unfoldable pub strrchr : ℕ → Bytes → ℕ → ℕ → Option ℕ
strrchr fuel m str c = strrchr_loop fuel m str c 0

unfoldable pub strchrs_loop : ℕ → Bytes → ℕ → ℕ → ℕ → Option ℕ
strchrs_loop zero m p c count = none
strchrs_loop (suc fuel) m p c count =
    let rest = strchrs_loop fuel m (p + 1) c (if m p == c then add32 count 1 else count) in
    if m p == 0 then some count else rest

unfoldable pub strchrs : ℕ → Bytes → ℕ → ℕ → Option ℕ
strchrs fuel m str c = strchrs_loop fuel m str c 0

unfoldable pub memcpy : ℕ → Bytes → ℕ → ℕ → Bytes
memcpy zero m d s = m
memcpy (suc n) m d s = memcpy n (store m d (m s)) (d + 1) (s + 1)

-- Both tests move both pointers: the first forward, the second, if it is reached, back again.
unfoldable pub memcmp : ℕ → Bytes → ℕ → ℕ → ℕ
memcmp zero m p q = 0
memcmp (suc n) m p q =
    let rest = memcmp n m p q in
    if ltb (m q) (m p) then 1 else if ltb (m (p + 1)) (m (q + 1)) then npos else rest
