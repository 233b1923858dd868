-- ===== src/Str/Copy.antt =====
-- `strcpy` and `strcat` between strings that do not overlap.
use ord_os.Base.{
  ℕ, zero, suc, ◌+◌, ◌<◌, ◌≡◌, ◌≢◌, ◌⊎◌, inl, refl, Option, some, List, [], ◌∷◌, ◌++◌, arith,
  length, sym, ◌∙◌, subst, length-append,
}
use ord_os.Str.{Bytes, store, copy_loop, strcpy, strcat}
use ord_os.Str.Text.{Text, Text-store, end_loop_lem}

-- The result of a copy to `d`: the string stands there, and no byte beside it has changed.
pub record Copied (m : Bytes) (d : ℕ) (cs : List ℕ) (out : Option Bytes) : Type 0 where
  pub memory : Bytes
  pub returned : out ≡ some memory
  pub text : Text memory d cs
  pub others : (b : ℕ) → (b < d) ⊎ (d + length cs < b) → memory b ≡ m b

pub store_other : (m : Bytes) (p v b : ℕ) → b ≢ p → store m p v b ≡ m b
unfolding store
store_other m p v b h = ground arith

pub store_self : (m : Bytes) (p v : ℕ) → store m p v p ≡ v
unfolding store
store_self m p v = ground arith

Copied-cons :
    (m : Bytes) (d s c : ℕ) (cs : List ℕ) (out : Option Bytes)
    → m s ≡ c
    → c ≢ 0
    → Copied (store m d (m s)) (d + 1) cs out
    → Copied m d (c ∷ cs) out
Copied-cons m d s c cs out e some_char rest = record {
  memory = rest.memory;
  returned = rest.returned;
  text = (rest.others d (inl (omega arith)) ∙ store_self m d (m s) ∙ e, some_char, rest.text);
  others = λ b far. rest.others b (ground arith) ∙ store_other m d (m s) b (ground arith);
}

copy_loop-Copied :
    (fuel : ℕ) (m : Bytes) (d s : ℕ) (cs : List ℕ)
    → Text m s cs
    → (d + length cs < s) ⊎ (s + length cs < d)
    → length cs < fuel
    → Copied m d cs (copy_loop fuel m d s)
unfolding copy_loop
copy_loop-Copied zero m d s cs t apart enough = absurd (omega arith)
copy_loop-Copied (suc fuel) m d s [] t apart enough = record {
  memory = store m d (m s);
  returned = ground arith;
  text = store_self m d (m s) ∙ t;
  others = λ b far. store_other m d (m s) b (ground arith);
}
copy_loop-Copied (suc fuel) m d s (c ∷ cs) t apart enough = subst (Copied m d (c ∷ cs)) (sym more) (
    Copied-cons m d s c cs _ t.0 t.1 (
      copy_loop-Copied fuel (store m d (m s)) (d + 1) (s + 1) cs
        (Text-store m (s + 1) d (m s) cs t.2 (ground arith)) (ground arith) (omega arith)))
  where
    more : copy_loop (suc fuel) m d s ≡ copy_loop fuel (store m d (m s)) (d + 1) (s + 1)
    more = ground (arith, t.0, t.1)

-- What `strcpy` and `strcat` return: the destination, with the memory after the copy.
pub record Returned (m : Bytes) (d from : ℕ) (cs : List ℕ) (out : Option (ℕ × Bytes)) : Type 0 where
  pub memory : Bytes
  pub returned : out ≡ some (d, memory)
  pub text : Text memory d cs
  pub others : (b : ℕ) → (b < from) ⊎ (d + length cs < b) → memory b ≡ m b

-- `strcpy`, of a string that does not overlap the destination, leaves the string there, changes no
-- other byte and returns the destination.
pub strcpy-Returned :
    (fuel : ℕ) (m : Bytes) (d s : ℕ) (cs : List ℕ)
    → Text m s cs
    → (d + length cs < s) ⊎ (s + length cs < d)
    → length cs < fuel
    → Returned m d d cs (strcpy fuel m d s)
unfolding strcpy
strcpy-Returned fuel m d s cs t apart enough = record {
  memory = copied.memory;
  returned = rw (strcpy, copied.returned) refl;
  text = copied.text;
  others = copied.others;
}
  where
    copied : Copied m d cs (copy_loop fuel m d s)
    copied = copy_loop-Copied fuel m d s cs t apart enough

Text-append :
    (m g : Bytes) (d : ℕ) (ds cs : List ℕ)
    → Text m d ds
    → ((b : ℕ) → b < d + length ds → g b ≡ m b)
    → Text g (d + length ds) cs
    → Text g d (ds ++ cs)
Text-append m g d [] cs t same u = subst (λ p. Text g p cs) (omega arith) u
Text-append m g d (x ∷ ds) cs t same u = (
  same d (omega arith) ∙ t.0,
  t.1,
  Text-append m g (d + 1) ds cs t.2 (λ b h. same b (omega arith))
      (subst (λ p. Text g p cs) (omega arith) u),
)

-- `strcat` leaves the first string followed by the second at the destination, and changes no byte
-- before the end of the first string or behind the result.
pub strcat-Returned :
    (fuel : ℕ) (m : Bytes) (d s : ℕ) (ds cs : List ℕ)
    → Text m d ds
    → Text m s cs
    → (d + length ds + length cs < s) ⊎ (s + length cs < d)
    → length ds < fuel
    → length cs < fuel
    → Returned m d (d + length ds) (ds ++ cs) (strcat fuel m d s)
unfolding strcat
strcat-Returned fuel m d s ds cs t u apart enough enough' = record {
  memory = copied.memory;
  returned = rw (strcat, end_loop_lem fuel m d ds t enough, copied.returned) refl;
  text = Text-append m copied.memory d ds cs t (λ b h. copied.others b (inl h)) copied.text;
  others = λ b far. copied.others b (ground (arith, length-append ds cs));
}
  where
    copied : Copied m (d + length ds) cs (copy_loop fuel m (d + length ds) s)
    copied = copy_loop-Copied fuel m (d + length ds) s cs u (ground arith) enough'
