-- ===== src/Str/Lay.antt =====
-- A memory with a list of characters laid down at an address.
use ord_os.Base.{
  ℕ, ◌+◌, ◌≤◌, ◌<◌, ◌≡◌, ◌⊎◌, inl, refl, false, List, [], ◌∷◌, ◌++◌, arith, ◌==◌, if◌then◌else◌,
  among, length, ap, ◌∙◌, fun_ext, ℕ_discrete, get_or,
}
use ord_os.Str.{Bytes, store, memcpy}
use ord_os.Str.Text.{Text}
use ord_os.Str.Copy.{store_other, store_self}

abbrev pub lay : Bytes → ℕ → List ℕ → Bytes
lay m p [] = m
lay m p (c ∷ cs) = lay (store m p c) (p + 1) cs

pub lay-append :
    (m : Bytes) (p : ℕ) (xs ys : List ℕ) → lay m p (xs ++ ys) ≡ lay (lay m p xs) (p + length xs) ys
lay-append m p [] ys = ap (λ q. lay m q ys) (omega arith)
lay-append m p (x ∷ xs) ys =
    lay-append (store m p x) (p + 1) xs ys
    ∙ ap (λ q. lay (lay (store m p x) (p + 1) xs) q ys) (omega arith)

pub lay_other :
    (m : Bytes) (p b : ℕ) (cs : List ℕ) → (b < p) ⊎ (p + length cs ≤ b) → lay m p cs b ≡ m b
lay_other m p b [] far = refl
lay_other m p b (c ∷ cs) far =
    lay_other (store m p c) (p + 1) b cs (ground arith) ∙ store_other m p c b (ground arith)

-- Characters laid down in front of a 0 byte are a string.
pub lay-Text :
    (m : Bytes) (p : ℕ) (cs : List ℕ)
    → among 0 cs ≡ false
    → m (p + length cs) ≡ 0
    → Text (lay m p cs) p cs
lay-Text m p [] some_chars end = ap m (omega arith) ∙ end
lay-Text m p (c ∷ cs) some_chars end = (
  lay_other (store m p c) (p + 1) p cs (inl (omega arith)) ∙ store_self m p c,
  ground (arith, some_chars),
  lay-Text (store m p c) (p + 1) cs (ground (arith, some_chars))
      (store_other m p c _ (omega arith) ∙ ap m (omega arith) ∙ end),
)

-- What a string reads in another memory that has the same bytes there.
pub Text-same :
    (m g : Bytes) (p : ℕ) (cs : List ℕ)
    → ((b : ℕ) → p ≤ b → b ≤ p + length cs → g b ≡ m b)
    → Text m p cs
    → Text g p cs
Text-same m g p [] same t = same p (omega arith) (omega arith) ∙ t
Text-same m g p (c ∷ cs) same t = (
  same p (omega arith) (omega arith) ∙ t.0,
  t.1,
  Text-same m g (p + 1) cs (λ b lo hi. same b (omega arith) (omega arith)) t.2,
)

-- The byte at the start of a string.
pub Text-first : (m : Bytes) (p : ℕ) (cs : List ℕ) → Text m p cs → m p ≡ get_or cs 0 0
Text-first m p [] t = t
Text-first m p (c ∷ cs) t = t.0

-- A 0 byte written where there is one.
pub store_same : (m : Bytes) (p v : ℕ) → m p ≡ v → store m p v ≡ m
unfolding store
store_same m p v e = fun_ext at
  where
    at : (b : ℕ) → (if b == p then v else m b) ≡ m b
    at b = elim (ℕ_discrete b p) [
      | yes same ↦ rw same (ground (arith, e))
      | no other ↦ ground arith
    ]

-- `memcpy` of the characters of a string that lies elsewhere.
pub memcpy-lay :
    (m : Bytes) (d s : ℕ) (cs : List ℕ)
    → Text m s cs
    → (d + length cs ≤ s) ⊎ (s + length cs < d)
    → memcpy (length cs) m d s ≡ lay m d cs
unfolding memcpy
memcpy-lay m d s [] t apart = refl
memcpy-lay m d s (c ∷ cs) t apart =
    ap (λ v. memcpy (length cs) (store m d v) (d + 1) (s + 1)) t.0
    ∙ memcpy-lay (store m d c) (d + 1) (s + 1) cs
        (Text-same m (store m d c) (s + 1) cs (λ b lo hi. store_other m d c b (ground arith)) t.2)
        (ground arith)
