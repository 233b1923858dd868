-- ===== src/Format.antt =====
-- The formatted output of kernel/utils/print.c: `kvsprint` and its helpers. The buffer, the format
-- and the strings that are printed stand in one memory; the argument list is the list of its 32-bit
-- words.
pub mod Pieces
pub mod Ready
pub mod Switch
pub mod Print
pub mod Shown
pub mod Tests
use ord_os.Base.{
  ℕ, zero, suc, ◌+◌, Bool, true, false, ◌||◌, Option, none, some, List, [], ◌∷◌, ◌==◌,
  if◌then◌else◌, ◌&&◌, leb, ltb, u8,
}
use ord_os.Str.{Bytes, store, strlen, memcpy}
use ord_os.Num.{itoa, utoa}
use ord_os.Console.{Screen, kputs_nint}

-- `*pbuf` and `*pfmt`, and the memory.
pub record Place : Type 0 where
  pub buf : ℕ
  pub fmt : ℕ
  pub memory : Bytes

-- `fuel` bounds the strings that `strlen` walks through.
unfoldable pub kvsprint_i32 : ℕ → Place → ℕ → ℕ → Option Place
kvsprint_i32 fuel s num base = elim (itoa s.memory s.buf num base) [
  | none ↦ none
  | some m ↦ elim (strlen fuel m s.buf) [
    | none ↦ none
    | some len ↦ some (record { buf = s.buf + len; fmt = s.fmt + 2; memory = m })
  ]
]

unfoldable pub kvsprint_u32 : ℕ → Place → ℕ → ℕ → Option Place
kvsprint_u32 fuel s num base = elim (utoa s.memory s.buf num base) [
  | none ↦ none
  | some m ↦ elim (strlen fuel m s.buf) [
    | none ↦ none
    | some len ↦ some (record { buf = s.buf + len; fmt = s.fmt + 2; memory = m })
  ]
]

unfoldable pub kvsprint_char : Place → ℕ → Place
kvsprint_char s c = record {
  buf = s.buf + 1;
  fmt = s.fmt + 2;
  memory = store s.memory s.buf (u8 c);
}

unfoldable pub kvsprint_s : ℕ → Place → ℕ → Option Place
kvsprint_s fuel s str = elim (strlen fuel s.memory str) [
  | none ↦ none
  | some len ↦
      some (record { buf = s.buf + len; fmt = s.fmt + 2; memory = memcpy len s.memory s.buf str })
]

unfoldable pub kvsprint_percent : Place → Place
kvsprint_percent s = record { buf = s.buf + 1; fmt = s.fmt + 2; memory = store s.memory s.buf 37 }

unfoldable pub kvsprint_default : Place → Place
kvsprint_default s = record {
  buf = s.buf + 1;
  fmt = s.fmt + 1;
  memory = store s.memory s.buf (s.memory s.fmt);
}

-- `VA_ARG`, and a conversion of what it gives; an argument that is not there is a fault.
abbrev pub with_arg : List ℕ → (ℕ → Option Place) → Option (Place × List ℕ)
with_arg [] convert = none
with_arg (arg ∷ args) convert = elim (convert arg) [ none ↦ none | some s ↦ some (s, args) ]

-- The letters behind a `%`.
abbrev pub is_signed : ℕ → Bool
is_signed c = c == 105 || c == 100

abbrev pub is_hex : ℕ → Bool
is_hex c = c == 112 || c == 88 || c == 120

-- The `switch` of `kvsprint` on the character behind a `%`.
unfoldable pub kvsprint_convert : ℕ → Place → List ℕ → ℕ → Option (Place × List ℕ)
unfolding kvsprint_percent kvsprint_default kvsprint_char
kvsprint_convert fuel s args c =
    if is_signed c
    then with_arg args (λ num. kvsprint_i32 fuel s num 10)
    else if c == 117
    then with_arg args (λ num. kvsprint_u32 fuel s num 10)
    else if is_hex c
    then with_arg args (λ num. kvsprint_u32 fuel s num 16)
    else if c == 115
    then with_arg args (λ str. kvsprint_s fuel s str)
    else if c == 99
    then with_arg args (λ v. some (kvsprint_char s v))
    else if c == 37
    then some (kvsprint_percent s, args)
    else some (kvsprint_default s, args)

-- A `switch` on the character behind a `%`.
abbrev pub Switch : Type 0
Switch = Place → List ℕ → ℕ → Option (Place × List ℕ)

-- One round of the loop of `kvsprint`, and the loop.
unfoldable pub format_round : Switch → Place → List ℕ → Option (Place × List ℕ)
format_round switch s args =
    if s.memory s.fmt == 37
    then switch s args (s.memory (s.fmt + 1))
    else some (kvsprint_default s, args)

unfoldable pub format_loop : Switch → ℕ → Place → List ℕ → Option Place
format_loop switch zero s args = none
format_loop switch (suc rounds) s args =
    let next : Option Place = elim (format_round switch s args) [
      | none ↦ none
      | some (s', args') ↦ format_loop switch rounds s' args'
    ] in
    if s.memory s.fmt == 0 then some s else next

-- The memory after the call. `rounds` bounds the loop, `fuel` the strings.
unfoldable pub kvsprint : ℕ → ℕ → Bytes → ℕ → ℕ → List ℕ → Option Bytes
kvsprint rounds fuel m buf fmt args =
    elim (format_loop (kvsprint_convert fuel) rounds (record { buf = buf; fmt = fmt; memory = m })
      args) [ none ↦ none | some s ↦ some (store s.memory s.buf 0) ]

-- `UTILS_PRINT_BUFSIZE`.
abbrev pub bufsize : ℕ
bufsize = 256

-- `char buf[UTILS_PRINT_BUFSIZE] = { 0 }`, at the address where the frame of the call lies.
unfoldable pub cleared : Bytes → ℕ → Bytes
cleared m buf b = if leb buf b && ltb b (buf + bufsize) then 0 else m b

-- `ksprint`: the argument list is the one that `VA_START` gives.
unfoldable pub ksprint : ℕ → ℕ → Bytes → ℕ → ℕ → List ℕ → Option Bytes
ksprint rounds fuel m buf str args = kvsprint rounds fuel m buf str args

unfoldable pub kprint_nint : ℕ → ℕ → Bytes → ℕ → ℕ → List ℕ → Bool → Screen → Option (Bool × Screen)
kprint_nint rounds fuel m buf str args intr s =
    elim (kvsprint rounds fuel (cleared m buf) buf str args) [
      | none ↦ none
      | some g ↦ kputs_nint fuel g buf intr s
    ]

unfoldable pub kprintln_nint :
    ℕ → ℕ → Bytes → ℕ → ℕ → List ℕ → Bool → Screen → Option (Bool × Screen)
kprintln_nint rounds fuel m buf str args intr s =
    elim (kvsprint rounds fuel (cleared m buf) buf str args) [
      | none ↦ none
      | some g ↦ elim (strlen fuel g buf) [
        | none ↦ none
        | some buf_len ↦
            kputs_nint fuel (store (store g (buf + buf_len) 10) (buf + buf_len + 1) 0) buf intr s
      ]
    ]
