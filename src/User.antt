-- ===== src/User.antt =====
-- user/print.c: formatted output of user programs, through the system call `write`. Its conversions
-- have the same text as those of kernel/utils/print.c, and there is none for `%c`.
pub mod Print
mod Tests
use ord_os.Base.{
  ℕ, ◌+◌, Bool, ◌||◌, ◌&&◌, Option, none, some, List, [], ◌∷◌, ◌==◌, leb, ltb, if◌then◌else◌,
}
use ord_os.Str.{Bytes, store, strlen}
use ord_os.Console.{Screen}
use ord_os.Format.{
  Place, Switch, kvsprint_i32, kvsprint_u32, kvsprint_s, kvsprint_percent, kvsprint_default,
  with_arg, is_signed, is_hex, format_loop, cleared,
}
use ord_os.Syscall.{Kernel, Answer, write}

abbrev pub vsprint_i32 : ℕ → Place → ℕ → ℕ → Option Place
vsprint_i32 fuel s num base = kvsprint_i32 fuel s num base

abbrev pub vsprint_u32 : ℕ → Place → ℕ → ℕ → Option Place
vsprint_u32 fuel s num base = kvsprint_u32 fuel s num base

abbrev pub vsprint_s : ℕ → Place → ℕ → Option Place
vsprint_s fuel s str = kvsprint_s fuel s str

abbrev pub vsprint_percent : Place → Place
vsprint_percent s = kvsprint_percent s

abbrev pub vsprint_default : Place → Place
vsprint_default s = kvsprint_default s

-- The `switch` of `vsprint`.
unfoldable pub vsprint_convert : ℕ → Switch
vsprint_convert fuel s args c =
    if is_signed c
    then with_arg args (λ num. vsprint_i32 fuel s num 10)
    else if c == 117
    then with_arg args (λ num. vsprint_u32 fuel s num 10)
    else if is_hex c
    then with_arg args (λ num. vsprint_u32 fuel s num 16)
    else if c == 115
    then with_arg args (λ str. vsprint_s fuel s str)
    else if c == 37
    then some (vsprint_percent s, args)
    else some (vsprint_default s, args)

-- The length of the text, and the memory after the call.
unfoldable pub vsprint : ℕ → ℕ → Bytes → ℕ → ℕ → List ℕ → Option (ℕ × Bytes)
vsprint rounds fuel m buf fmt args =
    elim (format_loop (vsprint_convert fuel) rounds (record { buf = buf; fmt = fmt; memory = m })
      args) [
        | none ↦ none
        | some s ↦ elim (strlen fuel (store s.memory s.buf 0) buf) [
          | none ↦ none
          | some len ↦ some (len, store s.memory s.buf 0)
        ]
      ]

unfoldable pub sprint : ℕ → ℕ → Bytes → ℕ → ℕ → List ℕ → Option (ℕ × Bytes)
sprint rounds fuel m buf fmt args = vsprint rounds fuel m buf fmt args

-- `k` is what the system call finds in the kernel.
unfoldable pub puts : ℕ → Bytes → Kernel → ℕ → Bool → Screen → Option Answer
puts fuel m k str intr s = elim (strlen fuel m str) [
  | none ↦ none
  | some len ↦ write fuel m k 0 str len intr s
]

-- `buf` is the address where the frame of the call lies; `USER_UTILS_PRINT_BUFSIZE` is 256 too.
unfoldable pub print : ℕ → ℕ → Bytes → Kernel → ℕ → ℕ → List ℕ → Bool → Screen → Option Answer
print rounds fuel m k buf fmt args intr s =
    elim (vsprint rounds fuel (cleared m buf) buf fmt args) [
      | none ↦ none
      | some (len, g) ↦ puts fuel g k buf intr s
    ]

unfoldable pub println : ℕ → ℕ → Bytes → Kernel → ℕ → ℕ → List ℕ → Bool → Screen → Option Answer
println rounds fuel m k buf str args intr s =
    elim (vsprint rounds fuel (cleared m buf) buf str args) [
      | none ↦ none
      | some (buf_len, g) ↦
          puts fuel (store (store g (buf + buf_len) 10) (buf + buf_len + 1) 0) k buf intr s
    ]
