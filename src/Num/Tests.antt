-- ===== src/Num/Tests.antt =====
-- The theorem at 255 in base 16, and what is written for it.
use ord_os.Base.{◌≡◌, refl, some, arith}
use ord_os.Str.{Bytes, store}
use ord_os.Num.Signed.{ended, itoa_impl-utoa_impl}
use ord_os.Num.{itoa_impl, utoa_impl}

abbrev blank : Bytes
blank b = 0

utoa_hex : utoa_impl 3 blank 1 255 16 ≡ some (3, store (store blank 1 102) 2 102)
unfolding utoa_impl
utoa_hex = refl

itoa_impl-utoa_impl_example : itoa_impl 33 blank 1 255 16 ≡ ended (utoa_impl 33 blank 1 255 16)
itoa_impl-utoa_impl_example =
    itoa_impl-utoa_impl 33 blank 1 255 16 (omega arith) (omega arith) (omega arith) (omega arith)
      (omega arith)
