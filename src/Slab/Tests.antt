-- ===== src/Slab/Tests.antt =====
-- The order of a size, at an example.
use ord_os.Base.{◌≡◌, refl, some}
use ord_os.Slab.{size_to_order, order_loop}

order_example : size_to_order 24 ≡ some 5
unfolding size_to_order order_loop
order_example = refl
