-- ===== src/ListHead/Tests.antt =====
-- A ring with the sentinel at address 1, and the theorems at it.
use ord_os.Base.{◌≡◌, refl, some, [], ◌∷◌}
use ord_os.ListHead.{Heap, list_init, list_add_tail, list_del, list_pop, list_find}
use ord_os.ListHead.Ring.{IsRing, SameOutside}
use ord_os.ListHead.Laws.{list_init-IsRing, list_add_tail-append}
use ord_os.ListHead.Remove.{list_del-remove}

abbrev blank : Heap
blank = record { next = λ a. 0; prev = λ a. 0 }

-- The entries 10, 20 and 30, added at the end.
abbrev three : Heap
three = list_add_tail 30 1 (list_add_tail 20 1 (list_add_tail 10 1 (list_init 1 blank)))

ten-IsRing : IsRing (list_add_tail 10 1 (list_init 1 blank)) 1 (10 ∷ [])
ten-IsRing = (list_add_tail-append (list_init 1 blank) 10 1 [] (list_init-IsRing blank 1).0 refl).0

twenty-IsRing :
    IsRing (list_add_tail 20 1 (list_add_tail 10 1 (list_init 1 blank))) 1 (10 ∷ 20 ∷ [])
twenty-IsRing = (list_add_tail-append _ 20 1 (10 ∷ []) ten-IsRing refl).0

three-IsRing : IsRing three 1 (10 ∷ 20 ∷ 30 ∷ [])
three-IsRing = (list_add_tail-append _ 30 1 (10 ∷ 20 ∷ []) twenty-IsRing refl).0

-- What the C functions do to the fields.
three_links : (three.next 1 ≡ 10) × (three.prev 1 ≡ 30) × (three.next 20 ≡ 30)
unfolding list_init list_add_tail
three_links = (refl, refl, refl)

pop_then_find : ((list_pop 1 three).0 ≡ some 10) × (list_find 4 1 30 (list_pop 1 three).1 ≡ some 1)
unfolding list_init list_add_tail list_pop list_del list_find
pop_then_find = (refl, refl)

list_del-remove_example :
    IsRing (list_del 20 three) 1 (10 ∷ 30 ∷ [])
    × SameOutside 1 (10 ∷ 20 ∷ 30 ∷ []) three (list_del 20 three)
list_del-remove_example = list_del-remove three 1 (10 ∷ []) 20 (30 ∷ []) three-IsRing
