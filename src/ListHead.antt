-- ===== src/ListHead.antt =====
-- lib/list_head.c: circular doubly linked lists with a sentinel. `next` and `prev` of every
-- `struct list_head` are two maps from addresses; a function that writes returns the new heap,
-- and reads see the writes made before them.
pub mod Ring
pub mod Laws
pub mod Remove
pub mod Find
mod Tests
use ord_os.Base.{ℕ, zero, suc, Bool, Option, none, some, ◌==◌, if◌then◌else◌, npos, add32}

-- `struct list_head` at every address.
pub record Heap : Type 0 where
  pub next : ℕ → ℕ
  pub prev : ℕ → ℕ

abbrev pub update : (ℕ → ℕ) → ℕ → ℕ → ℕ → ℕ
update f a v b = if b == a then v else f b

-- `a->next = v` and `a->prev = v`
abbrev pub set_next : ℕ → ℕ → Heap → Heap
set_next a v h = record h { next = update h.next a v }

abbrev pub set_prev : ℕ → ℕ → Heap → Heap
set_prev a v h = record h { prev = update h.prev a v }

unfoldable pub list_init : ℕ → Heap → Heap
list_init head h = set_prev head head (set_next head head h)

unfoldable pub list_add : ℕ → ℕ → Heap → Heap
list_add new head h =
    let h1 = set_next new (h.next head) h in
    let h2 = set_prev new head h1 in let h3 = set_prev (h2.next head) new h2 in set_next head new h3

unfoldable pub list_add_tail : ℕ → ℕ → Heap → Heap
list_add_tail new head h =
    let h1 = set_next new head h in
    let h2 = set_prev new (h1.prev head) h1 in
    let h3 = set_next (h2.prev head) new h2 in set_prev head new h3

unfoldable pub list_del : ℕ → Heap → Heap
list_del entry h =
    let h1 = set_next (h.prev entry) (h.next entry) h in set_prev (h1.next entry) (h1.prev entry) h1

unfoldable pub list_empty : ℕ → Heap → Bool
list_empty head h = h.next head == head

unfoldable pub list_pop : ℕ → Heap → Option ℕ × Heap
unfolding list_empty
list_pop head h =
    if list_empty head h then (none, h) else (some (h.next head), list_del (h.next head) h)

-- `LIST_FOR_EACH` of `list_find`, with fuel; `none` means that the fuel ran out.
unfoldable pub find_loop : ℕ → ℕ → ℕ → ℕ → ℕ → Heap → Option ℕ
find_loop zero head entry current index h = none
find_loop (suc fuel) head entry current index h =
    let rest = find_loop fuel head entry (h.next current) (add32 index 1) h in
    if current == head then some npos else if current == entry then some index else rest

unfoldable pub list_find : ℕ → ℕ → ℕ → Heap → Option ℕ
unfolding find_loop
list_find fuel head entry h = find_loop fuel head entry (h.next head) 0 h
