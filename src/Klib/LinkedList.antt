-- ===== src/Klib/LinkedList.antt =====
-- kernel/include/lib/list.h: circular doubly linked lists whose nodes are embedded in other structures.
-- A node is its address; the store of all nodes is the two pointer fields as functions.
pub mod Ring
pub mod Edit
pub mod Count
use quark_os.Prelude.{
  ℕ, zero, suc, ◌+◌, ◌%◌, ◌^◌, Bool, Option, none, some, ◌==◌, if◌then◌else◌, store,
}

pub record Links : Type 0 where
  pub next : ℕ → ℕ
  pub prev : ℕ → ℕ

-- `a->next = v` and `a->prev = v`
abbrev pub set_next : Links → ℕ → ℕ → Links
set_next h a v = record h { next = store h.next a v }

abbrev pub set_prev : Links → ℕ → ℕ → Links
set_prev h a v = record h { prev = store h.prev a v }

unfoldable pub list_header_init : Links → ℕ → Links
list_header_init h header = set_prev (set_next h header header) header header

-- The four assignments in their order.
unfoldable pub list_add : Links → ℕ → ℕ → ℕ → Links
list_add h new prev next =
    set_next (set_prev (set_next (set_prev h new prev) new next) next new) prev new

unfoldable pub list_add_next : Links → ℕ → ℕ → Links
unfolding list_add
list_add_next h new target = list_add h new target (h.next target)

unfoldable pub list_add_prev : Links → ℕ → ℕ → Links
unfolding list_add
list_add_prev h new target = list_add h new (h.prev target) target

-- The second assignment reads the fields after the first one.
unfoldable pub list_del : Links → ℕ → Links
list_del h list =
    let h' = set_next h (h.prev list) (h.next list) in set_prev h' (h'.next list) (h'.prev list)

unfoldable pub list_empty : Links → ℕ → Bool
list_empty h header = h.next header == header

unfoldable pub list_link : Links → ℕ → ℕ → Links
list_link h header tail = set_prev (set_next h header tail) tail header

-- `list_for_each` with a counter; `none` is running out of rounds.
pub cnt_loop : ℕ → Links → ℕ → ℕ → ℕ → Option ℕ
cnt_loop zero h header hdr cnt = none
cnt_loop (suc fuel) h header hdr cnt =
    let rest = cnt_loop fuel h header (h.next hdr) ((cnt + 1) % 2 ^ 32) in
    if hdr == header then some cnt else rest

unfoldable pub list_cnt : ℕ → Links → ℕ → Option ℕ
unfolding cnt_loop
list_cnt fuel h header = cnt_loop fuel h header (h.next header) 0

unfoldable pub list_first : Links → ℕ → ℕ
list_first h header = h.next header

unfoldable pub list_tail : Links → ℕ → ℕ
list_tail h header = h.prev header

unfoldable pub list_get_first : Links → ℕ → Option ℕ × Links
unfolding list_empty list_first list_del
list_get_first h header =
    if list_empty h header
    then (none, h)
    else (some (list_first h header), list_del h (list_first h header))
