-- ===== src/HyList.antt =====
-- The doubly linked lists of include/hy_list.h over an explicit memory of `next` and `prev`.
-- Every address is taken to hold a node, so no access faults here; the theorems ask for a ring.
-- The structure around a node (`container_of`) has the node's address for its name.
pub mod Edit
pub mod Moves
pub mod Cut
pub mod Ring
pub mod Arcs
pub mod Splice
pub mod Hlist
mod Tests
pub mod Walk
use libhy_utils_bak.Base.{
  ℕ, zero, suc, Bool, true, false, not, ◌&&◌, List, [], ◌∷◌, Option, some, none, ◌==◌,
  if◌then◌else◌,
}

-- an address of a `struct hy_list_head`
abbrev pub Ptr : Type 0
Ptr = ℕ

pub record Links : Type 0 where
  pub next : Ptr → Ptr
  pub prev : Ptr → Ptr

abbrev pub write : (Ptr → Ptr) → Ptr → Ptr → Ptr → Ptr
write f p q a = if a == p then q else f a

-- `p->next = q` and `p->prev = q`
abbrev pub set_next : Ptr → Ptr → Links → Links
set_next p q m = record m { next = write m.next p q }

abbrev pub set_prev : Ptr → Ptr → Links → Links
set_prev p q m = record m { prev = write m.prev p q }

-- `LIST_POISON1`, `LIST_POISON2`
abbrev pub list_poison1 : Ptr
list_poison1 = 0x00100100

abbrev pub list_poison2 : Ptr
list_poison2 = 0x00200200

-- `INIT_LIST_HEAD`
unfoldable pub init_list_head : Ptr → Links → Links
init_list_head list m = set_prev list list (set_next list list m)

-- `__list_add`
unfoldable pub list_add_between : (new prev next : Ptr) → Links → Links
list_add_between new prev next m =
    let m1 = set_prev next new m in
    let m2 = set_next new next m1 in let m3 = set_prev new prev m2 in set_next prev new m3

unfoldable pub list_add : (new head : Ptr) → Links → Links
unfolding list_add_between
list_add new head m = list_add_between new head (m.next head) m

unfoldable pub list_add_tail : (new head : Ptr) → Links → Links
unfolding list_add_between
list_add_tail new head m = list_add_between new (m.prev head) head m

-- `__list_del`
unfoldable pub list_del_between : (prev next : Ptr) → Links → Links
list_del_between prev next m = set_next prev next (set_prev next prev m)

-- `__list_del_entry`
unfoldable pub list_del_entry : Ptr → Links → Links
unfolding list_del_between
list_del_entry entry m = list_del_between (m.prev entry) (m.next entry) m

unfoldable pub list_del : Ptr → Links → Links
unfolding list_del_between
list_del entry m =
    let m1 = list_del_between (m.prev entry) (m.next entry) m in
    set_prev entry list_poison2 (set_next entry list_poison1 m1)

unfoldable pub list_replace : (old new : Ptr) → Links → Links
list_replace old new m =
    let m1 = set_next new (m.next old) m in
    let m2 = set_prev (m1.next new) new m1 in
    let m3 = set_prev new (m2.prev old) m2 in set_next (m3.prev new) new m3

unfoldable pub list_replace_init : (old new : Ptr) → Links → Links
unfolding list_replace init_list_head
list_replace_init old new m = init_list_head old (list_replace old new m)

unfoldable pub list_del_init : Ptr → Links → Links
unfolding list_del_entry init_list_head
list_del_init entry m = init_list_head entry (list_del_entry entry m)

unfoldable pub list_move : (list head : Ptr) → Links → Links
unfolding list_del_entry list_add
list_move list head m = list_add list head (list_del_entry list m)

unfoldable pub list_move_tail : (list head : Ptr) → Links → Links
unfolding list_del_entry list_add_tail
list_move_tail list head m = list_add_tail list head (list_del_entry list m)

unfoldable pub list_is_last : (list head : Ptr) → Links → Bool
list_is_last list head m = m.next list == head

unfoldable pub list_empty : Ptr → Links → Bool
list_empty head m = m.next head == head

unfoldable pub list_empty_careful : Ptr → Links → Bool
list_empty_careful head m = let next = m.next head in next == head && next == m.prev head

unfoldable pub list_rotate_left : Ptr → Links → Links
unfolding list_empty list_move_tail
list_rotate_left head m = if not (list_empty head m) then list_move_tail (m.next head) head m else m

unfoldable pub list_is_singular : Ptr → Links → Bool
unfolding list_empty
list_is_singular head m = not (list_empty head m) && m.next head == m.prev head

-- `__list_cut_position`
unfoldable pub list_cut_between : (list head entry : Ptr) → Links → Links
list_cut_between list head entry m =
    let new_first = m.next entry in
    let m1 = set_next list (m.next head) m in
    let m2 = set_prev (m1.next list) list m1 in
    let m3 = set_prev list entry m2 in
    let m4 = set_next entry list m3 in
    let m5 = set_next head new_first m4 in set_prev new_first head m5

unfoldable pub list_cut_position : (list head entry : Ptr) → Links → Links
unfolding list_empty list_is_singular init_list_head list_cut_between
list_cut_position list head entry m =
    if list_empty head m
    then m
    else if list_is_singular head m && (not (m.next head == entry) && not (head == entry))
    then m
    else if entry == head
    then init_list_head list m
    else list_cut_between list head entry m

-- `__list_splice`
unfoldable pub list_splice_between : (list prev next : Ptr) → Links → Links
list_splice_between list prev next m =
    let first = m.next list in
    let last = m.prev list in
    let m1 = set_prev first prev m in
    let m2 = set_next prev first m1 in let m3 = set_next last next m2 in set_prev next last m3

unfoldable pub list_splice : (list head : Ptr) → Links → Links
unfolding list_empty list_splice_between
list_splice list head m =
    if not (list_empty list m) then list_splice_between list head (m.next head) m else m

unfoldable pub list_splice_tail : (list head : Ptr) → Links → Links
unfolding list_empty list_splice_between
list_splice_tail list head m =
    if not (list_empty list m) then list_splice_between list (m.prev head) head m else m

unfoldable pub list_splice_init : (list head : Ptr) → Links → Links
unfolding list_empty list_splice_between init_list_head
list_splice_init list head m =
    if not (list_empty list m)
    then init_list_head list (list_splice_between list head (m.next head) m)
    else m

unfoldable pub list_splice_tail_init : (list head : Ptr) → Links → Links
unfolding list_empty list_splice_between init_list_head
list_splice_tail_init list head m =
    if not (list_empty list m)
    then init_list_head list (list_splice_between list (m.prev head) head m)
    else m

-- The entries that `list_for_each` visits from `pos` on, with `none` when the fuel runs out.
unfoldable pub list_for_each : ℕ → (pos head : Ptr) → Links → Option (List Ptr)
list_for_each zero pos head m = none
list_for_each (suc fuel) pos head m = elim (pos == head) [
  | true ↦ some []
  | false ↦ elim (list_for_each fuel (m.next pos) head m) [
    | none ↦ none
    | some visited ↦ some (pos ∷ visited)
  ]
]

-- The same for `list_for_each_prev`.
unfoldable pub list_for_each_prev : ℕ → (pos head : Ptr) → Links → Option (List Ptr)
list_for_each_prev zero pos head m = none
list_for_each_prev (suc fuel) pos head m = elim (pos == head) [
  | true ↦ some []
  | false ↦ elim (list_for_each_prev fuel (m.prev pos) head m) [
    | none ↦ none
    | some visited ↦ some (pos ∷ visited)
  ]
]
