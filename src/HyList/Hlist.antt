-- ===== src/HyList/Hlist.antt =====
-- The lists with a single pointer in their head, include/hy_list.h, over the memory of HyList.
-- `first` is the only field of a head and `next` the first of a node, so that a head, a node and the
-- slot that `pprev` points to have one address: `next` stands for both, and `prev` for `pprev`.
-- Every address is taken to hold a node, so no access faults here; the theorems ask for a chain.
pub mod Chain
mod Tests
use libhy_utils_bak.Base.{
  ℕ, zero, suc, Bool, true, false, not, List, [], ◌∷◌, Option, some, none, ◌==◌, if◌then◌else◌,
}
use libhy_utils_bak.HyList.{Ptr, Links, set_next, set_prev, list_poison1, list_poison2}

abbrev pub null : Ptr
null = 0

-- `INIT_HLIST_HEAD`
unfoldable pub init_hlist_head : Ptr → Links → Links
init_hlist_head ptr m = set_next ptr null m

-- `INIT_HLIST_NODE`
unfoldable pub init_hlist_node : Ptr → Links → Links
init_hlist_node h m = set_prev h null (set_next h null m)

unfoldable pub hlist_unhashed : Ptr → Links → Bool
hlist_unhashed h m = m.prev h == null

unfoldable pub hlist_empty : Ptr → Links → Bool
hlist_empty h m = m.next h == null

-- `__hlist_del`
unfoldable pub hlist_unlink : Ptr → Links → Links
hlist_unlink n m =
    let next = m.next n in
    let pprev = m.prev n in
    let m1 = set_next pprev next m in if next == null then m1 else set_prev next pprev m1

unfoldable pub hlist_del : Ptr → Links → Links
unfolding hlist_unlink
hlist_del n m = set_prev n list_poison2 (set_next n list_poison1 (hlist_unlink n m))

unfoldable pub hlist_del_init : Ptr → Links → Links
unfolding hlist_unhashed hlist_unlink init_hlist_node
hlist_del_init n m = if not (hlist_unhashed n m) then init_hlist_node n (hlist_unlink n m) else m

unfoldable pub hlist_add_head : (n h : Ptr) → Links → Links
hlist_add_head n h m =
    let first = m.next h in
    let m1 = set_next n first m in
    let m2 = if first == null then m1 else set_prev first n m1 in
    let m3 = set_next h n m2 in set_prev n h m3

unfoldable pub hlist_add_before : (n next : Ptr) → Links → Links
hlist_add_before n next m =
    let m1 = set_prev n (m.prev next) m in
    let m2 = set_next n next m1 in let m3 = set_prev next n m2 in set_next (m3.prev n) n m3

unfoldable pub hlist_add_behind : (n prev : Ptr) → Links → Links
hlist_add_behind n prev m =
    let m1 = set_next n (m.next prev) m in
    let m2 = set_next prev n m1 in
    let m3 = set_prev n prev m2 in if m3.next n == null then m3 else set_prev (m3.next n) n m3

unfoldable pub hlist_add_fake : Ptr → Links → Links
hlist_add_fake n m = set_prev n n m

unfoldable pub hlist_move_list : (old new : Ptr) → Links → Links
hlist_move_list old new m =
    let m1 = set_next new (m.next old) m in
    let m2 = if m1.next new == null then m1 else set_prev (m1.next new) new m1 in
    set_next old null m2

-- The nodes that `hlist_for_each` visits from `pos` on, with `none` when the fuel runs out.
unfoldable pub hlist_for_each : ℕ → Ptr → Links → Option (List Ptr)
hlist_for_each zero pos m = none
hlist_for_each (suc fuel) pos m = elim (pos == null) [
  | true ↦ some []
  | false ↦ elim (hlist_for_each fuel (m.next pos) m) [
    | none ↦ none
    | some visited ↦ some (pos ∷ visited)
  ]
]
