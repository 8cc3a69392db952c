-- ===== src/HyList/Tests.antt =====
-- Runs of the list operations on two small lists.
use libhy_utils_bak.Base.{◌≡◌, refl, true, false, List, [], ◌∷◌, some, arith, ◌==◌, if◌then◌else◌}
use libhy_utils_bak.HyList.{
  Ptr, Links, list_poison1, list_poison2, list_add_tail, list_del, list_cut_position,
  list_splice_tail_init, list_for_each,
}
use libhy_utils_bak.HyList.Ring.{has, IsRing}
use libhy_utils_bak.HyList.Edit.{list_add_tail-append, list_del-remove}
use libhy_utils_bak.HyList.Splice.{list_splice_tail_init-append}
use libhy_utils_bak.HyList.Cut.{list_cut_position-split}
use libhy_utils_bak.HyList.Walk.{list_for_each-entries}

-- the nodes in the order of the ring, behind which it starts again
abbrev after : List Ptr → Ptr → Ptr → Ptr
after [] first p = p
after (x ∷ []) first p = if p == x then first else p
after (x ∷ y ∷ ys) first p = if p == x then y else after (y ∷ ys) first p

-- at 10 the list of 1, 2 and 3; at 20 the list of 4 and 5; at 30 the list of 6; 7 is a node of none
abbrev two : Links
two = record {
  next =
      λ p. after (20 ∷ 4 ∷ 5 ∷ []) 20 (after (10 ∷ 1 ∷ 2 ∷ 3 ∷ []) 10 (after (30 ∷ 6 ∷ []) 30 p));
  prev = λ p. after (5 ∷ 4 ∷ 20 ∷ []) 5 (after (3 ∷ 2 ∷ 1 ∷ 10 ∷ []) 3 (after (6 ∷ 30 ∷ []) 6 p));
}

at_10 : IsRing two 10 (1 ∷ 2 ∷ 3 ∷ [])
at_10 = record {
  chain = ((refl, refl), ((refl, refl), ((refl, refl), ((refl, refl), tt))));
  distinct = (refl, (refl, (refl, (refl, tt))));
}

at_20 : IsRing two 20 (4 ∷ 5 ∷ [])
at_20 = record {
  chain = ((refl, refl), ((refl, refl), ((refl, refl), tt)));
  distinct = (refl, (refl, (refl, tt)));
}

at_30 : IsRing two 30 (6 ∷ [])
at_30 = record { chain = ((refl, refl), ((refl, refl), tt)); distinct = (refl, (refl, tt)) }

apart : (p : Ptr) → has p (10 ∷ 1 ∷ 2 ∷ 3 ∷ []) ≡ true → has p (20 ∷ 4 ∷ 5 ∷ []) ≡ false
apart p h = ground arith

list_add_tail-append_example : IsRing (list_add_tail 7 10 two) 10 (1 ∷ 2 ∷ 3 ∷ 7 ∷ [])
list_add_tail-append_example = list_add_tail-append (1 ∷ 2 ∷ 3 ∷ []) at_10 7 refl

list_del-remove_example :
    IsRing (list_del 2 two) 10 (1 ∷ 3 ∷ [])
    × ((list_del 2 two).next 2 ≡ list_poison1)
    × ((list_del 2 two).prev 2 ≡ list_poison2)
list_del-remove_example = list_del-remove (1 ∷ []) (3 ∷ []) 2 at_10

list_cut_position-split_example :
    IsRing (list_cut_position 7 10 2 two) 7 (1 ∷ 2 ∷ [])
    × IsRing (list_cut_position 7 10 2 two) 10 (3 ∷ [])
list_cut_position-split_example = list_cut_position-split 7 1 (2 ∷ []) (3 ∷ []) at_10 refl

list_splice_tail_init-append_example :
    IsRing (list_splice_tail_init 10 20 two) 20 (4 ∷ 5 ∷ 1 ∷ 2 ∷ 3 ∷ [])
    × IsRing (list_splice_tail_init 10 20 two) 10 []
list_splice_tail_init-append_example =
    list_splice_tail_init-append (1 ∷ 2 ∷ 3 ∷ []) (4 ∷ 5 ∷ []) at_10 at_20 apart

list_for_each-entries_example : list_for_each 4 1 10 two ≡ some (1 ∷ 2 ∷ 3 ∷ [])
list_for_each-entries_example = list_for_each-entries (1 ∷ 2 ∷ 3 ∷ []) 4 at_10 (omega arith)
