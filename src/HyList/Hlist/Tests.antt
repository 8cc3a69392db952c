-- ===== src/HyList/Hlist/Tests.antt =====
-- Runs of the single-pointer list operations.
use libhy_utils_bak.Base.{◌≡◌, refl, true, false, List, [], ◌∷◌, Option, some}
use libhy_utils_bak.HyList.{Ptr, Links, list_poison1, list_poison2}
use libhy_utils_bak.HyList.Hlist.{
  init_hlist_head, init_hlist_node, hlist_unhashed, hlist_empty, hlist_unlink, hlist_del,
  hlist_del_init, hlist_add_head, hlist_add_before, hlist_add_behind, hlist_add_fake,
  hlist_move_list, hlist_for_each,
}
use libhy_utils_bak.HyList.Hlist.Chain.{IsChain, hlist_add_head-cons, hlist_del-remove}

abbrev blank : Links
blank = record { next = λ p. 77; prev = λ p. 78 }

-- 2 and 1 behind the head 10, and 3 in front of them
abbrev two : Links
two = hlist_add_head 2 10 (hlist_add_head 1 10 (init_hlist_head 10 blank))

abbrev three : Links
three = hlist_add_head 3 10 two

pushed : hlist_for_each 9 (three.next 10) three ≡ some (3 ∷ 2 ∷ 1 ∷ [])
unfolding hlist_for_each init_hlist_head hlist_add_head
pushed = refl

-- the runs that every other operation makes on the same list
abbrev listed : Ptr → Links → Option (List Ptr)
listed head m = hlist_for_each 9 (m.next head) m

edited :
    (listed 10 (hlist_del 2 three) ≡ some (3 ∷ 1 ∷ []))
    × (listed 10 (hlist_del_init 1 three) ≡ some (3 ∷ 2 ∷ []))
    × (listed 10 (hlist_add_before 5 2 three) ≡ some (3 ∷ 5 ∷ 2 ∷ 1 ∷ []))
    × (listed 10 (hlist_add_behind 5 1 three) ≡ some (3 ∷ 2 ∷ 1 ∷ 5 ∷ []))
unfolding hlist_for_each init_hlist_head hlist_add_head hlist_unlink hlist_del hlist_unhashed
    init_hlist_node hlist_del_init hlist_add_before hlist_add_behind
edited = (refl, refl, refl, refl)

moved :
    (listed 20 (hlist_move_list 10 20 three) ≡ some (3 ∷ 2 ∷ 1 ∷ []))
    × (hlist_empty 10 (hlist_move_list 10 20 three) ≡ true)
    × (hlist_unhashed 4 (hlist_add_fake 4 three) ≡ false)
unfolding hlist_for_each init_hlist_head hlist_add_head hlist_move_list hlist_empty hlist_unhashed
    hlist_add_fake
moved = (refl, refl, refl)

at_10 : IsChain two 10 (2 ∷ 1 ∷ [])
unfolding hlist_add_head init_hlist_head
at_10 = record {
  chain = ((refl, refl), ((refl, refl), tt));
  end = refl;
  distinct = (refl, (refl, (refl, tt)));
  live = refl;
}

hlist_add_head-cons_example : IsChain (hlist_add_head 3 10 two) 10 (3 ∷ 2 ∷ 1 ∷ [])
hlist_add_head-cons_example = hlist_add_head-cons (2 ∷ 1 ∷ []) at_10 3 refl

hlist_del-remove_example :
    IsChain (hlist_del 2 two) 10 (1 ∷ [])
    × ((hlist_del 2 two).next 2 ≡ list_poison1)
    × ((hlist_del 2 two).prev 2 ≡ list_poison2)
hlist_del-remove_example = hlist_del-remove [] 2 (1 ∷ []) at_10
