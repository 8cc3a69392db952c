-- ===== src/HyList/Edit.antt =====
-- Insertion, removal, replacement and moves keep a ring, and change its entries as a list's.
use libhy_utils_bak.Base.{◌≡◌, refl, true, false, List, [], ◌∷◌, ◌++◌, arith, ◌==◌}
use mathlib.Core.List.{append-nil}
use libhy_utils_bak.HyList.{
  Ptr, Links, list_add_between, list_add, list_add_tail, list_del_between, list_del, list_del_init,
  list_poison1, list_poison2, list_replace,
}
use libhy_utils_bak.HyList.Ring.{has, last, first, IsRing, has-last, has-append, has-ne}
use libhy_utils_bak.HyList.Arcs.{
  bridge, open_ring, Arcs-frame, IsRing-frame, Distinct-insert, Distinct-remove,
}

pub first-has : (head : Ptr) (xs ys : List Ptr) → has (first ys head) (head ∷ (xs ++ ys)) ≡ true
first-has head xs [] = ground arith
first-has head xs (y ∷ ys) = ground (arith, has-append y xs (y ∷ ys))

pub last-has : (head : Ptr) (xs ys : List Ptr) → has (last head xs) (head ∷ (xs ++ ys)) ≡ true
last-has head xs ys = ground (arith, has-last head xs, has-append (last head xs) xs ys)

module _ {m : Links} {head : Ptr} (xs ys : List Ptr) where
  -- `__list_add` between two neighbours of a ring puts the new node between them.
  pub list_add_between-insert :
      (new : Ptr)
      → IsRing m head (xs ++ ys)
      → has new (head ∷ (xs ++ ys)) ≡ false
      → IsRing (list_add_between new (last head xs) (first ys head) m) head (xs ++ (new ∷ ys))
  unfolding list_add_between
  list_add_between-insert new r out =
      let (arcs, _) = open_ring m head xs [] ys r.chain in
      let b = has-ne (head ∷ (xs ++ ys)) (last head xs) new (last-has head xs ys) out in
      let n = has-ne (head ∷ (xs ++ ys)) (first ys head) new (first-has head xs ys) out in
      record {
        chain =
            bridge _ head xs (new ∷ []) ys
              (Arcs-frame head xs ys r.distinct arcs
                (λ p h k. ground (arith, has-ne (head ∷ (xs ++ ys)) p new h out))
                (λ p h k. ground (arith, has-ne (head ∷ (xs ++ ys)) p new h out)))
              ((ground arith, ground arith), ((ground arith, ground arith), tt));
        distinct = Distinct-insert new (head ∷ xs) ys r.distinct out;
      }

  module _ (e : Ptr) (r : IsRing m head (xs ++ (e ∷ ys))) where
    pub neighbours : (m.prev e ≡ last head xs) × (m.next e ≡ first ys head)
    neighbours =
        let (_, across) = open_ring m head xs (e ∷ []) ys r.chain in (across.0.1, across.1.0.0)

    -- `__list_del` of the neighbours of an entry takes the entry out.
    pub list_del_between-remove :
        IsRing (list_del_between (m.prev e) (m.next e) m) head (xs ++ ys)
        × (has e (head ∷ (xs ++ ys)) ≡ false)
    unfolding list_del_between
    list_del_between-remove =
        let (arcs, _) = open_ring m head xs (e ∷ []) ys r.chain in
        let (d, out) = Distinct-remove e (head ∷ xs) ys r.distinct in
        rw neighbours.0 (
          rw neighbours.1 (
            record {
              chain =
                  bridge _ head xs [] ys
                    (Arcs-frame head xs ys d arcs (λ p h k. ground arith) (λ p h k. ground arith))
                    ((ground arith, ground arith), tt);
              distinct = d;
            },
            out,
          ))

    -- `list_del` takes an entry out of its list, and poisons its two pointers.
    pub list_del-remove :
        IsRing (list_del e m) head (xs ++ ys)
        × ((list_del e m).next e ≡ list_poison1)
        × ((list_del e m).prev e ≡ list_poison2)
    unfolding list_del
    list_del-remove =
        let (ring, out) = list_del_between-remove in
        (
          IsRing-frame head (xs ++ ys) ring
              (λ p h. ground (arith, has-ne (head ∷ (xs ++ ys)) p e h out))
              (λ p h. ground (arith, has-ne (head ∷ (xs ++ ys)) p e h out)),
          ground arith,
          ground arith,
        )

    -- `list_del_init` takes an entry out of its list, and leaves it a list of its own, empty.
    pub list_del_init-remove :
        IsRing (list_del_init e m) head (xs ++ ys) × IsRing (list_del_init e m) e []
    unfolding list_del_init
    list_del_init-remove =
        let (ring, out) = list_del_between-remove in
        (
          IsRing-frame head (xs ++ ys) ring
              (λ p h. ground (arith, has-ne (head ∷ (xs ++ ys)) p e h out))
              (λ p h. ground (arith, has-ne (head ∷ (xs ++ ys)) p e h out)),
          record { chain = ((ground arith, ground arith), tt); distinct = (refl, tt) },
        )

    -- `list_replace` puts a node that is not in the list in an entry's place.
    pub list_replace-substitute :
        (new : Ptr)
        → has new (head ∷ (xs ++ (e ∷ ys))) ≡ false
        → IsRing (list_replace e new m) head (xs ++ (new ∷ ys))
    unfolding list_replace
    list_replace-substitute new fresh =
        let (arcs, _) = open_ring m head xs (e ∷ []) ys r.chain in
        let (d, out) = Distinct-remove e (head ∷ xs) ys r.distinct in
        let gone : has new (head ∷ (xs ++ ys)) ≡ false =
          ground (arith, has-append new xs (e ∷ ys), has-append new xs ys) in
        let ne : (e == new) ≡ false = ground (arith, has-append new xs (e ∷ ys)) in
        let b = has-ne (head ∷ (xs ++ ys)) (last head xs) new (last-has head xs ys) gone in
        let n = has-ne (head ∷ (xs ++ ys)) (first ys head) new (first-has head xs ys) gone in
        let be = has-ne (head ∷ (xs ++ ys)) (last head xs) e (last-has head xs ys) out in
        let fe = has-ne (head ∷ (xs ++ ys)) (first ys head) e (first-has head xs ys) out in
        record {
          chain =
              bridge _ head xs (new ∷ []) ys
                (Arcs-frame head xs ys d arcs
                  (λ p h k. ground (arith, neighbours, has-ne (head ∷ (xs ++ ys)) p new h gone))
                  (λ p h k. ground (arith, neighbours, has-ne (head ∷ (xs ++ ys)) p new h gone)))
                (
                  (ground (arith, neighbours), ground (arith, neighbours)),
                  ((ground (arith, neighbours), ground (arith, neighbours)), tt),
                );
          distinct = Distinct-insert new (head ∷ xs) ys d gone;
        }

module _ {m : Links} {head : Ptr} (xs : List Ptr) (r : IsRing m head xs) where
  -- the ends of a list, as its head shows them
  pub ends : (m.next head ≡ first xs head) × (m.prev head ≡ last head xs)
  ends =
      let (_, front) = open_ring m head [] [] xs r.chain in
      let r' : IsRing m head (xs ++ []) = rw append-nil r in
      let (_, back) = open_ring m head xs [] [] r'.chain in (front.0.0, back.0.1)

  -- `list_add` of a node that is not in the list puts it first.
  pub list_add-cons :
      (new : Ptr) → has new (head ∷ xs) ≡ false → IsRing (list_add new head m) head (new ∷ xs)
  unfolding list_add
  list_add-cons new out = rw (ends.0) (list_add_between-insert [] xs new r out)

  -- `list_add_tail` of a node that is not in the list puts it last.
  pub list_add_tail-append :
      (new : Ptr)
      → has new (head ∷ xs) ≡ false
      → IsRing (list_add_tail new head m) head (xs ++ (new ∷ []))
  unfolding list_add_tail
  list_add_tail-append new out =
      rw (ends.1) (list_add_between-insert xs [] new (rw append-nil r) (rw append-nil out))
