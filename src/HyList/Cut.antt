-- ===== src/HyList/Cut.antt =====
-- `list_cut_position` parts a list in two.
use mathlib.Core.List.{append_assoc}
use libhy_utils_bak.Base.{
  ◌≡◌, true, false, not, ◌&&◌, List, [], ◌∷◌, ◌++◌, arith, ◌==◌, inl, inr, Bool-cases, length,
}
use libhy_utils_bak.HyList.{
  Ptr, Links, list_empty, list_is_singular, list_cut_between, list_cut_position,
}
use libhy_utils_bak.HyList.Ring.{
  has, last, first, src, Seg, Seg-append, Seg-left, Seg-frame, IsRing, src-last, src-has, has-last,
  has-append, has-ne, ne_of_test, Distinct-left, Distinct-right, Distinct-apart,
}
use libhy_utils_bak.HyList.Arcs.{open_ring, src_end}
use libhy_utils_bak.HyList.Edit.{ends, first-has}
use libhy_utils_bak.HyList.Moves.{==_swap, list_is_singular_iff}
use libhy_utils_bak.HyList.Splice.{not_empty}

module _ {m : Links} {head : Ptr} (list x : Ptr) (xs : List Ptr) where
  -- the pointers that the code reads
  reads :
      (ys : List Ptr)
      → IsRing m head ((x ∷ xs) ++ ys)
      → (m.next head ≡ x) × (m.next (last x xs) ≡ first ys head)
  reads ys r =
      let (_, gap) = open_ring m head (x ∷ xs) [] ys r.chain in
      ((ends ((x ∷ xs) ++ ys) r).0, gap.0.0)

  -- The nodes up to the cut differ from the head, from those behind it, and from the new head.
  front_ne :
      (ys : List Ptr)
      → IsRing m head ((x ∷ xs) ++ ys)
      → has list (head ∷ ((x ∷ xs) ++ ys)) ≡ false
      → (p : Ptr) → has p (x ∷ xs) ≡ true
      → ((p == head) ≡ false) × ((p == list) ≡ false) × ((p == first ys head) ≡ false)
  front_ne ys r fresh p h =
      let whole : has p ((x ∷ xs) ++ ys) ≡ true = ground (arith, has-append p (x ∷ xs) ys) in
      let not_head = has-ne ((x ∷ xs) ++ ys) p head whole r.distinct.0 in
      (
        not_head,
        has-ne ((x ∷ xs) ++ ys) p list whole (ground arith),
        beyond ys not_head (Distinct-apart (x ∷ xs) ys p r.distinct.1 h),
      )
    where
      beyond :
          (ys : List Ptr) → (p == head) ≡ false → has p ys ≡ false → (p == first ys head) ≡ false
      beyond [] h k = h
      beyond (y ∷ ys) h k = ground arith

  cut_front :
      (ys : List Ptr)
      → IsRing m head ((x ∷ xs) ++ ys)
      → has list (head ∷ ((x ∷ xs) ++ ys)) ≡ false
      → Seg (list_cut_between list head (last x xs) m) list ((x ∷ xs) ++ (list ∷ []))
  unfolding list_cut_between
  cut_front ys r fresh =
      let n = reads ys r in
      let ne = front_ne ys r fresh in
      let d = (Distinct-left (head ∷ x ∷ xs) ys r.distinct).1 in
      let xd = ne x (ground arith) in
      let ld = ne (last x xs) (has-last x xs) in
      let fd : (list == first ys head) ≡ false = ground (
        arith,
        ==_swap list (first ys head),
        has-ne (head ∷ ((x ∷ xs) ++ ys)) (first ys head) list (first-has head (x ∷ xs) ys) fresh,
      ) in
      (
        (
          ground (arith, n, xd, ld, ==_swap list (last x xs), ==_swap list head),
          ground (arith, n, xd),
        ),
        Seg-append _ x xs (list ∷ [])
            (Seg-frame x xs (Seg-left m x xs (ys ++ (head ∷ [])) (rw append_assoc at (r.chain.1)))
              (λ p h. ground (
                arith,
                n,
                ne p (src-has p x xs h),
                ne_of_test (λ q. src q x xs) p (last x xs) h (src-last x xs d),
              ))
              (λ p h. ground (arith, n, ne p (ground arith), has-ne xs p x h d.0)))
            ((ground (arith, n, ld), ground (arith, n, fd)), tt),
      )

  cut_back :
      (ys : List Ptr)
      → IsRing m head ((x ∷ xs) ++ ys)
      → has list (head ∷ ((x ∷ xs) ++ ys)) ≡ false
      → Seg (list_cut_between list head (last x xs) m) head (ys ++ (head ∷ []))
  unfolding list_cut_between
  cut_back [] r fresh = let n = reads [] r in ((ground (arith, n), ground (arith, n)), tt)
  cut_back (y ∷ ys) r fresh =
      let n = reads (y ∷ ys) r in
      let (arcs, _) = open_ring m head (x ∷ xs) [] (y ∷ ys) r.chain in
      let all : List Ptr = (x ∷ xs) ++ (y ∷ ys) in
      let d = Distinct-right (x ∷ xs) (y ∷ ys) r.distinct.1 in
      let l_out : has (last x xs) (y ∷ ys) ≡ false =
        Distinct-apart (x ∷ xs) (y ∷ ys) (last x xs) r.distinct.1 (has-last x xs) in
      let h_out : has head (y ∷ ys) ≡ false =
        ground (arith, r.distinct.0, has-append head (x ∷ xs) (y ∷ ys)) in
      let n_out : has list (y ∷ ys) ≡ false = ground (arith, has-append list (x ∷ xs) (y ∷ ys)) in
      let y_out : has y (ys ++ (head ∷ [])) ≡ false =
        ground (arith, has-append y ys (head ∷ []), d.0, ==_swap y head) in
      let x_out : has x (ys ++ (head ∷ [])) ≡ false = ground (
        arith,
        has-append x ys (head ∷ []),
        front_ne (y ∷ ys) r fresh x,
        Distinct-apart (x ∷ xs) (y ∷ ys) x r.distinct.1,
      ) in
      let l_out' : has list (ys ++ (head ∷ [])) ≡ false =
        ground (arith, has-append list ys (head ∷ [])) in
      (
        (ground (arith, n), ground (arith, n)),
        Seg-frame y (ys ++ (head ∷ [])) arcs.back
            (λ p h.
              let i = src_end p y head ys h in
              ground (
                arith,
                n,
                has-ne (y ∷ ys) p (last x xs) i l_out,
                has-ne (y ∷ ys) p head i h_out,
                has-ne (y ∷ ys) p list i n_out,
              ))
            (λ p h. ground (
              arith,
              n,
              has-ne (ys ++ (head ∷ [])) p y h y_out,
              has-ne (ys ++ (head ∷ [])) p x h x_out,
              has-ne (ys ++ (head ∷ [])) p list h l_out',
            )),
      )

  -- A list of one node is cut behind that node, which is the first.
  uncut :
      (ys : List Ptr)
      → IsRing m head ((x ∷ xs) ++ ys)
      → (list_is_singular head m && (not (m.next head == last x xs) && not (head == last x xs)))
        ≡ false
  uncut ys r = elim (Bool-cases (list_is_singular head m)) [
    | inr e ↦ ground arith
    | inl e ↦ one xs ys (reads ys r).0 ((list_is_singular_iff ((x ∷ xs) ++ ys) r).0 e)
  ]
    where
      one :
          (xs ys : List Ptr)
          → m.next head ≡ x
          → length ((x ∷ xs) ++ ys) ≡ 1
          → (list_is_singular head m && (not (m.next head == last x xs) && not (head == last x xs)))
            ≡ false
      one [] ys h n = ground (arith, h)
      one (z ∷ xs) ys h n = absurd (omega arith)

  cuts :
      (ys : List Ptr)
      → IsRing m head ((x ∷ xs) ++ ys)
      → (last x xs == head) ≡ false
      → list_cut_position list head (last x xs) m ≡ list_cut_between list head (last x xs) m
  unfolding list_cut_position list_is_singular list_empty
  cuts ys r inside = ground (arith, not_empty x (xs ++ ys) r, uncut ys r, inside)

  -- `list_cut_position` behind an entry, with a new head that is not in the list, leaves the entries
  -- up to that one in the new list, and the others in the old.
  pub list_cut_position-split :
      (ys : List Ptr)
      → IsRing m head ((x ∷ xs) ++ ys)
      → has list (head ∷ ((x ∷ xs) ++ ys)) ≡ false
      → IsRing (list_cut_position list head (last x xs) m) list (x ∷ xs)
        × IsRing (list_cut_position list head (last x xs) m) head ys
  list_cut_position-split ys r fresh =
      let inside = front_ne ys r fresh (last x xs) (has-last x xs) in
      rw (cuts ys r inside.0) (
        record {
          chain = cut_front ys r fresh;
          distinct = (
            ground (arith, has-append list (x ∷ xs) ys),
            (Distinct-left (head ∷ x ∷ xs) ys r.distinct).1,
          );
        },
        record {
          chain = cut_back ys r fresh;
          distinct = (
            ground (arith, r.distinct.0, has-append head (x ∷ xs) ys),
            Distinct-right (x ∷ xs) ys r.distinct.1,
          );
        },
      )
