-- ===== src/HyList/Moves.antt =====
-- Moves between lists, rotation, and the tests.
use libhy_utils_bak.Base.{ℕ, ◌≡◌, ◌↔◌, refl, true, false, List, [], ◌∷◌, ◌++◌, arith, ◌==◌, length}
use libhy_utils_bak.HyList.{
  Ptr, Links, list_del_entry, list_move, list_move_tail, list_rotate_left, list_empty,
  list_is_singular,
}
use libhy_utils_bak.HyList.Ring.{has, last, first, IsRing, has-last, has-append, has-ne}
use libhy_utils_bak.HyList.Arcs.{IsRing-frame}
use libhy_utils_bak.HyList.Edit.{
  list_del_between-remove, neighbours, list_add-cons, list_add_tail-append, ends, last-has,
  first-has,
}

pub ==_swap : (a b : ℕ) → (a == b) ≡ (b == a)
==_swap a b = ground arith

module _ {m : Links} {head : Ptr} (xs ys : List Ptr) (e : Ptr)
    (r : IsRing m head (xs ++ (e ∷ ys))) where
  -- `list_move` to the same list brings an entry to the front.
  pub list_move-cons : IsRing (list_move e head m) head (e ∷ (xs ++ ys))
  unfolding list_move
  list_move-cons =
      let (ring, out) = list_del_between-remove xs ys e r in list_add-cons (xs ++ ys) ring e out

  pub list_move_tail-append : IsRing (list_move_tail e head m) head ((xs ++ ys) ++ (e ∷ []))
  unfolding list_move_tail
  list_move_tail-append =
      let (ring, out) = list_del_between-remove xs ys e r in
      list_add_tail-append (xs ++ ys) ring e out

  -- a list that shares no node with this one
  module _ {other : Ptr} (zs : List Ptr) (r' : IsRing m other zs)
      (apart : (p : Ptr)
        → has p (head ∷ (xs ++ (e ∷ ys))) ≡ true
        → has p (other ∷ zs) ≡ false) where
    -- `list_move` to another list, which shares no node with the entry's own, takes the entry out of
    -- its own and puts it first there.
    pub list_move-other :
        IsRing (list_move e other m) head (xs ++ ys) × IsRing (list_move e other m) other (e ∷ zs)
    unfolding list_move
    list_move-other =
        let (ring, out) = list_del_between-remove xs ys e r in
        let whole : List Ptr = head ∷ (xs ++ (e ∷ ys)) in
        let e_out : has e (other ∷ zs) ≡ false =
          apart e (ground (arith, has-append e xs (e ∷ ys))) in
        let l_out = apart (last head xs) (last-has head xs (e ∷ ys)) in
        let f_in : has (first ys head) whole ≡ true = ground (
          arith,
          first-has head xs ys,
          has-append (first ys head) xs ys,
          has-append (first ys head) xs (e ∷ ys),
        ) in
        let f_out = apart (first ys head) f_in in
        let kept : IsRing (list_del_entry e m) other zs =
          IsRing-frame other zs r'
            (λ p h.
              ground (arith, neighbours xs ys e r, has-ne (other ∷ zs) p (last head xs) h l_out))
            (λ p h.
              ground
                (arith, neighbours xs ys e r, has-ne (other ∷ zs) p (first ys head) h f_out)) in
        let to_front : has (first zs other) (other ∷ zs) ≡ true = first-has other [] zs in
        (
          IsRing-frame head (xs ++ ys) ring
              (λ p h. ground (
                arith,
                has-ne (head ∷ (xs ++ ys)) p e h out,
                inside p h,
                ==_swap other p,
                has-ne (other ∷ zs) other p,
              ))
              (λ p h. ground (
                arith,
                ends zs kept,
                has-ne (head ∷ (xs ++ ys)) p e h out,
                inside p h,
                ==_swap (first zs other) p,
                has-ne (other ∷ zs) (first zs other) p to_front,
              )),
          list_add-cons zs kept e e_out,
        )
      where
        inside : (p : Ptr) → has p (head ∷ (xs ++ ys)) ≡ true → has p (other ∷ zs) ≡ false
        inside p h = apart p (ground (arith, has-append p xs ys, has-append p xs (e ∷ ys)))

unfoldable pub rotate : List Ptr → List Ptr
rotate [] = []
rotate (x ∷ xs) = xs ++ (x ∷ [])

module _ {m : Links} {head : Ptr} where
  -- `list_empty` holds exactly of a list without entries.
  pub list_empty_iff : (xs : List Ptr) → IsRing m head xs → (list_empty head m ≡ true) ↔ (xs ≡ [])
  unfolding list_empty
  list_empty_iff [] r = ((λ h. refl), λ h. ground (arith, r.chain))
  list_empty_iff (x ∷ xs) r = ((λ h. ground (arith, r.chain, r.distinct, ==_swap head x)), λ h. cc)

  -- `list_is_singular` holds exactly of a list with one entry.
  pub list_is_singular_iff :
      (xs : List Ptr) → IsRing m head xs → (list_is_singular head m ≡ true) ↔ (length xs ≡ 1)
  unfolding list_is_singular
  list_is_singular_iff [] r = ((λ h. ground (arith, r.chain)), λ h. ground arith)
  list_is_singular_iff (x ∷ []) r =
      ((λ h. refl), λ h. ground (arith, r.chain, r.distinct, ==_swap head x))
  list_is_singular_iff (x ∷ y ∷ xs) r = (
    (λ h. ground (
      arith,
      ends (x ∷ y ∷ xs) r,
      r.distinct,
      has-ne (y ∷ xs) (last y xs) x (has-last y xs),
      ==_swap (last y xs) x,
    )),
    λ h. ground arith,
  )

  -- `list_rotate_left` moves the first entry behind the last.
  pub list_rotate_left-rotate :
      (xs : List Ptr) → IsRing m head xs → IsRing (list_rotate_left head m) head (rotate xs)
  unfolding list_rotate_left rotate
  list_rotate_left-rotate [] r = rw ((list_empty_iff [] r).1 refl) r
  list_rotate_left-rotate (x ∷ xs) r =
      let full : list_empty head m ≡ false = ground (arith, list_empty_iff (x ∷ xs) r) in
      rw (full, (ends (x ∷ xs) r).0) (list_move_tail-append [] xs x r)
