-- ===== src/HyList/Splice.antt =====
-- Joining two lists.
use libhy_utils_bak.Base.{◌≡◌, refl, true, false, List, [], ◌∷◌, ◌++◌, arith, Bool-cases, inl, inr}
use mathlib.Core.List.{append-nil}
use libhy_utils_bak.HyList.{
  Ptr, Links, init_list_head, list_empty, list_splice_between, list_splice, list_splice_tail,
  list_splice_init, list_splice_tail_init,
}
use libhy_utils_bak.HyList.Ring.{
  has, Distinct, last, first, src, Seg, Seg-append, Seg-left, Seg-frame, IsRing, src-last, src-has,
  has-last, has-append, has-ne, ne_of_test, Distinct-append,
}
use libhy_utils_bak.HyList.Arcs.{bridge, open_ring, Arcs-frame, IsRing-frame}
use libhy_utils_bak.HyList.Edit.{ends, last-has, first-has}
use libhy_utils_bak.HyList.Moves.{list_empty_iff, ==_swap}

-- two lists share no node
abbrev pub Apart : List Ptr → List Ptr → Type 0
Apart xs ys = (p : Ptr) → has p xs ≡ true → has p ys ≡ false

pub Apart-swap : (xs ys : List Ptr) → Apart xs ys → Apart ys xs
Apart-swap xs ys apart p h = elim (Bool-cases (has p xs)) [
  | inl e ↦ ground (arith, apart p)
  | inr e ↦ e
]

Distinct-splice :
    (xs zs ys : List Ptr)
    → Distinct (xs ++ ys)
    → Distinct zs
    → Apart zs (xs ++ ys)
    → Distinct (xs ++ (zs ++ ys))
Distinct-splice [] zs ys d e apart = Distinct-append zs ys e d apart
Distinct-splice (x ∷ xs) zs ys d e apart =
    let out : has x zs ≡ false = Apart-swap zs (x ∷ (xs ++ ys)) apart x (ground arith) in
    (
      ground (arith, d.0, has-append x xs ys, has-append x xs (zs ++ ys), has-append x zs ys),
      Distinct-splice xs zs ys d.1 e (λ p h. ground (arith, apart p)),
    )

module _ {m : Links} {list head : Ptr} (z : Ptr) (zs xs ys : List Ptr) (r : IsRing m list (z ∷ zs))
    (r' : IsRing m head (xs ++ ys)) (apart : Apart (z ∷ zs) (head ∷ (xs ++ ys))) where
  -- the stretch that the code lays across the gap
  across :
      Seg
        (list_splice_between list (last head xs) (first ys head) m)
        (last head xs)
        ((z ∷ zs) ++ (first ys head ∷ []))
  unfolding list_splice_between
  across =
      let whole : List Ptr = head ∷ (xs ++ ys) in
      let away = Apart-swap (z ∷ zs) whole apart in
      let e = ends (z ∷ zs) r in
      let z_in : has z (z ∷ zs) ≡ true = ground arith in
      let b_out = away (last head xs) (last-has head xs ys) in
      let n_out = away (first ys head) (first-has head xs ys) in
      (
        (
          ground (
            arith,
            e,
            ==_swap (last z zs) (last head xs),
            has-ne (z ∷ zs) (last z zs) (last head xs) (has-last z zs) b_out,
          ),
          ground (arith, e, has-ne (z ∷ zs) z (first ys head) z_in n_out),
        ),
        Seg-append _ z zs (first ys head ∷ [])
            (Seg-frame z zs (Seg-left m z zs (list ∷ []) r.chain.1)
              (λ p h. ground (
                arith,
                e,
                ne_of_test (λ q. src q z zs) p (last z zs) h (src-last z zs r.distinct.1),
                has-ne (z ∷ zs) p (last head xs) (src-has p z zs h) b_out,
              ))
              (λ p h. ground (
                arith,
                e,
                has-ne zs p z h r.distinct.1.0,
                has-ne (z ∷ zs) p (first ys head) (ground arith) n_out,
              )))
            ((ground (arith, e), ground (arith, e)), tt),
      )

  -- `__list_splice` between two neighbours puts all entries of the other list between them.
  pub list_splice_between-insert :
      IsRing
        (list_splice_between list (last head xs) (first ys head) m)
        head
        (xs ++ ((z ∷ zs) ++ ys))
  unfolding list_splice_between
  list_splice_between-insert =
      let (arcs, _) = open_ring m head xs [] ys r'.chain in
      let away = Apart-swap (z ∷ zs) (head ∷ (xs ++ ys)) apart in
      let e = ends (z ∷ zs) r in
      let z_in : has z (z ∷ zs) ≡ true = ground arith in
      record {
        chain =
            bridge _ head xs (z ∷ zs) ys
              (Arcs-frame head xs ys r'.distinct arcs
                (λ p h k. ground (
                  arith,
                  e,
                  ==_swap (last z zs) p,
                  has-ne (z ∷ zs) (last z zs) p (has-last z zs) (away p h),
                ))
                (λ p h k. ground (arith, e, ==_swap z p, has-ne (z ∷ zs) z p z_in (away p h))))
              across;
        distinct = Distinct-splice (head ∷ xs) (z ∷ zs) ys r'.distinct r.distinct.1 apart;
      }

pub not_empty :
    {m : Links} {list : Ptr} (z : Ptr) (zs : List Ptr)
    → IsRing m list (z ∷ zs)
    → list_empty list m ≡ false
not_empty z zs r = ground (arith, list_empty_iff (z ∷ zs) r)

-- `INIT_LIST_HEAD` makes an empty list, and spares every list that its head is not in.
pub init-IsRing : (list : Ptr) (m : Links) → IsRing (init_list_head list m) list []
unfolding init_list_head
init-IsRing list m = record { chain = ((ground arith, ground arith), tt); distinct = (refl, tt) }

pub init_outside :
    {m : Links} {head : Ptr} {xs : List Ptr} (list : Ptr)
    → IsRing m head xs
    → has list (head ∷ xs) ≡ false
    → IsRing (init_list_head list m) head xs
unfolding init_list_head
init_outside {head} {xs} list r out =
    IsRing-frame head xs r (λ p h. ground (arith, has-ne (head ∷ xs) p list h out))
      (λ p h. ground (arith, has-ne (head ∷ xs) p list h out))

head_out :
    (head list : Ptr) (zs xs : List Ptr)
    → has list zs ≡ false
    → has list (head ∷ xs) ≡ false
    → has list (head ∷ (zs ++ xs)) ≡ false
head_out head list zs xs h k = ground (arith, has-append list zs xs)

-- `list_splice` puts the entries of one list before those of another.
pub list_splice-append :
    {m : Links} {list head : Ptr} (zs xs : List Ptr)
    → IsRing m list zs
    → IsRing m head xs
    → Apart (list ∷ zs) (head ∷ xs)
    → IsRing (list_splice list head m) head (zs ++ xs)
unfolding list_splice
list_splice-append [] xs r r' apart = rw ((list_empty_iff [] r).1 refl) r'
list_splice-append (z ∷ zs) xs r r' apart =
    rw (not_empty z zs r, (ends xs r').0)
      (list_splice_between-insert z zs [] xs r r' (λ p h. apart p (ground arith)))

-- `list_splice_tail` puts them behind.
pub list_splice_tail-append :
    {m : Links} {list head : Ptr} (zs xs : List Ptr)
    → IsRing m list zs
    → IsRing m head xs
    → Apart (list ∷ zs) (head ∷ xs)
    → IsRing (list_splice_tail list head m) head (xs ++ zs)
unfolding list_splice_tail
list_splice_tail-append [] xs r r' apart = rw ((list_empty_iff [] r).1 refl) (rw append-nil r')
list_splice_tail-append {m} {list} {head} (z ∷ zs) xs r r' apart =
    let joined : IsRing (list_splice_between list (last head xs) head m) head
        (xs ++ ((z ∷ zs) ++ [])) =
      list_splice_between-insert z zs xs [] r (rw append-nil r')
        (λ p h. rw append-nil (apart p (ground arith))) in
    rw (not_empty z zs r, (ends xs r').1) (rw append-nil at joined)

-- `list_splice_init` puts the entries of one list before those of another list that shares no node
-- with it, and leaves the first list empty.
pub list_splice_init-append :
    {m : Links} {list head : Ptr} (zs xs : List Ptr)
    → IsRing m list zs
    → IsRing m head xs
    → Apart (list ∷ zs) (head ∷ xs)
    → IsRing (list_splice_init list head m) head (zs ++ xs)
      × IsRing (list_splice_init list head m) list []
unfolding list_splice_init
list_splice_init-append [] xs r r' apart = rw ((list_empty_iff [] r).1 refl) (r', r)
list_splice_init-append {m} {list} {head} (z ∷ zs) xs r r' apart =
    let joined : IsRing (list_splice_between list head (first xs head) m) head ((z ∷ zs) ++ xs) =
      list_splice_between-insert z zs [] xs r r' (λ p h. apart p (ground arith)) in
    rw (not_empty z zs r, (ends xs r').0)
      (
        init_outside list joined
            (head_out head list (z ∷ zs) xs r.distinct.0 (apart list (ground arith))),
        init-IsRing list (list_splice_between list head (first xs head) m),
      )

-- `list_splice_tail_init` puts the entries of one list behind those of another list that shares no
-- node with it, and leaves the first list empty.
pub list_splice_tail_init-append :
    {m : Links} {list head : Ptr} (zs xs : List Ptr)
    → IsRing m list zs
    → IsRing m head xs
    → Apart (list ∷ zs) (head ∷ xs)
    → IsRing (list_splice_tail_init list head m) head (xs ++ zs)
      × IsRing (list_splice_tail_init list head m) list []
unfolding list_splice_tail_init
list_splice_tail_init-append [] xs r r' apart =
    rw ((list_empty_iff [] r).1 refl) (rw append-nil r', r)
list_splice_tail_init-append {m} {list} {head} (z ∷ zs) xs r r' apart =
    let joined : IsRing (list_splice_between list (last head xs) head m) head
        (xs ++ ((z ∷ zs) ++ [])) =
      list_splice_between-insert z zs xs [] r (rw append-nil r')
        (λ p h. rw append-nil (apart p (ground arith))) in
    let out : has list (head ∷ (xs ++ (z ∷ zs))) ≡ false =
      ground (arith, has-append list xs (z ∷ zs), apart list, r.distinct.0) in
    rw (not_empty z zs r, (ends xs r').1)
      (
        init_outside list (rw append-nil at joined) out,
        init-IsRing list (list_splice_between list (last head xs) head m),
      )
