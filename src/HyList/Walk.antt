-- ===== src/HyList/Walk.antt =====
-- The loops over a list end, and visit each entry once, in order.
use mathlib.Core.List.{reverse, reverse-append, reverse-reverse}
use libhy_utils_bak.Base.{
  ℕ, zero, suc, ◌<◌, ◌≡◌, refl, sym, ap, ◌∙◌, false, List, [], ◌∷◌, ◌++◌, some, arith, ◌==◌,
  ==_refl, length, length-append,
}
use libhy_utils_bak.HyList.{Ptr, Links, list_for_each, list_for_each_prev}
use libhy_utils_bak.HyList.Ring.{has, last, Seg, Seg-left, Seg-right, IsRing, has-append}
use libhy_utils_bak.HyList.Arcs.{last-append}
use libhy_utils_bak.HyList.Edit.{ends}
use libhy_utils_bak.HyList.Moves.{==_swap}

module _ (m : Links) (head : Ptr) where
  walk :
      (fuel : ℕ) (a : Ptr) (xs : List Ptr)
      → Seg m a (xs ++ (head ∷ []))
      → has head xs ≡ false
      → length xs < fuel
      → list_for_each fuel (m.next a) head m ≡ some xs
  unfolding list_for_each
  walk zero a xs s out h = absurd (omega arith)
  walk (suc fuel) a [] s out h = ground (arith, s.0.0, ==_refl head)
  walk (suc fuel) a (x ∷ xs) s out h =
      let ne : (x == head) ≡ false = ground (arith, ==_swap head x) in
      ground (arith, s.0.0, ne, walk fuel x xs s.1 (ground arith) (omega arith))

  walk_back :
      (fuel : ℕ) (xs rs : List Ptr)
      → xs ≡ reverse rs
      → Seg m head xs
      → has head xs ≡ false
      → length rs < fuel
      → list_for_each_prev fuel (last head xs) head m ≡ some rs
  unfolding list_for_each_prev
  walk_back zero xs rs e s out h = absurd (omega arith)
  walk_back (suc fuel) xs [] e s out h =
      let start : last head xs ≡ head = ap (last head) e in ground (arith, start, ==_refl head)
  walk_back (suc fuel) xs (r ∷ rs) e s out h =
      let e' : xs ≡ reverse rs ++ (r ∷ []) = e ∙ reverse-append (r ∷ []) rs in
      let s' : Seg m head (reverse rs ++ (r ∷ [])) = rw e' at s in
      let out' : has head (reverse rs ++ (r ∷ [])) ≡ false = rw e' at out in
      let link = (Seg-right m head (reverse rs) (r ∷ []) s').0 in
      let ne : (r == head) ≡ false =
        ground (arith, has-append head (reverse rs) (r ∷ []), ==_swap head r) in
      let start : last head xs ≡ r = ap (last head) e' ∙ last-append head r (reverse rs) in
      ground (
        arith,
        start,
        ne,
        link.1,
        (walk_back fuel (reverse rs) rs refl (Seg-left m head (reverse rs) (r ∷ []) s')
            (ground (arith, has-append head (reverse rs) (r ∷ []))) (omega arith)),
      )

-- With more fuel than entries `list_for_each` ends, and has visited exactly the entries in order.
pub list_for_each-entries :
    {m : Links} {head : Ptr} (xs : List Ptr) (fuel : ℕ)
    → IsRing m head xs
    → length xs < fuel
    → list_for_each fuel (m.next head) head m ≡ some xs
list_for_each-entries {m} {head} xs fuel r h = walk m head fuel head xs r.chain r.distinct.0 h

length-reverse : (xs : List Ptr) → length (reverse xs) ≡ length xs
length-reverse [] = refl
length-reverse (x ∷ xs) = omega (
  arith,
  ap length (reverse-append (x ∷ []) xs),
  length-append (reverse xs) (x ∷ []),
  length-reverse xs,
)

-- With more fuel than entries `list_for_each_prev` ends, and has visited them in reverse order.
pub list_for_each_prev-reverse :
    {m : Links} {head : Ptr} (xs : List Ptr) (fuel : ℕ)
    → IsRing m head xs
    → length xs < fuel
    → list_for_each_prev fuel (m.prev head) head m ≡ some (reverse xs)
list_for_each_prev-reverse {m} {head} xs fuel r h = rw ((ends xs r).1) (
    walk_back m head fuel xs (reverse xs) (sym (reverse-reverse xs))
      (Seg-left m head xs (head ∷ []) r.chain) r.distinct.0 (omega (arith, length-reverse xs)))
