-- ===== src/HyList/Arcs.antt =====
-- A ring cut open at a gap.
use mathlib.Core.Path.{subst}
use mathlib.Core.Bool.{false≢true}
use mathlib.Core.List.{append_assoc, append-nil}
use libhy_utils_bak.Base.{◌≡◌, refl, sym, true, false, List, [], ◌∷◌, ◌++◌, arith, ◌==◌}
use libhy_utils_bak.HyList.{Ptr, Links}
use libhy_utils_bak.HyList.Ring.{
  has, Distinct, last, first, rest, Seg, IsRing, Seg-append, Seg-left, Seg-right, src, Seg-frame,
  has-append, src-has, has-last, ne_of_test, has-ne, src-last, Distinct-left, Distinct-right,
  Distinct-apart,
}

-- A ring with the link from the end of `xs` to the start of `ys` left out.
pub record Arcs (m : Links) (head : Ptr) (xs ys : List Ptr) : Type 0 where
  pub front : Seg m head xs
  pub back : Seg m (first ys head) (rest ys head)

pub last-append : (a b : Ptr) (xs : List Ptr) → last a (xs ++ (b ∷ [])) ≡ b
last-append a b [] = refl
last-append a b (x ∷ xs) = last-append x b xs

regroup :
    (head : Ptr) (xs zs ys : List Ptr)
    → (xs ++ (zs ++ ys)) ++ (head ∷ []) ≡ xs ++ ((zs ++ (first ys head ∷ [])) ++ rest ys head)
regroup head xs zs [] = simp (append_assoc, append-nil)
regroup head xs zs (y ∷ ys) = simp append_assoc

module _ (m : Links) (head : Ptr) (xs zs ys : List Ptr) where
  -- A stretch across the gap closes the ring.
  pub bridge :
      Arcs m head xs ys
      → Seg m (last head xs) (zs ++ (first ys head ∷ []))
      → Seg m head ((xs ++ (zs ++ ys)) ++ (head ∷ []))
  bridge arcs across =
      let end : Ptr = last (last head xs) (zs ++ (first ys head ∷ [])) in
      let back : Seg m end (rest ys head) =
        subst (λ a. Seg m a (rest ys head)) (sym (last-append (last head xs) (first ys head) zs))
          arcs.back in
      rw (regroup head xs zs ys) (
        Seg-append m head xs ((zs ++ (first ys head ∷ [])) ++ rest ys head) arcs.front
          (Seg-append m (last head xs) (zs ++ (first ys head ∷ [])) (rest ys head) across back))

  pub open_ring :
      Seg m head ((xs ++ (zs ++ ys)) ++ (head ∷ []))
      → Arcs m head xs ys × Seg m (last head xs) (zs ++ (first ys head ∷ []))
  open_ring s =
      let s' = rw (regroup head xs zs ys) at s in
      let tail = Seg-right m head xs ((zs ++ (first ys head ∷ [])) ++ rest ys head) s' in
      (
        record {
          front = Seg-left m head xs ((zs ++ (first ys head ∷ [])) ++ rest ys head) s';
          back =
              subst (λ a. Seg m a (rest ys head)) (last-append (last head xs) (first ys head) zs)
                (Seg-right m (last head xs) (zs ++ (first ys head ∷ [])) (rest ys head) tail);
        },
        Seg-left m (last head xs) (zs ++ (first ys head ∷ [])) (rest ys head) tail,
      )

pub src_end :
    (p a e : Ptr) (xs : List Ptr) → src p a (xs ++ (e ∷ [])) ≡ true → has p (a ∷ xs) ≡ true
src_end p a e [] h = h
src_end p a e (x ∷ xs) h = ground (arith, src_end p x e xs)

-- The nodes at which the two arcs are read lie in the ring, and not at the gap.
module _ (head p : Ptr) (xs : List Ptr) where
  front_src :
      (ys : List Ptr)
      → Distinct (head ∷ (xs ++ ys))
      → src p head xs ≡ true
      → (has p (head ∷ (xs ++ ys)) ≡ true) × ((p == last head xs) ≡ false)
  front_src ys d h = (
    ground (arith, src-has p head xs h, has-append p xs ys),
    ne_of_test (λ q. src q head xs) p (last head xs) h
        (src-last head xs (Distinct-left (head ∷ xs) ys d)),
  )

  front_has :
      (ys : List Ptr)
      → Distinct (head ∷ (xs ++ ys))
      → has p xs ≡ true
      → (has p (head ∷ (xs ++ ys)) ≡ true) × ((p == first ys head) ≡ false)
  front_has [] d h =
      let i : has p (xs ++ []) ≡ true = ground (arith, has-append p xs []) in
      (ground arith, has-ne (xs ++ []) p head i d.0)
  front_has (y ∷ ys) d h =
      (ground (arith, has-append p xs (y ∷ ys)), ground (arith, Distinct-apart xs (y ∷ ys) p d.1 h))

  back_src :
      (ys : List Ptr)
      → Distinct (head ∷ (xs ++ ys))
      → src p (first ys head) (rest ys head) ≡ true
      → (has p (head ∷ (xs ++ ys)) ≡ true) × ((p == last head xs) ≡ false)
  back_src [] d h = absurd (false≢true h)
  back_src (y ∷ ys) d h =
      let i : has p (y ∷ ys) ≡ true = src_end p y head ys h in
      (
        ground (arith, has-append p xs (y ∷ ys)),
        has-ne (y ∷ ys) p (last head xs) i
            (Distinct-apart (head ∷ xs) (y ∷ ys) (last head xs) d (has-last head xs)),
      )

  back_has :
      (ys : List Ptr)
      → Distinct (head ∷ (xs ++ ys))
      → has p (rest ys head) ≡ true
      → (has p (head ∷ (xs ++ ys)) ≡ true) × ((p == first ys head) ≡ false)
  back_has [] d h = absurd (false≢true h)
  back_has (y ∷ ys) d h =
      let d' : Distinct (y ∷ ys) = Distinct-right xs (y ∷ ys) d.1 in
      let out : has y (ys ++ (head ∷ [])) ≡ false =
        ground (arith, has-append y ys (head ∷ []), d'.0, d.0, has-append head xs (y ∷ ys)) in
      (
        ground (arith, has-append p ys (head ∷ []), has-append p xs (y ∷ ys)),
        has-ne (ys ++ (head ∷ [])) p y h out,
      )

-- The arcs survive every change of the two pointers at the gap, and of nodes outside the ring.
pub Arcs-frame :
    {m m' : Links} (head : Ptr) (xs ys : List Ptr)
    → Distinct (head ∷ (xs ++ ys))
    → Arcs m head xs ys
    → ((p : Ptr)
        → has p (head ∷ (xs ++ ys)) ≡ true
        → (p == last head xs) ≡ false
        → m'.next p ≡ m.next p)
    → ((p : Ptr)
        → has p (head ∷ (xs ++ ys)) ≡ true
        → (p == first ys head) ≡ false
        → m'.prev p ≡ m.prev p)
    → Arcs m' head xs ys
Arcs-frame head xs ys d arcs keep_next keep_prev = record {
  front =
      Seg-frame head xs arcs.front
        (λ p h. let (i, n) = front_src head p xs ys d h in keep_next p i n)
        (λ p h. let (i, n) = front_has head p xs ys d h in keep_prev p i n);
  back =
      Seg-frame (first ys head) (rest ys head) arcs.back
        (λ p h. let (i, n) = back_src head p xs ys d h in keep_next p i n)
        (λ p h. let (i, n) = back_has head p xs ys d h in keep_prev p i n);
}

pub Distinct-insert :
    (a : Ptr) (xs ys : List Ptr)
    → Distinct (xs ++ ys)
    → has a (xs ++ ys) ≡ false
    → Distinct (xs ++ (a ∷ ys))
Distinct-insert a [] ys d out = (out, d)
Distinct-insert a (x ∷ xs) ys d out = (
  ground (arith, has-append x xs ys, has-append x xs (a ∷ ys), d.0),
  Distinct-insert a xs ys d.1 (ground arith),
)

pub Distinct-remove :
    (a : Ptr) (xs ys : List Ptr)
    → Distinct (xs ++ (a ∷ ys))
    → Distinct (xs ++ ys) × (has a (xs ++ ys) ≡ false)
Distinct-remove a [] ys d = (d.1, d.0)
Distinct-remove a (x ∷ xs) ys d =
    let r = Distinct-remove a xs ys d.1 in
    (
      (ground (arith, has-append x xs ys, has-append x xs (a ∷ ys), d.0), r.0),
      ground (arith, r.1, has-append x xs (a ∷ ys), d.0),
    )

-- A ring survives every change outside it.
pub IsRing-frame :
    {m m' : Links} (head : Ptr) (xs : List Ptr)
    → IsRing m head xs
    → ((p : Ptr) → has p (head ∷ xs) ≡ true → m'.next p ≡ m.next p)
    → ((p : Ptr) → has p (head ∷ xs) ≡ true → m'.prev p ≡ m.prev p)
    → IsRing m' head xs
IsRing-frame head xs r keep_next keep_prev = record {
  chain =
      Seg-frame head (xs ++ (head ∷ [])) r.chain (λ p h. keep_next p (src_end p head head xs h))
        (λ p h. keep_prev p (ground (arith, has-append p xs (head ∷ []))));
  distinct = r.distinct;
}
