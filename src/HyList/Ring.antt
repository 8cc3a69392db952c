-- ===== src/HyList/Ring.antt =====
-- Rings of nodes: what a list head stands for.
use mathlib.Core.Bool.{false≢true}
use libhy_utils_bak.Base.{
  ◌≡◌, refl, sym, ap, ◌∙◌, Bool, true, false, ◌||◌, List, [], ◌∷◌, ◌++◌, arith, ◌==◌, inl, inr,
  Bool-cases, ==_iff, ==_refl,
}
use libhy_utils_bak.HyList.{Ptr, Links}

abbrev pub has : Ptr → List Ptr → Bool
has a [] = false
has a (x ∷ xs) = (a == x) || has a xs

abbrev pub Distinct : List Ptr → Type 0
Distinct [] = Unit {0}
Distinct (x ∷ xs) = (has x xs ≡ false) × Distinct xs

-- the node before the end of a stretch that starts behind `a`, and the node where one starts
abbrev pub last : Ptr → List Ptr → Ptr
last a [] = a
last a (x ∷ xs) = last x xs

abbrev pub first : List Ptr → Ptr → Ptr
first [] e = e
first (x ∷ xs) e = x

-- what comes behind the first node
abbrev pub rest : List Ptr → Ptr → List Ptr
rest [] e = []
rest (x ∷ xs) e = xs ++ (e ∷ [])

abbrev pub Link : Links → Ptr → Ptr → Type 0
Link m a b = (m.next a ≡ b) × (m.prev b ≡ a)

-- From `a` the `next` pointers lead through `xs`, and the `prev` pointers lead back.
abbrev pub Seg : Links → Ptr → List Ptr → Type 0
Seg m a [] = Unit {0}
Seg m a (x ∷ xs) = Link m a x × Seg m x xs

-- The list at `head` holds the entries `xs`, which are different nodes.
pub record IsRing (m : Links) (head : Ptr) (xs : List Ptr) : Type 0 where
  pub chain : Seg m head (xs ++ (head ∷ []))
  pub distinct : Distinct (head ∷ xs)

module _ (m : Links) where
  pub Seg-append :
      (a : Ptr) (xs ys : List Ptr) → Seg m a xs → Seg m (last a xs) ys → Seg m a (xs ++ ys)
  Seg-append a [] ys s t = t
  Seg-append a (x ∷ xs) ys s t = (s.0, Seg-append x xs ys s.1 t)

  pub Seg-left : (a : Ptr) (xs ys : List Ptr) → Seg m a (xs ++ ys) → Seg m a xs
  Seg-left a [] ys s = tt
  Seg-left a (x ∷ xs) ys s = (s.0, Seg-left x xs ys s.1)

  pub Seg-right : (a : Ptr) (xs ys : List Ptr) → Seg m a (xs ++ ys) → Seg m (last a xs) ys
  Seg-right a [] ys s = s
  Seg-right a (x ∷ xs) ys s = Seg-right x xs ys s.1

-- the nodes of a stretch whose `next` is followed
abbrev pub src : Ptr → Ptr → List Ptr → Bool
src p a [] = false
src p a (x ∷ xs) = (p == a) || src p x xs

-- A stretch survives every change that spares the pointers that it follows.
pub Seg-frame :
    {m m' : Links} (a : Ptr) (xs : List Ptr)
    → Seg m a xs
    → ((p : Ptr) → src p a xs ≡ true → m'.next p ≡ m.next p)
    → ((p : Ptr) → has p xs ≡ true → m'.prev p ≡ m.prev p)
    → Seg m' a xs
Seg-frame a [] s keep_next keep_prev = tt
Seg-frame a (x ∷ xs) s keep_next keep_prev = (
  (keep_next a (ground arith) ∙ s.0.0, keep_prev x (ground arith) ∙ s.0.1),
  Seg-frame x xs s.1 (λ p h. keep_next p (ground arith)) (λ p h. keep_prev p (ground arith)),
)

pub has-append : (p : Ptr) (xs ys : List Ptr) → has p (xs ++ ys) ≡ (has p xs || has p ys)
has-append p [] ys = refl
has-append p (x ∷ xs) ys = ground (arith, has-append p xs ys)

pub src-append :
    (p a : Ptr) (xs ys : List Ptr) → src p a (xs ++ ys) ≡ (src p a xs || src p (last a xs) ys)
src-append p a [] ys = refl
src-append p a (x ∷ xs) ys = ground (arith, src-append p x xs ys)

pub src-has : (p a : Ptr) (xs : List Ptr) → src p a xs ≡ true → has p (a ∷ xs) ≡ true
src-has p a [] h = ground arith
src-has p a (x ∷ xs) h = ground (arith, src-has p x xs)

pub has-last : (a : Ptr) (xs : List Ptr) → has (last a xs) (a ∷ xs) ≡ true
has-last a [] = ground arith
has-last a (x ∷ xs) = ground (arith, has-last x xs)

-- Two nodes that a test tells apart are different.
pub ne_of_test : (f : Ptr → Bool) (a b : Ptr) → f a ≡ true → f b ≡ false → (a == b) ≡ false
ne_of_test f a b h k = elim (Bool-cases (a == b)) [
  | inl e ↦ absurd (false≢true (sym k ∙ ap f (sym ((==_iff a b).0 e)) ∙ h))
  | inr e ↦ e
]

-- A node of a list differs from one that is not in it.
pub has-ne : (xs : List Ptr) (a b : Ptr) → has a xs ≡ true → has b xs ≡ false → (a == b) ≡ false
has-ne xs a b = ne_of_test (λ q. has q xs) a b

-- The last node of a stretch of different nodes is none of those whose `next` is followed.
pub src-last : (a : Ptr) (xs : List Ptr) → Distinct (a ∷ xs) → src (last a xs) a xs ≡ false
src-last a [] d = refl
src-last a (x ∷ xs) d =
    ground (arith, src-last x xs d.1, has-ne (x ∷ xs) (last x xs) a (has-last x xs) d.0)

pub Distinct-left : (xs ys : List Ptr) → Distinct (xs ++ ys) → Distinct xs
Distinct-left [] ys d = tt
Distinct-left (x ∷ xs) ys d = (ground (arith, d.0, has-append x xs ys), Distinct-left xs ys d.1)

pub Distinct-right : (xs ys : List Ptr) → Distinct (xs ++ ys) → Distinct ys
Distinct-right [] ys d = d
Distinct-right (x ∷ xs) ys d = Distinct-right xs ys d.1

pub Distinct-apart :
    (xs ys : List Ptr) (a : Ptr) → Distinct (xs ++ ys) → has a xs ≡ true → has a ys ≡ false
Distinct-apart [] ys a d h = cc
Distinct-apart (x ∷ xs) ys a d h = elim (Bool-cases (a == x)) [
  | inl e ↦ rw ((==_iff a x).0 e) (ground (arith, d.0, has-append x xs ys))
  | inr e ↦ Distinct-apart xs ys a d.1 (ground arith)
]

pub Distinct-append :
    (xs ys : List Ptr)
    → Distinct xs
    → Distinct ys
    → ((a : Ptr) → has a xs ≡ true → has a ys ≡ false)
    → Distinct (xs ++ ys)
Distinct-append [] ys d e apart = e
Distinct-append (x ∷ xs) ys d e apart = (
  ground (arith, d.0, has-append x xs ys, apart x, ==_refl x),
  Distinct-append xs ys d.1 e (λ a h. apart a (ground arith)),
)
