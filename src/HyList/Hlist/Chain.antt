-- ===== src/HyList/Hlist/Chain.antt =====
-- Insertion, removal and a walk over the single-pointer lists, as a list's.
use libhy_utils_bak.Base.{
  ℕ, zero, suc, ◌<◌, ◌≡◌, refl, sym, ap, ◌∙◌, true, false, List, [], ◌∷◌, ◌++◌, some, arith, ◌==◌,
  length,
}
use mathlib.Core.List.{append-nil}
use libhy_utils_bak.HyList.{Ptr, Links, list_poison1, list_poison2}
use libhy_utils_bak.HyList.Ring.{
  has, Distinct, last, Seg, Seg-append, Seg-left, Seg-right, src, Seg-frame, has-append, src-has,
  has-last, ne_of_test, has-ne, src-last, Distinct-left, Distinct-right, Distinct-apart,
}
use libhy_utils_bak.HyList.Arcs.{Distinct-remove}
use libhy_utils_bak.HyList.Moves.{==_swap}
use libhy_utils_bak.HyList.Hlist.{null, hlist_add_head, hlist_unlink, hlist_del, hlist_for_each}

-- The list at `head` holds the nodes `xs`, which are different, and the last one's `next` is NULL.
pub record IsChain (m : Links) (head : Ptr) (xs : List Ptr) : Type 0 where
  pub chain : Seg m head xs
  pub end : m.next (last head xs) ≡ null
  pub distinct : Distinct (head ∷ xs)
  pub live : has null (head ∷ xs) ≡ false

-- `hlist_add_head` of a node that is not in the list puts it first.
pub hlist_add_head-cons :
    {m : Links} {head : Ptr} (xs : List Ptr)
    → IsChain m head xs
    → (n : Ptr) → has n (null ∷ head ∷ xs) ≡ false
    → IsChain (hlist_add_head n head m) head (n ∷ xs)
unfolding hlist_add_head
hlist_add_head-cons {m} {head} [] r n out = record {
  chain = ((ground (arith, r.end), ground (arith, r.end)), tt);
  end = ground (arith, r.end);
  distinct = (ground arith, (refl, tt));
  live = ground (arith, r.live);
}
hlist_add_head-cons {m} {head} (x ∷ xs) r n out =
    let d : has x xs ≡ false = r.distinct.1.0 in
    let f : m.next head ≡ x = r.chain.0.0 in
    let away = λ (p : Ptr) (h : has p (x ∷ xs) ≡ true). has-ne (x ∷ xs) p head h r.distinct.0 in
    let other = λ (p : Ptr) (h : has p (x ∷ xs) ≡ true). has-ne (x ∷ xs) p n h (ground arith) in
    record {
      chain = (
        (ground (arith, f, r.live), ground (arith, f, r.live)),
        (
          (ground (arith, f, r.live), ground (arith, f, r.live)),
          Seg-frame x xs r.chain.1
              (λ p h. let i = src-has p x xs h in ground (arith, f, r.live, away p i, other p i))
              (λ p h. ground (arith, f, r.live, has-ne xs p x h d, has-ne xs p n h (ground arith))),
        ),
      );
      end =
          let i = has-last x xs in
          ground (arith, f, r.live, r.end, away (last x xs) i, other (last x xs) i);
      distinct = (ground (arith, r.distinct.0), (ground arith, r.distinct.1));
      live = ground (arith, r.live);
    }

last-through : (a b : Ptr) (xs ys : List Ptr) → last a (xs ++ (b ∷ ys)) ≡ last b ys
last-through a b [] ys = refl
last-through a b (x ∷ xs) ys = last-through x b xs ys

-- What removal leaves of the memory, and the link that it makes.
module _ (m : Links) (e : Ptr) where
  next_kept :
      (p : Ptr) → (p == m.prev e) ≡ false → (p == e) ≡ false → (hlist_del e m).next p ≡ m.next p
  unfolding hlist_del hlist_unlink
  next_kept p h k = ground arith

  prev_kept :
      (p : Ptr) → (p == m.next e) ≡ false → (p == e) ≡ false → (hlist_del e m).prev p ≡ m.prev p
  unfolding hlist_del hlist_unlink
  prev_kept p h k = ground arith

  next_joined : (m.prev e == e) ≡ false → (hlist_del e m).next (m.prev e) ≡ m.next e
  unfolding hlist_del hlist_unlink
  next_joined h = ground arith

  prev_joined :
      (m.next e == null) ≡ false
      → (m.next e == e) ≡ false
      → (hlist_del e m).prev (m.next e) ≡ m.prev e
  unfolding hlist_del hlist_unlink
  prev_joined h k = ground arith

  poisoned : ((hlist_del e m).next e ≡ list_poison1) × ((hlist_del e m).prev e ≡ list_poison2)
  unfolding hlist_del
  poisoned = (ground arith, ground arith)

module _ {m : Links} {head : Ptr} (xs : List Ptr) (e : Ptr) where
  closed :
      (ys : List Ptr)
      → IsChain m head (xs ++ (e ∷ ys))
      → ((p : Ptr) → has p xs ≡ true → (p == m.next e) ≡ false)
      → Seg m head xs
      → Seg (hlist_del e m) head xs
  closed ys r apart s =
      let (d, out) = Distinct-remove e (head ∷ xs) ys r.distinct in
      let link = (Seg-right m head xs (e ∷ ys) r.chain).0 in
      Seg-frame head xs s
        (λ p h.
          next_kept m e p
            (rw link.1 (
              ne_of_test (λ q. src q head xs) p (last head xs) h
                (src-last head xs (Distinct-left (head ∷ xs) ys d))))
            (has-ne (head ∷ (xs ++ ys)) p e
              (ground (arith, src-has p head xs h, has-append p xs ys)) out))
        (λ p h.
          prev_kept m e p (apart p h)
            (has-ne (head ∷ (xs ++ ys)) p e (ground (arith, has-append p xs ys)) out))

  removed :
      (ys : List Ptr) → IsChain m head (xs ++ (e ∷ ys)) → IsChain (hlist_del e m) head (xs ++ ys)
  removed [] r =
      let (d, out) = Distinct-remove e (head ∷ xs) [] r.distinct in
      let link = (Seg-right m head xs (e ∷ []) r.chain).0 in
      let stop : m.next e ≡ null = ap m.next (sym (last-through head e xs [])) ∙ r.end in
      let lives : has null xs ≡ false = ground (arith, r.live, has-append null xs (e ∷ [])) in
      let ne : (last head xs == e) ≡ false =
        has-ne (head ∷ xs) (last head xs) e (has-last head xs) (rw append-nil at out) in
      rw append-nil (record {
        chain =
            closed [] r (λ p h. rw stop (has-ne xs p null h lives))
              (Seg-left m head xs (e ∷ []) r.chain);
        end = rw (sym link.1) (next_joined m e (rw link.1 ne) ∙ stop);
        distinct = rw append-nil at d;
        live = ground (arith, r.live, lives);
      })
  removed (y ∷ ys) r =
      let (d, out) = Distinct-remove e (head ∷ xs) (y ∷ ys) r.distinct in
      let across = Seg-right m head xs (e ∷ y ∷ ys) r.chain in
      let prev_e : m.prev e ≡ last head xs = across.0.1 in
      let next_e : m.next e ≡ y = across.1.0.0 in
      let apart : has (last head xs) (y ∷ ys) ≡ false =
        Distinct-apart (head ∷ xs) (y ∷ ys) (last head xs) d (has-last head xs) in
      let ne : (last head xs == e) ≡ false =
        has-ne (head ∷ (xs ++ (y ∷ ys))) (last head xs) e
          (ground (arith, has-last head xs, has-append (last head xs) xs (y ∷ ys))) out in
      let other = λ (p : Ptr) (h : has p (y ∷ ys) ≡ true).
        has-ne (head ∷ (xs ++ (y ∷ ys))) p e (ground (arith, has-append p xs (y ∷ ys))) out in
      let kept = λ (p : Ptr) (h : has p (y ∷ ys) ≡ true).
        next_kept m e p (rw prev_e (has-ne (y ∷ ys) p (last head xs) h apart)) (other p h) in
      let lives : (y == null) ≡ false =
        ground (arith, r.live, has-append null xs (e ∷ y ∷ ys), ==_swap null y) in
      let d' : Distinct (y ∷ ys) = Distinct-right xs (y ∷ ys) d.1 in
      record {
        chain =
            Seg-append _ head xs (y ∷ ys)
              (closed (y ∷ ys) r
                (λ p h. rw next_e (ground (arith, Distinct-apart xs (y ∷ ys) p d.1 h)))
                (Seg-left m head xs (e ∷ y ∷ ys) r.chain))
              (
                (
                  ap (hlist_del e m).next (sym prev_e) ∙ next_joined m e (rw prev_e ne) ∙ next_e,
                  ap (hlist_del e m).prev (sym next_e)
                      ∙ prev_joined m e (rw next_e lives) (rw next_e (other y (ground arith)))
                      ∙ prev_e,
                ),
                Seg-frame y ys across.1.1 (λ p h. kept p (src-has p y ys h))
                    (λ p h.
                      prev_kept m e p (rw next_e (has-ne ys p y h d'.0)) (other p (ground arith))),
              );
        end =
            ap (hlist_del e m).next (last-through head y xs ys)
            ∙ kept (last y ys) (has-last y ys)
            ∙ ap m.next (sym (last-through head e xs (y ∷ ys)))
            ∙ r.end;
        distinct = d;
        live = ground (arith, r.live, has-append null xs (e ∷ y ∷ ys), has-append null xs (y ∷ ys));
      }

  -- `hlist_del` takes a node out of its list, and poisons its two pointers.
  pub hlist_del-remove :
      (ys : List Ptr)
      → IsChain m head (xs ++ (e ∷ ys))
      → IsChain (hlist_del e m) head (xs ++ ys)
        × ((hlist_del e m).next e ≡ list_poison1)
        × ((hlist_del e m).prev e ≡ list_poison2)
  hlist_del-remove ys r = (removed ys r, (poisoned m e).0, (poisoned m e).1)

walk :
    (m : Links) (fuel : ℕ) (a : Ptr) (xs : List Ptr)
    → Seg m a xs
    → m.next (last a xs) ≡ null
    → has null xs ≡ false
    → length xs < fuel
    → hlist_for_each fuel (m.next a) m ≡ some xs
unfolding hlist_for_each
walk m zero a xs s end live h = absurd (omega arith)
walk m (suc fuel) a [] s end live h = ground (arith, end)
walk m (suc fuel) a (x ∷ xs) s end live h =
    ground (arith, s.0.0, live, walk m fuel x xs s.1 end (ground arith) (omega arith))

-- With more fuel than nodes `hlist_for_each` ends, and has visited exactly the nodes in order.
pub hlist_for_each-nodes :
    {m : Links} {head : Ptr} (xs : List Ptr) (fuel : ℕ)
    → IsChain m head xs
    → length xs < fuel
    → hlist_for_each fuel (m.next head) m ≡ some xs
hlist_for_each-nodes {m} {head} xs fuel r h =
    walk m fuel head xs r.chain r.end (ground (arith, r.live)) h
