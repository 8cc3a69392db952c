-- ===== src/Timer/Delete.antt =====
-- Taking timers out of a wheel.
use mathlib.Core.Path.{subst}
use mathlib.Core.Bool.{false≢true}
use mathlib.Core.List.{Memᴰ}
use mathlib.Core.List.Memᴰ.{head, tail}
use libhy_utils_bak.Base.{
  ℕ, zero, suc, ◌≡◌, refl, sym, ap, ◌∙◌, true, false, none, some, List, [], ◌∷◌, ◌==◌, length,
  arith, Bool-cases, inl, inr, ◌⊎◌, ==_refl,
}
use libhy_utils_bak.Timer.{Timer, Wheel, del_from, del_slots, hy_timer_del}
use libhy_utils_bak.Timer.Turn.{count}
use libhy_utils_bak.Timer.Due.{At}

module _ (handle : ℕ) where
  -- what is left of a list that the handle is taken from
  record Taken (ts : List Timer) : Type 0 where
    left : List Timer
    result : del_from handle ts ≡ some left
    shorter : suc (length left) ≡ length ts
    keeps : (u : Timer) → Memᴰ u ts → (handle == u.handle) ≡ false → Memᴰ u left

  Taken-first : (t : Timer) (ts : List Timer) → (handle == t.handle) ≡ true → Taken (t ∷ ts)
  unfolding del_from
  Taken-first t ts b = record { left = ts; result = rw b refl; shorter = refl; keeps = keeps }
    where
      keeps : (u : Timer) → Memᴰ u (t ∷ ts) → (handle == u.handle) ≡ false → Memᴰ u ts
      keeps u (head e) ne = absurd (ground (arith, b, ne, ap (λ (y : Timer). y.handle) e))
      keeps u (tail h) ne = h

  Taken-later :
      (t : Timer) (ts : List Timer) → (handle == t.handle) ≡ false → Taken ts → Taken (t ∷ ts)
  unfolding del_from
  Taken-later t ts b r = record {
    left = t ∷ r.left;
    result = rw b (rw (r.result) refl);
    shorter = ap suc r.shorter;
    keeps = keeps;
  }
    where
      keeps : (u : Timer) → Memᴰ u (t ∷ ts) → (handle == u.handle) ≡ false → Memᴰ u (t ∷ r.left)
      keeps u (head e) ne = head e
      keeps u (tail h) ne = tail (r.keeps u h ne)

  -- Either the handle is taken from a list, or it is not in it.
  record Missing (ts : List Timer) : Type 0 where
    result : del_from handle ts ≡ none
    none_there : (t : Timer) → Memᴰ t ts → (handle == t.handle) ≡ false

  look_in : (ts : List Timer) → Taken ts ⊎ Missing ts
  unfolding del_from
  look_in [] = inr (record { result = refl; none_there = λ t h. elim h [ ] })
  look_in (t ∷ ts) = elim (Bool-cases (handle == t.handle)) [
    | inl b ↦ inl (Taken-first t ts b)
    | inr b ↦ elim (look_in ts) [
      | inl r ↦ inl (Taken-later t ts b r)
      | inr r ↦
          inr (record { result = rw b (rw (r.result) refl); none_there = λ u h. absent u b r h })
    ]
  ]
    where
      absent :
          (u : Timer)
          → (handle == t.handle) ≡ false
          → Missing ts
          → Memᴰ u (t ∷ ts)
          → (handle == u.handle) ≡ false
      absent u b r (head e) = subst (λ (y : Timer). (handle == y.handle) ≡ false) (sym e) b
      absent u b r (tail h) = r.none_there u h

  record TakenOnce (slots : List (List Timer)) : Type 0 where
    left : List (List Timer)
    result : del_slots handle slots ≡ some left
    fewer : suc (count left) ≡ count slots
    keeps : (r : ℕ) (u : Timer) → At r u slots → (handle == u.handle) ≡ false → At r u left

  once_here :
      (slot : List Timer) (slots : List (List Timer)) → Taken slot → TakenOnce (slot ∷ slots)
  unfolding del_slots
  once_here slot slots t = record {
    left = t.left ∷ slots;
    result = rw (del_slots, t.result) refl;
    fewer = omega (arith, t.shorter);
    keeps = keeps;
  }
    where
      keeps :
          (r : ℕ) (u : Timer)
          → At r u (slot ∷ slots)
          → (handle == u.handle) ≡ false
          → At r u (t.left ∷ slots)
      keeps zero u h ne = t.keeps u h ne
      keeps (suc r) u h ne = h

  once_there :
      (slot : List Timer) (slots : List (List Timer))
      → Missing slot
      → TakenOnce slots
      → TakenOnce (slot ∷ slots)
  unfolding del_slots
  once_there slot slots m o = record {
    left = slot ∷ o.left;
    result = rw (del_slots, m.result) (rw (o.result) refl);
    fewer = omega (arith, o.fewer);
    keeps = keeps;
  }
    where
      keeps :
          (r : ℕ) (u : Timer)
          → At r u (slot ∷ slots)
          → (handle == u.handle) ≡ false
          → At r u (slot ∷ o.left)
      keeps zero u h ne = h
      keeps (suc r) u h ne = o.keeps r u h ne

  once :
      (s : ℕ) (t : Timer) (slots : List (List Timer))
      → At s t slots
      → (handle == t.handle) ≡ true
      → TakenOnce slots
  once s t [] h e = elim h [ ]
  once zero t (slot ∷ slots) h e = elim (look_in slot) [
    | inl r ↦ once_here slot slots r
    | inr r ↦ absurd (false≢true (sym (r.none_there t h) ∙ e))
  ]
  once (suc s) t (slot ∷ slots) h e = elim (look_in slot) [
    | inl r ↦ once_here slot slots r
    | inr r ↦ once_there slot slots r (once s t slots h e)
  ]

-- every timer with another handle stays in its slot
pub record KeepsOthers (handle : ℕ) (slots slots' : List (List Timer)) : Type 0 where
  pub stays : (r : ℕ) (u : Timer) → At r u slots → (handle == u.handle) ≡ false → At r u slots'

-- `HyTimerDel` of a timer that the wheel holds clears the caller's handle and takes exactly one timer
-- out; every timer with another handle stays in its slot.
pub del_takes_one :
    (w : Wheel) (s : ℕ) (t : Timer)
    → At s t w.list_head
    → (slots : List (List Timer)) × (hy_timer_del (some (some t.handle)) w
        ≡ (some none, record w { list_head = slots }))
      × (suc (count slots) ≡ count w.list_head)
      × KeepsOthers t.handle w.list_head slots
unfolding hy_timer_del
del_takes_one w s t h =
    let o = once t.handle s t w.list_head h (==_refl t.handle) in
    (o.left, rw (hy_timer_del, o.result) refl, o.fewer, record { stays = o.keeps })
