-- ===== src/Timer/Count.antt =====
-- A round leaves no more timers in the wheel than there were.
use libhy_utils_bak.Base.{
  ℕ, zero, suc, ◌+◌, ◌≤◌, ◌<◌, ◌≡◌, not, ◌&&◌, List, [], ◌∷◌, ltb, get_or, set, length, arith,
  Bool-cases, inl, inr, length-append,
}
use libhy_utils_bak.Timer.{is_repeat, Timer, Wheel, next_slot, rewind}
use libhy_utils_bak.Timer.Round.{put_at, requeue, staying_all, requeue_all}
use libhy_utils_bak.Timer.Turn.{IsWheel, current, after, count, length-requeue_all}

count-put_at :
    (i : ℕ) (t : Timer) (slots : List (List Timer)) → count (put_at i t slots) ≤ suc (count slots)
count-put_at i t [] = omega arith
count-put_at zero t (slot ∷ slots) = omega (arith, length-append slot (t ∷ []))
count-put_at (suc i) t (slot ∷ slots) = omega (arith, count-put_at i t slots)

count-set :
    (i : ℕ) (ts : List Timer) (slots : List (List Timer))
    → i < length slots
    → count (set slots i ts) + length (get_or slots i []) ≡ count slots + length ts
count-set i ts [] h = absurd (omega arith)
count-set zero ts (slot ∷ slots) h = omega arith
count-set (suc i) ts (slot ∷ slots) h = omega (arith, count-set i ts slots (omega arith))

slot-put_at :
    (j i : ℕ) (t : Timer) (slots : List (List Timer))
    → length (get_or slots j []) ≤ length (get_or (put_at i t slots) j [])
slot-put_at j i t [] = omega arith
slot-put_at zero zero t (slot ∷ slots) = omega (arith, length-append slot (t ∷ []))
slot-put_at (suc j) zero t (slot ∷ slots) = omega arith
slot-put_at zero (suc i) t (slot ∷ slots) = omega arith
slot-put_at (suc j) (suc i) t (slot ∷ slots) = slot-put_at j i t slots

module _ (n cur : ℕ) where
  slot-requeue_all :
      (j : ℕ) (ts : List Timer) (slots : List (List Timer))
      → length (get_or slots j []) ≤ length (get_or (requeue_all n cur ts slots) j [])
  slot-requeue_all j [] slots = omega arith
  slot-requeue_all j (t ∷ ts) slots =
      omega (arith, one, slot-requeue_all j ts (requeue n cur t slots))
    where
      one : length (get_or slots j []) ≤ length (get_or (requeue n cur t slots) j [])
      one = elim (Bool-cases (not (ltb 0 t.rotation) && is_repeat t.timer_config.repeat_flag)) [
        | inl e ↦ rw e (slot-put_at j (next_slot n cur t) (rewind n t) slots)
        | inr e ↦ rw e (omega arith)
      ]

  count-requeue_all :
      (ts : List Timer) (slots : List (List Timer))
      → count (requeue_all n cur ts slots) + length (staying_all ts) ≤ count slots + length ts
  count-requeue_all [] slots = omega arith
  count-requeue_all (t ∷ ts) slots = elim (Bool-cases (ltb 0 t.rotation)) [
    | inl e ↦ rw e (omega (arith, count-requeue_all ts slots))
    | inr e ↦ elim (Bool-cases (is_repeat t.timer_config.repeat_flag)) [
      | inr m ↦ rw (e, m) (omega (arith, count-requeue_all ts slots))
      | inl m ↦
          let slots' = put_at (next_slot n cur t) (rewind n t) slots in
          rw (e, m)
            (omega (
              arith,
              count-requeue_all ts slots',
              count-put_at (next_slot n cur t) (rewind n t) slots,
            ))
    ]
  ]

pub count-after : {w : Wheel} → IsWheel w → count (after w).list_head ≤ count w.list_head
count-after {w} v =
    let slots = requeue_all w.slot_num w.cur_slot (current w) w.list_head in
    let size = length-requeue_all w.slot_num w.cur_slot (current w) w.list_head in
    omega (
      arith,
      count-set w.cur_slot (staying_all (current w)) slots
          (omega (arith, size, v.whole, v.in_range)),
      count-requeue_all w.slot_num w.cur_slot (current w) w.list_head,
      slot-requeue_all w.slot_num w.cur_slot w.cur_slot (current w) w.list_head,
    )
