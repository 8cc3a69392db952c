-- ===== src/Timer/Turn.antt =====
-- The wheel's invariant, and what a round leaves of the whole wheel.
use native.Mathlib.Nat.{mod-lt}
use libhy_utils_bak.Base.{
  ℕ, zero, suc, ◌+◌, ◌%◌, ◌^◌, ◌≤◌, ◌<◌, ◌≡◌, refl, ◌∙◌, Bool, true, false, not, ◌&&◌, some, List,
  [], ◌∷◌, ◌++◌, ltb, ◌==◌, u32, get_elem?, get_or, set, length, arith, Bool-cases, inl, inr,
  length-set,
}
use libhy_utils_bak.Timer.{is_repeat, Timer, Wheel, next_slot, rewind, tick}
use libhy_utils_bak.Timer.Round.{
  put_at, is_off_turn, all_off_turn, requeue, made_all, staying_all, requeue_all, length-requeue,
  visit_all_lem,
}

abbrev pub is_off_turn_wheel : ℕ → List (List Timer) → Bool
is_off_turn_wheel n [] = true
is_off_turn_wheel n (slot ∷ slots) = all_off_turn n slot && is_off_turn_wheel n slots

-- how many timers the slots hold
abbrev pub count : List (List Timer) → ℕ
count [] = 0
count (slot ∷ slots) = length slot + count slots

-- A running wheel in which no timer repeats after whole turns.
pub record IsWheel (w : Wheel) : Type 0 where
  pub in_range : w.cur_slot < w.slot_num
  pub word : w.slot_num < 2 ^ 32
  pub whole : length w.list_head ≡ w.slot_num
  pub off_turn : is_off_turn_wheel w.slot_num w.list_head ≡ true
  pub running : w.exit_flag ≡ false

-- the timers of the slot that is visited next, and the wheel when it has been
abbrev pub current : Wheel → List Timer
current w = get_or w.list_head w.cur_slot []

abbrev pub after : Wheel → Wheel
after w = record w {
  list_head =
      set (requeue_all w.slot_num w.cur_slot (current w) w.list_head) w.cur_slot
        (staying_all (current w));
  cur_slot = u32 (w.cur_slot + 1) % w.slot_num;
}

get_elem?-get_or :
    (slots : List (List Timer)) (i : ℕ)
    → i < length slots
    → get_elem? slots i ≡ some (get_or slots i [])
get_elem?-get_or [] i h = absurd (omega arith)
get_elem?-get_or (slot ∷ slots) zero h = refl
get_elem?-get_or (slot ∷ slots) (suc i) h = get_elem?-get_or slots i (omega arith)

all_off_turn-append :
    (n : ℕ) (xs ys : List Timer)
    → all_off_turn n (xs ++ ys) ≡ (all_off_turn n xs && all_off_turn n ys)
all_off_turn-append n [] ys = refl
all_off_turn-append n (x ∷ xs) ys = ground (arith, all_off_turn-append n xs ys)

off_turn-put_at :
    (n i : ℕ) (t : Timer) (slots : List (List Timer))
    → is_off_turn n t ≡ true
    → is_off_turn_wheel n slots ≡ true
    → is_off_turn_wheel n (put_at i t slots) ≡ true
off_turn-put_at n i t [] h k = refl
off_turn-put_at n zero t (slot ∷ slots) h k = ground (arith, all_off_turn-append n slot (t ∷ []))
off_turn-put_at n (suc i) t (slot ∷ slots) h k = ground (arith, off_turn-put_at n i t slots)

pub off_turn-get_or :
    (n i : ℕ) (slots : List (List Timer))
    → is_off_turn_wheel n slots ≡ true
    → all_off_turn n (get_or slots i []) ≡ true
off_turn-get_or n i [] h = refl
off_turn-get_or n zero (slot ∷ slots) h = ground arith
off_turn-get_or n (suc i) (slot ∷ slots) h = off_turn-get_or n i slots (ground arith)

off_turn-set :
    (n i : ℕ) (ts : List Timer) (slots : List (List Timer))
    → all_off_turn n ts ≡ true
    → is_off_turn_wheel n slots ≡ true
    → is_off_turn_wheel n (set slots i ts) ≡ true
off_turn-set n i ts [] h k = refl
off_turn-set n zero ts (slot ∷ slots) h k = ground arith
off_turn-set n (suc i) ts (slot ∷ slots) h k = ground (arith, off_turn-set n i ts slots)

off_turn-staying :
    (n : ℕ) (ts : List Timer) → all_off_turn n ts ≡ true → all_off_turn n (staying_all ts) ≡ true
off_turn-staying n [] h = refl
off_turn-staying n (t ∷ ts) h = elim (Bool-cases (ltb 0 t.rotation)) [
  | inl e ↦ rw e (ground (arith, off_turn-staying n ts))
  | inr e ↦ rw e (off_turn-staying n ts (ground arith))
]

module _ (n cur : ℕ) where
  off_turn-requeue_all :
      (ts : List Timer) (slots : List (List Timer))
      → all_off_turn n ts ≡ true
      → is_off_turn_wheel n slots ≡ true
      → is_off_turn_wheel n (requeue_all n cur ts slots) ≡ true
  off_turn-requeue_all [] slots h k = k
  off_turn-requeue_all (t ∷ ts) slots h k =
      off_turn-requeue_all ts (requeue n cur t slots) (ground arith)
        (elim (Bool-cases (not (ltb 0 t.rotation) && is_repeat t.timer_config.repeat_flag)) [
          | inl e ↦ rw e (off_turn-put_at n (next_slot n cur t) (rewind n t) slots (ground arith) k)
          | inr e ↦ rw e k
        ])

  pub length-requeue_all :
      (ts : List Timer) (slots : List (List Timer))
      → length (requeue_all n cur ts slots) ≡ length slots
  length-requeue_all [] slots = refl
  length-requeue_all (t ∷ ts) slots =
      length-requeue_all ts (requeue n cur t slots) ∙ length-requeue n cur t slots

pub count-get_or : (i : ℕ) (slots : List (List Timer)) → length (get_or slots i []) ≤ count slots
count-get_or i [] = omega arith
count-get_or zero (slot ∷ slots) = omega arith
count-get_or (suc i) (slot ∷ slots) = omega (arith, count-get_or i slots)

module _ {w : Wheel} (v : IsWheel w) where
  -- A round makes the calls of the timers that are due, in order, and leaves the wheel that `after`
  -- says.
  pub tick_lem :
      (fuel : ℕ) → count w.list_head < fuel → tick fuel w ≡ some (made_all (current w), after w)
  unfolding tick
  tick_lem fuel h =
      let off = off_turn-get_or w.slot_num w.cur_slot w.list_head v.off_turn in
      let some_slot : (w.slot_num == 0) ≡ false = ground (arith, v.in_range) in
      rw (get_elem?-get_or w.list_head w.cur_slot (omega (arith, v.whole, v.in_range))) (
        rw
          (visit_all_lem w.slot_num w.cur_slot v.in_range v.word (current w) fuel [] w.list_head off
            v.whole (omega (arith, count-get_or w.cur_slot w.list_head)))
          (rw some_slot refl))

  pub after-IsWheel : IsWheel (after w)
  after-IsWheel =
      let slots = requeue_all w.slot_num w.cur_slot (current w) w.list_head in
      let off = off_turn-get_or w.slot_num w.cur_slot w.list_head v.off_turn in
      record {
        in_range = mod-lt (u32 (w.cur_slot + 1)) (omega (arith, v.in_range));
        word = v.word;
        whole =
            length-set slots w.cur_slot (staying_all (current w))
            ∙ (length-requeue_all w.slot_num w.cur_slot (current w) w.list_head ∙ v.whole);
        off_turn =
            off_turn-set w.slot_num w.cur_slot (staying_all (current w)) slots
              (off_turn-staying w.slot_num (current w) off)
              (off_turn-requeue_all w.slot_num w.cur_slot (current w) w.list_head off v.off_turn);
        running = v.running;
      }
