-- ===== src/Timer/Round.antt =====
-- One round over a slot, in closed form.
use mathlib.Core.List.{append_assoc, append-nil}
use native.Mathlib.Nat.{mod-lt, mod-add-mod}
use libhy_utils_bak.Bits.{mod_turn}
use libhy_utils_bak.Base.{
  ℕ, zero, suc, ◌+◌, ◌-◌, ◌%◌, ◌^◌, ◌<◌, ◌≡◌, refl, ap, ◌∙◌, Bool, true, false, not, ◌&&◌, some,
  List, [], ◌∷◌, ◌++◌, ltb, ◌==◌, if◌then◌else◌, u64, length, arith, Bool-cases, inl, inr,
}
use libhy_utils_bak.Timer.{
  is_repeat, Timer, Call, Cursor, add_at, calls_of, next_slot, rewind, visit, visit_all,
}

-- the list of a slot with a timer put behind
abbrev pub put_at : ℕ → Timer → List (List Timer) → List (List Timer)
put_at i t [] = []
put_at zero t (slot ∷ slots) = (slot ++ (t ∷ [])) ∷ slots
put_at (suc i) t (slot ∷ slots) = slot ∷ put_at i t slots

pub add_at-some :
    (i : ℕ) (t : Timer) (slots : List (List Timer))
    → i < length slots
    → add_at i t slots ≡ some (put_at i t slots)
unfolding add_at
add_at-some i t [] h = absurd (omega arith)
add_at-some zero t (slot ∷ slots) h = refl
add_at-some (suc i) t (slot ∷ slots) h = rw (add_at-some i t slots (omega arith)) refl

pub length-put_at :
    (i : ℕ) (t : Timer) (slots : List (List Timer)) → length (put_at i t slots) ≡ length slots
length-put_at i t [] = refl
length-put_at zero t (slot ∷ slots) = refl
length-put_at (suc i) t (slot ∷ slots) = ap suc (length-put_at i t slots)

-- a timer that is not one that repeats after whole turns of the wheel
abbrev pub is_off_turn : ℕ → Timer → Bool
is_off_turn n t = not (is_repeat t.timer_config.repeat_flag && (t.timer_config.expires % n == 0))

abbrev pub all_off_turn : ℕ → List Timer → Bool
all_off_turn n [] = true
all_off_turn n (t ∷ ts) = is_off_turn n t && all_off_turn n ts

-- what a visit of one timer does: the calls, what stays, what goes to another slot
abbrev pub made : Timer → List Call
made t = if ltb 0 t.rotation then [] else calls_of t

abbrev pub staying : Timer → List Timer
staying t = if ltb 0 t.rotation then record t { rotation = t.rotation - 1 } ∷ [] else []

abbrev pub requeue : (slot_num cur_slot : ℕ) → Timer → List (List Timer) → List (List Timer)
requeue n cur t slots =
    if not (ltb 0 t.rotation) && is_repeat t.timer_config.repeat_flag
    then put_at (next_slot n cur t) (rewind n t) slots
    else slots

abbrev pub made_all : List Timer → List Call
made_all [] = []
made_all (t ∷ ts) = made t ++ made_all ts

abbrev pub staying_all : List Timer → List Timer
staying_all [] = []
staying_all (t ∷ ts) = staying t ++ staying_all ts

abbrev pub requeue_all :
    (slot_num cur_slot : ℕ) → List Timer → List (List Timer) → List (List Timer)
requeue_all n cur [] slots = slots
requeue_all n cur (t ∷ ts) slots = requeue_all n cur ts (requeue n cur t slots)

pub next_slot_lem :
    (n cur : ℕ) (t : Timer)
    → cur < n
    → n < 2 ^ 32
    → next_slot n cur t ≡ (
        if ltb (t.timer_config.expires % n + cur) n
        then t.timer_config.expires % n + cur
        else t.timer_config.expires % n + cur - n)
next_slot_lem n cur t c w =
    let e : ℕ = t.timer_config.expires in
    let word : u64 (e % n + cur) ≡ e % n + cur = omega (arith, mod-lt e {m = n}) in
    rw word (mod-add-mod e n cur ∙ mod_turn e cur n (omega arith) (omega arith))

pub next_slot_lt : (n cur : ℕ) (t : Timer) → 0 < n → next_slot n cur t < n
next_slot_lt n cur t p = mod-lt (u64 (t.timer_config.expires % n + cur)) p

next_slot_ne :
    (n cur : ℕ) (t : Timer)
    → cur < n
    → n < 2 ^ 32
    → (t.timer_config.expires % n == 0) ≡ false
    → (next_slot n cur t == cur) ≡ false
next_slot_ne n cur t c w off =
    ground (arith, next_slot_lem n cur t c w, mod-lt t.timer_config.expires {m = n})

pub length-requeue :
    (n cur : ℕ) (t : Timer) (slots : List (List Timer))
    → length (requeue n cur t slots) ≡ length slots
length-requeue n cur t slots =
    elim (Bool-cases (not (ltb 0 t.rotation) && is_repeat t.timer_config.repeat_flag)) [
      | inl e ↦ rw e (length-put_at (next_slot n cur t) (rewind n t) slots)
      | inr e ↦ rw e refl
    ]

module _ (n cur : ℕ) (c : cur < n) (w : n < 2 ^ 32) where
  pub visit_one :
      (pos : Timer) (at : Cursor)
      → is_off_turn n pos ≡ true
      → length at.slots ≡ n
      → visit n cur pos at
        ≡ some (
          made pos,
          record {
            kept = at.kept ++ staying pos;
            ahead = at.ahead;
            slots = requeue n cur pos at.slots;
          },
        )
  unfolding visit
  visit_one pos at off size = elim (Bool-cases (ltb 0 pos.rotation)) [
    | inl e ↦ rw e refl
    | inr e ↦ elim (Bool-cases (is_repeat pos.timer_config.repeat_flag)) [
      | inr m ↦ rw (e, m) (rw append-nil refl)
      | inl m ↦
          let apart : (next_slot n cur pos == cur) ≡ false =
            next_slot_ne n cur pos c w (ground (arith, off, m)) in
          let fits : next_slot n cur pos < length at.slots =
            omega (arith, next_slot_lt n cur pos) in
          rw (e, m)
            (rw apart (
              rw (add_at-some (next_slot n cur pos) (rewind n pos) at.slots fits)
                (rw append-nil refl)))
    ]
  ]

  -- With a step of fuel for each timer, and one more, the loop ends.
  pub visit_all_lem :
      (ts : List Timer) (fuel : ℕ) (kept : List Timer) (slots : List (List Timer))
      → all_off_turn n ts ≡ true
      → length slots ≡ n
      → length ts < fuel
      → visit_all fuel n cur (record { kept = kept; ahead = ts; slots = slots })
        ≡ some (
          made_all ts,
          record { kept = kept ++ staying_all ts; ahead = []; slots = requeue_all n cur ts slots },
        )
  unfolding visit_all
  visit_all_lem ts zero kept slots off size h = absurd (omega arith)
  visit_all_lem [] (suc fuel) kept slots off size h = rw append-nil refl
  visit_all_lem (t ∷ ts) (suc fuel) kept slots off size h =
      rw (visit_one t (record { kept = kept; ahead = ts; slots = slots }) (ground arith) size) (
        rw
          (visit_all_lem ts fuel (kept ++ staying t) (requeue n cur t slots) (ground arith)
            (length-requeue n cur t slots ∙ size) (omega arith))
          (rw append_assoc refl))
