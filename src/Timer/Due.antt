-- ===== src/Timer/Due.antt =====
-- When a timer is due: the rounds of the wheel that it waits.
use mathlib.Core.Path.{subst}
use mathlib.Core.List.{Memᴰ}
use mathlib.Core.List.Memᴰ.{head, tail, append_left, append_right}
use libhy_utils_bak.Base.{
  ℕ, zero, suc, ◌-◌, ◌<◌, ◌≡◌, refl, ◌∙◌, true, false, not, ◌&&◌, some, List, [], ◌∷◌, ltb, ◌==◌,
  get_or, set, length, arith, Bool-cases, inl, inr,
}
use libhy_utils_bak.Timer.{is_repeat, Timer, next_slot, rewind}
use libhy_utils_bak.Timer.Round.{
  put_at, made, staying, requeue, made_all, staying_all, requeue_all, length-requeue, next_slot_lt,
}

-- the timer at its place: in the list of slot `s`
abbrev pub At : ℕ → Timer → List (List Timer) → Type 0
At s t slots = Memᴰ t (get_or slots s [])

At-put_at :
    (s : ℕ) (t : Timer) (i : ℕ) (u : Timer) (slots : List (List Timer))
    → At s t slots
    → At s t (put_at i u slots)
At-put_at s t i u [] h = h
At-put_at zero t zero u (slot ∷ slots) h = append_left (u ∷ []) h
At-put_at (suc s) t zero u (slot ∷ slots) h = h
At-put_at zero t (suc i) u (slot ∷ slots) h = h
At-put_at (suc s) t (suc i) u (slot ∷ slots) h = At-put_at s t i u slots h

pub put_at-At :
    (i : ℕ) (t : Timer) (slots : List (List Timer)) → i < length slots → At i t (put_at i t slots)
put_at-At i t [] h = absurd (omega arith)
put_at-At zero t (slot ∷ slots) h = append_right slot (head refl)
put_at-At (suc i) t (slot ∷ slots) h = put_at-At i t slots (omega arith)

pub set_same :
    (i : ℕ) (ts : List Timer) (slots : List (List Timer))
    → i < length slots
    → get_or (set slots i ts) i [] ≡ ts
set_same i ts [] h = absurd (omega arith)
set_same zero ts (slot ∷ slots) h = refl
set_same (suc i) ts (slot ∷ slots) h = set_same i ts slots (omega arith)

pub set_other :
    (i j : ℕ) (ts : List Timer) (slots : List (List Timer))
    → (i == j) ≡ false
    → get_or (set slots i ts) j [] ≡ get_or slots j []
set_other i j ts [] h = refl
set_other zero zero ts (slot ∷ slots) h = absurd (ground (arith, h))
set_other zero (suc j) ts (slot ∷ slots) h = refl
set_other (suc i) zero ts (slot ∷ slots) h = refl
set_other (suc i) (suc j) ts (slot ∷ slots) h = set_other i j ts slots (ground arith)

module _ (n cur : ℕ) where
  pub At-requeue_all :
      (s : ℕ) (t : Timer) (ts : List Timer) (slots : List (List Timer))
      → At s t slots
      → At s t (requeue_all n cur ts slots)
  At-requeue_all s t [] slots h = h
  At-requeue_all s t (u ∷ ts) slots h =
      At-requeue_all s t ts (requeue n cur u slots)
        (elim (Bool-cases (not (ltb 0 u.rotation) && is_repeat u.timer_config.repeat_flag)) [
          | inl e ↦ rw e (At-put_at s t (next_slot n cur u) (rewind n u) slots h)
          | inr e ↦ rw e h
        ])

  -- A due timer that repeats is found again in its next slot.
  pub again-At :
      (t : Timer) (ts : List Timer) (slots : List (List Timer))
      → 0 < n
      → length slots ≡ n
      → Memᴰ t ts
      → t.rotation ≡ 0
      → is_repeat t.timer_config.repeat_flag ≡ true
      → At (next_slot n cur t) (rewind n t) (requeue_all n cur ts slots)
  again-At t [] slots p size h r m = elim h [ ]
  again-At t (u ∷ ts) slots p size (head e) r m =
      let due : (not (ltb 0 t.rotation) && is_repeat t.timer_config.repeat_flag) ≡ true =
        ground (arith, r, m) in
      At-requeue_all (next_slot n cur t) (rewind n t) ts (requeue n cur u slots) (
        subst (λ x. At (next_slot n cur t) (rewind n t) (requeue n cur x slots)) e
          (rw due (
            put_at-At (next_slot n cur t) (rewind n t) slots
              (omega (arith, next_slot_lt n cur t p)))))
  again-At t (u ∷ ts) slots p size (tail h) r m =
      again-At t ts (requeue n cur u slots) p (length-requeue n cur u slots ∙ size) h r m

-- A due timer makes its call.
pub due_calls :
    (t : Timer) (ts : List Timer) (cb : ℕ)
    → Memᴰ t ts
    → t.rotation ≡ 0
    → t.timer_config.timer_cb ≡ some cb
    → Memᴰ (cb, t.timer_config.args) (made_all ts)
due_calls t [] cb h r c = elim h [ ]
due_calls t (u ∷ ts) cb (head e) r c =
    let due : ltb 0 t.rotation ≡ false = ground (arith, r) in
    append_left (made_all ts)
      (subst (λ x. Memᴰ (cb, t.timer_config.args) (made x)) e (rw due (rw c (head refl))))
due_calls t (u ∷ ts) cb (tail h) r c = append_right (made u) (due_calls t ts cb h r c)

-- one turn less
abbrev pub turned : Timer → Timer
turned t = record t { rotation = t.rotation - 1 }

pub waits_on :
    (t : Timer) (ts : List Timer) → Memᴰ t ts → 0 < t.rotation → Memᴰ (turned t) (staying_all ts)
waits_on t [] h r = elim h [ ]
waits_on t (u ∷ ts) (head e) r =
    let more : ltb 0 t.rotation ≡ true = ground (arith, r) in
    append_left (staying_all ts) (subst (λ x. Memᴰ (turned t) (staying x)) e (rw more (head refl)))
waits_on t (u ∷ ts) (tail h) r = append_right (staying u) (waits_on t ts h r)
