-- ===== src/Timer/Wait.antt =====
-- How long a timer waits.
use mathlib.Core.Path.{subst}
use mathlib.Core.List.{Memᴰ}
use native.Mathlib.Decide.{dec_lt}
use native.Mathlib.Nat.{zero-mul, suc-mul, mod_self, mod-eq_of_lt}
use libhy_utils_bak.Base.{
  ℕ, zero, suc, ◌+◌, ◌*◌, ◌-◌, ◌%◌, ◌^◌, ◌<◌, ◌≡◌, refl, sym, ap, ◌∙◌, false, [], ltb, ◌==◌,
  if◌then◌else◌, u32, get_or, length, arith, Bool-cases, inl, inr, ==_iff,
}
use libhy_utils_bak.Timer.{Timer, Wheel}
use libhy_utils_bak.Timer.Round.{staying_all, requeue_all}
use libhy_utils_bak.Timer.Turn.{IsWheel, current, after, length-requeue_all}
use libhy_utils_bak.Timer.Due.{At, set_same, set_other, At-requeue_all, turned, waits_on}

-- The rounds before a timer in slot `s` is due: whole turns, and the way to its slot.
abbrev pub way : (slot_num cur_slot s : ℕ) → ℕ
way n cur s = if ltb s cur then s + n - cur else s - cur

abbrev pub delay : Wheel → ℕ → Timer → ℕ
delay w s t = t.rotation * w.slot_num + way w.slot_num w.cur_slot s

-- the same timer one round later
pub record Waits (w : Wheel) (s : ℕ) (t : Timer) : Type 0 where
  pub timer : Timer
  pub same_handle : timer.handle ≡ t.handle
  pub same_config : timer.timer_config ≡ t.timer_config
  pub in_slot : At s timer (after w).list_head
  pub closer : suc (delay (after w) s timer) ≡ delay w s t

pub next_cur :
    (n cur : ℕ) → cur < n → n < 2 ^ 32 → u32 (cur + 1) % n ≡ (if suc cur == n then 0 else suc cur)
next_cur n cur h w = ground (arith, mod_self n, mod-eq_of_lt {n = suc cur} {m = n})

way_same : (n cur : ℕ) → way n cur cur ≡ 0
way_same n cur = ground arith

way_round : (n cur : ℕ) → cur < n → n < 2 ^ 32 → suc (way n (u32 (cur + 1) % n) cur) ≡ n
way_round n cur h w = rw (next_cur n cur h w) (ground arith)

pub way_next :
    (n cur s : ℕ)
    → cur < n
    → s < n
    → n < 2 ^ 32
    → (cur == s) ≡ false
    → suc (way n (u32 (cur + 1) % n) s) ≡ way n cur s
way_next n cur s h k w ne = rw (next_cur n cur h w) (ground arith)

turns : (r n : ℕ) → 0 < r → r * n ≡ (r - 1) * n + n
turns zero n h = absurd (omega arith)
turns (suc r) n h = suc-mul r n ∙ ap (λ (k : ℕ). k * n + n) (omega arith)

module _ {w : Wheel} (v : IsWheel w) where
  slots_kept : length (requeue_all w.slot_num w.cur_slot (current w) w.list_head) ≡ w.slot_num
  slots_kept = length-requeue_all w.slot_num w.cur_slot (current w) w.list_head ∙ v.whole

  -- what a round leaves in the slot that it visits, and in the others
  current_after : get_or (after w).list_head w.cur_slot [] ≡ staying_all (current w)
  current_after =
      set_same w.cur_slot (staying_all (current w))
        (requeue_all w.slot_num w.cur_slot (current w) w.list_head)
        (omega (arith, slots_kept, v.in_range))

  pub other_after :
      (s : ℕ) (t : Timer)
      → (w.cur_slot == s) ≡ false
      → At s t (requeue_all w.slot_num w.cur_slot (current w) w.list_head)
      → At s t (after w).list_head
  other_after s t ne h =
      subst (Memᴰ t)
        (sym (
          set_other w.cur_slot s (staying_all (current w))
            (requeue_all w.slot_num w.cur_slot (current w) w.list_head) ne))
        h

  module _ (s : ℕ) (t : Timer) (bound : s < w.slot_num) (held : At s t w.list_head) where
    -- in the slot that is visited next
    turns_on : s ≡ w.cur_slot → 0 < t.rotation → Waits w s t
    turns_on e r = record {
      timer = turned t;
      same_handle = refl;
      same_config = refl;
      in_slot =
          subst (λ i. At i (turned t) (after w).list_head) (sym e)
            (subst (Memᴰ (turned t)) (sym current_after)
              (waits_on t (current w) (subst (λ i. At i t w.list_head) e held) r));
      closer = rw e (
          omega (
            arith,
            turns t.rotation w.slot_num r,
            way_same w.slot_num w.cur_slot,
            way_round w.slot_num w.cur_slot v.in_range v.word,
          ));
    }

    stays_on : (w.cur_slot == s) ≡ false → Waits w s t
    stays_on ne = record {
      timer = t;
      same_handle = refl;
      same_config = refl;
      in_slot =
          other_after s t ne
            (At-requeue_all w.slot_num w.cur_slot s t (current w) w.list_head held);
      closer = omega (arith, way_next w.slot_num w.cur_slot s v.in_range bound v.word ne);
    }

    -- A timer that is not due yet is held by its slot after the round, one round closer.
    pub tick-Waits : 0 < delay w s t → Waits w s t
    tick-Waits d = elim (Bool-cases (w.cur_slot == s)) [
      | inr ne ↦ stays_on ne
      | inl e ↦
          let same : s ≡ w.cur_slot = sym ((==_iff w.cur_slot s).0 e) in turns_on same (more same)
    ]
      where
        more : s ≡ w.cur_slot → 0 < t.rotation
        more same = elim (dec_lt 0 t.rotation) [
          | yes p ↦ p
          | no p ↦
              let none_left : t.rotation ≡ 0 = omega arith in
              let no_turn : t.rotation * w.slot_num ≡ 0 =
                ap (λ (r : ℕ). r * w.slot_num) none_left ∙ zero-mul w.slot_num in
              let here : way w.slot_num w.cur_slot s ≡ 0 =
                rw same (way_same w.slot_num w.cur_slot) in
              absurd (omega (arith, no_turn, here))
        ]

    -- A timer without delay is in the slot that is visited next, at its last turn.
    pub due_now : delay w s t ≡ 0 → (s ≡ w.cur_slot) × (t.rotation ≡ 0)
    due_now d = (ground (arith, d, v.in_range), last_turn t.rotation (omega arith))
      where
        last_turn : (r : ℕ) → r * w.slot_num ≡ 0 → r ≡ 0
        last_turn zero h = refl
        last_turn (suc r) h = absurd (omega (arith, v.in_range))
