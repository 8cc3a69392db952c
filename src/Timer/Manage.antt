-- ===== src/Timer/Manage.antt =====
-- Making a wheel, and the round that does not end.
use mathlib.Core.Bool.{false≢true}
use libhy_utils_bak.Base.{
  ℕ, zero, suc, ◌^◌, ◌<◌, ◌≡◌, refl, sym, ◌↔◌, Bool, true, false, ◌&&◌, none, some, List, [],
  replicate, length-replicate, arith, ◌/◌, ◌%◌, ap, ◌∙◌, ◌∷◌, ltb, ◌==◌,
}
use libhy_utils_bak.Timer.{
  Timer, Wheel, free_slots, hy_timer_destroy, hy_timer_create, is_repeat, calls_of, next_slot,
  rewind, put_back, visit, visit_all,
}
use libhy_utils_bak.Timer.Turn.{IsWheel, count, is_off_turn_wheel}
use native.Mathlib.Nat.{zero-mod, zero-div}
use libhy_utils_bak.Timer.Round.{next_slot_lem}

empty_slots :
    (k n : ℕ) → (is_off_turn_wheel n (replicate k []) ≡ true) × (count (replicate k []) ≡ 0)
empty_slots zero n = (refl, refl)
empty_slots (suc k) n = ((empty_slots k n).0, omega (arith, (empty_slots k n).1))

-- With both blocks allocated `HyTimerCreate` of at least one and fewer than 2^32 slots makes a
-- running wheel without timers.
pub create-IsWheel :
    (slot_num slot_interval_ms : ℕ)
    → 0 < slot_num
    → slot_num < 2 ^ 32
    → (w : Wheel) × (hy_timer_create true true (some (slot_num, slot_interval_ms)) ≡ some (some w))
      × IsWheel w
      × (count w.list_head ≡ 0)
unfolding hy_timer_create
create-IsWheel n ms p word = (
  record {
    slot_num = n;
    slot_interval_ms = ms;
    cur_slot = 0;
    exit_flag = false;
    list_head = replicate n [];
  },
  refl,
  record {
    in_range = p;
    word = word;
    whole = length-replicate {A = List Timer} n [];
    off_turn = (empty_slots n n).0;
    running = refl;
  },
  (empty_slots n n).1,
)

-- `HyTimerCreate` of at least one slot faults exactly when an allocation fails, since
-- `HyTimerDestroy` then goes through a pointer that is NULL.
pub create_faults_iff :
    (ctx_ok list_ok : Bool) (slot_num slot_interval_ms : ℕ)
    → 0 < slot_num
    → (hy_timer_create ctx_ok list_ok (some (slot_num, slot_interval_ms)) ≡ none)
      ↔ ((ctx_ok && list_ok) ≡ false)
unfolding hy_timer_create hy_timer_destroy free_slots
create_faults_iff true true n ms p = ((λ h. cc), λ h. absurd (false≢true (sym h)))
create_faults_iff true false zero ms p = absurd (omega arith)
create_faults_iff true false (suc n) ms p = ((λ h. refl), λ h. refl)
create_faults_iff false list_ok n ms p = ((λ h. refl), λ h. refl)

same_slot :
    (n cur : ℕ) (a : Timer)
    → cur < n
    → n < 2 ^ 32
    → a.timer_config.expires ≡ 0
    → (next_slot n cur a == cur) ≡ true
same_slot n cur a h w e =
    let start : a.timer_config.expires % n ≡ 0 = ap (λ (k : ℕ). k % n) e ∙ zero-mod n in
    ground (arith, next_slot_lem n cur a h w, start)

comes_behind :
    (n cur : ℕ) (a b : Timer) (kept : List Timer) (slots : List (List Timer))
    → (next_slot n cur a == cur) ≡ true
    → a.rotation ≡ 0
    → is_repeat a.timer_config.repeat_flag ≡ true
    → visit n cur a (record { kept = kept; ahead = b ∷ []; slots = slots })
      ≡ some (calls_of a, record { kept = kept; ahead = b ∷ rewind n a ∷ []; slots = slots })
unfolding visit put_back
comes_behind n cur a b kept slots same r m =
    let due : ltb 0 a.rotation ≡ false = ground (arith, r) in rw (due, m) (rw same refl)

-- A current slot with two due timers that repeat with expiry 0 is never left: each is put back behind
-- the other and reached again, whatever the fuel.
pub visit_all_spins :
    (fuel slot_num cur_slot : ℕ) (a b : Timer) (kept : List Timer) (slots : List (List Timer))
    → cur_slot < slot_num
    → slot_num < 2 ^ 32
    → a.rotation ≡ 0
    → b.rotation ≡ 0
    → a.timer_config.expires ≡ 0
    → b.timer_config.expires ≡ 0
    → is_repeat a.timer_config.repeat_flag ≡ true
    → is_repeat b.timer_config.repeat_flag ≡ true
    → visit_all fuel slot_num cur_slot (record { kept = kept; ahead = a ∷ b ∷ []; slots = slots })
      ≡ none
unfolding visit_all
visit_all_spins zero n cur a b kept slots h w ra rb ea eb ma mb = refl
visit_all_spins (suc fuel) n cur a b kept slots h w ra rb ea eb ma mb =
    let idle : (rewind n a).rotation ≡ 0 = ap (λ (k : ℕ). k / n) ea ∙ zero-div n in
    rw (comes_behind n cur a b kept slots (same_slot n cur a h w ea) ra ma)
      (rw (visit_all_spins fuel n cur b (rewind n a) kept slots h w rb idle eb ea mb ma) refl)
