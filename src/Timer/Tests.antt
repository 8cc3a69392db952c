-- ===== src/Timer/Tests.antt =====
-- Runs of the timer wheel on a few timers.
use mathlib.Core.List.{Memᴰ}
use mathlib.Core.List.Memᴰ.{head}
use libhy_utils_bak.Base.{ℕ, suc, ◌≡◌, refl, ◌↔◌, false, none, some, List, [], ◌∷◌, arith}
use libhy_utils_bak.Timer.{once, repeat, Timer, Wheel, ticks, hy_timer_add, hy_timer_del}
use libhy_utils_bak.Timer.Turn.{IsWheel, count}
use libhy_utils_bak.Timer.Wait.{delay}
use libhy_utils_bak.Timer.Time.{IsOnTime, fires-IsOnTime, add_on_time_iff}
use libhy_utils_bak.Timer.Delete.{KeepsOthers, del_takes_one}

-- one timer of six rounds that has come to its second turn, and one that repeats every three
abbrev single : Timer
single = record {
  handle = 1;
  timer_config = record { expires = 6; repeat_flag = once; timer_cb = some 10; args = 5 };
  rotation = 1;
}

abbrev steady : Timer
steady = record {
  handle = 2;
  timer_config = record { expires = 3; repeat_flag = repeat; timer_cb = some 20; args = 0 };
  rotation = 0;
}

abbrev wheel : Wheel
wheel = record {
  slot_num = 4;
  slot_interval_ms = 100;
  cur_slot = 1;
  exit_flag = false;
  list_head = [] ∷ (steady ∷ []) ∷ (single ∷ []) ∷ [] ∷ [];
}

wheel-IsWheel : IsWheel wheel
wheel-IsWheel = record {
  in_range = omega arith;
  word = omega arith;
  whole = refl;
  off_turn = refl;
  running = refl;
}

-- what seven rounds call
ticks-wheel : (w : Wheel) × (ticks 7 3 wheel ≡ some ((20, 0) ∷ (20, 0) ∷ (10, 5) ∷ (20, 0) ∷ [], w))
unfolding ticks
ticks-wheel = (_, refl)

fires-IsOnTime_example : IsOnTime wheel 3 5 2 single (10, 5)
fires-IsOnTime_example =
    fires-IsOnTime 5 3 wheel-IsWheel 2 single 10 (omega arith) (head refl) refl refl (omega arith)

add_on_time_iff_example :
    (slots : List (List Timer)) × (t : Timer) × (hy_timer_add
        (some 3)
        (some steady.timer_config)
        wheel
      ≡ some (some 3, record wheel { list_head = slots }))
    × (t.timer_config ≡ steady.timer_config)
    × (t.handle ≡ 3)
    × (slots ≡ [] ∷ (steady ∷ []) ∷ (single ∷ []) ∷ (t ∷ []) ∷ [])
    × ((delay (record wheel { list_head = slots }) 3 t ≡ 3) ↔ (◌≡◌ {A = ℕ} 1 0))
add_on_time_iff_example = add_on_time_iff wheel-IsWheel 3 steady.timer_config

del_takes_one_example :
    (slots : List (List Timer)) × (hy_timer_del (some (some 1)) wheel
      ≡ (some none, record wheel { list_head = slots }))
    × (suc (count slots) ≡ 2)
    × KeepsOthers 1 wheel.list_head slots
del_takes_one_example = del_takes_one wheel 2 single (head refl)

-- two timers that repeat with expiry 0
abbrev busy : ℕ → Timer
busy handle = record {
  handle = handle;
  timer_config = record { expires = 0; repeat_flag = repeat; timer_cb = none; args = 0 };
  rotation = 0;
}
