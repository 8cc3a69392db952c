-- ===== src/Timer/Time.antt =====
-- Timers are called on time.
use mathlib.Core.Path.{subst}
use mathlib.Core.List.{Memᴰ}
use native.Mathlib.Nat.{mod-lt, div-add-mod'}
use libhy_utils_bak.Base.{
  ℕ, zero, suc, ◌/◌, ◌%◌, ◌<◌, ◌≡◌, refl, ap, ◌∙◌, ◌↔◌, Bool, false, some, List, [], ◌∷◌, ◌++◌,
  ◌==◌, if◌then◌else◌, ◌>>=◌, set, get_or, length, arith,
}
use libhy_utils_bak.Timer.{Config, Timer, Wheel, Call, hy_timer_add, tick, ticks}
use libhy_utils_bak.Timer.Round.{put_at, add_at-some, made_all}
use libhy_utils_bak.Timer.Turn.{IsWheel, current, after, count, tick_lem, after-IsWheel}
use libhy_utils_bak.Timer.Count.{count-after}
use libhy_utils_bak.Timer.Due.{At, due_calls}
use libhy_utils_bak.Timer.Wait.{delay, tick-Waits, due_now}

-- The wheel after the rounds that a timer waits, which still holds it, and the round that calls it.
pub record IsOnTime (w : Wheel) (fuel rounds s : ℕ) (t : Timer) (call : Call) : Type 0 where
  pub before : List Call
  pub reached : Wheel
  pub timer : Timer
  pub waits : ticks rounds fuel w ≡ some (before, reached)
  pub held : At s timer reached.list_head
  pub same_handle : timer.handle ≡ t.handle
  pub calls : List Call
  pub rings : tick fuel reached ≡ some (calls, after reached)
  pub called : Memᴰ call calls

ticks_step :
    (rounds fuel : ℕ) (w w1 w2 : Wheel) (calls more : List Call)
    → w.exit_flag ≡ false
    → tick fuel w ≡ some (calls, w1)
    → ticks rounds fuel w1 ≡ some (more, w2)
    → ticks (suc rounds) fuel w ≡ some (calls ++ more, w2)
unfolding ticks
ticks_step rounds fuel w w1 w2 calls more running e h =
    ap
      (λ (b : Bool). if b then some ([], w) else do
        (calls, w1) ← tick fuel w
        (more, w2) ← ticks rounds fuel w1
        some (calls ++ more, w2))
      running
    ∙ rw e (rw h refl)

-- A timer with a callback, in a running wheel without timers that repeat after whole turns, is
-- held by its slot for as many rounds as its delay says, and called in the round behind them;
-- each round ends when its fuel is more than the number of timers.
pub fires-IsOnTime :
    (rounds fuel : ℕ) {w : Wheel}
    → IsWheel w
    → (s : ℕ) (t : Timer) (cb : ℕ) → s < w.slot_num
    → At s t w.list_head
    → delay w s t ≡ rounds
    → t.timer_config.timer_cb ≡ some cb
    → count w.list_head < fuel
    → IsOnTime w fuel rounds s t (cb, t.timer_config.args)
unfolding ticks
fires-IsOnTime zero fuel {w} v s t cb bound held d c f =
    let (here, last) = due_now v s t bound held d in
    record {
      before = [];
      reached = w;
      timer = t;
      waits = refl;
      held = held;
      same_handle = refl;
      calls = made_all (current w);
      rings = tick_lem v fuel f;
      called = due_calls t (current w) cb (subst (λ i. At i t w.list_head) here held) last c;
    }
fires-IsOnTime (suc rounds) fuel {w} v s t cb bound held d c f =
    let next = tick-Waits v s t bound held (omega (arith, d)) in
    let later =
      fires-IsOnTime rounds fuel (after-IsWheel v) s next.timer cb bound next.in_slot
        (omega (arith, next.closer, d)) (ap (λ (k : Config). k.timer_cb) next.same_config ∙ c)
        (omega (arith, count-after v)) in
    record {
      before = made_all (current w) ++ later.before;
      reached = later.reached;
      timer = later.timer;
      waits =
          ticks_step rounds fuel w (after w) later.reached (made_all (current w)) later.before
            v.running (tick_lem v fuel f) later.waits;
      held = later.held;
      same_handle = later.same_handle ∙ next.same_handle;
      calls = later.calls;
      rings = later.rings;
      called = subst (λ (k : Config). Memᴰ (cb, k.args) later.calls) next.same_config later.called;
    }

put_at-set :
    (i : ℕ) (t : Timer) (slots : List (List Timer))
    → put_at i t slots ≡ set slots i (get_or slots i [] ++ (t ∷ []))
put_at-set i t [] = refl
put_at-set zero t (slot ∷ slots) = refl
put_at-set (suc i) t (slot ∷ slots) = ap (λ r. slot ∷ r) (put_at-set i t slots)

-- `HyTimerAdd` puts a timer behind all others of its slot in a running wheel, and changes no other
-- slot; it waits as many rounds as its expiry says exactly when the wheel stands at slot 0: the code
-- leaves the current slot out.
pub add_on_time_iff :
    {w : Wheel}
    → IsWheel w
    → (handle : ℕ) (config : Config)
    → (slots : List (List Timer)) × (t : Timer) × (hy_timer_add (some handle) (some config) w
        ≡ some (some handle, record w { list_head = slots }))
      × (t.timer_config ≡ config)
      × (t.handle ≡ handle)
      × (slots
          ≡ set w.list_head
              (config.expires % w.slot_num)
              (get_or w.list_head (config.expires % w.slot_num) [] ++ (t ∷ [])))
      × ((delay (record w { list_head = slots }) (config.expires % w.slot_num) t ≡ config.expires)
          ↔ (w.cur_slot ≡ 0))
unfolding hy_timer_add
add_on_time_iff {w} v handle config =
    let n = w.slot_num in
    let slot : ℕ = config.expires % n in
    let t : Timer = record {
      handle = handle;
      timer_config = config;
      rotation = config.expires / n;
    } in
    let below = mod-lt config.expires {m = n} (omega (arith, v.in_range)) in
    let fits : slot < length w.list_head = omega (arith, v.whole, below) in
    let some_slot : (n == 0) ≡ false = ground (arith, v.in_range) in
    let whole = div-add-mod' config.expires n in
    (
      put_at slot t w.list_head,
      t,
      rw some_slot (rw (add_at-some slot t w.list_head fits) refl),
      refl,
      refl,
      put_at-set slot t w.list_head,
      (
        (λ h. ground (arith, whole, below, v.in_range, h)),
        λ h. ground (arith, whole, below, v.in_range, h),
      ),
    )
