-- ===== src/Timer.antt =====
-- src/hy_timer.c, the timer wheel. The lists that hang at its slots are the lists of their entries.
-- `none` is an access outside an array, a division by zero, or a loop that has run out of its fuel.
-- A callback is recorded as a call; it does not change the wheel, and no other thread runs meanwhile.
pub mod Round
pub mod Turn
pub mod Due
pub mod Wait
pub mod Time
pub mod Manage
pub mod Delete
mod Tests
pub mod Count
use libhy_utils_bak.Base.{
  ℕ, zero, suc, ◌+◌, ◌*◌, ◌-◌, ◌/◌, ◌%◌, ◌^◌, Bool, true, false, ◌&&◌, Option, none, some, List, [],
  ◌∷◌, ◌++◌, ltb, ◌==◌, if◌then◌else◌, ◌>>=◌, u32, u64, get_elem?, set, replicate, length, map,
}

-- `HY_TIMER_MODE_t`, and any other value of `repeat_flag`
pub data Mode : Type 0 where
  once repeat other : Mode

abbrev pub is_repeat : Mode → Bool
is_repeat repeat = true
is_repeat _ = false

-- `HyTimerConfig_t`: the callback, or NULL, and its argument are named by numbers
pub record Config : Type 0 where
  pub expires : ℕ
  pub repeat_flag : Mode
  pub timer_cb : Option ℕ
  pub args : ℕ

-- `_timer_t`; `handle` is its address
pub record Timer : Type 0 where
  pub handle : ℕ
  pub timer_config : Config
  pub rotation : ℕ

-- `_timer_context_t`
pub record Wheel : Type 0 where
  pub slot_num : ℕ
  pub slot_interval_ms : ℕ
  pub cur_slot : ℕ
  pub exit_flag : Bool
  pub list_head : List (List Timer)

-- a call of a callback with its argument
abbrev pub Call : Type 0
Call = ℕ × ℕ

-- `list_add_tail` at the list of a slot
unfoldable pub add_at : ℕ → Timer → List (List Timer) → Option (List (List Timer))
add_at i t [] = none
add_at zero t (slot ∷ slots) = some ((slot ++ (t ∷ [])) ∷ slots)
add_at (suc i) t (slot ∷ slots) = do slots' ← add_at i t slots; some (slot ∷ slots')

-- `HyTimerAdd`: `block` is what `malloc` returns
unfoldable pub hy_timer_add : (block : Option ℕ) → Option Config → Wheel → Option (Option ℕ × Wheel)
unfolding add_at
hy_timer_add block none w = some (none, w)
hy_timer_add none (some config) w = some (none, w)
hy_timer_add (some handle) (some config) w = if w.slot_num == 0 then none else do
  let rotation = config.expires / w.slot_num
  let slot = config.expires % w.slot_num
  slots ←
      add_at slot (record { handle = handle; timer_config = config; rotation = rotation })
        w.list_head
  some (some handle, record w { list_head = slots })

-- the first entry at an address, taken out
unfoldable pub del_from : ℕ → List Timer → Option (List Timer)
del_from handle [] = none
del_from handle (t ∷ ts) =
    let rest = del_from handle ts in
    if handle == t.handle then some ts else do ts' ← rest; some (t ∷ ts')

-- the slots in order, up to the one where it stands
unfoldable pub del_slots : ℕ → List (List Timer) → Option (List (List Timer))
unfolding del_from
del_slots handle [] = none
del_slots handle (slot ∷ slots) = elim (del_from handle slot) [
  | some slot' ↦ some (slot' ∷ slots)
  | none ↦ do slots' ← del_slots handle slots; some (slot ∷ slots')
]

-- `HyTimerDel`: what `timer_handle` points to before and after, the outer `none` for NULL
unfoldable pub hy_timer_del : Option (Option ℕ) → Wheel → Option (Option ℕ) × Wheel
unfolding del_slots
hy_timer_del (some (some handle)) w = elim (del_slots handle w.list_head) [
  | some slots ↦ (some none, record w { list_head = slots })
  | none ↦ (some (some handle), w)
]
hy_timer_del timer_handle w = (timer_handle, w)

-- The loop over the current slot. `kept` is what it has passed and left there, `ahead` is what it
-- has still to visit; the entry of the current slot in `slots` is written at the end.
pub record Cursor : Type 0 where
  pub kept : List Timer
  pub ahead : List Timer
  pub slots : List (List Timer)

-- the call that a timer makes
abbrev pub calls_of : Timer → List Call
calls_of t = elim t.timer_config.timer_cb [ none ↦ [] | some cb ↦ (cb, t.timer_config.args) ∷ [] ]

-- the slot of a timer that is put back, and the timer with its new rotation
abbrev pub next_slot : (slot_num cur_slot : ℕ) → Timer → ℕ
next_slot slot_num cur_slot t = u64 (t.timer_config.expires % slot_num + cur_slot) % slot_num

abbrev pub rewind : ℕ → Timer → Timer
rewind slot_num t = record t { rotation = t.timer_config.expires / slot_num }

-- A timer that is put back into the slot that is visited comes behind the entries still ahead, and
-- is reached again, unless it was the last: then `n` is the head already.
unfoldable pub put_back : (slot_num cur_slot : ℕ) → Timer → Cursor → Option Cursor
unfolding add_at
put_back slot_num cur_slot pos c =
    let slot = next_slot slot_num cur_slot pos in
    let pos' = rewind slot_num pos in
    if slot == cur_slot
    then elim c.ahead [
      | [] ↦ some (record c { kept = c.kept ++ (pos' ∷ []) })
      | _ ∷ _ ↦ some (record c { ahead = c.ahead ++ (pos' ∷ []) })
    ]
    else do slots ← add_at slot pos' c.slots; some (record c { slots = slots })

-- the body of the loop at `pos`, where `c.ahead` is what comes behind it
unfoldable pub visit : (slot_num cur_slot : ℕ) → Timer → Cursor → Option (List Call × Cursor)
unfolding put_back
visit slot_num cur_slot pos c =
    if ltb 0 pos.rotation
    then some ([], record c { kept = c.kept ++ (record pos { rotation = pos.rotation - 1 } ∷ []) })
    else do
      c' ←
          (if is_repeat pos.timer_config.repeat_flag
            then put_back slot_num cur_slot pos c
            else some c)
      some (calls_of pos, c')

unfoldable pub visit_all : ℕ → (slot_num cur_slot : ℕ) → Cursor → Option (List Call × Cursor)
unfolding visit
visit_all zero slot_num cur_slot c = none
visit_all (suc fuel) slot_num cur_slot c = elim c.ahead [
  | [] ↦ some ([], c)
  | pos ∷ ahead ↦ do
    (calls, c1) ← visit slot_num cur_slot pos (record c { ahead = ahead })
    (more, c2) ← visit_all fuel slot_num cur_slot c1
    some (calls ++ more, c2)
]

-- `_timer_loop_cb`: one round of its `while`, behind the `select`
unfoldable pub tick : ℕ → Wheel → Option (List Call × Wheel)
unfolding visit_all
tick fuel w = do
  slot ← get_elem? w.list_head w.cur_slot
  (calls, c) ←
      visit_all fuel w.slot_num w.cur_slot (record { kept = []; ahead = slot; slots = w.list_head })
  if w.slot_num == 0
      then none
      else some (
        calls,
        record w {
          list_head = set c.slots w.cur_slot c.kept;
          cur_slot = u32 (w.cur_slot + 1) % w.slot_num;
        },
      )

-- what it waits between two rounds, in seconds and microseconds
unfoldable pub interval : Wheel → ℕ × ℕ
interval w = (w.slot_interval_ms / 1000, w.slot_interval_ms % 1000 * 1000)

-- its rounds, of which every one has the same fuel, until `exit_flag` is set
unfoldable pub ticks : ℕ → ℕ → Wheel → Option (List Call × Wheel)
unfolding tick
ticks zero fuel w = some ([], w)
ticks (suc n) fuel w =
    if w.exit_flag
    then some ([], w)
    else do (calls, w1) ← tick fuel w; (more, w2) ← ticks n fuel w1; some (calls ++ more, w2)

-- the loop of `HyTimerDestroy` over the first slots: the addresses that it frees, in order
unfoldable pub free_slots : ℕ → List (List Timer) → Option (List ℕ)
free_slots zero slots = some []
free_slots (suc n) [] = none
free_slots (suc n) (slot ∷ slots) = do
  freed ← free_slots n slots
  some (map (λ (t : Timer). t.handle) slot ++ freed)

-- `HyTimerDestroy`, with the thread over; an access through a NULL context is `none`
unfoldable pub hy_timer_destroy : Option Wheel → Option (List ℕ)
unfolding free_slots
hy_timer_destroy none = none
hy_timer_destroy (some w) = free_slots w.slot_num w.list_head

-- `HyTimerCreate`: the two booleans say whether `malloc` of the context and of the slots succeeds.
-- Otherwise it calls `HyTimerDestroy` on what there is, where a NULL list has no slot.
unfoldable pub hy_timer_create : (ctx_ok list_ok : Bool) → Option (ℕ × ℕ) → Option (Option Wheel)
unfolding hy_timer_destroy
hy_timer_create ctx_ok list_ok none = some none
hy_timer_create ctx_ok list_ok (some (slot_num, slot_interval_ms)) =
    let context : Wheel = record {
      slot_num = slot_num;
      slot_interval_ms = slot_interval_ms;
      cur_slot = 0;
      exit_flag = false;
      list_head = [];
    } in
    if ctx_ok && list_ok
    then some (some (record context { list_head = replicate slot_num [] }))
    else do _ ← hy_timer_destroy (if ctx_ok then some context else none); some none
