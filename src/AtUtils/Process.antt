-- ===== src/AtUtils/Process.antt =====
-- src/hy_at_utils.c: `_write_handle`, and one call of HyAtUtilsProcess.
use libhy_utils_bak.Base.{
  ℕ, ◌^◌, not, ◌&&◌, Option, none, some, List, [], ◌∷◌, ltb, ◌==◌, if◌then◌else◌, ◌>>=◌, u32,
  sub_mod,
}
use libhy_utils_bak.StrCopy.{strlen}
use libhy_utils_bak.AtUtils.{
  AtState, AtCmdList, Env, AtUtils, Event, wrote, idle, read, read_closed, write, write_cmd,
  write_cmd_wait, write_data,
}
use libhy_utils_bak.AtUtils.Engine.{is_read, is_idle, Reply, first_entry, set_first}
use libhy_utils_bak.AtUtils.Read.{read_handle}

module _ {env : Env} where
  abbrev pub returned : AtState → AtUtils env → List Event → Reply env
  returned ret context events = record { ret = ret; context = context; events = events }

  -- `_write_handle` at the state; `now` is the clock in milliseconds
  unfoldable pub write_case : AtState → (now : ℕ) → AtUtils env → Option (Reply env)
  unfolding first_entry
  write_case write now context = some (returned idle (record context { state = write_cmd }) [])
  write_case write_cmd now context =
      if not context.handle_cb.write_cb
      then some (returned idle (record context { state = write_cmd_wait; busy_flag = 1 }) [])
      else do
        pos ← first_entry context
        n ← strlen pos.at_cmd.cmd
        some (
            returned idle
              (record context { sys_tick = u32 now; state = write_cmd_wait; busy_flag = 1 })
              (wrote pos.at_cmd.cmd n ∷ []))
  write_case write_cmd_wait now context = some (
      returned idle
        (if ltb 10 (sub_mod (2 ^ 32) (u32 now) context.sys_tick)
          then record context { state = read }
          else context)
        [])
  write_case write_data now context =
      if not context.handle_cb.write_cb
      then some (returned idle (record context { state = read }) [])
      else do
        pos ← first_entry context
        some (
            returned idle (record context { sys_tick = u32 now; busy_flag = 2; state = read })
              (wrote (elim pos.at_cmd.cmd_data [ none ↦ [] | some bytes ↦ bytes ])
                  pos.at_cmd.data_len
                ∷ []))
  write_case _ now context = some (returned idle context [])

  -- `HyAtUtilsProcess` in the state AT_STATE_IDLE with nothing to read and a command waiting; the clock
  -- is asked at most twice
  unfoldable pub waiting : AtCmdList → (now now' : ℕ) → AtUtils env → Reply env
  waiting pos now now' context =
      let late = ltb pos.at_cmd.wait_time (sub_mod (2 ^ 32) (u32 now) context.sys_tick) in
      let retry = sub_mod (2 ^ 8) pos.at_cmd.retry 1 in
      let counted =
        if late
        then record context {
          sys_tick = u32 now';
          busy_flag = 0;
          write_list =
              set_first (record pos { at_cmd = record (pos.at_cmd) { retry = retry } })
                context.write_list;
        }
        else context in
      if late && (retry == 0)
      then returned read_closed counted []
      else returned idle
          (if counted.busy_flag == 0 then record counted { state = write } else counted) []

  unfoldable pub idle_case : (now now' : ℕ) → AtUtils env → Reply env
  unfolding waiting
  idle_case now now' context =
      if ltb 0 (env.fifo_used_len context.fifo_handle)
      then returned idle (record context { state = read }) []
      else elim context.write_list [
        | [] ↦ returned idle context []
        | pos ∷ write_list ↦ waiting pos now now' context
      ]

  -- `HyAtUtilsProcess`
  unfoldable pub hy_at_utils_process :
      (fuel now now' : ℕ)
      → Option (AtUtils env)
      → Option (AtState × Option (AtUtils env) × List Event)
  unfolding idle_case read_handle write_case
  hy_at_utils_process fuel now now' none = some (idle, none, [])
  hy_at_utils_process fuel now now' (some context) = do
    r ←
        if is_idle context.state
        then some (idle_case now now' context)
        else if is_read context.state
        then read_handle fuel context
        else write_case context.state now context
    some (r.ret, some r.context, r.events)
