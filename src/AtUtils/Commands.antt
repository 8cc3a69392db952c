-- ===== src/AtUtils/Commands.antt =====
-- The way of a command: sent by HyAtUtilsProcess, and taken from the list by its answer.
use libhy_utils_bak.Base.{
  ℕ, ◌^◌, ◌<◌, ◌≤◌, ◌≡◌, refl, ap, ◌∙◌, true, false, some, List, [], ◌∷◌, ◌++◌, ltb, ◌==◌,
  if◌then◌else◌, ◌>>=◌, u32, sub_mod, arith,
}
use libhy_utils_bak.StrCopy.{strlen}
use libhy_utils_bak.AtUtils.{
  AtState, idle, read, write, write_cmd, write_cmd_wait, AtCmdList, Env, AtUtils, Event, wrote,
}
use libhy_utils_bak.AtUtils.Engine.{Reply, is_idle, is_read, first_entry}
use libhy_utils_bak.AtUtils.Read.{read_handle}
use libhy_utils_bak.AtUtils.Process.{returned, write_case, waiting, idle_case, hy_at_utils_process}
use libhy_utils_bak.AtUtils.Limits.{process_all}

module _ {env : Env} where
  idle_steps :
      (fuel now now' : ℕ) (c : AtUtils env)
      → c.state ≡ idle
      → hy_at_utils_process fuel now now' (some c)
        ≡ some (
          (idle_case now now' c).ret,
          some (idle_case now now' c).context,
          (idle_case now now' c).events,
        )
  unfolding hy_at_utils_process
  idle_steps fuel now now' c e =
      ap
        (λ (st : AtState).
          (if is_idle st
            then some (idle_case now now' c)
            else if is_read st
            then read_handle fuel c
            else write_case st now c)
          >>= λ r. some (r.ret, some r.context, r.events))
        e

  all_one :
      (fuel : ℕ) (tick : ℕ × ℕ) (ticks : List (ℕ × ℕ)) {ret : AtState} (c : AtUtils env)
      {c' c'' : AtUtils env} {events later : List Event}
      → hy_at_utils_process fuel tick.0 tick.1 (some c) ≡ some (ret, some c', events)
      → process_all fuel ticks c' ≡ some (c'', later)
      → process_all fuel (tick ∷ ticks) c ≡ some (c'', events ++ later)
  unfolding process_all
  all_one fuel tick ticks c x y = rw x (rw y refl)

  -- nothing to read, and a first command whose time has not run out
  pub record IsReady (c : AtUtils env) (pos : AtCmdList) (cmds : List AtCmdList) (now : ℕ)
      : Type 0 where
    pub at_rest : c.state ≡ idle
    pub nothing : env.fifo_used_len c.fifo_handle ≡ 0
    pub first : c.write_list ≡ pos ∷ cmds
    pub in_time : sub_mod (2 ^ 32) (u32 now) c.sys_tick ≤ pos.at_cmd.wait_time
    pub not_busy : c.busy_flag ≡ 0
    pub can_write : c.handle_cb.write_cb ≡ true

  waiting_ready :
      (now now' : ℕ) (c : AtUtils env) (pos : AtCmdList)
      → ltb pos.at_cmd.wait_time (sub_mod (2 ^ 32) (u32 now) c.sys_tick) ≡ false
      → (c.busy_flag == 0) ≡ true
      → waiting pos now now' c ≡ returned idle (record c { state = write }) []
  unfolding waiting
  waiting_ready now now' c pos x y = rw x (rw y refl)

  idle_first :
      (now now' : ℕ) (c : AtUtils env) (pos : AtCmdList) (cmds : List AtCmdList)
      → ltb 0 (env.fifo_used_len c.fifo_handle) ≡ false
      → c.write_list ≡ pos ∷ cmds
      → idle_case now now' c ≡ waiting pos now now' c
  unfolding idle_case
  idle_first now now' c pos cmds x y = rw x (
      ap
        (λ (l : List AtCmdList). elim l as (λ t. Reply env) [
          | [] ↦ returned idle c []
          | p ∷ rest ↦ waiting p now now' c
        ])
        y)

  idle_ready :
      (now now' : ℕ) (c : AtUtils env) (pos : AtCmdList) (cmds : List AtCmdList)
      → IsReady c pos cmds now
      → idle_case now now' c ≡ returned idle (record c { state = write }) []
  idle_ready now now' c pos cmds r =
      idle_first now now' c pos cmds (ground (arith, r.nothing)) r.first
      ∙ waiting_ready now now' c pos (ground (arith, r.in_time)) (ground (arith, r.not_busy))

  go_idle :
      (fuel now now' : ℕ) (c : AtUtils env) (pos : AtCmdList) (cmds : List AtCmdList)
      → IsReady c pos cmds now
      → hy_at_utils_process fuel now now' (some c)
        ≡ some (idle, some (record c { state = write }), [])
  go_idle fuel now now' c pos cmds r =
      idle_steps fuel now now' c r.at_rest
      ∙ ap (λ (s : Reply env). some (s.ret, some s.context, s.events))
          (idle_ready now now' c pos cmds r)

  go_write :
      (fuel now now' : ℕ) (c : AtUtils env)
      → hy_at_utils_process fuel now now' (some (record c { state = write }))
        ≡ some (idle, some (record c { state = write_cmd }), [])
  unfolding hy_at_utils_process write_case
  go_write fuel now now' c = refl

  go_write_cmd :
      (fuel now now' : ℕ) (c : AtUtils env) {pos : AtCmdList} {n : ℕ}
      → c.handle_cb.write_cb ≡ true
      → first_entry (record c { state = write_cmd }) ≡ some pos
      → strlen pos.at_cmd.cmd ≡ some n
      → hy_at_utils_process fuel now now' (some (record c { state = write_cmd }))
        ≡ some (
          idle,
          some (record c { sys_tick = u32 now; state = write_cmd_wait; busy_flag = 1 }),
          wrote pos.at_cmd.cmd n ∷ [],
        )
  unfolding hy_at_utils_process write_case
  go_write_cmd fuel now now' c x y z = rw y (rw z (rw x refl))

  go_wait :
      (fuel now now' : ℕ) (c : AtUtils env)
      → ltb 10 (sub_mod (2 ^ 32) (u32 now) c.sys_tick) ≡ true
      → hy_at_utils_process fuel now now' (some (record c { state = write_cmd_wait }))
        ≡ some (idle, some (record c { state = read }), [])
  unfolding hy_at_utils_process write_case
  go_wait fuel now now' c x = rw x refl

  pub first_lem :
      (c : AtUtils env) (pos : AtCmdList) (cmds : List AtCmdList)
      → c.write_list ≡ pos ∷ cmds
      → first_entry c ≡ some pos
  unfolding first_entry
  first_lem c pos cmds h = rw h refl

  -- From the idle state, with a callback that writes, a command that waits first, with nothing to read, is sent once and whole by three calls of
  -- HyAtUtilsProcess while its time has not run out and none is being answered; ten milliseconds later a
  -- fourth call goes on to read the answer. The list stays.
  pub command_is_sent :
      (fuel : ℕ) (t1 t2 t3 t4 : ℕ × ℕ) (c : AtUtils env) (pos : AtCmdList) (cmds : List AtCmdList)
      {n : ℕ}
      → IsReady c pos cmds t1.0
      → strlen pos.at_cmd.cmd ≡ some n
      → 10 < sub_mod (2 ^ 32) (u32 t4.0) (u32 t3.0)
      → process_all fuel (t1 ∷ t2 ∷ t3 ∷ t4 ∷ []) c
        ≡ some (
          record c { sys_tick = u32 t3.0; busy_flag = 1; state = read },
          wrote pos.at_cmd.cmd n ∷ [],
        )
  unfolding process_all
  command_is_sent fuel t1 t2 t3 t4 c pos cmds {n} r text late =
      let sent : AtUtils env = record c {
        sys_tick = u32 t3.0;
        busy_flag = 1;
        state = write_cmd_wait;
      } in
      all_one fuel t1 (t2 ∷ t3 ∷ t4 ∷ []) c (go_idle fuel t1.0 t1.1 c pos cmds r) (
        all_one fuel t2 (t3 ∷ t4 ∷ []) (record c { state = write }) (go_write fuel t2.0 t2.1 c)
          (all_one fuel t3 (t4 ∷ []) (record c { state = write_cmd })
            (go_write_cmd fuel t3.0 t3.1 c r.can_write
              (first_lem (record c { state = write_cmd }) pos cmds r.first) text)
            (all_one fuel t4 [] sent (go_wait fuel t4.0 t4.1 sent (ground (arith, late))) refl)))
