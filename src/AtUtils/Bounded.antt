-- ===== src/AtUtils/Bounded.antt =====
-- No call of the engine puts more commands into its list than it may hold.
use libhy_utils_bak.Base.{
  ◌+◌, ◌≡◌, Bool, true, false, not, ◌&&◌, Option, none, some, List, [], ◌∷◌, ◌++◌, leb, ◌==◌, u8,
  length-append, arith, inl, inr, Bool-cases, Ensures, Ensures-after, Ensures-result,
}
use libhy_utils_bak.AtUtils.{
  AtState, AtCmd, AtCmdList, Env, AtUtils, Event, at_cmd_list_create, hy_at_utils_write_cmd,
}
use libhy_utils_bak.AtUtils.Queued.{IsQueued}

module _ {env : Env} where
  abbrev KeepsHandle : AtState × Option (AtUtils env) × List Event → Type 0
  KeepsHandle r = Ensures IsQueued r.1

  abbrev KeepsTaken : Bool × Option (AtUtils env) → Type 0
  KeepsTaken r = Ensures IsQueued r.1

  added :
      (c : AtUtils env) (made : Option AtCmdList)
      → IsQueued c
      → (not (c.at_cmd_num == 0) && leb c.at_cmd_num c.at_cmd_node_cnt) ≡ false
      → KeepsTaken (elim made [
        | none ↦ (false, some c)
        | some at_cmd_list ↦ (
          true,
          some (record c {
            write_list = c.write_list ++ (at_cmd_list ∷ []);
            at_cmd_node_cnt = u8 (c.at_cmd_node_cnt + 1);
          }),
        )
      ])
  added c none q e = q
  added c (some at_cmd_list) q e =
      let size = length-append c.write_list (at_cmd_list ∷ []) in
      record {
        byte = q.byte;
        counted = omega (arith, q.counted, size);
        bounded = λ h. ground (arith, e, h, q.byte, q.counted, q.bounded h, size);
      }

  -- HyAtUtilsWriteCmd, of any command and with or without memory, keeps the counter of the commands
  -- right and their number within its bound.
  pub write_cmd-IsQueued :
      (list_ok cmd_ok data_ok : Bool) (c c' : AtUtils env) (at_cmd : AtCmd) (ok : Bool)
      → IsQueued c
      → hy_at_utils_write_cmd list_ok cmd_ok data_ok (some c) (some at_cmd) ≡ some (ok, some c')
      → IsQueued c'
  unfolding hy_at_utils_write_cmd
  write_cmd-IsQueued list_ok cmd_ok data_ok c c' at_cmd ok q e =
      Ensures-result KeepsTaken
        (hy_at_utils_write_cmd list_ok cmd_ok data_ok (some c) (some at_cmd))
        (elim (Bool-cases (not (c.at_cmd_num == 0) && leb c.at_cmd_num c.at_cmd_node_cnt)) [
          | inl full ↦ rw full q
          | inr free ↦ rw free (
              Ensures-after KeepsTaken
                (at_cmd_list_create list_ok cmd_ok data_ok c.is_cmd_ok at_cmd) _
                (λ made. added c made q free))
        ])
        e
