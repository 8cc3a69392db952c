-- ===== src/AtUtils/Answers.antt =====
-- The answer to a command takes it from the list.
use libhy_utils_bak.Base.{
  ℕ, suc, ◌^◌, ◌<◌, ◌≤◌, ◌≡◌, ◌⊎◌, refl, ap, ◌∙◌, Bool, true, false, ◌||◌, none, some, List, [],
  ◌∷◌, ◌==◌, if◌then◌else◌, u16, sub_mod, Bytes, length, take, drop, min, arith, inl, inr,
  overwrite, replicate, length-replicate,
}
use libhy_utils_bak.AtUtils.{
  AtState, idle, read_ok, read_connect_ok, AtCmdList, Env, AtUtils, destroy_loop, destroy_cmd_list,
}
use libhy_utils_bak.AtUtils.Engine.{Reply, set_first, first_entry, answered}
use libhy_utils_bak.AtUtils.Read.{read_case, read_loop}
use libhy_utils_bak.AtUtils.Ring.{IsEnv}
use libhy_utils_bak.AtUtils.Receive.{loop_ends, update_steps}
use libhy_utils_bak.AtUtils.Arrive.{start_steps, resume_none}
use libhy_utils_bak.AtUtils.Commands.{first_lem}

-- The first command has one answer to come, which has been found at the start of the ring.
pub record IsAnswered {env : Env} (e : IsEnv env) (c : AtUtils env) (pos : AtCmdList)
    (cmds : List AtCmdList) : Type 0 where
  pub found : (c.state ≡ read_ok) ⊎ (c.state ≡ read_connect_ok)
  pub first : c.write_list ≡ pos ∷ cmds
  pub last : pos.del_cnt ≡ 1
  pub not_parsing : c.parsing_flag ≡ false
  pub no_block : c.buf_union ≡ none
  pub good : e.IsGood c.fifo_handle
  pub bytes : 0 < length (e.queue c.fifo_handle)
  pub some_len : 0 < c.offset_len
  pub small : c.offset_len ≤ 1024

module _ {env : Env} where
  abbrev pub counted : AtUtils env → AtCmdList → AtUtils env
  counted c pos = record c {
    write_list = set_first (record pos { del_cnt = sub_mod (2 ^ 8) pos.del_cnt 1 }) c.write_list;
    busy_flag = if (c.busy_flag == 2) || (pos.at_cmd.data_len == 0) then 0 else c.busy_flag;
  }

  answered_steps :
      (c : AtUtils env) (pos : AtCmdList)
      → first_entry c ≡ some pos
      → (sub_mod (2 ^ 8) pos.del_cnt 1 == 0) ≡ true
      → answered c
        ≡ some (record {
          ret = c.state;
          update_flag = true;
          context = record (destroy_cmd_list false (counted c pos)) { state = idle };
          events = [];
        })
  unfolding answered
  answered_steps c pos x y = rw x (rw y refl)

  answer_case :
      (ret : AtState) (c : AtUtils env) (buf : Bytes) (len : ℕ)
      → (c.state ≡ read_ok) ⊎ (c.state ≡ read_connect_ok)
      → read_case c.state ret c buf len ≡ answered c
  unfolding read_case
  answer_case ret c buf len (inl h) = ap (λ (s : AtState). read_case s ret c buf len) h
  answer_case ret c buf len (inr h) = ap (λ (s : AtState). read_case s ret c buf len) h

  first_gone :
      (c : AtUtils env) (pos : AtCmdList) (cmds : List AtCmdList)
      → c.write_list ≡ pos ∷ cmds
      → (destroy_cmd_list false (counted c pos)).write_list ≡ cmds
  unfolding destroy_cmd_list destroy_loop
  first_gone c pos cmds h =
      ap
        (λ (l : List AtCmdList).
          (destroy_loop false (set_first (record pos { del_cnt = sub_mod (2 ^ 8) pos.del_cnt 1 }) l)
            c.at_cmd_node_cnt).0)
        h

  one_less :
      (c : AtUtils env) (pos : AtCmdList) (cmds : List AtCmdList)
      → c.write_list ≡ pos ∷ cmds
      → (destroy_cmd_list false (counted c pos)).at_cmd_node_cnt
        ≡ sub_mod (2 ^ 8) c.at_cmd_node_cnt 1
  unfolding destroy_cmd_list destroy_loop
  one_less c pos cmds h =
      ap
        (λ (l : List AtCmdList).
          (destroy_loop false (set_first (record pos { del_cnt = sub_mod (2 ^ 8) pos.del_cnt 1 }) l)
            c.at_cmd_node_cnt).1)
        h

-- The last answer to the first command, found in the ring, takes exactly that command from the list and
-- counts one less, takes the answer's bytes from the ring, and lets the engine rest; a command without data, and one
-- whose data has been sent, leaves it not busy. The call returns the state of the answer and calls no
-- callback.
pub answer_takes_command :
    {env : Env} (e : IsEnv env) {c : AtUtils env} {pos : AtCmdList} {cmds : List AtCmdList}
    (h : IsAnswered e c pos cmds) (fuel : ℕ) (ret : AtState)
    → (c' : AtUtils env) × (read_loop (suc fuel) ret c
        ≡ some (record { ret = c.state; context = c'; events = [] }))
      × (c'.write_list ≡ cmds)
      × (c'.at_cmd_node_cnt ≡ sub_mod (2 ^ 8) c.at_cmd_node_cnt 1)
      × (e.queue c'.fifo_handle ≡ drop c.offset_len (e.queue c.fifo_handle))
      × (c'.state ≡ idle)
      × (c'.busy_flag
          ≡ (if (c.busy_flag == 2) || (pos.at_cmd.data_len == 0) then 0 else c.busy_flag))
unfolding destroy_cmd_list
answer_takes_command {env} e {c} {pos} {cmds} h fuel ret =
    let (r, out, good, rest) = e.update_out c.fifo_handle c.offset_len h.good h.some_len h.small in
    let n : ℕ = min 200 (length (e.queue c.fifo_handle)) in
    let buf : Bytes = overwrite (replicate 200 0) 0 (take n (e.queue c.fifo_handle)) in
    let after : AtUtils env = record (destroy_cmd_list false (counted c pos)) { state = idle } in
    let done : env.Ring → Reply env = λ left. record {
      ret = c.state;
      context = record after { fifo_handle = left; offset_len = 0 };
      events = [];
    } in
    (
      record after { fifo_handle = r; offset_len = 0 },
      loop_ends fuel ret c (
          start_steps ret c {len = n} {buf = buf}
            (ap (λ (k : ℕ). env.fifo_peek c.fifo_handle (replicate 200 0) k) {y = 200}
                (rw (h.no_block) refl)
              ∙ e.peek c.fifo_handle (replicate 200 0) 200 h.good (omega arith) (omega arith)
                  (omega (arith, length-replicate {A = ℕ} 200 0)))
            (ground (arith, h.bytes)) (resume_none c h.not_parsing)
            (answer_case ret c buf (u16 n) h.found
              ∙ answered_steps c pos (first_lem c pos cmds h.first) (ground (arith, h.last)))
            (update_steps
              (record { ret = c.state; update_flag = true; context = after; events = [] }) refl out)
          ∙ ap (λ (b : Bool). some (b, done r)) h.not_parsing),
      first_gone c pos cmds h.first,
      one_less c pos cmds h.first,
      rest,
      refl,
      refl,
    )
