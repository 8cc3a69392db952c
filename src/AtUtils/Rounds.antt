-- ===== src/AtUtils/Rounds.antt =====
-- The rounds of `_read_handle` keep the list of commands within its bound.
use libhy_utils_bak.Base.{
  ℕ, zero, suc, ◌^◌, Bool, true, false, not, ◌&&◌, Option, some, ◌++◌, ◌==◌, ◌>>=◌, u16, sub_mod,
  Bytes, inl, inr, Bool-cases, get_elem?, replicate, Ensures, Ensures-after, Ensures-bind,
  Ensures-if,
}
use libhy_utils_bak.AtUtils.{
  AtState, AtCmdList, Env, AtUtils, idle, read, read_head, read_ok, read_connect_ok,
  read_signal_csq, read_signal_cwjap_def, read_ipd_data, read_faild, read_error,
}
use libhy_utils_bak.AtUtils.Frame.{find_frame_tag, handle_signal_csq, handle_signal_cwjap_def}
use libhy_utils_bak.AtUtils.Engine.{
  is_idle, Turn, Reply, first_entry, set_first, read_failed, answered, head_turn,
}
use libhy_utils_bak.AtUtils.Read.{factor, resume, read_case, update, read_turn, read_loop}
use libhy_utils_bak.AtUtils.Queued.{
  IsQueued, Keeps, KeepsTurn, start_turn-IsQueued, ipd_turn-IsQueued, signal_turn-IsQueued,
  handle_signal-IsQueued, find_frame_tag-IsQueued, set_first-IsQueued, destroy_cmd_list-IsQueued,
}

module _ {env : Env} where
  abbrev pub KeepsReply : Reply env → Type 0
  KeepsReply r = IsQueued r.context

  head_turn-IsQueued :
      (ret : AtState) (c : AtUtils env) (buf : Bytes) (len : ℕ)
      → IsQueued c
      → Ensures KeepsTurn (head_turn ret c buf len)
  unfolding head_turn
  head_turn-IsQueued ret c buf len q =
      Ensures-bind (λ (r : AtState × AtUtils env). IsQueued r.1) KeepsTurn
        (find_frame_tag c buf len true) _ (find_frame_tag-IsQueued c buf len true q)
        (λ r k. Ensures-after KeepsTurn (get_elem? buf 0) _ (λ b.
          elim (Bool-cases (is_idle r.0 && not (r.1.offset_len == 0))) [
            | inr e ↦ rw e k
            | inl e ↦
                rw e (elim (Bool-cases ((env.fifo_used_len r.1.fifo_handle == 1) && (b == 62))) [
                  | inl d ↦ rw d k
                  | inr d ↦ rw d k
                ])
          ]))

  csq-IsQueued :
      (c : AtUtils env) (buf : Bytes) (len : ℕ)
      → IsQueued c
      → Ensures Keeps (handle_signal_csq c buf len)
  unfolding handle_signal_csq
  csq-IsQueued c buf len q = handle_signal-IsQueued 16 c buf len q

  cwjap_def-IsQueued :
      (c : AtUtils env) (buf : Bytes) (len : ℕ)
      → IsQueued c
      → Ensures Keeps (handle_signal_cwjap_def c buf len)
  unfolding handle_signal_cwjap_def
  cwjap_def-IsQueued c buf len q = handle_signal-IsQueued 38 c buf len q

  read_failed-IsQueued : (c : AtUtils env) → IsQueued c → Ensures KeepsTurn (read_failed c)
  unfolding read_failed
  read_failed-IsQueued c q =
      Ensures-after KeepsTurn (env.fifo_clean c.fifo_handle) _ (λ fifo_handle.
        Ensures-after KeepsTurn (first_entry c) _ (λ pos.
          let pos' : AtCmdList = record pos {
            at_cmd = record (pos.at_cmd) { retry = sub_mod (2 ^ 8) pos.at_cmd.retry 1 };
          } in
          let k = set_first-IsQueued c pos' q in
          elim (Bool-cases (sub_mod (2 ^ 8) pos.at_cmd.retry 1 == 0)) [
            | inl e ↦ rw e (
                destroy_cmd_list-IsQueued false
                  (record c { write_list = set_first pos' c.write_list }) k)
            | inr e ↦ rw e k
          ]))

  answered-IsQueued : (c : AtUtils env) → IsQueued c → Ensures KeepsTurn (answered c)
  unfolding answered
  answered-IsQueued c q = Ensures-after KeepsTurn (first_entry c) _ (λ pos.
      let pos' : AtCmdList = record pos { del_cnt = sub_mod (2 ^ 8) pos.del_cnt 1 } in
      let k = set_first-IsQueued c pos' q in
      elim (Bool-cases (sub_mod (2 ^ 8) pos.del_cnt 1 == 0)) [
        | inl e ↦ rw e (
            destroy_cmd_list-IsQueued false (record c { write_list = set_first pos' c.write_list })
              k)
        | inr e ↦ rw e k
      ])

  read_case-IsQueued :
      (state ret : AtState) (c : AtUtils env) (buf : Bytes) (len : ℕ)
      → IsQueued c
      → Ensures KeepsTurn (read_case state ret c buf len)
  unfolding read_case
  read_case-IsQueued idle ret c buf len q = start_turn-IsQueued ret c buf len q
  read_case-IsQueued read ret c buf len q = start_turn-IsQueued ret c buf len q
  read_case-IsQueued read_head ret c buf len q = head_turn-IsQueued ret c buf len q
  read_case-IsQueued read_error ret c buf len q = read_failed-IsQueued c q
  read_case-IsQueued read_faild ret c buf len q = read_failed-IsQueued c q
  read_case-IsQueued read_connect_ok ret c buf len q = answered-IsQueued c q
  read_case-IsQueued read_ok ret c buf len q = answered-IsQueued c q
  read_case-IsQueued read_ipd_data ret c buf len q = ipd_turn-IsQueued ret c buf len q
  read_case-IsQueued read_signal_csq ret c buf len q =
      signal_turn-IsQueued ret (handle_signal_csq c buf len) (csq-IsQueued c buf len q)
  read_case-IsQueued read_signal_cwjap_def ret c buf len q =
      signal_turn-IsQueued ret (handle_signal_cwjap_def c buf len) (cwjap_def-IsQueued c buf len q)
  read_case-IsQueued _ ret c buf len q = q

  update-IsQueued : (t : Turn env) → IsQueued t.context → Ensures KeepsReply (update t)
  unfolding update
  update-IsQueued t q =
      Ensures-if KeepsReply t.update_flag _ _
        (Ensures-after KeepsReply (env.fifo_update_out t.context.fifo_handle t.context.offset_len) _
          (λ r. q))
        q

  resume-IsQueued : (c : AtUtils env) → IsQueued c → IsQueued (resume c)
  unfolding resume
  resume-IsQueued c q = elim (Bool-cases c.parsing_flag) [ inl e ↦ rw e q | inr e ↦ rw e q ]

  abbrev KeepsRound : Bool × Reply env → Type 0
  KeepsRound r = IsQueued r.1.context

  read_turn-IsQueued :
      (ret : AtState) (c : AtUtils env) → IsQueued c → Ensures KeepsRound (read_turn ret c)
  unfolding read_turn
  read_turn-IsQueued ret c q =
      Ensures-after KeepsRound (env.fifo_peek c.fifo_handle (replicate 200 0) (factor c)) _ (λ p.
        Ensures-if KeepsRound (u16 p.0 == 0) _ _ q (
          Ensures-bind KeepsTurn KeepsRound
            (read_case (resume c).state ret (resume c) p.1 (u16 p.0)) _
            (read_case-IsQueued (resume c).state ret (resume c) p.1 (u16 p.0) (resume-IsQueued c q))
            (λ t k.
              Ensures-bind KeepsReply KeepsRound (update t) _ (update-IsQueued t k) (λ r l. l))))

  later :
      (more : Bool) (r : Reply env)
      → IsQueued r.context
      → (o : Option (Reply env)) → Ensures KeepsReply o
      → Ensures KeepsReply (elim more [
        | false ↦ some r
        | true ↦
            (o >>= λ s.
            some (record { ret = s.ret; context = s.context; events = r.events ++ s.events }))
      ])
  later false r k o h = k
  later true r k o h = Ensures-bind KeepsReply KeepsReply o _ h (λ s l. l)

  pub read_loop-IsQueued :
      (fuel : ℕ) (ret : AtState) (c : AtUtils env)
      → IsQueued c
      → Ensures KeepsReply (read_loop fuel ret c)
  unfolding read_loop
  read_loop-IsQueued zero ret c q = tt
  read_loop-IsQueued (suc fuel) ret c q =
      Ensures-bind KeepsRound KeepsReply (read_turn ret c) _ (read_turn-IsQueued ret c q) (λ r k.
        later r.0 r.1 k (read_loop fuel r.1.ret r.1.context)
          (read_loop-IsQueued fuel r.1.ret r.1.context k))
