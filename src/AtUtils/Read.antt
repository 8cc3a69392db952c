-- ===== src/AtUtils/Read.antt =====
-- src/hy_at_utils.c: `_read_handle`, a round of its loop at a time.
use libhy_utils_bak.Base.{
  ℕ, zero, suc, ◌^◌, Bool, true, false, Option, none, some, [], ◌++◌, ◌==◌, if◌then◌else◌, ◌>>=◌,
  u16, sub_mod, Bytes, min, replicate,
}
use libhy_utils_bak.AtUtils.{
  AtState, Env, AtUtils, idle, read, read_head, read_ready, read_ok, read_connect_ok,
  read_signal_csq, read_signal_cwjap_def, read_ipd_data, read_faild, read_error, read_busy_s,
  read_send, read_closed, write_data,
}
use libhy_utils_bak.AtUtils.Frame.{handle_signal_csq, handle_signal_cwjap_def}
use libhy_utils_bak.AtUtils.Engine.{
  Turn, Reply, read_failed, answered, ipd_turn, signal_turn, start_turn, head_turn,
}

module _ {env : Env} where
  -- the switch of `_read_handle`, at the state
  unfoldable pub read_case : AtState → (ret : AtState) → AtUtils env → Bytes → ℕ → Option (Turn env)
  unfolding start_turn head_turn read_failed answered ipd_turn signal_turn
  read_case idle ret context buf len = start_turn ret context buf len
  read_case read ret context buf len = start_turn ret context buf len
  read_case read_head ret context buf len = head_turn ret context buf len
  read_case read_ready ret context buf len = some (record {
    ret = read_ready;
    update_flag = true;
    context = record context { state = idle };
    events = [];
  })
  read_case read_busy_s ret context buf len = some (record {
    ret = ret;
    update_flag = true;
    context = record context { state = read };
    events = [];
  })
  read_case read_closed ret context buf len = some (record {
    ret = read_closed;
    update_flag = true;
    context = record context { parsing_flag = false };
    events = [];
  })
  read_case read_error ret context buf len = read_failed context
  read_case read_faild ret context buf len = read_failed context
  read_case read_connect_ok ret context buf len = answered context
  read_case read_ok ret context buf len = answered context
  read_case read_send ret context buf len = some (record {
    ret = ret;
    update_flag = true;
    context = record context { state = write_data };
    events = [];
  })
  read_case read_ipd_data ret context buf len = ipd_turn ret context buf len
  read_case read_signal_csq ret context buf len =
      signal_turn ret (handle_signal_csq context buf len)
  read_case read_signal_cwjap_def ret context buf len =
      signal_turn ret (handle_signal_cwjap_def context buf len)
  read_case _ ret context buf len =
      some (record { ret = ret; update_flag = false; context = context; events = [] })

  -- how many bytes a round asks for
  abbrev pub factor : AtUtils env → ℕ
  factor context = elim context.buf_union [
    | none ↦ 200
    | some u ↦ min 200 (u16 (sub_mod (2 ^ 32) u.len context.frame_sum))
  ]

  -- what follows the switch: the bytes that are done with leave the ring
  unfoldable pub update : Turn env → Option (Reply env)
  update t =
      if t.update_flag
      then (env.fifo_update_out t.context.fifo_handle t.context.offset_len >>= λ fifo_handle.
          some (record {
            ret = t.ret;
            context = record (t.context) { fifo_handle = fifo_handle; offset_len = 0 };
            events = t.events;
          }))
      else some (record { ret = t.ret; context = t.context; events = t.events })

  -- a frame that was interrupted goes on
  unfoldable pub resume : AtUtils env → AtUtils env
  resume context =
      if context.parsing_flag then record context { state = read_ipd_data } else context

  -- one round of the loop of `_read_handle`, and whether there is another
  unfoldable pub read_turn : (ret : AtState) → AtUtils env → Option (Bool × Reply env)
  unfolding resume read_case update
  read_turn ret context = do
    (len, buf) ← env.fifo_peek context.fifo_handle (replicate 200 0) (factor context)
    (if u16 len == 0
        then some
            (false, record { ret = ret; context = record context { state = idle }; events = [] })
        else (read_case (resume context).state ret (resume context) buf (u16 len) >>= λ t.
            update t >>= λ r. some (r.context.parsing_flag, r)))

  unfoldable pub read_loop : (fuel : ℕ) → (ret : AtState) → AtUtils env → Option (Reply env)
  unfolding read_turn
  read_loop zero ret context = none
  read_loop (suc fuel) ret context = do
    (more, r) ← read_turn ret context
    elim more [
      | false ↦ some r
      | true ↦
          (read_loop fuel r.ret r.context >>= λ s.
          some (record { ret = s.ret; context = s.context; events = r.events ++ s.events }))
    ]

  -- `_read_handle`
  unfoldable pub read_handle : (fuel : ℕ) → AtUtils env → Option (Reply env)
  unfolding read_loop
  read_handle fuel context = read_loop fuel idle context
