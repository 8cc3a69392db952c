-- ===== src/AtUtils/Engine.antt =====
-- src/hy_at_utils.c: the cases of the switch of `_read_handle`.
use libhy_utils_bak.Base.{
  ℕ, ◌^◌, Bool, true, false, not, ◌&&◌, ◌||◌, Option, none, some, List, [], ◌∷◌, ltb, ◌==◌,
  if◌then◌else◌, ◌>>=◌, u16, sub_mod, Bytes, get_elem?,
}
use libhy_utils_bak.AtUtils.{
  AtState, AtCmdList, BufUnion, Env, AtUtils, Event, frame, destroy_cmd_list, idle, read_send,
  read_closed, write, write_cmd, write_cmd_wait, write_data, write_max, other,
}
use libhy_utils_bak.AtUtils.Frame.{find_frame_tag, handle_ipd_data}

-- `case AT_STATE_READ...AT_STATE_READ_MAX`
abbrev pub is_read : AtState → Bool
is_read idle = false
is_read write = false
is_read write_cmd = false
is_read write_cmd_wait = false
is_read write_data = false
is_read write_max = false
is_read (other n) = false
is_read _ = true

abbrev pub is_idle : AtState → Bool
is_idle idle = true
is_idle _ = false

-- the first entry of the list changed
abbrev pub set_first : AtCmdList → List AtCmdList → List AtCmdList
set_first pos [] = []
set_first pos (old ∷ write_list) = pos ∷ write_list

module _ (env : Env) where
  -- where a case of the switch leaves off: `ret`, `update_flag`, the context, and the callbacks called
  pub record Turn : Type 0 where
    pub ret : AtState
    pub update_flag : Bool
    pub context : AtUtils env
    pub events : List Event

  -- what a call returns, the context, and the callbacks called
  pub record Reply : Type 0 where
    pub ret : AtState
    pub context : AtUtils env
    pub events : List Event

module _ {env : Env} where
  -- `list_first_entry`, and what is done with the entry, which faults when there is none
  unfoldable pub first_entry : AtUtils env → Option AtCmdList
  first_entry context = elim context.write_list [ [] ↦ none | pos ∷ write_list ↦ some pos ]

  -- `_HANDLE_FRAME_CB`
  unfoldable pub handle_frame_cb : AtUtils env → ℕ → BufUnion → List Event
  handle_frame_cb context flag u =
      if context.handle_cb.handle_frame_cb then frame flag u.buf u.len ∷ [] else []

  -- the cases with a frame of data: what follows a frame that is whole
  unfoldable pub whole_frame : AtUtils env → ℕ → Option (AtUtils env × List Event)
  unfolding handle_frame_cb
  whole_frame context flag = do
    u ← context.buf_union
    some (record context { buf_union = none }, handle_frame_cb context flag u)

  -- the cases AT_STATE_READ_ERROR and AT_STATE_READ_FAILD
  unfoldable pub read_failed : AtUtils env → Option (Turn env)
  unfolding first_entry destroy_cmd_list
  read_failed context = do
    fifo_handle ← env.fifo_clean context.fifo_handle
    pos ← first_entry context
    let retry = sub_mod (2 ^ 8) pos.at_cmd.retry 1
    let counted = record context {
      fifo_handle = fifo_handle;
      write_list =
          set_first (record pos { at_cmd = record (pos.at_cmd) { retry = retry } })
            context.write_list;
    }
    some (
        if retry == 0
        then record {
          ret = read_closed;
          update_flag = false;
          context = record (destroy_cmd_list false counted) { state = write };
          events = [];
        }
        else record {
          ret = context.state;
          update_flag = false;
          context = record counted { state = write };
          events = [];
        })

  -- the cases AT_STATE_READ_CONNECT_OK and AT_STATE_READ_OK
  unfoldable pub answered : AtUtils env → Option (Turn env)
  unfolding first_entry destroy_cmd_list
  answered context = do
    pos ← first_entry context
    let del_cnt = sub_mod (2 ^ 8) pos.del_cnt 1
    let counted = record context {
      write_list = set_first (record pos { del_cnt = del_cnt }) context.write_list;
      busy_flag =
          if (context.busy_flag == 2) || (pos.at_cmd.data_len == 0) then 0 else context.busy_flag;
    }
    some (record {
      ret = context.state;
      update_flag = true;
      context = record (if del_cnt == 0 then destroy_cmd_list false counted else counted) {
        state = idle;
      };
      events = [];
    })

  -- the case AT_STATE_READ_IPD_DATA
  unfoldable pub ipd_turn : AtState → AtUtils env → Bytes → ℕ → Option (Turn env)
  unfolding handle_ipd_data whole_frame
  ipd_turn ret context buf len = do
    (whole, handled) ← handle_ipd_data context buf len
    (after, events) ←
        if whole
        then whole_frame (record handled { frame_sum = 0; parsing_flag = false; state = idle }) 1
        else some (handled, [])
    some (record {
      ret = ret;
      update_flag = ltb 0 after.offset_len;
      context = after;
      events = events;
    })

  -- the cases AT_STATE_READ_SIGNAL_CSQ and AT_STATE_READ_SIGNAL_CWJAP_DEF
  unfoldable pub signal_turn : AtState → Option (Bool × AtUtils env) → Option (Turn env)
  unfolding whole_frame
  signal_turn ret result = do
    (whole, handled) ← result
    (if not whole
        then some (record { ret = ret; update_flag = false; context = handled; events = [] })
        else (handled.buf_union >>= λ u.
            whole_frame (record handled { offset_len = u16 u.len; state = idle }) 0 >>= λ r.
            some (record { ret = ret; update_flag = true; context = r.0; events = r.1 })))

  -- the cases AT_STATE_IDLE and AT_STATE_READ, and AT_STATE_READ_HEAD
  unfoldable pub start_turn : AtState → AtUtils env → Bytes → ℕ → Option (Turn env)
  unfolding find_frame_tag
  start_turn ret context buf len = do
    (state, found) ← find_frame_tag context buf len false
    some (record {
      ret = ret;
      update_flag = ltb 0 found.offset_len;
      context = record found { state = state };
      events = [];
    })

  unfoldable pub head_turn : AtState → AtUtils env → Bytes → ℕ → Option (Turn env)
  unfolding find_frame_tag
  head_turn ret context buf len = do
    (state, found) ← find_frame_tag context buf len true
    b ← get_elem? buf 0
    some (
        if is_idle state && not (found.offset_len == 0)
        then if (env.fifo_used_len found.fifo_handle == 1) && (b == 62)
          then record {
            ret = ret;
            update_flag = false;
            context = record found { state = read_send };
            events = [];
          }
          else record {
            ret = ret;
            update_flag = true;
            context = record found { state = state };
            events = [];
          }
        else record {
          ret = ret;
          update_flag = false;
          context = record found { state = state };
          events = [];
        })
