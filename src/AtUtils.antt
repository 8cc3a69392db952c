-- ===== src/AtUtils.antt =====
-- src/hy_at_utils.c and include/hy_at_utils.h: the state of the AT command engine, and its commands.
-- `none` is an access outside an array or through a pointer to no entry.
-- The build flag SAVE_TEST_DATA is off.
pub mod Frame
pub mod Engine
pub mod Read
pub mod Ring
pub mod Receive
pub mod Deliver
pub mod Queued
pub mod Limits
pub mod Commands
pub mod Answers
mod Tests
pub mod Header
pub mod Arrive
pub mod FirstRound
pub mod WholeFrame
pub mod Rounds
pub mod Bounded
pub mod Process
use libhy_utils_bak.Base.{
  ℕ, zero, suc, ◌+◌, ◌^◌, Bool, true, false, not, ◌&&◌, ◌||◌, Option, none, some, List, [], ◌∷◌,
  ◌++◌, ltb, leb, ◌==◌, if◌then◌else◌, ◌>>=◌, u8, u32, sub_mod, Bytes, take, memcpy, replicate,
  length,
}
use libhy_utils_bak.StrCopy.{strlen}

-- the states, in their order, and any other value
pub data AtState : Type 0 where
  idle : AtState
  read read_head read_ready read_ready_1 read_ready_2 read_ok read_connect_ok : AtState
  read_signal_csq read_signal_cwjap_def read_ipd_data read_faild read_error : AtState
  read_error_already_connected read_busy_s read_send read_closed read_max : AtState
  write write_cmd write_cmd_wait write_data write_max : AtState
  other : ℕ → AtState

-- `AtCatchStr_t`
pub record AtCatchStr : Type 0 where
  pub state : AtState
  pub catch_str : Bytes

-- `AtCmd_t`; `cmd_data` is its `data`
pub record AtCmd : Type 0 where
  pub cmd : Bytes
  pub cmd_data : Option Bytes
  pub data_len : ℕ
  pub wait_time : ℕ
  pub retry : ℕ

-- `at_cmd_list_t`, without its links
pub record AtCmdList : Type 0 where
  pub at_cmd : AtCmd
  pub del_cnt : ℕ

-- `AtHandleCb_t`: which of the callbacks are there
pub record AtHandleCb : Type 0 where
  pub write_cb : Bool
  pub handle_frame_cb : Bool
  pub args : ℕ

-- `AtConfig_t`; `catch_str_cnt` is the length of `catch_str`
pub record AtConfig : Type 0 where
  pub handle_cb : AtHandleCb
  pub catch_str : List AtCatchStr
  pub fifo_len : ℕ
  pub at_cmd_num : ℕ
  pub is_cmd_ok : Bool

-- a block with its length, of the library that makes it
pub record BufUnion : Type 0 where
  pub buf : Bytes
  pub len : ℕ

-- What the engine calls: a byte ring, and blocks. The ring's functions are called with the arguments of
-- an older interface than include/hy_fifo.h has.
pub record Env : Type 1 where
  pub Ring : Type 0
  pub fifo_create : ℕ → Option Ring
  pub fifo_put : Ring → Bytes → ℕ → Option (ℕ × Ring)
  pub fifo_peek : Ring → Bytes → ℕ → Option (ℕ × Bytes)
  pub fifo_update_out : Ring → ℕ → Option Ring
  pub fifo_used_len : Ring → ℕ
  pub fifo_clean : Ring → Option Ring
  pub buf_union_create : ℕ → Option BufUnion

-- `at_utils_context_t`
pub record AtUtils (env : Env) : Type 0 where
  pub write_list : List AtCmdList
  pub fifo_handle : env.Ring
  pub sys_tick : ℕ
  pub buf_union : Option BufUnion
  pub frame_sum : ℕ
  pub offset_len : ℕ
  pub state : AtState
  pub busy_flag : ℕ
  pub parsing_flag : Bool
  pub is_cmd_ok : Bool
  pub at_cmd_node_cnt : ℕ
  pub at_cmd_num : ℕ
  pub handle_cb : AtHandleCb
  pub catch_str : List AtCatchStr

-- a call of a callback, with its arguments but the last
pub data Event : Type 0 where
  wrote : Bytes → ℕ → Event
  frame : ℕ → Bytes → ℕ → Event

-- `strncpy` of the `len` bytes of a string into a zeroed block of `len + 1`
abbrev pub copy_str : Bytes → ℕ → Bytes
copy_str s len = take len s ++ (0 ∷ [])

-- the entry before its data is there
abbrev pub bare : AtCmd → ℕ → AtCmdList
bare at_cmd len = record {
  at_cmd = record {
    cmd = copy_str at_cmd.cmd len;
    cmd_data = none;
    data_len = 0;
    wait_time = at_cmd.wait_time;
    retry = at_cmd.retry;
  };
  del_cnt = 1;
}

-- lines 97 to 108: the data of a command, and the second answer it waits for
unfoldable pub fill_data :
    (data_ok is_cmd_ok : Bool) → AtCmd → AtCmdList → Option (Option AtCmdList)
fill_data data_ok is_cmd_ok at_cmd at_cmd_list =
    if not (ltb 0 at_cmd.data_len)
    then some (some at_cmd_list)
    else if not data_ok
    then some none
    else (at_cmd.cmd_data >>= λ src.
        memcpy (replicate at_cmd.data_len 0) 0 src 0 at_cmd.data_len >>= λ bytes. some (
          some (record {
            at_cmd = record at_cmd_list.at_cmd {
              cmd_data = some bytes;
              data_len = at_cmd.data_len;
            };
            del_cnt = if is_cmd_ok then at_cmd_list.del_cnt + 1 else at_cmd_list.del_cnt;
          })))

-- `_at_cmd_list_create`: the results of its three allocations, and the entry or NULL
unfoldable pub at_cmd_list_create :
    (list_ok cmd_ok data_ok is_cmd_ok : Bool) → AtCmd → Option (Option AtCmdList)
unfolding fill_data
at_cmd_list_create list_ok cmd_ok data_ok is_cmd_ok at_cmd = if not list_ok then some none else do
  len ← strlen at_cmd.cmd
  (if not cmd_ok then some none else fill_data data_ok is_cmd_ok at_cmd (bare at_cmd (u32 len)))

-- `_at_cmd_list_destroy`: how many blocks it frees
abbrev pub at_cmd_list_destroy : AtCmdList → ℕ
at_cmd_list_destroy at_cmd_list = elim at_cmd_list.at_cmd.cmd_data [ none ↦ 2 | some bytes ↦ 3 ]

-- `_destroy_cmd_list`, of every command or of the first
unfoldable pub destroy_loop : (all_cmd : Bool) → List AtCmdList → ℕ → List AtCmdList × ℕ
destroy_loop all_cmd [] at_cmd_node_cnt = ([], at_cmd_node_cnt)
destroy_loop all_cmd (pos ∷ write_list) at_cmd_node_cnt =
    let rest = destroy_loop all_cmd write_list (sub_mod (2 ^ 8) at_cmd_node_cnt 1) in
    if not all_cmd then (write_list, sub_mod (2 ^ 8) at_cmd_node_cnt 1) else rest

module _ {env : Env} where
  unfoldable pub destroy_cmd_list : (all_cmd : Bool) → AtUtils env → AtUtils env
  unfolding destroy_loop
  destroy_cmd_list all_cmd context =
      let r = destroy_loop all_cmd context.write_list context.at_cmd_node_cnt in
      record context { write_list = r.0; at_cmd_node_cnt = r.1 }

  -- `_destroy_clean`
  unfoldable pub destroy_clean : AtUtils env → Option (AtUtils env)
  unfolding destroy_cmd_list
  destroy_clean context = do
    fifo_handle ← env.fifo_clean (destroy_cmd_list true context).fifo_handle
    some (record (destroy_cmd_list true context) {
      fifo_handle = fifo_handle;
      buf_union = none;
      sys_tick = 0;
      frame_sum = 0;
      offset_len = 0;
      state = idle;
      busy_flag = 0;
      parsing_flag = false;
    })

  -- `HyAtUtilsWriteCmd`: whether the command is taken
  unfoldable pub hy_at_utils_write_cmd :
      (list_ok cmd_ok data_ok : Bool)
      → Option (AtUtils env)
      → Option AtCmd
      → Option (Bool × Option (AtUtils env))
  unfolding at_cmd_list_create
  hy_at_utils_write_cmd list_ok cmd_ok data_ok (some context) (some at_cmd) =
      if not (context.at_cmd_num == 0) && leb context.at_cmd_num context.at_cmd_node_cnt
      then some (false, some context)
      else do
        created ← at_cmd_list_create list_ok cmd_ok data_ok context.is_cmd_ok at_cmd
        some (elim created [
          | none ↦ (false, some context)
          | some at_cmd_list ↦ (
            true,
            some (record context {
              write_list = context.write_list ++ (at_cmd_list ∷ []);
              at_cmd_node_cnt = u8 (context.at_cmd_node_cnt + 1);
            }),
          )
        ])
  hy_at_utils_write_cmd list_ok cmd_ok data_ok handle at_cmd = some (false, handle)

  -- `HyAtUtilsPutData`
  unfoldable pub hy_at_utils_put_data :
      Option (AtUtils env) → Option Bytes → ℕ → Option (ℕ × Option (AtUtils env))
  hy_at_utils_put_data (some context) (some buf) len = do
    (n, fifo_handle) ← env.fifo_put context.fifo_handle buf len
    some (n, some (record context { fifo_handle = fifo_handle }))
  hy_at_utils_put_data handle buf len = some (0, handle)

  -- `HyAtUtilsClean`
  unfoldable pub hy_at_utils_clean : Option (AtUtils env) → Option (Option (AtUtils env))
  unfolding destroy_clean
  hy_at_utils_clean none = some none
  hy_at_utils_clean (some context) = do context' ← destroy_clean context; some (some context')

  -- `HyAtUtilsDestroy`: the blocks of the commands and the context that it frees; the ring is freed by
  -- its own library
  unfoldable pub hy_at_utils_destroy : Option (AtUtils env) → ℕ
  hy_at_utils_destroy none = 0
  hy_at_utils_destroy (some context) = blocks context.write_list + 1
    where
      blocks : List AtCmdList → ℕ
      blocks [] = 0
      blocks (pos ∷ write_list) = at_cmd_list_destroy pos + blocks write_list

-- `HyAtUtilsCreate`, and whether its allocation succeeds. The context is zeroed.
unfoldable pub hy_at_utils_create : (env : Env) → Bool → Option AtConfig → Option (AtUtils env)
hy_at_utils_create env ok none = none
hy_at_utils_create env ok (some config) = if not ok then none else do
  fifo_handle ← env.fifo_create config.fifo_len
  some (record {
    write_list = [];
    fifo_handle = fifo_handle;
    sys_tick = 0;
    buf_union = none;
    frame_sum = 0;
    offset_len = 0;
    state = idle;
    busy_flag = 0;
    parsing_flag = false;
    is_cmd_ok = config.is_cmd_ok;
    at_cmd_node_cnt = 0;
    at_cmd_num = config.at_cmd_num;
    handle_cb = config.handle_cb;
    catch_str = config.catch_str;
  })
