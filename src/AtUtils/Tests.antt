-- ===== src/AtUtils/Tests.antt =====
-- Runs of the AT command engine on small rings.
use mathlib.Core.Option.{some-injective}
use libhy_utils_bak.Base.{
  ℕ, ◌^◌, ◌≡◌, refl, sym, ap, ◌∙◌, true, false, Option, none, some, [], ◌∷◌, ◌++◌, arith, Bytes,
  length, take, drop, min, overwrite, replicate, length-replicate, inl, sub_mod, if◌then◌else◌,
  ◌||◌, ◌==◌,
}
use libhy_utils_bak.StrCopy.{strlen}
use libhy_utils_bak.Fifo.{Fifo, hy_fifo_update_out}
use libhy_utils_bak.Fifo.Inv.{IsValid, contents}
use libhy_utils_bak.AtUtils.{
  AtState, idle, read, read_ok, read_ipd_data, AtCmdList, BufUnion, Env, AtUtils, wrote,
  hy_at_utils_write_cmd,
}
use libhy_utils_bak.AtUtils.Engine.{handle_frame_cb}
use libhy_utils_bak.AtUtils.Read.{read_loop, read_turn}
use libhy_utils_bak.AtUtils.Ring.{IsEnv, fifo_env, fifo_env-IsEnv}
use libhy_utils_bak.AtUtils.Deliver.{Delivered, read_loop-delivers}
use libhy_utils_bak.AtUtils.Arrive.{Arriving}
use libhy_utils_bak.AtUtils.WholeFrame.{frame_delivers}
use libhy_utils_bak.AtUtils.Queued.{IsQueued}
use libhy_utils_bak.AtUtils.Bounded.{write_cmd-IsQueued}
use libhy_utils_bak.AtUtils.Limits.{cut_header_faults, process_all, drained_sends_nothing}
use libhy_utils_bak.AtUtils.Commands.{command_is_sent}
use libhy_utils_bak.AtUtils.Answers.{answer_takes_command}

-- blocks of zeros
abbrev create : ℕ → Option BufUnion
create n = some (record { buf = replicate n 0; len = n })

create_sizes : (n : ℕ) (u : BufUnion) → create n ≡ some u → (u.len ≡ n) × (length u.buf ≡ n)
create_sizes n u e =
    let same = some-injective (record { buf = replicate n 0; len = n }) u e in
    (
      sym (ap (λ (t : BufUnion). t.len) same),
      sym (ap (λ (t : BufUnion). length t.buf) same) ∙ length-replicate {A = ℕ} n 0,
    )

-- a ring that is the list of its bytes
abbrev env : Env
env = record {
  Ring = Bytes;
  fifo_create = λ n. some [];
  fifo_put = λ r buf n. some (n, r ++ take n buf);
  fifo_peek = λ r buf n. some (min n (length r), overwrite buf 0 (take (min n (length r)) r));
  fifo_update_out = λ r n. some (drop n r);
  fifo_used_len = λ r. length r;
  fifo_clean = λ r. some [];
  buf_union_create = create;
}

abbrev list_queue : IsEnv env
list_queue = record {
  IsGood = λ r. Unit {0};
  queue = λ r. r;
  peek = λ r buf n good pos small room. refl;
  update_out = λ r n good pos small. (drop n r, refl, tt, refl);
  clean = λ r good. ([], refl, tt, refl);
  create_size = create_sizes;
}

abbrev cmd : AtCmdList
cmd = record {
  at_cmd = record {
    cmd = 65 ∷ 84 ∷ 0 ∷ [];
    cmd_data = none;
    data_len = 0;
    wait_time = 500;
    retry = 3;
  };
  del_cnt = 1;
}

abbrev engine : Bytes → AtState → AtUtils env
engine bytes state = record {
  write_list = cmd ∷ [];
  fifo_handle = bytes;
  sys_tick = 100;
  buf_union = none;
  frame_sum = 0;
  offset_len = 0;
  state = state;
  busy_flag = 0;
  parsing_flag = false;
  is_cmd_ok = false;
  at_cmd_node_cnt = 1;
  at_cmd_num = 2;
  handle_cb = record { write_cb = true; handle_frame_cb = true; args = 0 };
  catch_str = [];
}

-- `+IPD,2:hi` and a byte behind it
abbrev arrived : AtUtils env
arrived = engine (43 ∷ 73 ∷ 80 ∷ 68 ∷ 44 ∷ 50 ∷ 58 ∷ 104 ∷ 105 ∷ 13 ∷ []) read_ipd_data

arriving : {bytes : Bytes} → Arriving list_queue (engine bytes read_ipd_data)
arriving = record { found = refl; not_parsing = refl; no_block = refl; no_sum = refl; good = tt }

frame_delivers_example :
    (c' : AtUtils env) × (read_loop 3 idle arrived
      ≡ some (record {
        ret = idle;
        context = c';
        events = handle_frame_cb arrived 1 (record { buf = 104 ∷ 105 ∷ []; len = 2 });
      }))
    × Delivered list_queue arrived c' (13 ∷ [])
frame_delivers_example =
    frame_delivers list_queue (arriving {bytes = arrived.fifo_handle}) (50 ∷ []) (104 ∷ 105 ∷ [])
      (13 ∷ []) refl
      (record {
        digits = refl;
        short = omega arith;
        some_digit = omega arith;
        number = refl;
        small = omega arith;
        some_byte = omega arith;
      })
      (record { buf = 0 ∷ 0 ∷ []; len = 2 }) refl 2 idle (omega arith)

-- two of three bytes are there
abbrev half : BufUnion
half = record { buf = 97 ∷ 98 ∷ 0 ∷ []; len = 3 }

abbrev waiting_for_one : AtUtils env
waiting_for_one = record (engine (99 ∷ 13 ∷ []) idle) {
  buf_union = some half;
  frame_sum = 2;
  parsing_flag = true;
}

read_loop-delivers_example :
    (c' : AtUtils env) × (read_loop 1 idle waiting_for_one
      ≡ some (record {
        ret = idle;
        context = c';
        events =
            handle_frame_cb waiting_for_one 1
              (record half { buf = overwrite half.buf 2 (99 ∷ []) });
      }))
    × Delivered list_queue waiting_for_one c' (13 ∷ [])
read_loop-delivers_example =
    read_loop-delivers list_queue 1 idle (99 ∷ []) (13 ∷ [])
      (record {
        block = refl;
        whole = refl;
        small = omega arith;
        missing = omega arith;
        parsing = refl;
        good = tt;
      })
      refl refl (omega arith)

engine-IsQueued : (bytes : Bytes) (state : AtState) → IsQueued (engine bytes state)
engine-IsQueued bytes state = record {
  byte = omega arith;
  counted = refl;
  bounded = λ h. omega arith;
}

write_cmd-IsQueued_example :
    IsQueued (record (engine [] idle) { write_list = cmd ∷ cmd ∷ []; at_cmd_node_cnt = 2 })
unfolding hy_at_utils_write_cmd strlen
write_cmd-IsQueued_example =
    write_cmd-IsQueued true true true (engine [] idle)
      (record (engine [] idle) { write_list = cmd ∷ cmd ∷ []; at_cmd_node_cnt = 2 }) cmd.at_cmd true
      (engine-IsQueued [] idle) refl

command_is_sent_example :
    process_all 5 ((110, 110) ∷ (111, 111) ∷ (112, 112) ∷ (130, 130) ∷ []) (engine [] idle)
    ≡ some (
      record (engine [] idle) { sys_tick = 112; busy_flag = 1; state = read },
      wrote (65 ∷ 84 ∷ 0 ∷ []) 2 ∷ [],
    )
unfolding strlen
command_is_sent_example =
    command_is_sent 5 (110, 110) (111, 111) (112, 112) (130, 130) (engine [] idle) cmd []
      (record {
        at_rest = refl;
        nothing = refl;
        first = refl;
        in_time = omega arith;
        not_busy = refl;
        can_write = refl;
      })
      refl (omega arith)

abbrev answered : AtUtils env
answered = record (engine (79 ∷ 75 ∷ 13 ∷ []) read_ok) { offset_len = 2 }

answer_takes_command_example :
    (c' : AtUtils env) × (read_loop 1 idle answered
      ≡ some (record { ret = read_ok; context = c'; events = [] }))
    × (c'.write_list ≡ [])
    × (c'.at_cmd_node_cnt ≡ sub_mod (2 ^ 8) 1 1)
    × (c'.fifo_handle ≡ drop 2 (79 ∷ 75 ∷ 13 ∷ []))
    × (c'.state ≡ idle)
    × (c'.busy_flag ≡ (if ((0 == 2) || (0 == 0)) then 0 else 0))
answer_takes_command_example =
    answer_takes_command list_queue {c = answered} {pos = cmd} {cmds = []}
      (record {
        found = inl refl;
        first = refl;
        last = refl;
        not_parsing = refl;
        no_block = refl;
        good = tt;
        bytes = omega arith;
        some_len = omega arith;
        small = omega arith;
      })
      0 idle

-- `+IPD,120`, without its colon
abbrev cut : AtUtils env
cut = engine (43 ∷ 73 ∷ 80 ∷ 68 ∷ 44 ∷ 49 ∷ 50 ∷ 48 ∷ []) read_ipd_data

cut_header_faults_example : read_turn idle cut ≡ none
cut_header_faults_example =
    cut_header_faults list_queue (arriving {bytes = cut.fifo_handle}) 49 50 48 idle refl refl
      (omega arith) refl

-- a ring of eight bytes after three have been put
abbrev loaded : Fifo
loaded = record {
  buf = 1 ∷ 2 ∷ 3 ∷ 0 ∷ 0 ∷ 0 ∷ 0 ∷ 0 ∷ [];
  size = 8;
  use_cnt = 3;
  in_pos = 3;
  out_pos = 0;
}

loaded-IsValid : IsValid loaded
loaded-IsValid = record {
  exponent = 3;
  power = refl;
  small = omega arith;
  whole = refl;
  in_word = omega arith;
  out_word = omega arith;
  held = omega arith;
}

abbrev resting : AtUtils (fifo_env create)
resting = record {
  write_list = cmd ∷ [];
  fifo_handle = loaded;
  sys_tick = 0;
  buf_union = none;
  frame_sum = 0;
  offset_len = 0;
  state = idle;
  busy_flag = 0;
  parsing_flag = false;
  is_cmd_ok = false;
  at_cmd_node_cnt = 1;
  at_cmd_num = 2;
  handle_cb = record { write_cb = true; handle_frame_cb = true; args = 0 };
  catch_str = [];
}

drained_sends_nothing_example :
    (f' : Fifo) × (c' : AtUtils (fifo_env create)) × (hy_fifo_update_out (some loaded) 200
      ≡ some (3, some f'))
    × (process_all 3 ((0, 0) ∷ (900, 900) ∷ []) (record resting { fifo_handle = f' })
        ≡ some (c', []))
    × (c'.write_list ≡ cmd ∷ [])
drained_sends_nothing_example =
    drained_sends_nothing create 2 ((0, 0) ∷ (900, 900) ∷ []) resting 200 (inl refl) refl
      loaded-IsValid (omega arith) (omega arith) (omega arith) (omega arith) (omega arith)

fifo_env-IsEnv_example : (e : IsEnv (fifo_env create)) × (e.IsGood ≡ IsValid) × (e.queue ≡ contents)
fifo_env-IsEnv_example = fifo_env-IsEnv create create_sizes
