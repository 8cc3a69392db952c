-- ===== src/AtUtils/Receive.antt =====
-- The pieces of a frame with data, put together by the loop of `_read_handle`.
use libhy_utils_bak.Base.{
  ℕ, suc, ◌+◌, ◌-◌, ◌<◌, ◌≤◌, ◌≡◌, refl, ap, ◌∙◌, Bool, true, false, none, some, [], ◌++◌, ltb,
  ◌==◌, if◌then◌else◌, u16, u32, Bytes, length, take, drop, min, arith, inl, inr, Bool-cases,
  memcpy, overwrite, memcpy-overwrite, length-overwrite, take-append, length-take, replicate,
  length-replicate,
}
use libhy_utils_bak.AtUtils.{AtState, idle, read_ipd_data, BufUnion, Env, AtUtils}
use libhy_utils_bak.AtUtils.Frame.{handle_ipd_data, next_piece}
use libhy_utils_bak.AtUtils.Engine.{Turn, Reply, handle_frame_cb, whole_frame, ipd_turn}
use libhy_utils_bak.AtUtils.Read.{factor, resume, read_case, update, read_turn, read_loop}
use libhy_utils_bak.AtUtils.Ring.{IsEnv}

module _ {env : Env} where
  resume_lem :
      (c : AtUtils env) → c.parsing_flag ≡ true → resume c ≡ record c { state = read_ipd_data }
  unfolding resume
  resume_lem c h = ap (λ (b : Bool). if b then record c { state = read_ipd_data } else c) h

  turn_steps :
      (ret : AtState) (c : AtUtils env) {len : ℕ} {buf : Bytes} {t : Turn env} {r : Reply env}
      → env.fifo_peek c.fifo_handle (replicate 200 0) (factor c) ≡ some (len, buf)
      → (u16 len == 0) ≡ false
      → c.parsing_flag ≡ true
      → ipd_turn ret (record c { state = read_ipd_data }) buf (u16 len) ≡ some t
      → update t ≡ some r
      → read_turn ret c ≡ some (r.context.parsing_flag, r)
  unfolding read_turn read_case
  turn_steps ret c x y z u v = rw x (rw y (rw (resume_lem c z) (rw u (rw v refl))))

  pub more_steps :
      (ret : AtState) (c : AtUtils env) (buf : Bytes) (len : ℕ) {handled : AtUtils env}
      → handle_ipd_data c buf len ≡ some (false, handled)
      → ipd_turn ret c buf len
        ≡ some (record {
          ret = ret;
          update_flag = ltb 0 handled.offset_len;
          context = handled;
          events = [];
        })
  unfolding ipd_turn
  more_steps ret c buf len x = rw x refl

  pub whole_steps :
      (ret : AtState) (c : AtUtils env) (buf : Bytes) (len : ℕ) {handled : AtUtils env}
      {u : BufUnion}
      → handle_ipd_data c buf len ≡ some (true, handled)
      → handled.buf_union ≡ some u
      → ipd_turn ret c buf len
        ≡ some (record {
          ret = ret;
          update_flag = ltb 0 handled.offset_len;
          context = record handled {
            frame_sum = 0;
            parsing_flag = false;
            state = idle;
            buf_union = none;
          };
          events = handle_frame_cb handled 1 u;
        })
  unfolding ipd_turn whole_frame handle_frame_cb
  whole_steps ret c buf len x y = rw x (rw y refl)

  pub update_steps :
      (t : Turn env) {r : env.Ring}
      → t.update_flag ≡ true
      → env.fifo_update_out t.context.fifo_handle t.context.offset_len ≡ some r
      → update t
        ≡ some (record {
          ret = t.ret;
          context = record (t.context) { fifo_handle = r; offset_len = 0 };
          events = t.events;
        })
  unfolding update
  update_steps t x y = rw x (rw y refl)

  pub loop_ends :
      (fuel : ℕ) (ret : AtState) (c : AtUtils env) {r : Reply env}
      → read_turn ret c ≡ some (false, r)
      → read_loop (suc fuel) ret c ≡ some r
  unfolding read_loop
  loop_ends fuel ret c x = rw x refl

  pub loop_goes_on :
      (fuel : ℕ) (ret : AtState) (c : AtUtils env) {r s : Reply env}
      → read_turn ret c ≡ some (true, r)
      → read_loop fuel r.ret r.context ≡ some s
      → read_loop (suc fuel) ret c
        ≡ some (record { ret = s.ret; context = s.context; events = r.events ++ s.events })
  unfolding read_loop
  loop_goes_on fuel ret c x y = rw x (rw y refl)

  next_steps :
      (c : AtUtils env) (u : BufUnion) (buf : Bytes) (len : ℕ) {filled : Bytes}
      → c.buf_union ≡ some u
      → memcpy u.buf c.frame_sum buf 0 len ≡ some filled
      → c.parsing_flag ≡ true
      → handle_ipd_data c buf len
        ≡ some (
          (u32 (c.frame_sum + len) == u.len),
          record c {
            buf_union = some (record u { buf = filled });
            frame_sum = u32 (c.frame_sum + len);
            offset_len = len;
            parsing_flag = true;
          },
        )
  unfolding handle_ipd_data next_piece
  next_steps c u buf len x y z = rw x (
      rw y (elim (Bool-cases (u32 (c.frame_sum + len) == u.len)) [
        | inl d ↦ rw d (rw z refl)
        | inr d ↦ rw d refl
      ]))

-- A frame that is being received: part of its block is filled.
pub record Receiving {env : Env} (e : IsEnv env) (c : AtUtils env) (u : BufUnion) : Type 0 where
  pub block : c.buf_union ≡ some u
  pub whole : length u.buf ≡ u.len
  pub small : u.len ≤ 1024
  pub missing : c.frame_sum < u.len
  pub parsing : c.parsing_flag ≡ true
  pub good : e.IsGood c.fifo_handle

module _ {env : Env} (e : IsEnv env) {c : AtUtils env} {u : BufUnion} (h : Receiving e c u) where
  unfoldable pub queued : Bytes
  queued = e.queue c.fifo_handle

  -- how many bytes the next round takes
  unfoldable pub taken : ℕ
  unfolding queued
  taken = min (min 200 (u.len - c.frame_sum)) (length queued)

  abbrev pub round_buf : Bytes
  round_buf = overwrite (replicate 200 0) 0 (take taken queued)

  abbrev pub filled_with : Bytes → BufUnion
  filled_with text = record u { buf = overwrite u.buf c.frame_sum text }

  factor_lem : factor c ≡ min 200 (u.len - c.frame_sum)
  factor_lem = rw (h.block) (omega (arith, h.small, h.missing))

  peeked : env.fifo_peek c.fifo_handle (replicate 200 0) (factor c) ≡ some (taken, round_buf)
  unfolding taken queued
  peeked =
      ap (λ (n : ℕ). env.fifo_peek c.fifo_handle (replicate 200 0) n) factor_lem
      ∙ e.peek c.fifo_handle (replicate 200 0) (min 200 (u.len - c.frame_sum)) h.good
          (omega (arith, h.missing)) (omega arith) (omega (arith, length-replicate {A = ℕ} 200 0))

  taken-length : length (take taken queued) ≡ taken
  unfolding taken
  taken-length = omega (arith, length-take taken queued)

  round_text : take taken round_buf ≡ take taken queued
  round_text =
      take-append taken (take taken queued)
        (drop (0 + length (take taken queued)) (replicate 200 0)) taken-length

  round_size : length round_buf ≡ 200
  unfolding taken
  round_size =
      length-overwrite (replicate 200 0) 0 (take taken queued)
        (omega (arith, taken-length, length-replicate {A = ℕ} 200 0))
      ∙ length-replicate {A = ℕ} 200 0

  copied :
      memcpy u.buf c.frame_sum round_buf 0 taken
      ≡ some (overwrite u.buf c.frame_sum (take taken queued))
  unfolding taken
  copied =
      memcpy-overwrite u.buf c.frame_sum round_buf 0 taken (omega (arith, h.whole, h.missing))
        (omega (arith, round_size))
      ∙ ap (λ (t : Bytes). some (overwrite u.buf c.frame_sum t)) round_text

  abbrev pub after_piece : AtUtils env
  after_piece = record c {
    state = read_ipd_data;
    buf_union = some (filled_with (take taken queued));
    frame_sum = u32 (c.frame_sum + taken);
    offset_len = taken;
    parsing_flag = true;
  }

  handled :
      handle_ipd_data (record c { state = read_ipd_data }) round_buf taken
      ≡ some ((u32 (c.frame_sum + taken) == u.len), after_piece)
  handled =
      next_steps (record c { state = read_ipd_data }) u round_buf taken h.block copied h.parsing

  word : u16 taken ≡ taken
  unfolding taken
  word = omega arith

  nonzero : 0 < taken → (u16 taken == 0) ≡ false
  nonzero pos = ground (arith, word, pos)

  pub left :
      0 < taken
      → (r : env.Ring) × (env.fifo_update_out c.fifo_handle taken ≡ some r)
        × e.IsGood r
        × (e.queue r ≡ drop taken queued)
  unfolding taken queued
  left pos = e.update_out c.fifo_handle taken h.good pos (omega arith)

  abbrev pub after_more : env.Ring → AtUtils env
  after_more r = record after_piece { fifo_handle = r; offset_len = 0 }

  pub piece_more :
      (ret : AtState) {r : env.Ring}
      → (pos : 0 < taken) → env.fifo_update_out c.fifo_handle taken ≡ some r
      → c.frame_sum + taken < u.len
      → read_turn ret c ≡ some (true, record { ret = ret; context = after_more r; events = [] })
  piece_more ret {r} pos out room =
      turn_steps ret c peeked (nonzero pos) h.parsing
        (ap (λ (n : ℕ). ipd_turn ret (record c { state = read_ipd_data }) round_buf n) word
          ∙ more_steps ret (record c { state = read_ipd_data }) round_buf taken
              (handled ∙ ap (λ (b : Bool). some (b, after_piece)) (ground (arith, room, h.small))))
        (update_steps
          (record { ret = ret; update_flag = ltb 0 taken; context = after_piece; events = [] })
          (ground (arith, pos)) out)

  abbrev pub after_whole : env.Ring → AtUtils env
  after_whole r = record after_piece {
    fifo_handle = r;
    offset_len = 0;
    frame_sum = 0;
    parsing_flag = false;
    state = idle;
    buf_union = none;
  }

  pub piece_whole :
      (ret : AtState) {r : env.Ring}
      → (pos : 0 < taken) → env.fifo_update_out c.fifo_handle taken ≡ some r
      → c.frame_sum + taken ≡ u.len
      → read_turn ret c
        ≡ some (
          false,
          record {
            ret = ret;
            context = after_whole r;
            events = handle_frame_cb c 1 (filled_with (take taken queued));
          },
        )
  unfolding handle_frame_cb
  piece_whole ret {r} pos out all =
      turn_steps ret c peeked (nonzero pos) h.parsing
        (ap (λ (n : ℕ). ipd_turn ret (record c { state = read_ipd_data }) round_buf n) word
          ∙ whole_steps ret (record c { state = read_ipd_data }) round_buf taken
              (handled ∙ ap (λ (b : Bool). some (b, after_piece)) (ground (arith, all, h.small)))
              refl)
        (update_steps
          (record {
            ret = ret;
            update_flag = ltb 0 taken;
            context = record after_piece {
              frame_sum = 0;
              parsing_flag = false;
              state = idle;
              buf_union = none;
            };
            events = handle_frame_cb after_piece 1 (filled_with (take taken queued));
          })
          (ground (arith, pos)) out)
