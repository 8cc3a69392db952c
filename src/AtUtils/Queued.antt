-- ===== src/AtUtils/Queued.antt =====
-- The list of commands, its counter and its bound, over every call of the engine.
use libhy_utils_bak.Base.{
  ℕ, ◌+◌, ◌-◌, ◌^◌, ◌<◌, ◌≤◌, ◌≡◌, ◌≢◌, refl, sym, ap, ◌∙◌, Bool, true, false, not, Option, none,
  some, List, [], ◌∷◌, ltb, leb, memcpy, ◌==◌, if◌then◌else◌, ◌>>=◌, u8, sub_mod, Bytes, length,
  arith, u16, ◌||◌, Ensures, Ensures-after, Ensures-bind, Ensures-if,
}
use libhy_utils_bak.AtUtils.{
  AtState, AtCmdList, BufUnion, Env, AtUtils, Event, idle, destroy_loop, destroy_cmd_list,
  destroy_clean,
}
use libhy_utils_bak.AtUtils.Frame.{
  find_tag, find_start, get_ipd_data_len, get_signal_str, find_frame_tag, handle_signal,
  first_piece, next_piece, ipd_header, ipd_piece, handle_ipd_data,
}
use libhy_utils_bak.AtUtils.Engine.{Turn, set_first, whole_frame, ipd_turn, signal_turn, start_turn}

-- The counter counts the commands in its eight bits, and there are no more than `at_cmd_num`, if that
-- is not 0.
pub record IsBounded (write_list : List AtCmdList) (at_cmd_node_cnt at_cmd_num : ℕ) : Type 0 where
  pub byte : at_cmd_num < 2 ^ 8
  pub counted : at_cmd_node_cnt ≡ u8 (length write_list)
  pub bounded : at_cmd_num ≢ 0 → length write_list ≤ at_cmd_num

abbrev pub IsQueued : {env : Env} → AtUtils env → Type 0
IsQueued c = IsBounded c.write_list c.at_cmd_node_cnt c.at_cmd_num

length-set_first :
    (pos : AtCmdList) (cmds : List AtCmdList) → length (set_first pos cmds) ≡ length cmds
length-set_first pos [] = refl
length-set_first pos (old ∷ cmds) = refl

destroy_first :
    (cmds : List AtCmdList) (n : ℕ)
    → n ≡ u8 (length cmds)
    → ((destroy_loop false cmds n).1 ≡ u8 (length (destroy_loop false cmds n).0))
      × (length (destroy_loop false cmds n).0 ≤ length cmds)
unfolding destroy_loop
destroy_first [] n e = (e, omega arith)
destroy_first (pos ∷ cmds) n e = (omega (arith, e), omega arith)

destroy_all :
    (cmds : List AtCmdList) (n : ℕ)
    → n ≡ u8 (length cmds)
    → ((destroy_loop true cmds n).1 ≡ 0) × ((destroy_loop true cmds n).0 ≡ [])
unfolding destroy_loop
destroy_all [] n e = (e, refl)
destroy_all (pos ∷ cmds) n e = destroy_all cmds (sub_mod (2 ^ 8) n 1) (omega (arith, e))

module _ {env : Env} where
  -- a change of the first command
  pub set_first-IsQueued :
      (c : AtUtils env) (pos : AtCmdList)
      → IsQueued c
      → IsQueued (record c { write_list = set_first pos c.write_list })
  set_first-IsQueued c pos q = record {
    byte = q.byte;
    counted = q.counted ∙ ap u8 (sym (length-set_first pos c.write_list));
    bounded = λ h. omega (arith, q.bounded h, length-set_first pos c.write_list);
  }

  pub destroy_cmd_list-IsQueued :
      (all_cmd : Bool) (c : AtUtils env) → IsQueued c → IsQueued (destroy_cmd_list all_cmd c)
  unfolding destroy_cmd_list
  destroy_cmd_list-IsQueued true c q =
      let (zero_left, none_left) = destroy_all c.write_list c.at_cmd_node_cnt q.counted in
      record {
        byte = q.byte;
        counted = zero_left ∙ ap (λ (cmds : List AtCmdList). u8 (length cmds)) (sym none_left);
        bounded = λ h. omega (arith, ap (λ (cmds : List AtCmdList). length cmds) none_left);
      }
  destroy_cmd_list-IsQueued false c q =
      let (counted, fewer) = destroy_first c.write_list c.at_cmd_node_cnt q.counted in
      record { byte = q.byte; counted = counted; bounded = λ h. omega (arith, q.bounded h, fewer) }

  pub destroy_clean-IsQueued : (c : AtUtils env) → IsQueued c → Ensures IsQueued (destroy_clean c)
  unfolding destroy_clean
  destroy_clean-IsQueued c q =
      Ensures-after IsQueued (env.fifo_clean (destroy_cmd_list true c).fifo_handle) _
        (λ r. destroy_cmd_list-IsQueued true c q)

  -- what is kept of the commands in a result with a context
  abbrev pub Keeps : Bool × AtUtils env → Type 0
  Keeps r = IsQueued r.1

  abbrev pub KeepsTurn : Turn env → Type 0
  KeepsTurn t = IsQueued t.context

  pub handle_signal-IsQueued :
      (shortest : ℕ) (c : AtUtils env) (buf : Bytes) (len : ℕ)
      → IsQueued c
      → Ensures Keeps (handle_signal shortest c buf len)
  unfolding handle_signal
  handle_signal-IsQueued shortest c buf len q = Ensures-if Keeps (ltb len shortest) _ _ q (
      Ensures-after Keeps (get_signal_str buf) _
        (λ ret. Ensures-if Keeps (ret == 0) _ _ q (made (env.buf_union_create ret))))
    where
      made :
          (o : Option BufUnion)
          → Ensures Keeps (elim o [
            | none ↦ some (false, record c { buf_union = none })
            | some u ↦ memcpy u.buf 0 buf 0 u.len >>= λ filled.
                some (true, record c { buf_union = some (record u { buf = filled }) })
          ])
      made none = q
      made (some u) = Ensures-after Keeps (memcpy u.buf 0 buf 0 u.len) _ (λ filled. q)

  first_piece-IsQueued :
      (u : BufUnion) (c : AtUtils env) (buf : Bytes) (len n : ℕ)
      → IsQueued c
      → Ensures Keeps (first_piece u c buf len n)
  unfolding first_piece
  first_piece-IsQueued u c buf len n q =
      Ensures-if Keeps (leb (u.len + n) len) _ _
        (Ensures-after Keeps (memcpy u.buf 0 buf n u.len) _ (λ filled. q))
        (Ensures-if Keeps (ltb len n) _ _ tt
          (Ensures-after Keeps (memcpy u.buf 0 buf n (len - n)) _ (λ filled. q)))

  ipd_header-IsQueued :
      (c : AtUtils env) (buf : Bytes) (len : ℕ) → IsQueued c → Ensures Keeps (ipd_header c buf len)
  unfolding ipd_header
  ipd_header-IsQueued c buf len q = Ensures-after Keeps (get_ipd_data_len buf len) _ (λ r.
      Ensures-if Keeps (leb 10 r.0 || (ltb 1024 r.1 || (r.1 == 0))) _ _
        (Ensures-bind IsQueued Keeps (destroy_clean c) _ (destroy_clean-IsQueued c q) (λ d k. k))
        (made r.0 (env.buf_union_create r.1)))
    where
      made :
          (n : ℕ) (o : Option BufUnion)
          → Ensures Keeps (elim o [ none ↦ some (false, c) | some u ↦ first_piece u c buf len n ])
      made n none = q
      made n (some u) = first_piece-IsQueued u c buf len n q

  ipd_piece-IsQueued :
      (o : Option BufUnion) (c : AtUtils env) (buf : Bytes) (len : ℕ)
      → IsQueued c
      → Ensures Keeps (ipd_piece o c buf len)
  unfolding ipd_piece next_piece
  ipd_piece-IsQueued none c buf len q = ipd_header-IsQueued c buf len q
  ipd_piece-IsQueued (some u) c buf len q =
      Ensures-after Keeps (memcpy u.buf c.frame_sum buf 0 len) _ (λ filled. q)

  handle_ipd_data-IsQueued :
      (c : AtUtils env) (buf : Bytes) (len : ℕ)
      → IsQueued c
      → Ensures Keeps (handle_ipd_data c buf len)
  unfolding handle_ipd_data
  handle_ipd_data-IsQueued c buf len q = ipd_piece-IsQueued c.buf_union c buf len q

  whole_frame-IsQueued :
      (c : AtUtils env) (flag : ℕ)
      → IsQueued c
      → Ensures (λ (r : AtUtils env × List Event). IsQueued r.0) (whole_frame c flag)
  unfolding whole_frame
  whole_frame-IsQueued c flag q =
      Ensures-after (λ (r : AtUtils env × List Event). IsQueued r.0) c.buf_union _ (λ u. q)

  pub find_frame_tag-IsQueued :
      (c : AtUtils env) (buf : Bytes) (len : ℕ) (flag : Bool)
      → IsQueued c
      → Ensures (λ (r : AtState × AtUtils env). IsQueued r.1) (find_frame_tag c buf len flag)
  unfolding find_frame_tag
  find_frame_tag-IsQueued c buf len flag q =
      Ensures-after (λ (r : AtState × AtUtils env). IsQueued r.1)
        (if flag
          then find_tag c.catch_str buf len c.offset_len
          else find_start c.catch_str buf len 0)
        _ (λ r. q)

  pub start_turn-IsQueued :
      (ret : AtState) (c : AtUtils env) (buf : Bytes) (len : ℕ)
      → IsQueued c
      → Ensures KeepsTurn (start_turn ret c buf len)
  unfolding start_turn
  start_turn-IsQueued ret c buf len q =
      Ensures-bind (λ (r : AtState × AtUtils env). IsQueued r.1) KeepsTurn
        (find_frame_tag c buf len false) _ (find_frame_tag-IsQueued c buf len false q) (λ r k. k)

  pub ipd_turn-IsQueued :
      (ret : AtState) (c : AtUtils env) (buf : Bytes) (len : ℕ)
      → IsQueued c
      → Ensures KeepsTurn (ipd_turn ret c buf len)
  unfolding ipd_turn
  ipd_turn-IsQueued ret c buf len q =
      Ensures-bind Keeps KeepsTurn (handle_ipd_data c buf len) _
        (handle_ipd_data-IsQueued c buf len q)
        (λ h k.
          Ensures-bind (λ (r : AtUtils env × List Event). IsQueued r.0) KeepsTurn
            (if h.0
              then whole_frame (record (h.1) { frame_sum = 0; parsing_flag = false; state = idle })
                  1
              else some (h.1, []))
            _
            (Ensures-if (λ (r : AtUtils env × List Event). IsQueued r.0) h.0 _ _
              (whole_frame-IsQueued
                (record (h.1) { frame_sum = 0; parsing_flag = false; state = idle }) 1 k)
              k)
            (λ r l. l))

  pub signal_turn-IsQueued :
      (ret : AtState) (o : Option (Bool × AtUtils env))
      → Ensures Keeps o
      → Ensures KeepsTurn (signal_turn ret o)
  unfolding signal_turn
  signal_turn-IsQueued ret o h = Ensures-bind Keeps KeepsTurn o _ h (λ r k.
      Ensures-if KeepsTurn (not r.0) _ _ k (
        Ensures-after KeepsTurn r.1.buf_union _ (λ u.
          Ensures-bind (λ (s : AtUtils env × List Event). IsQueued s.0) KeepsTurn
            (whole_frame (record (r.1) { offset_len = u16 u.len; state = idle }) 0) _
            (whole_frame-IsQueued (record (r.1) { offset_len = u16 u.len; state = idle }) 0 k)
            (λ s l. l))))
