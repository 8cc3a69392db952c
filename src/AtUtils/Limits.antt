-- ===== src/AtUtils/Limits.antt =====
-- Where the engine stops: a header that comes in two parts, and a ring whose counter stays behind.
use libhy_utils_bak.Base.{
  ℕ, suc, ◌^◌, ◌<◌, ◌≤◌, drop-length, ◌≡◌, ◌⊎◌, refl, ap, ◌∙◌, true, false, ◌||◌, Option, none,
  some, List, [], ◌∷◌, ◌++◌, ltb, ◌==◌, if◌then◌else◌, ◌>>=◌, u16, Bytes, length, take, min, arith,
  inl, inr, overwrite, replicate, length-replicate,
}
use libhy_utils_bak.Fifo.{Fifo, hy_fifo_get_info, hy_fifo_update_out}
use libhy_utils_bak.Fifo.Inv.{IsValid, contents, used}
use libhy_utils_bak.Fifo.Refine.{update_out_drops}
use libhy_utils_bak.AtUtils.{AtState, idle, read, BufUnion, Env, AtUtils, Event}
use libhy_utils_bak.AtUtils.Frame.{
  all_digits, digits_value, upto_colon, behind_comma, sscanf, first_piece, handle_ipd_data,
}
use libhy_utils_bak.AtUtils.Engine.{Reply, ipd_turn, is_idle, is_read}
use libhy_utils_bak.AtUtils.Read.{factor, resume, read_case, read_turn, read_handle}
use libhy_utils_bak.AtUtils.Process.{returned, write_case, idle_case, hy_at_utils_process}
use libhy_utils_bak.AtUtils.Ring.{IsEnv, fifo_env, peek_queue, length-contents}
use libhy_utils_bak.AtUtils.Receive.{loop_ends}
use libhy_utils_bak.AtUtils.Header.{ipd_tag, header_steps}
use libhy_utils_bak.AtUtils.Arrive.{Arriving, resume_none, ipd_case, header_case}

-- the buffer of a round that sees only these eight bytes
abbrev cut_buf : Bytes → Bytes
cut_buf ds = overwrite (replicate 200 0) 0 (ipd_tag ds)

sscanf-cut :
    (a b d : ℕ)
    → all_digits (a ∷ b ∷ d ∷ []) ≡ true
    → sscanf (cut_buf (a ∷ b ∷ d ∷ [])) ≡ some (a ∷ b ∷ d ∷ [])
unfolding sscanf behind_comma upto_colon
sscanf-cut a b d h =
    let stops_a : ((a == 0) || (a == 58)) ≡ false = ground (arith, h) in
    let stops_b : ((b == 0) || (b == 58)) ≡ false = ground (arith, h) in
    let stops_d : ((d == 0) || (d == 58)) ≡ false = ground (arith, h) in
    rw stops_a (rw stops_b (rw stops_d refl))

module _ {env : Env} where
  turn_faults :
      (ret : AtState) (c : AtUtils env) {len : ℕ} {buf : Bytes}
      → env.fifo_peek c.fifo_handle (replicate 200 0) (factor c) ≡ some (len, buf)
      → (u16 len == 0) ≡ false
      → resume c ≡ c
      → read_case c.state ret c buf (u16 len) ≡ none
      → read_turn ret c ≡ none
  unfolding read_turn
  turn_faults ret c x y z u = rw x (rw y (rw z (rw u refl)))

  ipd_faults :
      (ret : AtState) (c : AtUtils env) (buf : Bytes) (len : ℕ)
      → handle_ipd_data c buf len ≡ none
      → ipd_turn ret c buf len ≡ none
  unfolding ipd_turn
  ipd_faults ret c buf len x = rw x refl

  cut_piece : (u : BufUnion) (c : AtUtils env) (buf : Bytes) → first_piece u c buf 8 9 ≡ none
  unfolding first_piece
  cut_piece u c buf = ground arith

-- In the round that sees a header that is cut before its colon, behind three digits of a number that is
-- not 0, with a block for that number, the engine faults; it does not wait for the rest of the header.
pub cut_header_faults :
    {env : Env} (e : IsEnv env) {c : AtUtils env} (h : Arriving e c) (a b d : ℕ) {u : BufUnion}
    (ret : AtState)
    → e.queue c.fifo_handle ≡ ipd_tag (a ∷ b ∷ d ∷ [])
    → all_digits (a ∷ b ∷ d ∷ []) ≡ true
    → 0 < digits_value (a ∷ b ∷ d ∷ []) 0
    → env.buf_union_create (digits_value (a ∷ b ∷ d ∷ []) 0) ≡ some u
    → read_turn ret c ≡ none
cut_header_faults {env} e {c} h a b d {u} ret q digits pos made =
    let v : ℕ = digits_value (a ∷ b ∷ d ∷ []) 0 in
    let buf : Bytes = cut_buf (a ∷ b ∷ d ∷ []) in
    let word : u16 v ≡ v = ground (arith, digits) in
    turn_faults ret c
      (ap (λ (n : ℕ). env.fifo_peek c.fifo_handle (replicate 200 0) n) {y = 200}
          (rw (h.no_block) refl)
        ∙ (e.peek c.fifo_handle (replicate 200 0) 200 h.good (omega arith) (omega arith)
              (omega (arith, length-replicate {A = ℕ} 200 0))
            ∙ ap
                (λ (t : Bytes).
                  some (
                    min 200 (length t),
                    overwrite (replicate 200 0) 0 (take (min 200 (length t)) t),
                  ))
                q))
      refl (resume_none c h.not_parsing)
      (ipd_case ret c buf 8 h.found
        ∙ ipd_faults ret c buf 8 (
            header_case c buf 8 h.no_block
              (header_steps buf (a ∷ b ∷ d ∷ []) 8 refl (sscanf-cut a b d digits) refl digits
                ∙ ap (λ (n : ℕ). some (9, n)) word)
              (ground (arith, digits, pos)) made
            ∙ cut_piece u c buf))

-- calls of HyAtUtilsProcess in a row, each with what the clock says
unfoldable pub process_all :
    {env : Env} → (fuel : ℕ) → List (ℕ × ℕ) → AtUtils env → Option (AtUtils env × List Event)
process_all fuel [] c = some (c, [])
process_all fuel (tick ∷ ticks) c = do
  (ret, handle, events) ← hy_at_utils_process fuel tick.0 tick.1 (some c)
  c' ← handle
  (c'', later) ← process_all fuel ticks c'
  some (c'', events ++ later)

module _ (create : ℕ → Option BufUnion) where
  -- The ring is empty, but its counter is not 0.
  pub record IsStarved (c : AtUtils (fifo_env create)) : Type 0 where
    pub resting : (c.state ≡ idle) ⊎ (c.state ≡ read)
    pub valid : IsValid c.fifo_handle
    pub empty : contents c.fifo_handle ≡ []
    pub counter : 0 < c.fifo_handle.use_cnt
    pub no_block : c.buf_union ≡ none

  process_steps :
      (fuel now now' : ℕ) (c : AtUtils (fifo_env create)) {r : Reply (fifo_env create)}
      → (if is_idle c.state
          then some (idle_case now now' c)
          else if is_read c.state
          then read_handle (suc fuel) c
          else write_case c.state now c)
        ≡ some r
      → hy_at_utils_process (suc fuel) now now' (some c) ≡ some (r.ret, some r.context, r.events)
  unfolding hy_at_utils_process
  process_steps fuel now now' c x = rw x refl

  starved_idle :
      (now now' : ℕ) (c : AtUtils (fifo_env create))
      → IsStarved c
      → idle_case now now' c ≡ returned idle (record c { state = read }) []
  unfolding idle_case hy_fifo_get_info
  starved_idle now now' c s =
      let held : ltb 0 c.fifo_handle.use_cnt ≡ true = ground (arith, s.counter) in rw held refl

  nothing_steps :
      (ret : AtState) (c : AtUtils (fifo_env create)) {buf : Bytes}
      → (fifo_env create).fifo_peek c.fifo_handle (replicate 200 0) (factor c) ≡ some (0, buf)
      → read_turn ret c ≡ some (false, returned ret (record c { state = idle }) [])
  unfolding read_turn
  nothing_steps ret c x = rw x refl

  starved_read :
      (fuel : ℕ) (c : AtUtils (fifo_env create))
      → IsStarved c
      → read_handle (suc fuel) c ≡ some (returned idle (record c { state = idle }) [])
  unfolding read_handle
  starved_read fuel c s = loop_ends fuel idle c (
      nothing_steps idle c (
        ap (λ (n : ℕ). (fifo_env create).fifo_peek c.fifo_handle (replicate 200 0) n) {y = 200}
          (rw (s.no_block) refl)
        ∙ (peek_queue create c.fifo_handle (replicate 200 0) 200 s.valid (omega arith) (omega arith)
              (omega (arith, length-replicate {A = ℕ} 200 0))
            ∙ ap
                (λ (t : Bytes).
                  some (
                    min 200 (length t),
                    overwrite (replicate 200 0) 0 (take (min 200 (length t)) t),
                  ))
                s.empty)))

  goes_on :
      (fuel now now' : ℕ) (c : AtUtils (fifo_env create))
      → IsStarved c
      → (c' : AtUtils (fifo_env create)) × (hy_at_utils_process (suc fuel) now now' (some c)
          ≡ some (idle, some c', []))
        × IsStarved c'
        × (c'.write_list ≡ c.write_list)
  goes_on fuel now now' c s = elim s.resting [
    | inl e ↦ (
      record c { state = read },
      process_steps fuel now now' c (
          ap
            (λ (st : AtState).
              if is_idle st
              then some (idle_case now now' c)
              else if is_read st
              then read_handle (suc fuel) c
              else write_case st now c)
            e
          ∙ ap some (starved_idle now now' c s)),
      record {
        resting = inr refl;
        valid = s.valid;
        empty = s.empty;
        counter = s.counter;
        no_block = s.no_block;
      },
      refl,
    )
    | inr e ↦ (
      record c { state = idle },
      process_steps fuel now now' c (
          ap
            (λ (st : AtState).
              if is_idle st
              then some (idle_case now now' c)
              else if is_read st
              then read_handle (suc fuel) c
              else write_case st now c)
            e
          ∙ starved_read fuel c s),
      record {
        resting = inl refl;
        valid = s.valid;
        empty = s.empty;
        counter = s.counter;
        no_block = s.no_block;
      },
      refl,
    )
  ]

  all_steps :
      (fuel : ℕ) (tick : ℕ × ℕ) (ticks : List (ℕ × ℕ)) {ret : AtState}
      (c : AtUtils (fifo_env create)) {c' c'' : AtUtils (fifo_env create)}
      {events later : List Event}
      → hy_at_utils_process fuel tick.0 tick.1 (some c) ≡ some (ret, some c', events)
      → process_all fuel ticks c' ≡ some (c'', later)
      → process_all fuel (tick ∷ ticks) c ≡ some (c'', events ++ later)
  unfolding process_all
  all_steps fuel tick ticks c x y = rw x (rw y refl)

  starved_stays :
      (fuel : ℕ) (ticks : List (ℕ × ℕ)) (c : AtUtils (fifo_env create))
      → IsStarved c
      → (c' : AtUtils (fifo_env create)) × (process_all (suc fuel) ticks c ≡ some (c', []))
        × (c'.write_list ≡ c.write_list)
  unfolding process_all
  starved_stays fuel [] c s = (c, refl, refl)
  starved_stays fuel (tick ∷ ticks) c s =
      let (c', x, s', same) = goes_on fuel tick.0 tick.1 c s in
      let (c'', y, same') = starved_stays fuel ticks c' s' in
      (c'', all_steps (suc fuel) tick ticks c x y, same' ∙ same)

  -- Once HyFifoUpdateOut has dropped all bytes of a valid ring of src/hy_fifo.c whose counter is not 0, at
  -- most 1024 of them, an engine that rests on that ring without a block calls no callback, so that it sends
  -- no command, however often HyAtUtilsProcess is called and whatever the clock says, as long as nothing is
  -- put; the commands stay.
  pub drained_sends_nothing :
      (fuel : ℕ) (ticks : List (ℕ × ℕ)) (c : AtUtils (fifo_env create)) (n : ℕ)
      → (c.state ≡ idle) ⊎ (c.state ≡ read)
      → c.buf_union ≡ none
      → IsValid c.fifo_handle
      → 0 < c.fifo_handle.use_cnt
      → 0 < n
      → n < 2 ^ 32
      → used c.fifo_handle ≤ n
      → used c.fifo_handle ≤ 1024
      → (f' : Fifo) × (c' : AtUtils (fifo_env create)) × (hy_fifo_update_out (some c.fifo_handle) n
          ≡ some (used c.fifo_handle, some f'))
        × (process_all (suc fuel) ticks (record c { fifo_handle = f' }) ≡ some (c', []))
        × (c'.write_list ≡ c.write_list)
  drained_sends_nothing fuel ticks c n rests block v counts pos word all room =
      let f : Fifo = c.fifo_handle in
      let least : min n (used f) ≡ used f = ground arith in
      let (f', e, v', holds, counter) = update_out_drops v n pos word (omega (arith, least)) in
      let (c', runs, same) =
        starved_stays fuel ticks (record c { fifo_handle = f' })
          (record {
            resting = rests;
            valid = v';
            empty =
                holds
                ∙ drop-length (min n (used f)) (contents f)
                    (omega (arith, least, length-contents v));
            counter = omega (arith, counter, counts);
            no_block = block;
          }) in
      (f', c', e ∙ ap (λ (k : ℕ). some (k, some f')) least, runs, same)
