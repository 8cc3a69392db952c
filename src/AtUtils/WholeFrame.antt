-- ===== src/AtUtils/WholeFrame.antt =====
-- A frame with data that the ring holds in whole, from its header to the call of the callback.
use native.Mathlib.Decide.{dec_le}
use libhy_utils_bak.Base.{
  ℕ, suc, ◌+◌, ◌-◌, ◌<◌, ◌≤◌, ◌≡◌, refl, sym, ap, ap₂, ◌∙◌, true, false, none, some, [], ◌++◌, ltb,
  u16, u32, Bytes, length, take, drop, arith, overwrite, overwrite_more, overwrite-whole,
  length-overwrite, length-take, length-drop, drop-length, drop-append, drop-append_left,
}
use libhy_utils_bak.AtUtils.{AtState, idle, BufUnion, Env, AtUtils}
use libhy_utils_bak.AtUtils.Engine.{Turn, Reply, handle_frame_cb, ipd_turn}
use libhy_utils_bak.AtUtils.Read.{update, read_turn, read_loop}
use libhy_utils_bak.AtUtils.Ring.{IsEnv}
use libhy_utils_bak.AtUtils.Receive.{
  Receiving, more_steps, whole_steps, update_steps, loop_ends, loop_goes_on,
}
use libhy_utils_bak.AtUtils.Deliver.{Delivered, read_loop-delivers}
use libhy_utils_bak.AtUtils.Arrive.{
  header, length-header, IsFrame, Arriving, start_steps, resume_none, ipd_case,
}
use libhy_utils_bak.AtUtils.FirstRound.{
  size, behind, text, queue_size, seen, handled, whole_handled, part_handled,
}

module _ {env : Env} (e : IsEnv env) {c : AtUtils env} (h : Arriving e c) (ds payload more : Bytes)
    (q : e.queue c.fifo_handle ≡ header ds ++ (payload ++ more)) (f : IsFrame ds payload) where
  abbrev seen_size : ℕ
  seen_size = size e h ds payload more q

  abbrev part : ℕ
  part = behind e h ds payload more q

  abbrev buf : Bytes
  buf = header ds ++ text e h ds payload more q

  size_bounds :
      (6 + length ds < seen_size) × (seen_size ≤ 200) × (part ≡ seen_size - (6 + length ds))
  unfolding size behind
  size_bounds =
      (omega (arith, queue_size e h ds payload more q, f.short, f.some_byte), omega arith, refl)

  -- what is left of the ring behind some bytes of the frame
  left_behind :
      (n : ℕ)
      → n ≤ length payload
      → drop (6 + length ds + n) (e.queue c.fifo_handle) ≡ drop n payload ++ more
  left_behind n there =
      ap (drop (6 + length ds + n)) q
      ∙ (ap (λ (k : ℕ). drop k (header ds ++ (payload ++ more))) {x = 6 + length ds + n}
            {y = length (header ds) + n} (omega (arith, length-header ds))
          ∙ (drop-append (header ds) (payload ++ more) n ∙ drop-append_left n payload more there))

  round :
      (ret : AtState) {t : Turn env} {r : Reply env}
      → ipd_turn ret c buf seen_size ≡ some t
      → update t ≡ some r
      → read_turn ret c ≡ some (r.context.parsing_flag, r)
  round ret {t} x y =
      let (lo, hi, _) = size_bounds in
      let word : u16 seen_size ≡ seen_size = omega (arith, hi) in
      start_steps ret c (seen e h ds payload more q f.short) (ground (arith, word, lo))
        (resume_none c h.not_parsing)
        (ipd_case ret c buf (u16 seen_size) h.found
          ∙ (ap (λ (n : ℕ). ipd_turn ret c buf n) word ∙ x))
        y

  module _ (u : BufUnion) (made : env.buf_union_create (length payload) ≡ some u) where
    whole : length u.buf ≡ length payload
    whole = (e.create_size (length payload) u made).1

    len : u.len ≡ length payload
    len = (e.create_size (length payload) u made).0

    abbrev after_all : env.Ring → AtUtils env
    after_all r = record c {
      buf_union = none;
      frame_sum = 0;
      parsing_flag = false;
      state = idle;
      offset_len = 0;
      fifo_handle = r;
    }

    abbrev after_part : env.Ring → AtUtils env
    after_part r = record c {
      buf_union = some (record u { buf = overwrite u.buf 0 (take part payload) });
      frame_sum = u32 (c.frame_sum + part);
      parsing_flag = true;
      offset_len = 0;
      fifo_handle = r;
    }

    abbrev Result : (fuel : ℕ) → AtState → Type 0
    Result fuel ret =
        (c' : AtUtils env) × (read_loop (suc fuel) ret c
          ≡ some (record {
            ret = ret;
            context = c';
            events = handle_frame_cb c 1 (record { buf = payload; len = length payload });
          }))
        × Delivered e c c' more

    at_once :
        (fuel : ℕ) (ret : AtState) → length payload + (6 + length ds) ≤ seen_size → Result fuel ret
    unfolding handle_frame_cb
    at_once fuel ret fits =
        let (lo, hi, _) = size_bounds in
        let n = u16 (6 + length ds + u.len) in
        let all : n ≡ 6 + length ds + length payload = omega (arith, len, fits, hi) in
        let (r, out, good, rest) =
          e.update_out c.fifo_handle n h.good (omega (arith, all)) (omega (arith, all, fits, hi)) in
        (
          after_all r,
          loop_ends fuel ret c (
                round ret
                  (whole_steps ret c buf seen_size
                    (handled e h ds payload more q u whole len f made
                      ∙ whole_handled e h ds payload more q u whole len fits)
                    refl)
                  (update_steps _ (ground (arith, all)) out))
              ∙ ap₂
                  (λ (b : Bytes) (k : ℕ). some (record {
                    ret = ret;
                    context = after_all r;
                    events = handle_frame_cb c 1 (record { buf = b; len = k });
                  }))
                  (overwrite-whole u.buf payload (omega (arith, whole))) len,
          record {
            at_rest = refl;
            not_parsing = refl;
            no_block = refl;
            good = good;
            rest =
                rest
                ∙ (ap (λ (k : ℕ). drop k (e.queue c.fifo_handle)) all
                    ∙ (left_behind (length payload) (omega arith)
                        ∙ ap (λ (t : Bytes). t ++ more)
                            (drop-length (length payload) payload (omega arith))));
            commands = refl;
          },
        )

    receiving :
        (r : env.Ring)
        → e.IsGood r
        → part < length payload
        → Receiving e (after_part r) (record u { buf = overwrite u.buf 0 (take part payload) })
    receiving r good fits = record {
      block = refl;
      whole =
          length-overwrite u.buf 0 (take part payload)
            (omega (arith, whole, length-take part payload))
          ∙ (whole ∙ sym len);
      small = omega (arith, len, f.small);
      missing = omega (arith, h.no_sum, len, fits, f.small);
      parsing = refl;
      good = good;
    }

    in_parts :
        (fuel : ℕ) (ret : AtState)
        → length payload ≤ fuel
        → seen_size < length payload + (6 + length ds)
        → Result fuel ret
    unfolding handle_frame_cb
    in_parts fuel ret enough over =
        let (lo, hi, gap) = size_bounds in
        let fits : part < length payload = omega (arith, gap, over, lo) in
        let (r, out, good, rest) =
          e.update_out c.fifo_handle seen_size h.good (omega (arith, lo)) (omega (arith, hi)) in
        let (c', runs, d) =
          read_loop-delivers e fuel ret (drop part payload) more (receiving r good fits)
            (rest
              ∙ (ap (λ (k : ℕ). drop k (e.queue c.fifo_handle)) (omega (arith, gap, lo))
                  ∙ left_behind part (omega (arith, fits))))
            (omega (arith, length-drop part payload, h.no_sum, len, fits, f.small))
            (omega (arith, length-drop part payload, enough)) in
        (
          c',
          loop_goes_on fuel ret c
                (round ret
                  (more_steps ret c buf seen_size (
                    handled e h ds payload more q u whole len f made
                    ∙ part_handled e h ds payload more q u whole len over (omega (arith, lo))))
                  (update_steps
                    (record {
                      ret = ret;
                      update_flag = ltb 0 seen_size;
                      context = record (after_part c.fifo_handle) { offset_len = seen_size };
                      events = [];
                    })
                    (ground (arith, lo)) out))
                runs
              ∙ ap₂
                  (λ (b : Bytes) (k : ℕ). some (record {
                    ret = ret;
                    context = c';
                    events = handle_frame_cb c 1 (record { buf = b; len = k });
                  }))
                  (ap
                      (λ (k : ℕ).
                        overwrite (overwrite u.buf 0 (take part payload)) k (drop part payload))
                      {x = u32 (c.frame_sum + part)} {y = 0 + part}
                      (omega (arith, h.no_sum, fits, f.small))
                    ∙ (overwrite_more u.buf 0 payload part (omega (arith, fits))
                          (omega (arith, whole))
                        ∙ overwrite-whole u.buf payload (omega (arith, whole))))
                  len,
          record {
            at_rest = d.at_rest;
            not_parsing = d.not_parsing;
            no_block = d.no_block;
            good = d.good;
            rest = d.rest;
            commands = d.commands;
          },
        )

    -- When an engine that has found the tag of a frame and has no block yet stands at a whole frame, `+IPD,`, a number of one to three digits, a colon and that
    -- many bytes, at least one and at most 1024, and there is a block for it, the loop ends, with a round of fuel
    -- for each byte and one more; the callback, if there is one, gets exactly those bytes, once; what follows the
    -- frame stays in the ring, the commands stay, and no copy leaves its array.
    pub frame_delivers : (fuel : ℕ) (ret : AtState) → length payload ≤ fuel → Result fuel ret
    frame_delivers fuel ret enough = elim (dec_le (length payload + (6 + length ds)) seen_size) [
      | yes fits ↦ at_once fuel ret fits
      | no over ↦ in_parts fuel ret enough (omega arith)
    ]
