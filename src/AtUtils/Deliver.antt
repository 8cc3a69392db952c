-- ===== src/AtUtils/Deliver.antt =====
-- A frame with data that the ring holds in whole, or in part, and the loop of `_read_handle`.
use libhy_utils_bak.Base.{
  ℕ, zero, suc, ◌+◌, ◌-◌, ◌<◌, ◌≤◌, ◌≡◌, refl, ap, ap₂, ◌∙◌, false, none, some, ◌++◌, u32, Bytes,
  length, take, drop, arith, inl, inr, eq_cases, overwrite, overwrite_more, length-overwrite,
  length-append, length-take, length-drop, take-length, drop-length, take-append_left,
  drop-append_left,
}
use libhy_utils_bak.AtUtils.{AtState, idle, BufUnion, Env, AtUtils}
use libhy_utils_bak.AtUtils.Engine.{handle_frame_cb}
use libhy_utils_bak.AtUtils.Read.{read_loop}
use libhy_utils_bak.AtUtils.Ring.{IsEnv}
use libhy_utils_bak.AtUtils.Receive.{
  Receiving, queued, taken, left, filled_with, after_more, after_whole, piece_more, piece_whole,
  loop_ends, loop_goes_on,
}

-- The engine after a frame: nothing is being received, and the commands wait as before.
pub record Delivered {env : Env} (e : IsEnv env) (c c' : AtUtils env) (more : Bytes) : Type 0 where
  pub at_rest : c'.state ≡ idle
  pub not_parsing : c'.parsing_flag ≡ false
  pub no_block : c'.buf_union ≡ none
  pub good : e.IsGood c'.fifo_handle
  pub rest : e.queue c'.fifo_handle ≡ more
  pub commands : c'.write_list ≡ c.write_list

module _ {env : Env} (e : IsEnv env) where
  taken-pos :
      {c : AtUtils env} {u : BufUnion} (h : Receiving e c u) (text more : Bytes)
      → e.queue c.fifo_handle ≡ text ++ more
      → length text ≡ u.len - c.frame_sum
      → (0 < taken e h) × (taken e h ≤ length text) × (c.frame_sum + taken e h ≤ u.len)
  unfolding taken queued
  taken-pos h text more q n =
      let size = ap length q ∙ length-append text more in
      (
        omega (arith, size, h.missing),
        omega (arith, size, h.missing),
        omega (arith, size, h.missing),
      )

  taken_text :
      {c : AtUtils env} {u : BufUnion} (h : Receiving e c u) (text more : Bytes)
      → e.queue c.fifo_handle ≡ text ++ more
      → taken e h ≤ length text
      → take (taken e h) (queued e h) ≡ take (taken e h) text
  unfolding queued
  taken_text h text more q fits =
      ap (take (taken e h)) q ∙ take-append_left (taken e h) text more fits

  rest_text :
      {c : AtUtils env} {u : BufUnion} (h : Receiving e c u) (text more : Bytes)
      → e.queue c.fifo_handle ≡ text ++ more
      → taken e h ≤ length text
      → drop (taken e h) (queued e h) ≡ drop (taken e h) text ++ more
  unfolding queued
  rest_text h text more q fits =
      ap (drop (taken e h)) q ∙ drop-append_left (taken e h) text more fits

  -- the block after a piece and the rest is the block after the whole
  pieces :
      {c : AtUtils env} {u : BufUnion} (h : Receiving e c u) (text more : Bytes)
      → e.queue c.fifo_handle ≡ text ++ more
      → length text ≡ u.len - c.frame_sum
      → taken e h ≤ length text
      → overwrite
          (overwrite u.buf c.frame_sum (take (taken e h) (queued e h)))
          (u32 (c.frame_sum + taken e h))
          (drop (taken e h) text)
        ≡ overwrite u.buf c.frame_sum text
  pieces {c} {u} h text more q n fits =
      ap₂
        (λ (t : Bytes) (k : ℕ). overwrite (overwrite u.buf c.frame_sum t) k (drop (taken e h) text))
        {u = u32 (c.frame_sum + taken e h)} {v = c.frame_sum + taken e h}
        (taken_text h text more q fits) (omega (arith, h.missing, h.small))
      ∙ overwrite_more u.buf c.frame_sum text (taken e h) fits (omega (arith, h.missing, h.whole))

  going_on :
      {c : AtUtils env} {u : BufUnion} (h : Receiving e c u) {r : env.Ring}
      → e.IsGood r
      → c.frame_sum + taken e h < u.len
      → Receiving e (after_more e h r) (filled_with e h (take (taken e h) (queued e h)))
  unfolding taken queued
  going_on {c} {u} h good room = record {
    block = refl;
    whole =
        length-overwrite u.buf c.frame_sum (take (taken e h) (queued e h))
          (omega (arith, h.whole, length-take (taken e h) (queued e h)))
        ∙ h.whole;
    small = h.small;
    missing = omega (arith, room, h.small);
    parsing = refl;
    good = good;
  }

  -- When the ring holds the rest of a frame that is being received, the loop ends, with one round of
  -- fuel for each byte of it; the callback gets the block with exactly those bytes behind what was there,
  -- once; what follows stays in the ring, and no copy leaves its array.
  pub read_loop-delivers :
      (fuel : ℕ) (ret : AtState) {c : AtUtils env} {u : BufUnion} (text more : Bytes)
      → Receiving e c u
      → e.queue c.fifo_handle ≡ text ++ more
      → length text ≡ u.len - c.frame_sum
      → length text ≤ fuel
      → (c' : AtUtils env) × (read_loop fuel ret c
          ≡ some (record {
            ret = ret;
            context = c';
            events = handle_frame_cb c 1 (record u { buf = overwrite u.buf c.frame_sum text });
          }))
        × Delivered e c c' more
  unfolding handle_frame_cb
  read_loop-delivers zero ret {c} {u} text more h q n f = absurd (omega (arith, h.missing))
  read_loop-delivers (suc fuel) ret {c} {u} text more h q n f =
      let (pos, fits, room) = taken-pos h text more q n in
      let (r, out, good, rest) = left e h pos in
      elim (eq_cases (c.frame_sum + taken e h) u.len) [
        | inl all ↦ (
          after_whole e h r,
          loop_ends fuel ret c (piece_whole e h ret pos out all)
              ∙ ap
                  (λ (t : Bytes). some (record {
                    ret = ret;
                    context = after_whole e h r;
                    events = handle_frame_cb c 1 (record u { buf = overwrite u.buf c.frame_sum t });
                  }))
                  (taken_text h text more q fits ∙ take-length (taken e h) text (omega arith)),
          record {
            at_rest = refl;
            not_parsing = refl;
            no_block = refl;
            good = good;
            rest =
                rest
                ∙ (rest_text h text more q fits
                    ∙ ap (λ (t : Bytes). t ++ more) (drop-length (taken e h) text (omega arith)));
            commands = refl;
          },
        )
        | inr not_all ↦
            let h' = going_on h good (omega (arith, room, not_all)) in
            let (c', runs, d) =
              read_loop-delivers fuel ret (drop (taken e h) text) more h'
                (rest ∙ rest_text h text more q fits)
                (omega (arith, length-drop (taken e h) text, h.small, room, n))
                (omega (arith, length-drop (taken e h) text, pos, f)) in
            (
              c',
              loop_goes_on fuel ret c (piece_more e h ret pos out (omega (arith, room, not_all)))
                    runs
                  ∙ ap
                      (λ (t : Bytes). some (record {
                        ret = ret;
                        context = c';
                        events = handle_frame_cb c 1 (record u { buf = t });
                      }))
                      (pieces h text more q n fits),
              record {
                at_rest = d.at_rest;
                not_parsing = d.not_parsing;
                no_block = d.no_block;
                good = d.good;
                rest = d.rest;
                commands = d.commands;
              },
            )
      ]
