-- ===== src/AtUtils/FirstRound.antt =====
-- The round of `_read_handle` that reads the header of a frame with data.
use mathlib.Core.List.{append_assoc}
use libhy_utils_bak.Base.{
  ℕ, ◌+◌, ◌-◌, ◌<◌, ◌≤◌, ◌≡◌, refl, ap, ◌∙◌, true, false, some, [], ◌∷◌, ◌++◌, u16, u32, Bytes,
  length, take, drop, min, arith, overwrite, memcpy, replicate, memcpy-overwrite, length-append,
  length-take, length-replicate, take-length, take-append_left, take-append_right, take-take,
  drop-append,
}
use libhy_utils_bak.AtUtils.{BufUnion, Env, AtUtils}
use libhy_utils_bak.AtUtils.Frame.{get_ipd_data_len, first_piece, handle_ipd_data}
use libhy_utils_bak.AtUtils.Read.{factor}
use libhy_utils_bak.AtUtils.Ring.{IsEnv}
use libhy_utils_bak.AtUtils.Header.{ipd_tag, get_ipd_data_len-digits}
use libhy_utils_bak.AtUtils.Arrive.{
  header, length-header, IsFrame, Arriving, header_case, first_whole, first_part,
}

module _ {env : Env} (e : IsEnv env) {c : AtUtils env} (h : Arriving e c) (ds payload more : Bytes)
    (q : e.queue c.fifo_handle ≡ header ds ++ (payload ++ more)) where
  unfoldable pub size : ℕ
  size = min 200 (length (e.queue c.fifo_handle))

  unfoldable pub behind : ℕ
  unfolding size
  behind = size - (6 + length ds)

  unfoldable pub zeros : Bytes
  unfolding size
  zeros = drop (0 + length (take size (e.queue c.fifo_handle))) (replicate 200 0)

  abbrev pub text : Bytes
  text = take behind (payload ++ more) ++ zeros

  pub queue_size : length (e.queue c.fifo_handle) ≡ 6 + length ds + length payload + length more
  queue_size = omega (
    arith,
    ap (λ (t : Bytes). length t) q,
    length-append (header ds) (payload ++ more),
    length-append payload more,
    length-header ds,
  )

  pub seen :
      length ds ≤ 3
      → env.fifo_peek c.fifo_handle (replicate 200 0) (factor c) ≡ some (size, header ds ++ text)
  unfolding size behind zeros
  seen short =
      ap (λ (n : ℕ). env.fifo_peek c.fifo_handle (replicate 200 0) n) {y = 200}
        (rw (h.no_block) refl)
      ∙ (e.peek c.fifo_handle (replicate 200 0) 200 h.good (omega arith) (omega arith)
            (omega (arith, length-replicate {A = ℕ} 200 0))
          ∙ ap (λ (t : Bytes). some (size, t))
              (ap (λ (t : Bytes). t ++ zeros)
                  (ap (take size) q
                    ∙ take-append_right size (header ds) (payload ++ more)
                        (omega (arith, length-header ds, queue_size, short)))
                ∙ (append_assoc (header ds) (take (size - length (header ds)) (payload ++ more))
                      zeros
                    ∙ ap (λ (n : ℕ). header ds ++ (take n (payload ++ more) ++ zeros))
                        (ap (λ (n : ℕ). size - n) (length-header ds)))))

  text_part :
      (n : ℕ)
      → n ≤ behind
      → n ≤ length payload
      → take n (drop (6 + length ds) (header ds ++ text)) ≡ take n payload
  text_part n fits there =
      ap (λ (k : ℕ). take n (drop k (header ds ++ text))) {x = 6 + length ds}
        {y = length (header ds) + 0} (omega (arith, length-header ds))
      ∙ (ap (take n) (drop-append (header ds) text 0)
          ∙ (take-append_left n (take behind (payload ++ more)) zeros
                (omega (arith, length-take behind (payload ++ more), length-append payload more))
              ∙ (take-take n behind (payload ++ more) fits
                  ∙ take-append_left n payload more there)))

  got_header :
      IsFrame ds payload
      → get_ipd_data_len (header ds ++ text) size ≡ some (6 + length ds, length payload)
  unfolding size
  got_header f =
      ap (λ (t : Bytes). get_ipd_data_len (ipd_tag t) size) (append_assoc ds (58 ∷ []) text)
      ∙ (get_ipd_data_len-digits ds text size f.digits (omega (arith, f.short))
            (omega (arith, queue_size, f.some_digit, f.some_byte)) (omega arith)
          ∙ ap (λ (n : ℕ). some (6 + length ds, n)) (omega (arith, f.number, f.small)))

  module _ (u : BufUnion) (whole : length u.buf ≡ length payload)
      (len : u.len ≡ length payload) where
    copied :
        (n : ℕ)
        → n ≤ behind
        → n ≤ length payload
        → memcpy u.buf 0 (header ds ++ text) (6 + length ds) n
          ≡ some (overwrite u.buf 0 (take n payload))
    copied n fits there =
        memcpy-overwrite u.buf 0 (header ds ++ text) (6 + length ds) n (omega (arith, whole)) (
          omega (
            arith,
            length-append (header ds) text,
            length-header ds,
            length-append (take behind (payload ++ more)) zeros,
            length-take behind (payload ++ more),
            length-append payload more,
          ))
        ∙ ap (λ (t : Bytes). some (overwrite u.buf 0 t)) (text_part n fits there)

    pub handled :
        IsFrame ds payload
        → env.buf_union_create (length payload) ≡ some u
        → handle_ipd_data c (header ds ++ text) size
          ≡ first_piece u c (header ds ++ text) size (6 + length ds)
    handled f made =
        header_case c (header ds ++ text) size h.no_block (got_header f)
          (ground (arith, f.short, f.small, f.some_byte)) made

    -- all of the frame is among the bytes seen
    pub whole_handled :
        length payload + (6 + length ds) ≤ size
        → first_piece u c (header ds ++ text) size (6 + length ds)
          ≡ some (
            true,
            record c {
              buf_union = some (record u { buf = overwrite u.buf 0 payload });
              offset_len = u16 (6 + length ds + u.len);
            },
          )
    unfolding behind
    whole_handled fits =
        first_whole u c (header ds ++ text) size (6 + length ds) (ground (arith, fits, len)) (
          ap (memcpy u.buf 0 (header ds ++ text) (6 + length ds)) len
          ∙ (copied (length payload) (omega (arith, fits)) (omega arith)
              ∙ ap (λ (t : Bytes). some (overwrite u.buf 0 t))
                  (take-length (length payload) payload (omega arith))))

    -- only a part of it is
    pub part_handled :
        size < length payload + (6 + length ds)
        → 6 + length ds ≤ size
        → first_piece u c (header ds ++ text) size (6 + length ds)
          ≡ some (
            false,
            record c {
              buf_union = some (record u { buf = overwrite u.buf 0 (take behind payload) });
              frame_sum = u32 (c.frame_sum + behind);
              offset_len = size;
              parsing_flag = true;
            },
          )
    unfolding behind
    part_handled over there =
        first_part u c (header ds ++ text) size (6 + length ds) (ground (arith, over, len))
          (ground (arith, there)) (copied behind (omega arith) (omega (arith, over)))
