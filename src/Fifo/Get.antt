-- ===== src/Fifo/Get.antt =====
-- `HyFifoGet`, `HyFifoPeek` and `HyFifoUpdateOut` read the oldest bytes.
use native.Mathlib.Decide.{dec_lt}
use native.Mathlib.Nat.{mod-lt}
use libhy_utils_bak.Base.{
  ℕ, ◌+◌, ◌-◌, ◌%◌, ◌^◌, ◌≤◌, ◌<◌, ◌≡◌, refl, ap, ◌∙◌, Option, some, arith, Bytes, length, take,
  drop, u32, u64, sub_mod, ◌>>=◌, memcpy, memcpy-overwrite, memcpy-none, none, length-slice,
  length-overwrite, overwrite,
}
use libhy_utils_bak.Fifo.{Fifo, min_macro, get_data_com}
use libhy_utils_bak.Fifo.Window.{window, first_part, window-take, window-drop, window_same}
use libhy_utils_bak.Fifo.Slices.{get_first, length-get_first, window-get_round}
use libhy_utils_bak.Fifo.Inv.{IsValid, used, contents, size_bounds, out_index-mod, mod-word}

-- How many bytes a read moves: `uint32_t len` keeps the low 32 bits of the caller's `size_t`.
abbrev pub delivered : Fifo → ℕ → ℕ
delivered f len = min_macro (u32 len) (used f)

abbrev get_steps : Fifo → Bytes → (n start t rest : ℕ) → Option (ℕ × Bytes)
get_steps f dst n start t rest = do
  dst1 ← memcpy dst 0 f.buf start t
  dst2 ← memcpy dst1 t f.buf 0 rest
  some (n, dst2)

module _ {f : Fifo} (v : IsValid f) (dst : Bytes) where
  get_steps-some :
      (n : ℕ)
      → n ≤ f.size
      → n ≤ length dst
      → get_steps f dst n
          (f.out_pos % f.size)
          (first_part f.size (f.out_pos % f.size) n)
          (n - first_part f.size (f.out_pos % f.size) n)
        ≡ some (n, overwrite dst 0 (window f.buf f.size f.out_pos n))
  get_steps-some n fits given =
      let start : ℕ = f.out_pos % f.size in
      let room : 0 < f.size = (size_bounds v).0 in
      let inside : start < f.size = mod-lt f.out_pos room in
      rw
        (memcpy-overwrite dst 0 f.buf start (first_part f.size start n) (ground arith)
          (ground (arith, v.whole)))
        (rw
          (memcpy-overwrite (get_first f.buf f.size f.out_pos v.whole room dst n)
            (first_part f.size start n) f.buf 0 (n - first_part f.size start n)
            (ground (arith, length-get_first f.buf f.size f.out_pos v.whole room dst n fits given))
            (ground (arith, v.whole)))
          (ap (λ d. some (n, d))
            (window-get_round f.buf f.size f.out_pos v.whole room dst n fits given)))

  get_steps-none :
      (n start t : ℕ)
      → t ≤ n
      → start + t ≤ length f.buf
      → length dst < n
      → get_steps f dst n start t (n - t) ≡ none
  get_steps-none n start t part source short = elim (dec_lt (length dst) t) [
    | yes over ↦ rw (memcpy-none dst 0 f.buf start t (omega arith)) refl
    | no inside ↦
        let piece : Bytes = take t (drop start f.buf) in
        rw (memcpy-overwrite dst 0 f.buf start t (omega arith) source) (
          rw
            (memcpy-none (overwrite dst 0 piece) t f.buf 0 (n - t)
              (omega (arith, length-slice f.buf start t source, length-overwrite dst 0 piece)))
            refl)
  ]

  count : (len : ℕ) → u32 (min_macro (u32 len) (used f)) ≡ delivered f len
  count len = ground arith

  -- the number of bytes up to the end of the ring, as the code computes it
  tmp :
      (len : ℕ)
      → u32 (min_macro (delivered f len) (sub_mod (2 ^ 64) f.size (f.out_pos % f.size)))
        ≡ first_part f.size (f.out_pos % f.size) (delivered f len)
  tmp len = ground (arith, size_bounds v, v.held, mod-lt f.out_pos {m = f.size})

  rest :
      (len : ℕ)
      → sub_mod
          (2 ^ 32)
          (delivered f len)
          (first_part f.size (f.out_pos % f.size) (delivered f len))
        ≡ delivered f len - first_part f.size (f.out_pos % f.size) (delivered f len)
  rest len = ground (arith, size_bounds v, v.held)

  -- A read of more bytes than the caller's buffer has runs past it.
  pub get_data_com-none : (len : ℕ) → length dst < delivered f len → get_data_com f dst len ≡ none
  unfolding get_data_com
  get_data_com-none len short =
      rw (count len, out_index-mod v)
        (rw (tmp len, rest len)
          (get_steps-none (delivered f len) (f.out_pos % f.size)
            (first_part f.size (f.out_pos % f.size) (delivered f len)) (ground arith)
            (ground (arith, v.whole, size_bounds v, mod-lt f.out_pos {m = f.size})) short))

  -- A read moves the oldest bytes to the start of the caller's buffer, and touches nothing else.
  pub get_data_com_lem :
      (len : ℕ)
      → delivered f len ≤ length dst
      → get_data_com f dst len
        ≡ some (delivered f len, overwrite dst 0 (take (delivered f len) (contents f)))
  unfolding get_data_com
  get_data_com_lem len given =
      rw (count len, out_index-mod v)
        (rw (tmp len, rest len)
          (get_steps-some (delivered f len) (ground (arith, v.held)) given
            ∙ ap (λ w. some (delivered f len, overwrite dst 0 w))
                (window-take f.buf f.size f.out_pos (delivered f len) (used f) (ground arith))))

abbrev pub after_get : Fifo → ℕ → Fifo
after_get f n = record f { out_pos = u64 (f.out_pos + n); use_cnt = sub_mod (2 ^ 64) f.use_cnt n }

-- `HyFifoUpdateOut` leaves `use_cnt` as it was.
abbrev pub after_update : Fifo → ℕ → Fifo
after_update f n = record f { out_pos = u64 (f.out_pos + n) }

module _ {f : Fifo} (v : IsValid f) (n : ℕ) (held : n ≤ used f) where
  pub used-after_update : used (after_update f n) ≡ used f - n
  used-after_update = omega (arith, v.in_word, v.out_word, v.held, size_bounds v)

  pub after_update-IsValid : IsValid (after_update f n)
  after_update-IsValid = record {
    exponent = v.exponent;
    power = v.power;
    small = v.small;
    whole = v.whole;
    in_word = v.in_word;
    out_word = omega arith;
    held = omega (arith, v.held, used-after_update);
  }

  pub after_get-IsValid : IsValid (after_get f n)
  after_get-IsValid = record {
    exponent = v.exponent;
    power = v.power;
    small = v.small;
    whole = v.whole;
    in_word = v.in_word;
    out_word = omega arith;
    held = omega (arith, v.held, used-after_update);
  }

  pub contents-after_update : contents (after_update f n) ≡ drop n (contents f)
  contents-after_update =
      ap (window f.buf f.size (u64 (f.out_pos + n))) used-after_update
      ∙ window_same f.buf f.size (u64 (f.out_pos + n)) (f.out_pos + n) (used f - n)
          (mod-word v (f.out_pos + n))
      ∙ window-drop f.buf f.size f.out_pos n (used f)
