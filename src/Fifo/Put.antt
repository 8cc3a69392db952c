-- ===== src/Fifo/Put.antt =====
-- `HyFifoPut` appends the bytes that fit.
use libhy_utils_bak.Base.{
  Option, ℕ, ◌+◌, ◌-◌, ◌%◌, ◌^◌, ◌≤◌, ◌<◌, ◌≡◌, ap, ◌∙◌, some, ◌++◌, arith, Bytes, length, take,
  u64, sub_mod, ◌>>=◌, memcpy, memcpy-overwrite,
}
use native.Mathlib.Nat.{mod-lt}
use libhy_utils_bak.Fifo.{Fifo, min_macro, hy_fifo_put}
use libhy_utils_bak.Fifo.Window.{
  window, first_part, put_first, put_round, length-put_first, length-put_round, window-put_round,
}
use libhy_utils_bak.Fifo.Inv.{IsValid, used, contents, size_bounds, in_index-mod, in_pos-end}

-- how many of `len` bytes a ring takes
abbrev pub accepted : Fifo → ℕ → ℕ
accepted f len = min_macro len (f.size - used f)

abbrev pub after_put : Fifo → Bytes → ℕ → Fifo
after_put f src n = record f {
  buf = put_round f.buf f.size (f.in_pos % f.size) src n;
  in_pos = u64 (f.in_pos + n);
  use_cnt = u64 (f.use_cnt + n);
}

-- the copies and the update, at the values that the code computes before them
abbrev put_steps : Fifo → Bytes → (n start t rest : ℕ) → Option (ℕ × Fifo)
put_steps f src n start t rest = do
  buf1 ← memcpy f.buf start src 0 t
  buf2 ← memcpy buf1 0 src t rest
  some (n, record f { buf = buf2; in_pos = u64 (f.in_pos + n); use_cnt = u64 (f.use_cnt + n) })

module _ {f : Fifo} (v : IsValid f) (src : Bytes) where
  put_steps-some :
      (n : ℕ)
      → n ≤ f.size
      → n ≤ length src
      → put_steps f src n
          (f.in_pos % f.size)
          (first_part f.size (f.in_pos % f.size) n)
          (n - first_part f.size (f.in_pos % f.size) n)
        ≡ some (n, after_put f src n)
  put_steps-some n fits given =
      let start : ℕ = f.in_pos % f.size in
      let inside : start < f.size = mod-lt f.in_pos ((size_bounds v).0) in
      rw
        (memcpy-overwrite f.buf start src 0 (first_part f.size start n) (ground (arith, v.whole))
          (ground arith))
        (rw (
          memcpy-overwrite (put_first f.buf f.size start src n) 0 src (first_part f.size start n)
            (n - first_part f.size start n)
            (ground (arith, length-put_first f.buf f.size start src n v.whole inside fits given))
            (ground arith)))

  module _ (len : ℕ) (given : len ≤ length src) where
    room : u64 (f.size + 2 ^ 64 - f.in_pos + f.out_pos) ≡ f.size - used f
    room = omega (arith, v.in_word, v.out_word, v.held, size_bounds v)

    -- No access outside an array, and the ring that is left.
    pub hy_fifo_put_lem :
        hy_fifo_put f src len ≡ some (accepted f len, after_put f src (accepted f len))
    unfolding hy_fifo_put
    hy_fifo_put_lem =
        rw (room, in_index-mod v)
          (rw (tmp, rest) (put_steps-some (accepted f len) (ground (arith, v.held)) (ground arith)))
      where
        start : ℕ
        start = f.in_pos % f.size

        tmp :
            min_macro (accepted f len) (sub_mod (2 ^ 64) f.size start)
            ≡ first_part f.size start (accepted f len)
        tmp = ground (arith, size_bounds v, mod-lt f.in_pos {m = f.size})

        rest :
            sub_mod (2 ^ 64) (accepted f len) (first_part f.size start (accepted f len))
            ≡ accepted f len - first_part f.size start (accepted f len)
        rest = ground (arith, size_bounds v, v.held)

  module _ (n : ℕ) (fits : used f + n ≤ f.size) (given : n ≤ length src) where
    pub used-after_put : used (after_put f src n) ≡ used f + n
    used-after_put = omega (arith, v.in_word, v.out_word, size_bounds v)

    pub after_put-IsValid : IsValid (after_put f src n)
    after_put-IsValid = record {
      exponent = v.exponent;
      power = v.power;
      small = v.small;
      whole =
          length-put_round f.buf f.size (f.in_pos % f.size) src n v.whole
            (mod-lt f.in_pos ((size_bounds v).0)) (omega arith) given;
      in_word = omega arith;
      out_word = v.out_word;
      held = omega (arith, used-after_put);
    }

    pub contents-after_put : contents (after_put f src n) ≡ contents f ++ take n src
    contents-after_put =
        ap (window (after_put f src n).buf f.size f.out_pos) used-after_put
        ∙ window-put_round f.buf f.size f.out_pos v.whole ((size_bounds v).0) (used f)
            (f.in_pos % f.size) src n fits given (in_pos-end v)
