-- ===== src/Fifo/Info.antt =====
-- `HyFifoClean`, `HyFifoGetInfo`, `HyFifoDump`, and `HyFifoUpdateOut` on a full local array.
use native.Mathlib.Nat.{mod-lt}
use libhy_utils_bak.Base.{
  ℕ, ◌+◌, ◌-◌, ◌%◌, ◌^◌, ◌≤◌, ◌<◌, ◌≡◌, refl, ap, ◌∙◌, ◌⊎◌, ◌↔◌, false, [], ◌∷◌, some, none, ◌++◌,
  arith, ◌==◌, Bytes, length, take, drop, u32, sub_mod, overwrite, min, replicate, length-replicate,
  memcpy, memset, memcpy-overwrite, length-overwrite, overwrite-whole, length-slice,
}
use libhy_utils_bak.Fifo.{
  Fifo, min_macro, print_hex_ascii, print_content, hy_fifo_dump, hy_fifo_clean, hy_fifo_update_out,
  hy_fifo_get_info, free_len,
}
use libhy_utils_bak.Fifo.Window.{first_part}
use libhy_utils_bak.Fifo.Slices.{window_slices}
use libhy_utils_bak.Fifo.Inv.{IsValid, used, contents, size_bounds, out_index-mod}
use libhy_utils_bak.Fifo.Get.{get_data_com-none}

print_hex_ascii-append :
    (xs ys : Bytes) → print_hex_ascii xs ++ print_hex_ascii ys ≡ print_hex_ascii (xs ++ ys)
unfolding print_hex_ascii
print_hex_ascii-append [] ys = refl
print_hex_ascii-append (x ∷ xs) ys = rw (print_hex_ascii-append xs ys)

-- A copy into a new block of the size that is copied.
copy_out :
    (src : Bytes) (from n : ℕ)
    → from + n ≤ length src
    → memcpy (replicate n 0) 0 src from n ≡ some (take n (drop from src))
copy_out src from n h =
    memcpy-overwrite (replicate n 0) 0 src from n (omega (arith, length-replicate {A = ℕ} n 0)) h
    ∙ ap some (
        overwrite-whole (replicate n 0) (take n (drop from src))
          (omega (arith, length-replicate {A = ℕ} n 0, length-slice src from n h)))

module _ {f : Fifo} (v : IsValid f) where
  -- `HyFifoClean` of a valid ring leaves a valid ring of the same size that holds nothing; its
  -- counter stays.
  pub clean_empties :
      (f' : Fifo) × (hy_fifo_clean (some f) ≡ some (some f'))
      × IsValid f'
      × (f'.size ≡ f.size)
      × (contents f' ≡ [])
      × (f'.use_cnt ≡ f.use_cnt)
  unfolding hy_fifo_clean memset
  clean_empties =
      let zeroed : Bytes = overwrite f.buf 0 (replicate f.size 0) in
      let n = length-replicate {A = ℕ} f.size 0 in
      (
        record f { buf = zeroed; in_pos = 0; out_pos = 0 },
        ground (arith, v.whole),
        record {
          exponent = v.exponent;
          power = v.power;
          small = v.small;
          whole =
              length-overwrite f.buf 0 (replicate f.size 0) (omega (arith, v.whole, n)) ∙ v.whole;
          in_word = omega arith;
          out_word = omega arith;
          held = omega arith;
        },
        refl,
        refl,
        refl,
      )

  -- The free length that `HyFifoGetInfo` reports of a valid ring is what `HyFifoPut` would still
  -- take exactly when the reading position is 0 or 2^63: the code adds the positions where their
  -- difference is meant.
  pub free_len_iff :
      (old : ℕ)
      → (hy_fifo_get_info (some f) free_len (some old) ≡ some (f.size - used f))
        ↔ ((f.out_pos ≡ 0) ⊎ (f.out_pos ≡ 2 ^ 63))
  unfolding hy_fifo_get_info
  free_len_iff old = (
    λ h. omega (arith, v.in_word, v.out_word, v.held, size_bounds v, some_eq h),
    λ z. ap some (omega (arith, v.in_word, v.out_word, v.held, size_bounds v)),
  )
    where
      some_eq : {a b : ℕ} → some a ≡ some b → a ≡ b
      some_eq h = cc

  -- `HyFifoDump` of a valid ring prints exactly the bytes held, oldest first.
  pub dump-contents : hy_fifo_dump (some f) ≡ some (print_hex_ascii (contents f))
  unfolding hy_fifo_dump print_content
  dump-contents =
      rw (len, out_index-mod v)
        (rw (tmp, rest)
          (rw
            (
              copy_out f.buf o t inside,
              copy_out f.buf 0 (used f - t) (ground (arith, v.whole, v.held)),
            )
            (ap some (
              print_hex_ascii-append (take t (drop o f.buf)) (take (used f - t) (drop 0 f.buf))
              ∙ ap print_hex_ascii (
                  window_slices f.buf f.size f.out_pos v.whole (size_bounds v).0 (used f)
                    v.held)))))
    where
      o : ℕ
      o = f.out_pos % f.size

      t : ℕ
      t = first_part f.size o (used f)

      len : u32 (used f) ≡ used f
      len = omega (arith, v.held, size_bounds v)

      tmp : u32 (min_macro (used f) (sub_mod (2 ^ 64) f.size o)) ≡ t
      tmp = ground (arith, size_bounds v, v.held, mod-lt f.out_pos {m = f.size})

      rest : sub_mod (2 ^ 32) (used f) t ≡ used f - t
      rest = ground (arith, size_bounds v, v.held)

      inside : o + t ≤ length f.buf
      inside = ground (arith, v.whole, size_bounds v, mod-lt f.out_pos {m = f.size})

  -- `HyFifoUpdateOut` on a valid ring writes past its local array when more than 1024 bytes are
  -- there to be dropped, for a length below 2^32.
  pub update_out_overflows :
      (len : ℕ) → len < 2 ^ 32 → 1024 < min len (used f) → hy_fifo_update_out (some f) len ≡ none
  unfolding hy_fifo_update_out
  update_out_overflows len w h =
      let nonzero : (len == 0) ≡ false = ground arith in
      rw nonzero (
        rw
          (get_data_com-none v (replicate 1024 0) len
            (ground (arith, length-replicate {A = ℕ} 1024 0)))
          refl)
