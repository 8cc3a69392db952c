-- ===== src/Fifo/Inv.antt =====
-- The representation invariant of `_fifo_context_t`, and the index arithmetic under it.
use native.Mathlib.Nat.{one-le-pow, pow-le-pow_right}
use Prim.Native.Nat.{bit_and}
use libhy_utils_bak.Base.{
  ℕ, ◌+◌, ◌-◌, ◌%◌, ◌^◌, ◌≤◌, ◌<◌, ◌≡◌, sym, ap, ◌∙◌, arith, Bytes, length, sub_mod,
}
use libhy_utils_bak.Bits.{bit_and-mask, mod-mod-two-pow}
use libhy_utils_bak.Fifo.{Fifo, in_index, out_index}
use libhy_utils_bak.Fifo.Window.{window}

-- the number of bytes held: `in - out`, which wraps with the two positions
abbrev pub used : Fifo → ℕ
used f = sub_mod (2 ^ 64) f.in_pos f.out_pos

-- the bytes held, oldest first
abbrev pub contents : Fifo → Bytes
contents f = window f.buf f.size f.out_pos (used f)

pub record IsValid (f : Fifo) : Type 0 where
  pub exponent : ℕ
  pub power : f.size ≡ 2 ^ exponent
  pub small : exponent ≤ 31
  pub whole : length f.buf ≡ f.size
  pub in_word : f.in_pos < 2 ^ 64
  pub out_word : f.out_pos < 2 ^ 64
  pub held : used f ≤ f.size

module _ {f : Fifo} (v : IsValid f) where
  pub size_bounds : (0 < f.size) × (f.size ≤ 2 ^ 31)
  size_bounds = omega (
    arith,
    v.power,
    one-le-pow v.exponent 2 (omega arith),
    pow-le-pow_right {n = 2} (omega arith) v.small,
  )

  pub mask : sub_mod (2 ^ 64) f.size 1 ≡ 2 ^ v.exponent - 1
  mask = omega (arith, v.power, size_bounds)

  pub mod-word : (x : ℕ) → x % 2 ^ 64 % f.size ≡ x % f.size
  mod-word x = rw v.power (mod-mod-two-pow v.exponent 64 x (omega (arith, v.small)))

  -- Both masks take a position modulo the size.
  pub in_index-mod : in_index f ≡ f.in_pos % f.size
  unfolding in_index
  in_index-mod =
      ap (bit_and f.in_pos) mask
      ∙ bit_and-mask v.exponent f.in_pos
      ∙ ap (λ (m : ℕ). f.in_pos % m) (sym v.power)

  pub out_index-mod : out_index f ≡ f.out_pos % f.size
  unfolding out_index
  out_index-mod =
      ap (bit_and f.out_pos) mask
      ∙ bit_and-mask v.exponent f.out_pos
      ∙ ap (λ (m : ℕ). f.out_pos % m) (sym v.power)

  -- The writing position lies where the window ends.
  pub in_pos-end : f.in_pos % f.size ≡ (f.out_pos + used f) % f.size
  in_pos-end =
      ap (λ (p : ℕ). p % f.size) {x = f.in_pos} {y = (f.out_pos + used f) % 2 ^ 64}
        (omega (arith, v.in_word, v.out_word))
      ∙ mod-word (f.out_pos + used f)
