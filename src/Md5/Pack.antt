-- ===== src/Md5/Pack.antt =====
-- `to_int32` reads back what `to_bytes` has written.
use Prim.Native.Nat.{bit_or}
use libhy_utils_bak.Base.{
  ℕ, ◌+◌, ◌*◌, ◌/◌, ◌^◌, ◌<◌, ◌≤◌, ◌≡◌, refl, sym, ap, ap₂, ◌∙◌, some, [], ◌∷◌, ◌++◌, ◌>>=◌, u8,
  u32, Bytes, length, take, drop, arith, get_elem?, get_elem?-append, overwrite, memcpy-overwrite,
  length-take,
}
use libhy_utils_bak.Bits.{bit_or-disjoint}
use libhy_utils_bak.Md5.{to_bytes, to_int32}

-- the four bytes of a word
abbrev four : ℕ → Bytes
four val = u8 val ∷ u8 (val / 2 ^ 8) ∷ u8 (val / 2 ^ 16) ∷ u8 (val / 2 ^ 24) ∷ []

joined :
    (b0 b1 b2 b3 : ℕ)
    → b0 < 2 ^ 8
    → b1 < 2 ^ 8
    → b2 < 2 ^ 8
    → b3 < 2 ^ 8
    → bit_or (bit_or (bit_or b0 (u32 (b1 * 2 ^ 8))) (u32 (b2 * 2 ^ 16))) (u32 (b3 * 2 ^ 24))
      ≡ b0 + b1 * 2 ^ 8 + b2 * 2 ^ 16 + b3 * 2 ^ 24
joined b0 b1 b2 b3 h0 h1 h2 h3 =
    ap₂ bit_or {u = u32 (b3 * 2 ^ 24)} {v = b3 * 2 ^ 24}
      (ap₂ bit_or {u = u32 (b2 * 2 ^ 16)} {v = b2 * 2 ^ 16}
          (ap (bit_or b0) {x = u32 (b1 * 2 ^ 8)} {y = b1 * 2 ^ 8} (omega arith)
            ∙ bit_or-disjoint 8 b0 b1 h0)
          (omega arith)
        ∙ bit_or-disjoint 16 (b0 + b1 * 2 ^ 8) b2 (omega arith))
      (omega arith)
    ∙ bit_or-disjoint 24 (b0 + b1 * 2 ^ 8 + b2 * 2 ^ 16) b3 (omega arith)

read_steps :
    (bytes : Bytes) (off : ℕ) {b0 b1 b2 b3 : ℕ}
    → get_elem? bytes off ≡ some b0
    → get_elem? bytes (off + 1) ≡ some b1
    → get_elem? bytes (off + 2) ≡ some b2
    → get_elem? bytes (off + 3) ≡ some b3
    → to_int32 bytes off
      ≡ some
          (bit_or (bit_or (bit_or b0 (u32 (b1 * 2 ^ 8))) (u32 (b2 * 2 ^ 16))) (u32 (b3 * 2 ^ 24)))
unfolding to_int32
read_steps bytes off x y z u = rw x (rw y (rw z (rw u refl)))

-- A word that `to_bytes` writes into an array is what `to_int32` reads from there.
pub to_int32-to_bytes :
    (val : ℕ) (bytes : Bytes) (off : ℕ)
    → val < 2 ^ 32
    → off + 4 ≤ length bytes
    → (to_bytes val bytes off >>= λ out. to_int32 out off) ≡ some val
unfolding to_bytes
to_int32-to_bytes val bytes off small room =
    ap (λ o. o >>= λ out. to_int32 out off)
      (memcpy-overwrite bytes off (four val) 0 4 room (omega arith))
    ∙ (read_steps out off (ap (get_elem? out) {x = off} {y = off + 0} (omega arith) ∙ at 0) (at 1)
          (at 2) (at 3)
        ∙ ap some (
            joined (u8 val) (u8 (val / 2 ^ 8)) (u8 (val / 2 ^ 16)) (u8 (val / 2 ^ 24)) (omega arith)
              (omega arith) (omega arith) (omega arith)
            ∙ omega arith))
  where
    out : Bytes
    out = overwrite bytes off (four val)

    front : length (take off bytes) ≡ off
    front = omega (arith, length-take off bytes)

    at : (i : ℕ) → get_elem? out (off + i) ≡ get_elem? (four val ++ drop (off + 4) bytes) i
    at i =
        ap (λ (t : ℕ). get_elem? out (t + i)) (sym front)
        ∙ get_elem?-append (take off bytes) (four val ++ drop (off + 4) bytes) i
