-- ===== src/BitArray/Laws.antt =====
-- Setting a bit, and reading bits after it.
use Prim.Native.Nat.{bit_and, bit_or}
use libhy_utils_bak.Base.{
  ℕ, zero, suc, ◌*◌, ◌/◌, ◌%◌, ◌<◌, ◌≡◌, refl, sym, ap, ◌∙◌, Bool, true, false, ◌&&◌, some, [], ◌∷◌,
  Bytes, get_elem?, set, length, u8, arith, ltb, ◌==◌, if◌then◌else◌, all_below, of_all_below,
  Bool-cases, inl, inr, ◌⊎◌, ==_iff,
}
use libhy_utils_bak.BitArray.{mask, hy_bit_set, hy_bit_val}

-- all elements are bytes
abbrev pub all_bytes : Bytes → Bool
all_bytes [] = true
all_bytes (b ∷ bs) = ltb b 256 && all_bytes bs

-- One byte, tried at all values.
byte_test : ℕ → ℕ → ℕ → Bool
byte_test b p q =
    bit_and (u8 (bit_or b (mask p))) (mask q) == (if p == q then mask q else bit_and b (mask q))

byte_tests : all_below 256 (λ b. all_below 8 (λ p. all_below 8 (λ q. byte_test b p q))) ≡ true
unfolding byte_test all_below
byte_tests = refl

byte_lem :
    (b p q : ℕ)
    → b < 256
    → p < 8
    → q < 8
    → bit_and (u8 (bit_or b (mask p))) (mask q) ≡ (if p == q then mask q else bit_and b (mask q))
unfolding byte_test
byte_lem b p q hb hp hq = (==_iff _ _).0 (
    of_all_below 8 (λ q. byte_test b p q) q
      (of_all_below 8 (λ p. all_below 8 (λ q. byte_test b p q)) p
        (of_all_below 256 (λ b. all_below 8 (λ p. all_below 8 (λ q. byte_test b p q))) b byte_tests
          hb)
        hp)
      hq)

record Found (byte : Bytes) (i : ℕ) : Type 0 where
  b : ℕ
  there : get_elem? byte i ≡ some b
  small : b < 256

found : (byte : Bytes) (i : ℕ) → i < length byte → all_bytes byte ≡ true → Found byte i
found [] i h k = absurd (omega arith)
found (b ∷ bs) zero h k = record { b = b; there = refl; small = ground (arith, k) }
found (b ∷ bs) (suc i) h k =
    let f = found bs i (omega arith) (ground arith) in
    record { b = f.b; there = f.there; small = f.small }

set_same : (byte : Bytes) (i v : ℕ) → i < length byte → get_elem? (set byte i v) i ≡ some v
set_same [] i v h = absurd (omega arith)
set_same (b ∷ bs) zero v h = refl
set_same (b ∷ bs) (suc i) v h = set_same bs i v (omega arith)

set_other :
    (byte : Bytes) (i j v : ℕ) → (i == j) ≡ false → get_elem? (set byte i v) j ≡ get_elem? byte j
set_other [] i j v h = refl
set_other (b ∷ bs) zero zero v h = absurd (ground (arith, h))
set_other (b ∷ bs) zero (suc j) v h = refl
set_other (b ∷ bs) (suc i) zero v h = refl
set_other (b ∷ bs) (suc i) (suc j) v h = set_other bs i j v (ground arith)

read_back :
    (byte : Bytes) (i j b : ℕ)
    → get_elem? byte (i / 8) ≡ some b
    → b < 256
    → i < 8 * length byte
    → (i / 8 ≡ j / 8) ⊎ ((i / 8 == j / 8) ≡ false)
    → hy_bit_val (some (set byte (i / 8) (u8 (bit_or b (mask (i % 8)))))) j
      ≡ (if i == j then some (some (mask (j % 8))) else hy_bit_val (some byte) j)
unfolding hy_bit_val
read_back byte i j b e small h (inr other) =
    let ne : (i == j) ≡ false = ground (arith, other) in
    rw (set_other byte (i / 8) (j / 8) (u8 (bit_or b (mask (i % 8)))) other) (rw ne refl)
read_back byte i j b e small h (inl same) =
    let v : ℕ = u8 (bit_or b (mask (i % 8))) in
    let here : get_elem? (set byte (i / 8) v) (j / 8) ≡ some v =
      ap (get_elem? (set byte (i / 8) v)) (sym same) ∙ set_same byte (i / 8) v (omega arith) in
    let old : get_elem? byte (j / 8) ≡ some b = ap (get_elem? byte) (sym same) ∙ e in
    let bit : (i == j) ≡ (i % 8 == j % 8) = ground (arith, same) in
    rw here (
      rw old (
        rw bit (
          ap (λ (k : ℕ). some (some k))
            (byte_lem b (i % 8) (j % 8) small (omega arith) (omega arith))
          ∙ choose (i % 8 == j % 8))))
  where
    choose :
        (t : Bool)
        → some (some (if t then mask (j % 8) else bit_and b (mask (j % 8))))
          ≡ (if t then some (some (mask (j % 8))) else some (some (bit_and b (mask (j % 8)))))
    choose true = refl
    choose false = refl

-- After `HyBitSet` of an index inside an array of bytes the bit that was set reads as set, and
-- every other bit inside as before.
pub hy_bit_val-hy_bit_set :
    (byte : Bytes) (i j : ℕ)
    → all_bytes byte ≡ true
    → i < 8 * length byte
    → j < 8 * length byte
    → (byte' : Bytes) × (hy_bit_set (some byte) i ≡ some (some byte'))
      × (hy_bit_val (some byte') j
          ≡ (if i == j then some (some (mask (j % 8))) else hy_bit_val (some byte) j))
unfolding hy_bit_set hy_bit_val
hy_bit_val-hy_bit_set byte i j k hi hj =
    let f = found byte (i / 8) (omega arith) k in
    let same_byte : (i / 8 ≡ j / 8) ⊎ ((i / 8 == j / 8) ≡ false) =
      elim (Bool-cases (i / 8 == j / 8)) [
        | inl e ↦ inl ((==_iff (i / 8) (j / 8)).0 e)
        | inr e ↦ inr e
      ] in
    (
      set byte (i / 8) (u8 (bit_or f.b (mask (i % 8)))),
      rw (f.there) refl,
      read_back byte i j f.b f.there f.small hi same_byte,
    )
