-- ===== src/Bits.antt =====
-- `&` and `|` against a mask or a power of two, as arithmetic.
use Prim.Native.Nat.{min, max, bit_and, bit_or, digits, bit_and-bitwise, bit_or-bitwise}
use Prim.Native.Nat.{◌∣◌}
use mathlib.Core.Path.{subst}
use native.Mathlib.Decide.{dec_le, dec_lt}
use native.Mathlib.Nat.{
  div-div-eq-div-mul, mul-add, mul-one, mod_self, dvd_refl, dvd-add, mod-mod_of_dvd, two-pow-succ,
  one-le-pow, mul-add-mod_self_right, mod-eq_of_lt, mod-eq-sub-mod, mod-add-mod, div-add-mod',
  mod-lt,
}
use libhy_utils_bak.Base.{
  ℕ, zero, suc, ◌+◌, ◌-◌, ◌*◌, ◌/◌, ◌%◌, ◌^◌, ◌≤◌, ◌<◌, ◌≡◌, ◌≢◌, ◌↔◌, refl, sym, ap, ◌∙◌, arith,
  ltb, if◌then◌else◌,
}

-- Both operations recur on the digits of the first number with a count; any count that is large
-- enough gives the same.
module _ (z : ℕ → ℕ) (f : ℕ → ℕ → ℕ) where
  digits_count : (n m a b : ℕ) → a ≤ n → a ≤ m → digits z f n a b ≡ digits z f m a b
  digits_count zero zero a b p q = refl
  digits_count zero (suc m) zero b p q = refl
  digits_count (suc n) zero zero b p q = refl
  digits_count (suc n) (suc m) zero b p q = refl
  digits_count zero (suc m) (suc a) b p q = absurd (omega arith)
  digits_count (suc n) zero (suc a) b p q = absurd (omega arith)
  digits_count (suc n) (suc m) (suc a) b p q =
      ap (λ k. k * 2 + f (suc a % 2) (b % 2))
        (digits_count n m (suc a / 2) (b / 2) (omega arith) (omega arith))

-- The lowest digit apart.
and_low : (a b : ℕ) → bit_and a b ≡ bit_and (a / 2) (b / 2) * 2 + min (a % 2) (b % 2)
and_low zero b = omega (arith, bit_and-bitwise 0 b, bit_and-bitwise 0 (b / 2))
and_low (suc a) b = omega (
  arith,
  bit_and-bitwise (suc a) b,
  bit_and-bitwise (suc a / 2) (b / 2),
  digits_count (λ _. zero) min a (suc a / 2) (suc a / 2) (b / 2) (omega arith) (omega arith),
)

or_low : (a b : ℕ) → bit_or a b ≡ bit_or (a / 2) (b / 2) * 2 + max (a % 2) (b % 2)
or_low zero b = omega (arith, bit_or-bitwise 0 b, bit_or-bitwise 0 (b / 2))
or_low (suc a) b = omega (
  arith,
  bit_or-bitwise (suc a) b,
  bit_or-bitwise (suc a / 2) (b / 2),
  digits_count (λ y. y) max a (suc a / 2) (suc a / 2) (b / 2) (omega arith) (omega arith),
)

-- `x & 0`, with a bound on `x` to recur on
and_zero_below : (n a : ℕ) → a ≤ n → bit_and a 0 ≡ 0
and_zero_below n zero h = refl
and_zero_below zero (suc a) h = absurd (omega arith)
and_zero_below (suc n) (suc a) h =
    omega (arith, and_low (suc a) 0, and_zero_below n (suc a / 2) (omega arith))

pub bit_and-zero : (a : ℕ) → bit_and a 0 ≡ 0
bit_and-zero a = and_zero_below a a (omega arith)

and_le_below : (n a b : ℕ) → b ≤ n → bit_and a b ≤ b
and_le_below n a zero h = omega (arith, bit_and-zero a)
and_le_below zero a (suc b) h = absurd (omega arith)
and_le_below (suc n) a (suc b) h =
    omega (arith, and_low a (suc b), and_le_below n (a / 2) (suc b / 2) (omega arith))

-- A mask bounds what is masked.
pub bit_and-le : (a b : ℕ) → bit_and a b ≤ b
bit_and-le a b = and_le_below b a b (omega arith)

-- The remainder is what is left below the modulus.
pub mod_unique : (a m q r : ℕ) → a ≡ q * m + r → r < m → a % m ≡ r
mod_unique a m q r e h = rw e (mul-add-mod_self_right q m r ∙ mod-eq_of_lt h)

mod-two-pow-suc : (a k : ℕ) → a % 2 ^ suc k ≡ a / 2 % 2 ^ k * 2 + a % 2
mod-two-pow-suc a k = rw two-pow-succ (
    mod_unique a (2 ^ k + 2 ^ k) (a / 2 / 2 ^ k) (a / 2 % 2 ^ k * 2 + a % 2)
      (omega (arith, div-add-mod' (a / 2) (2 ^ k)))
      (omega (arith, mod-lt (a / 2) {m = 2 ^ k} (one-le-pow k 2 (omega arith)))))

-- A mask of `k` ones keeps the remainder by `2 ^ k`.
pub bit_and-mask : (k a : ℕ) → bit_and a (2 ^ k - 1) ≡ a % 2 ^ k
bit_and-mask zero a = omega (arith, bit_and-zero a)
bit_and-mask (suc k) a = omega (
  arith,
  and_low a (2 ^ suc k - 1),
  two-pow-succ k,
  one-le-pow k 2,
  ap (λ t. bit_and (a / 2) t) {x = (2 ^ suc k - 1) / 2} {y = 2 ^ k - 1}
      (omega (arith, two-pow-succ k, one-le-pow k 2 (omega arith))),
  mod-two-pow-suc a k,
  bit_and-mask k (a / 2),
)

pub two-pow-dvd : (k m : ℕ) → k ≤ m → 2 ^ k ∣ 2 ^ m
two-pow-dvd k zero h = subst (λ t. 2 ^ t ∣ 2 ^ 0) {x = 0} {y = k} (omega arith) (dvd_refl 1)
two-pow-dvd k (suc m) h = elim (dec_le k m) [
  | yes p ↦ rw two-pow-succ (dvd-add (2 ^ k) (two-pow-dvd k m p) (two-pow-dvd k m p))
  | no p ↦ subst (λ t. 2 ^ t ∣ 2 ^ suc m) {x = suc m} {y = k} (omega arith) (dvd_refl (2 ^ suc m))
]

-- Reduction modulo a larger power of two first makes no difference.
pub mod-mod-two-pow : (k m a : ℕ) → k ≤ m → a % 2 ^ m % 2 ^ k ≡ a % 2 ^ k
mod-mod-two-pow k m a h = mod-mod_of_dvd (2 ^ k) a (two-pow-dvd k m h)

and_self_below : (n a : ℕ) → a ≤ n → bit_and a a ≡ a
and_self_below n zero h = refl
and_self_below zero (suc a) h = absurd (omega arith)
and_self_below (suc n) (suc a) h =
    omega (arith, and_low (suc a) (suc a), and_self_below n (suc a / 2) (omega arith))

pub bit_and_self : (a : ℕ) → bit_and a a ≡ a
bit_and_self a = and_self_below a a (omega arith)

abbrev pub IsTwoPow : ℕ → Type 0
IsTwoPow x = (k : ℕ) × (x ≡ 2 ^ k)

pred_below : (n x : ℕ) → x ≤ n → x ≢ 0 → bit_and x (x - 1) ≡ 0 → IsTwoPow x
pred_below zero x h ne e = absurd (omega arith)
pred_below (suc n) x h ne e = elim (dec_lt 0 (x % 2)) [
  | yes odd ↦ (
    0,
    omega (
      arith,
      and_low x (x - 1),
      ap (bit_and (x / 2)) {x = (x - 1) / 2} {y = x / 2} (omega arith),
      bit_and_self (x / 2),
    ),
  )
  | no even ↦
      let (k, half) = pred_below n (x / 2) (omega arith) (omega arith) (
        omega (
          arith,
          and_low x (x - 1),
          ap (bit_and (x / 2)) {x = (x - 1) / 2} {y = x / 2 - 1} (omega arith),
        )) in
      (suc k, omega (arith, two-pow-succ k))
]

-- `x & (x - 1)` is zero at the powers of two and, but for zero, nowhere else.
pub bit_and-pred : (x : ℕ) → x ≢ 0 → (bit_and x (x - 1) ≡ 0) ↔ IsTwoPow x
bit_and-pred x ne =
    (pred_below x x (omega arith) ne, λ (k, e). rw e (bit_and-mask k (2 ^ k) ∙ mod_self (2 ^ k)))

turn :
    (r y size : ℕ)
    → r < size
    → y ≤ size
    → (r + y) % size ≡ (if ltb (r + y) size then r + y else r + y - size)
turn r y size pos h = ground (
  arith,
  mod-eq_of_lt {n = r + y} {m = size},
  mod-eq-sub-mod {n = r + y} {m = size},
  mod-eq_of_lt {n = r + y - size} {m = size},
)

-- One step round a ring, for an offset of at most a whole turn.
pub mod_turn :
    (x y size : ℕ)
    → 0 < size
    → y ≤ size
    → (x + y) % size ≡ (if ltb (x % size + y) size then x % size + y else x % size + y - size)
mod_turn x y size pos h = rw (← mod-add-mod x size y) (turn (x % size) y size (mod-lt x pos) h)

pub double-pow : (x k : ℕ) → x * 2 ^ suc k ≡ 2 * (x * 2 ^ k)
double-pow x k = ap (λ (t : ℕ). x * t) (two-pow-succ k) ∙ mul-add x (2 ^ k) (2 ^ k) ∙ omega arith

-- A single bit, as arithmetic.
pub bit_and-two-pow : (k a : ℕ) → bit_and a (2 ^ k) ≡ a / 2 ^ k % 2 * 2 ^ k
bit_and-two-pow zero a = omega (arith, and_low a 1, bit_and-zero (a / 2))
bit_and-two-pow (suc k) a =
    let half : a / 2 ^ suc k ≡ a / 2 / 2 ^ k =
      ap (λ (t : ℕ). a / t) (two-pow-succ k ∙ omega arith) ∙ sym (div-div-eq-div-mul a 2 (2 ^ k)) in
    rw half (
      omega (
        arith,
        and_low a (2 ^ suc k),
        two-pow-succ k,
        ap (λ (t : ℕ). bit_and (a / 2) t) {x = 2 ^ suc k / 2} {y = 2 ^ k}
            (omega (arith, two-pow-succ k)),
        bit_and-two-pow k (a / 2),
        double-pow (a / 2 / 2 ^ k % 2) k,
      ))

or_zero_below : (n a : ℕ) → a ≤ n → bit_or a 0 ≡ a
or_zero_below n zero h = refl
or_zero_below zero (suc a) h = absurd (omega arith)
or_zero_below (suc n) (suc a) h =
    omega (arith, or_low (suc a) 0, or_zero_below n (suc a / 2) (omega arith))

pub bit_or-zero : (a : ℕ) → bit_or a 0 ≡ a
bit_or-zero a = or_zero_below a a (omega arith)

-- `|` of a bit below all others is addition.
pub bit_or-add :
    (k x d : ℕ) → d < 2 → bit_or (x * 2 ^ suc k) (d * 2 ^ k) ≡ x * 2 ^ suc k + d * 2 ^ k
bit_or-add zero x d h = subst (λ t. bit_or (x * 2) t ≡ x * 2 + t) (sym (mul-one d)) low
  where
    low : bit_or (x * 2) d ≡ x * 2 + d
    low = omega (
      arith,
      or_low (x * 2) d,
      bit_or-zero x,
      ap (λ (t : ℕ). bit_or t (d / 2)) {x = x * 2 / 2} {y = x} (omega arith),
      ap (λ (t : ℕ). bit_or x t) {x = d / 2} {y = 0} (omega arith),
    )
bit_or-add (suc k) x d h = omega (
  arith,
  or_low (x * 2 ^ suc (suc k)) (d * 2 ^ suc k),
  double-pow x (suc k),
  double-pow d k,
  bit_or-add k x d h,
  ap (λ (t : ℕ). bit_or t (d * 2 ^ suc k / 2)) {x = x * 2 ^ suc (suc k) / 2} {y = x * 2 ^ suc k}
      (omega (arith, double-pow x (suc k))),
  ap (λ (t : ℕ). bit_or (x * 2 ^ suc k) t) {x = d * 2 ^ suc k / 2} {y = d * 2 ^ k}
      (omega (arith, double-pow d k)),
)

zero_or_below : (n b : ℕ) → b ≤ n → bit_or 0 b ≡ b
zero_or_below n zero h = refl
zero_or_below zero (suc b) h = absurd (omega arith)
zero_or_below (suc n) (suc b) h =
    omega (arith, or_low 0 (suc b), zero_or_below n (suc b / 2) (omega arith))

-- A number below a power of two and a multiple of it share no digit.
pub bit_or-disjoint : (k x y : ℕ) → x < 2 ^ k → bit_or x (y * 2 ^ k) ≡ x + y * 2 ^ k
bit_or-disjoint zero x y h =
    ap (λ (t : ℕ). bit_or t (y * 1)) {x = x} {y = 0} (omega arith)
    ∙ (zero_or_below (y * 1) (y * 1) (omega arith) ∙ omega arith)
bit_or-disjoint (suc k) x y h = omega (
  arith,
  or_low x (y * 2 ^ suc k),
  double-pow y k,
  bit_or-disjoint k (x / 2) y (omega (arith, two-pow-succ k)),
  ap (λ (t : ℕ). bit_or (x / 2) t) {x = y * 2 ^ suc k / 2} {y = y * 2 ^ k}
      (omega (arith, double-pow y k)),
)
