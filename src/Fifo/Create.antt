-- ===== src/Fifo/Create.antt =====
-- `HyFifoCreate`: sizes that are rounded, and what it returns.
use libhy_utils_bak.Base.{
  ℕ, zero, suc, ◌+◌, ◌-◌, ◌*◌, ◌/◌, ◌%◌, ◌^◌, ◌≤◌, ◌<◌, ◌≡◌, refl, ap, ◌∙◌, inl, inr, Bool, true,
  false, not, ◌&&◌, ◌||◌, Option, some, none, [], arith, ltb, ◌↔◌, ==_iff, ◌==◌, Bool-cases,
  if◌then◌else◌, u32, replicate, length-replicate, sub_mod,
}
use mathlib.Core.Bool.{false≢true}
use native.Mathlib.Decide.{dec_lt, dec_le}
use native.Mathlib.Nat.{two-pow-succ, one-le-pow, mul-le-mul_left, pow-le-pow_right}
use libhy_utils_bak.Fifo.{Fifo, is_power_of2, num_to_2n2_loop, num_to_2n2, hy_fifo_create}
use libhy_utils_bak.Bits.{bit_and-pred, IsTwoPow}
use libhy_utils_bak.Fifo.Inv.{IsValid, contents}
use libhy_utils_bak.Fifo.Refine.{IsCounted}

exponent_le : (k m : ℕ) → 2 ^ k ≤ 2 ^ m → k ≤ m
exponent_le k m h = elim (dec_le k m) [
  | yes p ↦ p
  | no p ↦ absurd (
      omega (
        arith,
        two-pow-succ m,
        one-le-pow m 2 (omega arith),
        pow-le-pow_right {n = 2} (omega arith) {i = suc m} {j = k} (omega arith),
      ))
]

exponent_lt : (k m : ℕ) → 2 ^ k < 2 ^ m → k < m
exponent_lt k m h = elim (dec_lt k m) [
  | yes p ↦ p
  | no p ↦
      absurd (omega (arith, pow-le-pow_right {n = 2} (omega arith) {i = m} {j = k} (omega arith)))
]

-- the exponents between which a 32-bit number above 2^31 lies
top : (k : ℕ) → 2 ^ 31 < 2 * 2 ^ k → 2 ^ k < 2 ^ 32 → k ≡ 31
top k h l =
    omega (arith, exponent_lt k 32 l, exponent_lt 31 (suc k) (omega (arith, two-pow-succ k)))

double-le : (i num : ℕ) → 2 ≤ num → i * 2 ≤ i * num
double-le i num h = mul-le-mul_left i h

-- `i` doubles once for each halving of `num`, so the loop stops at `i` times the largest power of
-- two that `num` reaches.
loop_doubles :
    (fuel num i : ℕ)
    → 0 < num
    → num < 2 ^ fuel
    → i * num < 2 ^ 32
    → (m : ℕ) × (num_to_2n2_loop fuel num i ≡ some (i * 2 ^ m)) × (2 ^ m ≤ num) × (num < 2 * 2 ^ m)
unfolding num_to_2n2_loop
loop_doubles zero num i p f w = absurd (omega arith)
loop_doubles (suc fuel) num i p f w = elim (dec_lt 1 num) [
  | no small ↦ (0, ground arith, omega arith, omega arith)
  | yes more ↦
      let e : i * num ≡ i * (2 * (num / 2) + num % 2) = ap (λ (t : ℕ). i * t) (omega arith) in
      let r =
        loop_doubles fuel (num / 2) (i + i) (omega arith) (omega (arith, two-pow-succ fuel))
          (omega (arith, e)) in
      let twice : u32 (i + i) ≡ i + i = omega (arith, double-le i num) in
      (
        suc r.0,
        rw twice (ground (arith, r.1, ap (λ (t : ℕ). i * t) (two-pow-succ r.0))),
        omega (arith, two-pow-succ r.0, r.2),
        omega (arith, two-pow-succ r.0, r.3),
      )
]

-- `_HyUtilsNumTo2N2` gives the least power of two that is not below a number from 1 to 2^31.
pub num_to_2n2-least :
    (num : ℕ)
    → 0 < num
    → num ≤ 2 ^ 31
    → (k : ℕ) × (num_to_2n2 num ≡ some (2 ^ k)) × (k ≤ 31) × (num ≤ 2 ^ k) × (2 ^ k < 2 * num)
unfolding num_to_2n2
num_to_2n2-least num p h =
    let r = loop_doubles 32 num 1 p (omega arith) (omega arith) in
    let stops : num_to_2n2_loop 32 num 1 ≡ some (2 ^ r.0) = r.1 ∙ ap some (omega arith) in
    elim (dec_lt (2 ^ r.0) num) [
      | yes below ↦ (
        suc r.0,
        rw stops (ground (arith, two-pow-succ r.0)),
        exponent_lt r.0 31 (omega arith),
        omega (arith, r.3, two-pow-succ r.0),
        omega (arith, two-pow-succ r.0),
      )
      | no reached ↦ (
        r.0,
        rw stops (ground arith),
        exponent_le r.0 31 (omega (arith, r.2)),
        omega arith,
        omega (arith, r.2),
      )
    ]

-- For a number above 2^31 and below 2^32 the last doubling of `_HyUtilsNumTo2N2` wraps, and it
-- gives zero.
pub num_to_2n2-wraps : (num : ℕ) → 2 ^ 31 < num → num < 2 ^ 32 → num_to_2n2 num ≡ some 0
unfolding num_to_2n2
num_to_2n2-wraps num h w =
    let r = loop_doubles 32 num 1 (omega arith) w (omega arith) in
    let e : r.0 ≡ 31 = top r.0 (omega (arith, r.3)) (omega (arith, r.2)) in
    rw (r.1, e) (ground arith)

-- what a new ring is
pub record IsNew (f : Fifo) : Type 0 where
  pub valid : IsValid f
  pub counted : IsCounted f
  pub is_empty : contents f ≡ []

abbrev fresh : ℕ → Fifo
fresh size = record { buf = replicate size 0; size = size; use_cnt = 0; in_pos = 0; out_pos = 0 }

fresh-IsNew : (size k : ℕ) → size ≡ 2 ^ k → k ≤ 31 → IsNew (fresh size)
fresh-IsNew size k e h = record {
  valid = record {
    exponent = k;
    power = e;
    small = h;
    whole = length-replicate {A = ℕ} size 0;
    in_word = omega arith;
    out_word = omega arith;
    held = omega arith;
  };
  counted = refl;
  is_empty = refl;
}

zero_test : (x : ℕ) → ((x == 0) ≡ true) ↔ (x ≡ 0)
zero_test x = ==_iff x 0

-- `HyUtilsIsPowerOf2` holds of a `size_t` exactly when it is a power of two.
pub is_power_of2_iff : (x : ℕ) → x < 2 ^ 64 → (is_power_of2 x ≡ true) ↔ IsTwoPow x
unfolding is_power_of2
is_power_of2_iff zero w =
    ((λ h. absurd (false≢true h)), λ (k, e). absurd (omega (arith, one-le-pow k 2 (omega arith))))
is_power_of2_iff (suc y) w =
    let minus : sub_mod (2 ^ 64) (suc y) 1 ≡ suc y - 1 = omega arith in
    let nonzero : (suc y == 0) ≡ false = ground arith in
    rw (nonzero, minus)
      (
        (λ h. (bit_and-pred (suc y) (omega arith)).0 ((zero_test _).0 h)),
        λ p. (zero_test _).1 ((bit_and-pred (suc y) (omega arith)).1 p),
      )

created :
    (size : ℕ) → size < 2 ^ 64 → (is_power_of2 size ≡ true) → size ≤ 2 ^ 31 → IsNew (fresh size)
created size w h le =
    let (k, e) = (is_power_of2_iff size w).0 h in
    fresh-IsNew size k e (exponent_le k 31 (omega arith))

-- With both blocks allocated `HyFifoCreate` of a size from 1 to 2^31 gives a valid and empty ring
-- that holds at least as many bytes, and fewer than twice as many.
pub create-IsNew :
    (size : ℕ)
    → 0 < size
    → size ≤ 2 ^ 31
    → (f : Fifo) × (hy_fifo_create true true (some size) ≡ some (some f))
      × IsNew f
      × (size ≤ f.size)
      × (f.size < 2 * size)
unfolding hy_fifo_create
create-IsNew size p le =
    let small : ltb 0x80000000 size ≡ false = ground arith in
    elim (Bool-cases (is_power_of2 size)) [
      | inl h ↦
          (fresh size, rw (h, small), created size (omega arith) h le, omega arith, omega arith)
      | inr h ↦
          let (k, e, bound, above, below) = num_to_2n2-least size p le in
          let word : u32 size ≡ size = omega arith in
          (fresh (2 ^ k), rw (h, word) (rw e refl), fresh-IsNew (2 ^ k) k refl bound, above, below)
    ]

num_to_2n2-some : (num : ℕ) → num < 2 ^ 32 → (i : ℕ) × (num_to_2n2 num ≡ some i)
unfolding num_to_2n2
num_to_2n2-some zero w = (1, unfold num_to_2n2_loop in refl)
num_to_2n2-some (suc n) w =
    let r = loop_doubles 32 (suc n) 1 (omega arith) w (omega arith) in
    (if ltb (1 * 2 ^ r.0) (suc n) then u32 (1 * 2 ^ r.0 + 1 * 2 ^ r.0) else 1 * 2 ^ r.0, rw r.1)

abbrev pub is_given {ℓ} : {A : Type ℓ} → Option A → Bool
is_given none = false
is_given (some a) = true

-- For every configuration and every outcome of the allocations the rounding loop ends within its 32
-- rounds, and a handle is returned exactly when there is a configuration and both blocks are.
pub create_returns :
    (ctx_ok buf_ok : Bool) (config : Option ℕ)
    → (handle : Option Fifo) × (hy_fifo_create ctx_ok buf_ok config ≡ some handle)
      × (is_given handle ≡ (is_given config && (ctx_ok && buf_ok)))
unfolding hy_fifo_create
create_returns ctx_ok buf_ok none = (none, refl, refl)
create_returns ctx_ok buf_ok (some size) =
    let rounded = num_to_2n2-some (u32 size) (omega arith) in
    elim (Bool-cases (not (is_power_of2 size) || ltb 0x80000000 size)) [
      | inl h ↦ (handle rounded.0, rw h (rw (rounded.1) refl), handle_given rounded.0)
      | inr h ↦ (handle size, rw h refl, handle_given size)
    ]
  where
    handle : ℕ → Option Fifo
    handle n = if ctx_ok && buf_ok then some (fresh n) else none

    handle_given : (n : ℕ) → is_given (handle n) ≡ (ctx_ok && buf_ok)
    handle_given n = elim (Bool-cases (ctx_ok && buf_ok)) [ inl e ↦ rw e refl | inr e ↦ rw e refl ]
