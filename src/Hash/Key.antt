-- ===== src/Hash/Key.antt =====
-- The hash of a key as a polynomial in 31, and where its bucket lies.
use Prim.Native.Nat.{bit_and}
use libhy_utils_bak.Base.{
  ℕ, zero, suc, ◌+◌, ◌*◌, ◌-◌, ◌%◌, ◌^◌, ◌≤◌, ◌<◌, ◌≡◌, refl, sym, ap, ap₂, ◌∙◌, ◌/◌, ltb,
  Bool-cases, inl, inr, length-append, get_elem?, get_elem?-append, true, some, [], ◌∷◌, ◌++◌, u32,
  sub_mod, Bytes, arith, length,
}
use native.Mathlib.Nat.{
  add-mul, add-mul-mod_self_right, div-add-mod', mul_assoc, mul_comm, mod-lt, one-le-pow,
  pow-le-pow_right,
}
use mathlib.Core.List.{append_assoc}
use libhy_utils_bak.Bits.{bit_and-mask}
use libhy_utils_bak.StrCopy.Scan.{no_nul}
use libhy_utils_bak.Hash.{
  Hal, sign_extend, generate_loop, utils_hash_generate, index_loop, shift_27, key_to_index, turns,
}

-- the value of the characters as digits of base 31
unfoldable pub poly : Bytes → ℕ → ℕ
poly [] acc = acc
poly (c ∷ key) acc = poly key (acc * 31 + sign_extend c)

generate_poly :
    (key more : Bytes) (acc hash : ℕ)
    → no_nul key ≡ true
    → hash ≡ acc % 2 ^ 32
    → generate_loop (key ++ (0 ∷ more)) hash ≡ some (poly key acc % 2 ^ 32)
unfolding generate_loop poly
generate_poly [] more acc hash h e = ground (arith, e)
generate_poly (c ∷ key) more acc hash h e = ground (
  arith,
  h,
  e,
  generate_poly key more (acc * 31 + sign_extend c) (u32 (hash * 31 + sign_extend c)),
)

-- The hash of a key is the value of its characters as digits of base 31, modulo 2^32, where a
-- character above 127 counts as a negative one does in two's complement.
pub utils_hash_generate-poly :
    (key more : Bytes)
    → no_nul key ≡ true
    → utils_hash_generate (some (key ++ (0 ∷ more))) ≡ some (poly key 0 % 2 ^ 32)
unfolding utils_hash_generate
utils_hash_generate-poly key more h = generate_poly key more 0 0 h refl

-- A factor counts only modulo `m`.
mod_factor : (m a b : ℕ) → a % m * b % m ≡ a * b % m
mod_factor m a b =
    sym (add-mul-mod_self_right (a % m * b) (a / m * b) m)
    ∙ ap (λ (t : ℕ). t % m)
        (grind (
          arith,
          add-mul (a / m * m) (a % m) b,
          div-add-mod' a m,
          mul_assoc (a / m) b m,
          mul_assoc (a / m) m b,
          mul_comm b m,
        ))

mod_factors : (m a b : ℕ) → a % m * (b % m) % m ≡ a * b % m
mod_factors m a b =
    mod_factor m a (b % m)
    ∙ (ap (λ (t : ℕ). t % m) (mul_comm a (b % m))
        ∙ (mod_factor m b a ∙ ap (λ (t : ℕ). t % m) (mul_comm b a)))

-- the product of the factors that the characters stand for
unfoldable pub product : Bytes → ℕ → ℕ
product [] acc = acc
product (c ∷ key) acc = product key (acc * (1103515245 + sign_extend c))

index_step :
    (rest i : ℕ) (key : Bytes) (index : ℕ) {c : ℕ}
    → get_elem? key i ≡ some c
    → index_loop (suc rest) i key index
      ≡ index_loop rest (suc i) key (u32 (index * u32 (1103515245 + sign_extend c)))
unfolding index_loop
index_step rest i key index x = rw x refl

index_loop-product :
    (front cs more : Bytes) (acc : ℕ)
    → index_loop (length cs) (length front) (front ++ (cs ++ more)) (acc % 2 ^ 32)
      ≡ some (product cs acc % 2 ^ 32)
unfolding index_loop product
index_loop-product front [] more acc = refl
index_loop-product front (c ∷ cs) more acc =
    let key : Bytes = front ++ (c ∷ (cs ++ more)) in
    let longer : length (front ++ (c ∷ [])) ≡ suc (length front) =
      omega (arith, length-append front (c ∷ [])) in
    index_step (length cs) (length front) key (acc % 2 ^ 32) (
      ap (get_elem? key) {x = length front} {y = length front + 0} (omega arith)
      ∙ get_elem?-append front (c ∷ (cs ++ more)) 0)
    ∙ (ap (index_loop (length cs) (suc (length front)) key)
          (mod_factors (2 ^ 32) acc (1103515245 + sign_extend c))
        ∙ (ap₂
              (λ (i : ℕ) (s : Bytes).
                index_loop (length cs) i s (acc * (1103515245 + sign_extend c) % 2 ^ 32))
              (sym longer) (sym (append_assoc front (c ∷ []) (cs ++ more)))
            ∙ index_loop-product (front ++ (c ∷ [])) cs more (acc * (1103515245 + sign_extend c))))

-- the ones that come in from the left are no part of a number of at most five binary digits
sign_bits : (q k : ℕ) → k ≤ 5 → (q + (2 ^ 32 - 2 ^ 5)) % 2 ^ k ≡ q % 2 ^ k
sign_bits q zero h = omega arith
sign_bits q (suc zero) h = omega arith
sign_bits q (suc (suc zero)) h = omega arith
sign_bits q (suc (suc (suc zero))) h = omega arith
sign_bits q (suc (suc (suc (suc zero)))) h = omega arith
sign_bits q (suc (suc (suc (suc (suc zero))))) h = omega arith
sign_bits q (suc (suc (suc (suc (suc (suc k)))))) h = absurd (omega arith)

low_bits : (v k : ℕ) → k ≤ 5 → shift_27 v % 2 ^ k ≡ v / 2 ^ 27 % 2 ^ k
low_bits v k h = elim (Bool-cases (ltb v (2 ^ 31))) [
  | inl e ↦ rw e refl
  | inr e ↦ rw e (sign_bits (v / 2 ^ 27) k h)
]

key_steps :
    (hal : Hal) (bucket_max_len : ℕ) (key : Bytes) {len c r : ℕ}
    → hal.strlen key ≡ some len
    → get_elem? key 0 ≡ some c
    → index_loop (turns (u32 len) - 1) 1 key (sign_extend c) ≡ some r
    → key_to_index hal bucket_max_len (some key)
      ≡ some (bit_and (shift_27 r) (sub_mod (2 ^ 32) bucket_max_len 1))
unfolding key_to_index
key_steps hal bucket_max_len key x y z = rw x (rw y (rw z refl))

char_word : (c : ℕ) → c < 2 ^ 8 → sign_extend c % 2 ^ 32 ≡ sign_extend c
char_word c h = ground arith

-- In a table of 2^k buckets, at most 32, the bucket of a key of fewer than 2^31 characters is what stands
-- from the 27th binary digit on, modulo 2^k, in the 32-bit product of its first character and of
-- 1103515245 + c for each character c behind it, where one above 127 counts as a negative number; so it is
-- one of the table's.
pub key_to_index-product :
    (hal : Hal) (c : ℕ) (cs more : Bytes) (len k : ℕ)
    → hal.strlen (c ∷ (cs ++ more)) ≡ some len
    → len - 1 ≡ length cs
    → len < 2 ^ 31
    → c < 2 ^ 8
    → k ≤ 5
    → (i : ℕ) × (key_to_index hal (2 ^ k) (some (c ∷ (cs ++ more))) ≡ some i)
      × (i ≡ product cs (sign_extend c) % 2 ^ 32 / 2 ^ 27 % 2 ^ k)
      × (i < 2 ^ k)
key_to_index-product hal c cs more len k e behind small byte few =
    let key : Bytes = c ∷ (cs ++ more) in
    let v : ℕ = product cs (sign_extend c) % 2 ^ 32 in
    let pos : 0 < 2 ^ k = one-le-pow k 2 (omega arith) in
    let bound : 2 ^ k ≤ 2 ^ 5 = pow-le-pow_right {n = 2} (omega arith) {i = k} {j = 5} few in
    let all : turns (u32 len) - 1 ≡ length cs = ground (arith, behind) in
    let mask : sub_mod (2 ^ 32) (2 ^ k) 1 ≡ 2 ^ k - 1 = omega arith in
    let loop : index_loop (turns (u32 len) - 1) 1 key (sign_extend c) ≡ some v =
      ap₂ (λ (n s : ℕ). index_loop n 1 key s) all (sym (char_word c byte))
      ∙ index_loop-product (c ∷ []) cs more (sign_extend c) in
    (
      v / 2 ^ 27 % 2 ^ k,
      key_steps hal (2 ^ k) key e refl loop
          ∙ ap some
              (ap (bit_and (shift_27 v)) mask ∙ (bit_and-mask k (shift_27 v) ∙ low_bits v k few)),
      refl,
      mod-lt (v / 2 ^ 27) pos,
    )
