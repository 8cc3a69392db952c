-- ===== src/Utils/BitString.antt =====
-- Bit strings: what is printed.
use mathlib.Core.List.{append_assoc, append-nil}
use native.Mathlib.Nat.{zero-mul, one-mul, mod-lt, one-le-pow}
use Prim.Native.Nat.{bit_and}
use libhy_utils_bak.Base.{
  ℕ, zero, suc, ◌+◌, ◌-◌, ◌*◌, ◌/◌, ◌%◌, ◌^◌, ◌≤◌, ◌<◌, ◌≡◌, refl, sym, ap, ap₂, ◌∙◌, some, [], ◌∷◌,
  ◌++◌, Bytes, length, take, drop, sub_mod, arith, length-append, drop-append, take-length,
  take-append, replicate, length-replicate, leb, Bool, true, false, ◌==◌, if◌then◌else◌,
  memcpy-overwrite, memset, overwrite,
}
use libhy_utils_bak.Bits.{bit_and-two-pow}
use libhy_utils_bak.Utils.{snprintf, bits_of_dec, hy_dec_2_bit_str}

abbrev pub digit : ℕ → ℕ → ℕ
digit num i = if num / 2 ^ i % 2 == 0 then 48 else 49

-- the lowest binary digits of a number, the highest of them first
abbrev pub bits : ℕ → ℕ → Bytes
bits zero num = []
bits (suc i) num = digit num i ∷ bits i num

pub overwrite_middle :
    (xs ys ws zs : Bytes)
    → length ws ≡ length ys
    → overwrite (xs ++ (ys ++ zs)) (length xs) ws ≡ xs ++ (ws ++ zs)
overwrite_middle xs ys ws zs e =
    ap₂ (λ (a b : Bytes). a ++ (ws ++ b)) (take-append (length xs) xs (ys ++ zs) refl)
      (ap (λ (k : ℕ). drop (length xs + k) (xs ++ (ys ++ zs))) e
        ∙ (drop-append xs (ys ++ zs) (length ys)
            ∙ (ap (λ (k : ℕ). drop k (ys ++ zs)) {x = length ys} {y = length ys + 0} (omega arith)
                ∙ drop-append ys zs 0)))

snprintf_char :
    (xs zs : Bytes) (m c : ℕ)
    → snprintf (xs ++ ((0 ∷ 0 ∷ []) ++ zs)) (length xs) (suc (suc m)) (c ∷ [])
      ≡ some (1, xs ++ ((c ∷ 0 ∷ []) ++ zs))
unfolding snprintf
snprintf_char xs zs m c =
    let nil : take {A = ℕ} m [] ≡ [] = take-length m [] (omega arith) in
    rw nil (
      rw
        (memcpy-overwrite (xs ++ ((0 ∷ 0 ∷ []) ++ zs)) (length xs) (c ∷ 0 ∷ []) 0 2
          (omega (arith, length-append xs ((0 ∷ 0 ∷ []) ++ zs))) (omega arith))
        (ap (λ (t : Bytes). some (1, t)) (overwrite_middle xs (0 ∷ 0 ∷ []) (c ∷ 0 ∷ []) zs refl)))

bit_zero : (q p : ℕ) → q < 2 → 0 < p → (q * p == 0) ≡ (q == 0)
bit_zero zero p h k = ap (λ (t : ℕ). t == 0) (zero-mul p)
bit_zero (suc zero) p h k = ground (arith, one-mul p)
bit_zero (suc (suc q)) p h k = absurd (omega arith)

abbrev char_of : Bool → ℕ
char_of zero_bit = if zero_bit then 48 else 49

abbrev text_of : Bool → Bytes
text_of zero_bit = if zero_bit then 48 ∷ [] else 49 ∷ []

-- the text that is printed for a bit
text_lem : (num i : ℕ) → text_of (bit_and num (2 ^ i) == 0) ≡ digit num i ∷ []
text_lem num i = ap text_of same ∙ cases (num / 2 ^ i % 2 == 0)
  where
    same : (bit_and num (2 ^ i) == 0) ≡ (num / 2 ^ i % 2 == 0)
    same =
        ap (λ (t : ℕ). t == 0) (bit_and-two-pow i num)
        ∙ bit_zero (num / 2 ^ i % 2) (2 ^ i) (mod-lt (num / 2 ^ i) (omega arith))
            (one-le-pow i 2 (omega arith))

    cases : (b : Bool) → text_of b ≡ char_of b ∷ []
    cases true = refl
    cases false = refl

bits_step :
    (i num len str_len : ℕ) (buf buf' : Bytes)
    → len + 1 < 2 ^ 64
    → snprintf buf len (sub_mod (2 ^ 64) str_len len) (digit num i ∷ []) ≡ some (1, buf')
    → bits_of_dec (suc i) num len str_len buf ≡ bits_of_dec i num (len + 1) str_len buf'
unfolding bits_of_dec
bits_step i num len str_len buf buf' w e =
    rw (text_lem num i) (rw e (ap (λ (k : ℕ). bits_of_dec i num k str_len buf') (omega arith)))

bits_of_dec_lem :
    (i num extra : ℕ) (front tail : Bytes)
    → length front + suc (i + extra) < 2 ^ 64
    → bits_of_dec i num
        (length front)
        (length front + suc (i + extra))
        (front ++ (replicate (suc (i + extra)) 0 ++ tail))
      ≡ some ((front ++ bits i num) ++ (replicate (suc extra) 0 ++ tail))
unfolding bits_of_dec
bits_of_dec_lem zero num extra front tail w =
    ap (λ (k : ℕ). some (front ++ (replicate (suc k) 0 ++ tail))) {x = 0 + extra} {y = extra}
      (omega arith)
    ∙ rw append-nil refl
bits_of_dec_lem (suc i) num extra front tail w =
    let c : ℕ = digit num i in
    let zs : Bytes = replicate (i + extra) 0 ++ tail in
    let room : sub_mod (2 ^ 64) (length front + suc (suc i + extra)) (length front)
        ≡ suc (suc (i + extra)) =
      omega arith in
    let longer : length (front ++ (c ∷ [])) ≡ length front + 1 =
      omega (arith, length-append front (c ∷ [])) in
    ap
      (λ (k : ℕ).
        bits_of_dec (suc i) num (length front) (length front + suc (suc i + extra))
          (front ++ (replicate (suc k) 0 ++ tail)))
      {x = suc i + extra} {y = suc (i + extra)} (omega arith)
    ∙ (bits_step i num (length front) (length front + suc (suc i + extra))
          (front ++ ((0 ∷ 0 ∷ []) ++ zs)) (front ++ ((c ∷ 0 ∷ []) ++ zs)) (omega arith)
          (rw room (snprintf_char front zs (i + extra) c))
        ∙ (ap₂ (λ (l k : ℕ). bits_of_dec i num l k (front ++ ((c ∷ 0 ∷ []) ++ zs)))
              {x = length front + 1} {y = length (front ++ (c ∷ []))}
              {u = length front + suc (suc i + extra)}
              {v = length (front ++ (c ∷ [])) + suc (i + extra)} (sym longer)
              (omega (arith, longer))
            ∙ (ap
                  (bits_of_dec i num (length (front ++ (c ∷ [])))
                    (length (front ++ (c ∷ [])) + suc (i + extra)))
                  (sym (append_assoc front (c ∷ []) (0 ∷ zs)))
                ∙ (bits_of_dec_lem i num extra (front ++ (c ∷ [])) tail (omega (arith, longer))
                    ∙ ap (λ (t : Bytes). some (t ++ (replicate (suc extra) 0 ++ tail)))
                        (append_assoc front (c ∷ []) (bits i num))))))

-- `HyDec2BitStr`, given an array of more than `num_len` bytes, writes the lowest `num_len` digits of
-- the number, the highest first, then zeros up to the size that it is told, and nothing behind.
pub dec_2_bit_str-bits :
    (num num_len str_len : ℕ) (bit_str : Bytes)
    → num_len ≤ 32
    → num_len < str_len
    → str_len ≤ length bit_str
    → str_len < 2 ^ 64
    → hy_dec_2_bit_str num num_len bit_str str_len
      ≡ some (bits num_len num ++ (replicate (str_len - num_len) 0 ++ drop str_len bit_str))
unfolding hy_dec_2_bit_str memset
dec_2_bit_str-bits num num_len str_len bit_str small more fits w =
    let extra : ℕ = str_len - num_len - 1 in
    let tail : Bytes = drop str_len bit_str in
    let inside : leb str_len (length bit_str) ≡ true = ground arith in
    let size = length-replicate {A = ℕ} str_len 0 in
    rw inside (
      rw size (
        ap (λ (k : ℕ). bits_of_dec num_len num 0 str_len (replicate str_len 0 ++ drop k bit_str))
          {x = 0 + str_len} {y = str_len} (omega arith)
        ∙ (ap (λ (k : ℕ). bits_of_dec num_len num 0 k (replicate k 0 ++ tail)) {x = str_len}
              {y = suc (num_len + extra)} (omega arith)
            ∙ (ap
                  (λ (k : ℕ).
                    bits_of_dec num_len num 0 k (replicate (suc (num_len + extra)) 0 ++ tail))
                  {x = suc (num_len + extra)} {y = 0 + suc (num_len + extra)} (omega arith)
                ∙ (bits_of_dec_lem num_len num extra [] tail (omega arith)
                    ∙ ap (λ (k : ℕ). some (bits num_len num ++ (replicate k 0 ++ tail)))
                        {x = suc extra} {y = str_len - num_len} (omega arith))))))
