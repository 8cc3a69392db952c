-- ===== src/Utils/Digits/BackAgain.antt =====
-- Three digits for a byte: what is read back of what was printed.
use mathlib.Core.List.{append_assoc}
use libhy_utils_bak.Base.{
  ℕ, zero, suc, ◌+◌, ◌*◌, ◌^◌, ◌≤◌, ◌<◌, ◌≡◌, refl, sym, ap, ◌∙◌, true, false, some, [], ◌∷◌, ◌++◌,
  Bytes, length, drop, memcpy, ltb, ◌==◌, ==_iff, Bool-cases, inl, inr, memcpy-overwrite, u64,
  arith, length-append, drop-append,
}
use libhy_utils_bak.Utils.BitString.{overwrite_middle}
use libhy_utils_bak.Utils.Digits.{
  digits3, chars, skip_space, word, atoi_byte, scan_byte, hex_of_digits, hy_hex_2_int_2_str,
  hy_str_2_int_2_hex,
}
use libhy_utils_bak.Utils.Digits.Text.{texts, AreBytes, length-texts, printed}

chars-texts : (xs tail : Bytes) → chars (texts xs ++ (0 ∷ tail)) ≡ some (texts xs)
chars-texts [] tail = refl
chars-texts (x ∷ xs) tail = ground (arith, chars-texts xs tail)

atoi-digits3 : (x : ℕ) → x < 2 ^ 8 → atoi_byte (digits3 x) ≡ x
atoi-digits3 x h = ground arith

word-digits3 : (x : ℕ) (s : Bytes) → word 3 (skip_space (digits3 x ++ s)) ≡ digits3 x
word-digits3 x s = ground arith

scan_byte-texts :
    (front xs tail : Bytes) (x : ℕ)
    → x < 2 ^ 8
    → scan_byte (front ++ (texts (x ∷ xs) ++ (0 ∷ tail))) (length front) ≡ some x
unfolding scan_byte
scan_byte-texts front xs tail x h =
    let s : Bytes = texts (x ∷ xs) ++ (0 ∷ tail) in
    let from : drop (length front) (front ++ s) ≡ s =
      ap (λ (k : ℕ). drop k (front ++ s)) {x = length front} {y = length front + 0} (omega arith)
      ∙ drop-append front s 0 in
    rw from (
      rw (chars-texts (x ∷ xs) tail)
        (ap some (ap atoi_byte (word-digits3 x (texts xs)) ∙ atoi-digits3 x h)))

store :
    (done ys : Bytes) (x y : ℕ)
    → memcpy (done ++ (y ∷ ys)) (length done) (x ∷ []) 0 1 ≡ some (done ++ (x ∷ ys))
store done ys x y =
    memcpy-overwrite (done ++ (y ∷ ys)) (length done) (x ∷ []) 0 1
      (omega (arith, length-append done (y ∷ ys))) (omega arith)
    ∙ ap some (overwrite_middle done (y ∷ []) (x ∷ []) ys refl)

scan_turn :
    (fuel addr_len str_len x y : ℕ) (front xs tail done ys : Bytes)
    → x < 2 ^ 8
    → length front < str_len
    → str_len + 3 < 2 ^ 64
    → suc (length done) < addr_len
    → hex_of_digits
        (suc fuel)
        (length front)
        (length done)
        (front ++ (texts (x ∷ xs) ++ (0 ∷ tail)))
        str_len
        (done ++ (y ∷ ys))
        addr_len
      ≡ hex_of_digits fuel
          (length front + 3)
          (suc (length done))
          (front ++ (texts (x ∷ xs) ++ (0 ∷ tail)))
          str_len
          (done ++ (x ∷ ys))
          addr_len
unfolding hex_of_digits
scan_turn fuel addr_len str_len x y front xs tail done ys h inside w more =
    let some_left : ltb (length front) str_len ≡ true = ground arith in
    let not_full : (suc (length done) == addr_len) ≡ false = ground arith in
    let next : u64 (length front + 3) ≡ length front + 3 = omega arith in
    rw (some_left, hex_of_digits)
      (rw (scan_byte-texts front xs tail x h) (
        rw (store done ys x y) (
          rw not_full (
            ap
              (λ (k : ℕ).
                hex_of_digits fuel k (suc (length done)) (front ++ (texts (x ∷ xs) ++ (0 ∷ tail)))
                  str_len (done ++ (x ∷ ys)) addr_len)
              next))))

scan_last :
    (fuel addr_len str_len x y : ℕ) (front xs tail done ys : Bytes)
    → x < 2 ^ 8
    → length front < str_len
    → (suc (length done) == addr_len) ≡ true
    → hex_of_digits
        (suc fuel)
        (length front)
        (length done)
        (front ++ (texts (x ∷ xs) ++ (0 ∷ tail)))
        str_len
        (done ++ (y ∷ ys))
        addr_len
      ≡ some (done ++ (x ∷ ys))
unfolding hex_of_digits
scan_last fuel addr_len str_len x y front xs tail done ys h inside e =
    let some_left : ltb (length front) str_len ≡ true = ground arith in
    rw (some_left, hex_of_digits)
      (rw (scan_byte-texts front xs tail x h) (rw (store done ys x y) (rw e refl)))

none_left : (xs : Bytes) → length xs ≤ 0 → xs ≡ []
none_left [] h = refl
none_left (x ∷ xs) h = absurd (omega arith)

read_lem :
    (fuel addr_len : ℕ) (front xs tail done ys : Bytes)
    → AreBytes xs
    → length xs < fuel
    → length done + length xs ≤ addr_len
    → length xs ≤ length ys
    → length front + length (texts xs) + 3 < 2 ^ 64
    → hex_of_digits fuel
        (length front)
        (length done)
        (front ++ (texts xs ++ (0 ∷ tail)))
        (length front + length (texts xs))
        (done ++ ys)
        addr_len
      ≡ some (done ++ (xs ++ drop (length xs) ys))
unfolding hex_of_digits
read_lem zero addr_len front xs tail done ys b f n room w = absurd (omega arith)
read_lem (suc fuel) addr_len front [] tail done ys b f n room w =
    let stop : ltb (length front) (length front + 0) ≡ false = ground arith in
    rw (stop, hex_of_digits) refl
read_lem (suc fuel) addr_len front (x ∷ xs) tail done [] b f n room w = absurd (omega arith)
read_lem (suc fuel) addr_len front (x ∷ xs) tail done (y ∷ ys) b f n room w =
    let front' : Bytes = front ++ digits3 x in
    let rest : Bytes = texts xs ++ (0 ∷ tail) in
    let e1 : length (done ++ (x ∷ [])) ≡ suc (length done) =
      omega (arith, length-append done (x ∷ [])) in
    let e2 : length front' ≡ length front + 3 = omega (arith, length-append front (digits3 x)) in
    let total : length front + 3 + length (texts xs) ≡ length front + length (texts (x ∷ xs)) =
      omega arith in
    elim (Bool-cases (suc (length done) == addr_len)) [
      | inl e ↦
          scan_last fuel addr_len (length front + length (texts (x ∷ xs))) x y front xs tail done ys
            b.0 (omega arith) e
          ∙ ap (λ (t : Bytes). some (done ++ (x ∷ (t ++ drop (length t) ys))))
              (sym (none_left xs (omega (arith, (==_iff (suc (length done)) addr_len).0 e))))
      | inr e ↦
          let more : suc (length done) < addr_len = ground (arith, n, e) in
          let go =
            read_lem fuel addr_len front' xs tail (done ++ (x ∷ [])) ys b.1 (omega arith)
              (omega (arith, e1)) (omega arith) (omega (arith, e2)) in
          scan_turn fuel addr_len (length front + length (texts (x ∷ xs))) x y front xs tail done ys
            b.0 (omega arith) w more
          ∙ (rw
              (
                e1,
                e2,
                total,
                append_assoc done (x ∷ []) ys,
                append_assoc front (digits3 x) rest,
                append_assoc done (x ∷ []) (xs ++ drop (length xs) ys),
              )
              at go)
    ]

-- `HyStr2Int2Hex` of what `HyHex2Int2Str` has printed for at least one byte gives the bytes back, and
-- leaves what is behind them, for a text that fits its array with a NUL and an array that holds the bytes.
pub str_2_int_2_hex-hex_2_int_2_str :
    (x : ℕ) (xs str addr : Bytes) (str_len addr_len : ℕ)
    → AreBytes (x ∷ xs)
    → 3 * length (x ∷ xs) < str_len
    → str_len ≤ length str
    → str_len + 3 < 2 ^ 64
    → length (x ∷ xs) ≤ addr_len
    → length (x ∷ xs) ≤ length addr
    → (s : Bytes) × (hy_hex_2_int_2_str (x ∷ xs) (length (x ∷ xs)) str str_len ≡ some s)
      × (hy_str_2_int_2_hex s (3 * length (x ∷ xs)) addr addr_len
          ≡ some ((x ∷ xs) ++ drop (length (x ∷ xs)) addr))
unfolding hy_hex_2_int_2_str hy_str_2_int_2_hex
str_2_int_2_hex-hex_2_int_2_str x xs str addr str_len addr_len b fits size w n room =
    let (tail, e) = printed x xs str str_len b fits size (omega arith) in
    let s : Bytes = texts (x ∷ xs) ++ (0 ∷ tail) in
    let fuel : ℕ = suc (3 * length (x ∷ xs)) in
    (
      s,
      e,
      ap (λ (k : ℕ). hex_of_digits fuel 0 0 s k addr addr_len) {x = 3 * length (x ∷ xs)}
            {y = 0 + length (texts (x ∷ xs))} (omega (arith, length-texts (x ∷ xs)))
          ∙ read_lem fuel addr_len [] (x ∷ xs) tail [] addr b (omega arith) (omega arith) room
              (omega (arith, length-texts (x ∷ xs))),
    )
