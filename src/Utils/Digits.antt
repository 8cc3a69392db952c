-- ===== src/Utils/Digits.antt =====
-- src/hy_utils.c: bytes as three decimal digits each, written and read back.
pub mod Text
pub mod BackAgain
use libhy_utils_bak.Base.{
  ℕ, zero, suc, ◌+◌, ◌-◌, ◌*◌, ◌/◌, ◌%◌, ◌^◌, Bool, true, false, ◌&&◌, ◌||◌, ltb, leb, ◌==◌,
  if◌then◌else◌, Option, some, none, ◌>>=◌, List, [], ◌∷◌, Bytes, drop, length, get_elem?, memcpy,
  overwrite, u8, u64, sub_mod,
}
use libhy_utils_bak.Utils.{snprintf}

-- "%03d" of a number below 1000
abbrev pub digits3 : ℕ → Bytes
digits3 v = (48 + v / 100) ∷ (48 + v / 10 % 10) ∷ (48 + v % 10) ∷ []

-- `HyHex2Int2Str`: the loop over the last `rest` of the bytes, from `i` on
unfoldable pub digits_of_hex : (rest i len : ℕ) → Bytes → Bytes → ℕ → Option Bytes
unfolding snprintf
digits_of_hex zero i len addr str str_len = some str
digits_of_hex (suc rest) i len addr str str_len = do
  c ← get_elem? addr i
  (n, str') ← snprintf str len (sub_mod (2 ^ 64) str_len len) (digits3 (u8 c))
  digits_of_hex rest (suc i) (u64 (len + n)) addr str' str_len

unfoldable pub hy_hex_2_int_2_str : Bytes → ℕ → Bytes → ℕ → Option Bytes
unfolding digits_of_hex
hy_hex_2_int_2_str addr addr_len str str_len = digits_of_hex addr_len 0 0 addr str str_len

-- the characters of a string up to its NUL; an array without one is none
abbrev pub chars : Bytes → Option Bytes
chars [] = none
chars (c ∷ s) = elim (c == 0) [
  | true ↦ some []
  | false ↦ elim (chars s) [ none ↦ none | some t ↦ some (c ∷ t) ]
]

-- `isspace`
abbrev pub is_space : ℕ → Bool
is_space c = c == 32 || (leb 9 c && leb c 13)

abbrev pub skip_space : Bytes → Bytes
skip_space [] = []
skip_space (c ∷ s) = elim (is_space c) [ true ↦ skip_space s | false ↦ c ∷ s ]

-- at most so many characters, up to a space
abbrev pub word : ℕ → Bytes → Bytes
word zero s = []
word (suc n) [] = []
word (suc n) (c ∷ s) = elim (is_space c) [ true ↦ [] | false ↦ c ∷ word n s ]

-- the decimal number that a text starts with, behind `acc`
abbrev pub decimal : ℕ → Bytes → ℕ
decimal acc [] = acc
decimal acc (c ∷ s) = elim (leb 48 c && leb c 57) [
  | true ↦ decimal (acc * 10 + (c - 48)) s
  | false ↦ acc
]

-- `atoi`, as a `uint8_t`, of a text that does not start with a space
abbrev pub atoi_byte : Bytes → ℕ
atoi_byte [] = 0
atoi_byte (c ∷ s) =
    if c == 45
    then sub_mod (2 ^ 8) 0 (u8 (decimal 0 s))
    else if c == 43
    then u8 (decimal 0 s)
    else u8 (decimal 0 (c ∷ s))

-- `sscanf(str + i, "%3s", buf)` into an empty `buf`, and its number
unfoldable pub scan_byte : Bytes → ℕ → Option ℕ
scan_byte str i = do s ← chars (drop i str); some (atoi_byte (word 3 (skip_space s)))

-- `HyStr2Int2Hex`: the loop from `i` on, with a turn of fuel for each call of `sscanf` and one more
unfoldable pub hex_of_digits : (fuel i addr_cnt : ℕ) → Bytes → ℕ → Bytes → ℕ → Option Bytes
unfolding scan_byte
hex_of_digits zero i addr_cnt str str_len addr addr_len = none
hex_of_digits (suc fuel) i addr_cnt str str_len addr addr_len = elim (ltb i str_len) [
  | false ↦ some addr
  | true ↦ scan_byte str i >>= (λ num. memcpy addr addr_cnt (num ∷ []) 0 1 >>= (λ addr'.
      elim (suc addr_cnt == addr_len) [
        | true ↦ some addr'
        | false ↦ hex_of_digits fuel (u64 (i + 3)) (suc addr_cnt) str str_len addr' addr_len
      ]))
]

unfoldable pub hy_str_2_int_2_hex : Bytes → ℕ → Bytes → ℕ → Option Bytes
unfolding hex_of_digits
hy_str_2_int_2_hex str str_len addr addr_len =
    hex_of_digits (suc str_len) 0 0 str str_len addr addr_len
