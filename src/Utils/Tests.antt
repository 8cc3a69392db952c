-- ===== src/Utils/Tests.antt =====
-- Runs of the conversions and of the loops on short buffers.
use libhy_utils_bak.Base.{◌≡◌, refl, some, [], ◌∷◌, Bytes, arith, memcpy}
use libhy_utils_bak.Utils.{
  Return, done, total, Input, got, hy_utils_write, hy_utils_read, hy_dec_2_bit_str,
  hy_bit_str_2_dec,
}
use libhy_utils_bak.Utils.Whole.{write_takes_all, read_delivers}
use libhy_utils_bak.Utils.RoundTrip.{bit_str_2_dec-dec_2_bit_str}
use libhy_utils_bak.Utils.Digits.{scan_byte, hy_hex_2_int_2_str, hex_of_digits, hy_str_2_int_2_hex}
use libhy_utils_bak.Utils.Digits.BackAgain.{str_2_int_2_hex-hex_2_int_2_str}

write_takes_all_example :
    hy_utils_write (done 1 ∷ Return.interrupted ∷ done 2 ∷ []) (7 ∷ 8 ∷ 9 ∷ []) 3
    ≡ some (total 3, 7 ∷ 8 ∷ 9 ∷ [])
write_takes_all_example =
    write_takes_all (done 1 ∷ Return.interrupted ∷ done 2 ∷ []) (7 ∷ 8 ∷ 9 ∷ []) (omega arith) refl

-- the file ends after three of four bytes
read_delivers_example :
    hy_utils_read
      (got (7 ∷ 8 ∷ []) ∷ Input.blocked ∷ got (9 ∷ []) ∷ got [] ∷ [])
      (1 ∷ 2 ∷ 3 ∷ 4 ∷ 5 ∷ [])
      4
    ≡ some (total 3, 7 ∷ 8 ∷ 9 ∷ 4 ∷ 5 ∷ [])
read_delivers_example =
    read_delivers (got (7 ∷ 8 ∷ []) ∷ Input.blocked ∷ got (9 ∷ []) ∷ got [] ∷ [])
      (1 ∷ 2 ∷ 3 ∷ 4 ∷ 5 ∷ []) 4 (omega arith) (omega arith) refl

bit_str_2_dec-dec_2_bit_str_example :
    (s : Bytes) × (hy_dec_2_bit_str 21 4 (1 ∷ 1 ∷ 1 ∷ 1 ∷ 1 ∷ []) 5 ≡ some s)
    × (hy_bit_str_2_dec s 4 ≡ some 5)
bit_str_2_dec-dec_2_bit_str_example =
    bit_str_2_dec-dec_2_bit_str 21 4 5 (1 ∷ 1 ∷ 1 ∷ 1 ∷ 1 ∷ []) (omega arith) (omega arith)
      (omega arith) (omega arith)

-- three characters at a time: spaces are skipped, a sign counts, and 300 does not fit a byte
scanned :
    hy_str_2_int_2_hex
      (48 ∷ 48 ∷ 55 ∷ 32 ∷ 45 ∷ 49 ∷ 51 ∷ 48 ∷ 48 ∷ 0 ∷ [])
      9
      (9 ∷ 9 ∷ 9 ∷ 9 ∷ [])
      4
    ≡ some (7 ∷ 243 ∷ 44 ∷ 9 ∷ [])
unfolding hy_str_2_int_2_hex hex_of_digits scan_byte memcpy
scanned = refl

str_2_int_2_hex-hex_2_int_2_str_example :
    (s : Bytes) × (hy_hex_2_int_2_str (255 ∷ 7 ∷ []) 2 (1 ∷ 1 ∷ 1 ∷ 1 ∷ 1 ∷ 1 ∷ 1 ∷ []) 7 ≡ some s)
    × (hy_str_2_int_2_hex s 6 (0 ∷ 0 ∷ 9 ∷ []) 2 ≡ some (255 ∷ 7 ∷ 9 ∷ []))
str_2_int_2_hex-hex_2_int_2_str_example =
    str_2_int_2_hex-hex_2_int_2_str 255 (7 ∷ []) (1 ∷ 1 ∷ 1 ∷ 1 ∷ 1 ∷ 1 ∷ 1 ∷ []) (0 ∷ 0 ∷ 9 ∷ []) 7
      2 (omega arith, (omega arith, tt)) (omega arith) (omega arith) (omega arith) (omega arith)
      (omega arith)
