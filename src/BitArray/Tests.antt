-- ===== src/BitArray/Tests.antt =====
-- Runs on two bytes.
use libhy_utils_bak.Base.{◌≡◌, refl, some, [], ◌∷◌, Bytes, arith}
use libhy_utils_bak.BitArray.{hy_bit_set, hy_bit_val}
use libhy_utils_bak.BitArray.Laws.{hy_bit_val-hy_bit_set}

hy_bit_val-hy_bit_set_example :
    (byte' : Bytes) × (hy_bit_set (some (128 ∷ 1 ∷ [])) 10 ≡ some (some byte'))
    × (hy_bit_val (some byte') 15 ≡ some (some 1))
unfolding hy_bit_val
hy_bit_val-hy_bit_set_example =
    hy_bit_val-hy_bit_set (128 ∷ 1 ∷ []) 10 15 refl (omega arith) (omega arith)
