-- ===== src/BitArray.antt =====
-- src/hy_bit.c: a bit in an array of bytes, counted from the top of each byte.
-- The outer `none` is an access outside the array; a NULL array is `none` in its place.
mod Tests
pub mod Laws
use Prim.Native.Nat.{bit_and, bit_or}
use libhy_utils_bak.Base.{
  ℕ, ◌-◌, ◌/◌, ◌%◌, ◌^◌, Option, some, none, Bytes, ◌>>=◌, get_elem?, set, u8,
}

-- `1 << (7 - bit_index)`
abbrev pub mask : ℕ → ℕ
mask bit_index = 2 ^ (7 - bit_index)

-- `HyBitSet`
unfoldable pub hy_bit_set : Option Bytes → ℕ → Option (Option Bytes)
hy_bit_set none index = some none
hy_bit_set (some byte) index = do
  b ← get_elem? byte (index / 8)
  some (some (set byte (index / 8) (u8 (bit_or b (mask (index % 8))))))

-- `HyBitVal`; the inner `none` is the -1 for a NULL array
unfoldable pub hy_bit_val : Option Bytes → ℕ → Option (Option ℕ)
hy_bit_val none index = some none
hy_bit_val (some byte) index = do
  b ← get_elem? byte (index / 8)
  some (some (bit_and b (mask (index % 8))))
