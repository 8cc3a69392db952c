-- ===== src/StrCopy.antt =====
-- src/hy_string.c: a copy of what stands behind the last separator of a string.
-- The outer `none` is an access outside an array, a NULL pointer is `none` in its place.
pub mod Behind
pub mod Scan
mod Tests
use libhy_utils_bak.Base.{
  ℕ, zero, suc, ◌+◌, ◌-◌, ◌^◌, Bool, true, false, not, ◌&&◌, ◌||◌, Option, none, some, [], ◌∷◌, ltb,
  leb, ◌==◌, if◌then◌else◌, Bytes, ◌>>=◌, get_elem?, memcpy, memset, sub_mod,
}

-- `strlen`
unfoldable pub strlen : Bytes → Option ℕ
strlen [] = none
strlen (b ∷ bs) = let rest = strlen bs in if b == 0 then some 0 else do n ← rest; some (suc n)

-- The loop down from `str = src + p - 1`: where it stops, as the same `p`, and `cnt`.
unfoldable pub scan : (ℕ → Bool) → Bytes → (src_len p cnt : ℕ) → Option (ℕ × ℕ)
scan is_ch src src_len zero cnt = none
scan is_ch src src_len (suc p) cnt =
    let rest = scan is_ch src src_len p (cnt + 1) in
    do
      b ← get_elem? src p
      if (b == 0) || (not (ltb cnt src_len) || is_ch b) then some (suc p, cnt) else rest

-- both functions, with the test for a separator
unfoldable pub copy_right : (ℕ → Bool) → Bytes → Bytes → ℕ → Option Bytes
unfolding strlen scan
copy_right is_ch src dst len = do
  zeroed ← memset dst 0 len
  src_len ← strlen src
  (p, cnt) ← scan is_ch src src_len src_len 0
  memcpy zeroed 0 src p (if leb len cnt then sub_mod (2 ^ 64) len 1 else cnt)

-- `HyStrCopyRight`
unfoldable pub hy_str_copy_right :
    Option Bytes → Option Bytes → (len ch : ℕ) → Option (Option Bytes)
unfolding copy_right
hy_str_copy_right (some src) (some dst) len ch = do
  dst' ← copy_right (λ b. b == ch) src dst len
  some (some dst')
hy_str_copy_right src dst len ch = some dst

-- `HyStrCopyRight2`
unfoldable pub hy_str_copy_right2 :
    Option Bytes → Option Bytes → (len ch ch2 : ℕ) → Option (Option Bytes)
unfolding copy_right
hy_str_copy_right2 (some src) (some dst) len ch ch2 = do
  dst' ← copy_right (λ b. (b == ch) || (b == ch2)) src dst len
  some (some dst')
hy_str_copy_right2 src dst len ch ch2 = some dst
