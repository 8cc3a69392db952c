-- ===== src/Md5.antt =====
-- src/hy_md5sum.c, the MD5 sum. `none` is an access outside an array or through NULL.
pub mod Total
pub mod Digest
pub mod Block
pub mod Pack
mod Tests
use Prim.Native.Nat.{bit_and, bit_or, bit_xor}
use libhy_utils_bak.Base.{
  ℕ, zero, suc, ◌+◌, ◌*◌, ◌-◌, ◌/◌, ◌%◌, ◌^◌, Bool, not, Option, none, some, List, [], ◌∷◌, ◌++◌,
  ltb, ◌==◌, if◌then◌else◌, ◌>>=◌, u8, u32, u64, sub_mod, Bytes, get_elem?, set, replicate, memcpy,
}

-- the table `k`
abbrev pub k : List ℕ
k =
    0xd76aa478 ∷ 0xe8c7b756 ∷ 0x242070db ∷ 0xc1bdceee ∷ 0xf57c0faf ∷ 0x4787c62a ∷ 0xa8304613
    ∷ 0xfd469501 ∷ 0x698098d8 ∷ 0x8b44f7af ∷ 0xffff5bb1 ∷ 0x895cd7be ∷ 0x6b901122 ∷ 0xfd987193
    ∷ 0xa679438e ∷ 0x49b40821 ∷ 0xf61e2562 ∷ 0xc040b340 ∷ 0x265e5a51 ∷ 0xe9b6c7aa ∷ 0xd62f105d
    ∷ 0x02441453 ∷ 0xd8a1e681 ∷ 0xe7d3fbc8 ∷ 0x21e1cde6 ∷ 0xc33707d6 ∷ 0xf4d50d87 ∷ 0x455a14ed
    ∷ 0xa9e3e905 ∷ 0xfcefa3f8 ∷ 0x676f02d9 ∷ 0x8d2a4c8a ∷ 0xfffa3942 ∷ 0x8771f681 ∷ 0x6d9d6122
    ∷ 0xfde5380c ∷ 0xa4beea44 ∷ 0x4bdecfa9 ∷ 0xf6bb4b60 ∷ 0xbebfbc70 ∷ 0x289b7ec6 ∷ 0xeaa127fa
    ∷ 0xd4ef3085 ∷ 0x04881d05 ∷ 0xd9d4d039 ∷ 0xe6db99e5 ∷ 0x1fa27cf8 ∷ 0xc4ac5665 ∷ 0xf4292244
    ∷ 0x432aff97 ∷ 0xab9423a7 ∷ 0xfc93a039 ∷ 0x655b59c3 ∷ 0x8f0ccc92 ∷ 0xffeff47d ∷ 0x85845dd1
    ∷ 0x6fa87e4f ∷ 0xfe2ce6e0 ∷ 0xa3014314 ∷ 0x4e0811a1 ∷ 0xf7537e82 ∷ 0xbd3af235 ∷ 0x2ad7d2bb
    ∷ 0xeb86d391 ∷ []

-- the table `r`
abbrev pub r : List ℕ
r =
    7 ∷ 12 ∷ 17 ∷ 22 ∷ 7 ∷ 12 ∷ 17 ∷ 22 ∷ 7 ∷ 12 ∷ 17 ∷ 22 ∷ 7 ∷ 12 ∷ 17 ∷ 22 ∷ 5 ∷ 9 ∷ 14 ∷ 20 ∷ 5
    ∷ 9 ∷ 14 ∷ 20 ∷ 5 ∷ 9 ∷ 14 ∷ 20 ∷ 5 ∷ 9 ∷ 14 ∷ 20 ∷ 4 ∷ 11 ∷ 16 ∷ 23 ∷ 4 ∷ 11 ∷ 16 ∷ 23 ∷ 4 ∷ 11
    ∷ 16 ∷ 23 ∷ 4 ∷ 11 ∷ 16 ∷ 23 ∷ 6 ∷ 10 ∷ 15 ∷ 21 ∷ 6 ∷ 10 ∷ 15 ∷ 21 ∷ 6 ∷ 10 ∷ 15 ∷ 21 ∷ 6 ∷ 10
    ∷ 15 ∷ 21 ∷ []

-- `LEFTROTATE`
unfoldable pub left_rotate : (x c : ℕ) → ℕ
left_rotate x c = bit_or (u32 (x * 2 ^ c)) (x / 2 ^ (32 - c))

-- `to_bytes`, into an array from an offset on
unfoldable pub to_bytes : ℕ → Bytes → ℕ → Option Bytes
to_bytes val bytes off =
    memcpy bytes off (u8 val ∷ u8 (val / 2 ^ 8) ∷ u8 (val / 2 ^ 16) ∷ u8 (val / 2 ^ 24) ∷ []) 0 4

-- `to_int32`, from an array from an offset on
unfoldable pub to_int32 : Bytes → ℕ → Option ℕ
to_int32 bytes off = do
  b0 ← get_elem? bytes off
  b1 ← get_elem? bytes (off + 1)
  b2 ← get_elem? bytes (off + 2)
  b3 ← get_elem? bytes (off + 3)
  some (bit_or (bit_or (bit_or b0 (u32 (b1 * 2 ^ 8))) (u32 (b2 * 2 ^ 16))) (u32 (b3 * 2 ^ 24)))

-- `~x`
abbrev pub bit_not : ℕ → ℕ
bit_not x = sub_mod (2 ^ 32) (2 ^ 32 - 1) x

-- the words of a chunk, or the sum so far
pub record Words : Type 0 where
  pub a : ℕ
  pub b : ℕ
  pub c : ℕ
  pub d : ℕ

-- `f` and `g` of a round
unfoldable pub round_f : ℕ → Words → ℕ
round_f i s =
    if ltb i 16
    then bit_or (bit_and s.b s.c) (bit_and (bit_not s.b) s.d)
    else if ltb i 32
    then bit_or (bit_and s.d s.b) (bit_and (bit_not s.d) s.c)
    else if ltb i 48
    then bit_xor (bit_xor s.b s.c) s.d
    else bit_xor s.c (bit_or s.b (bit_not s.d))

unfoldable pub round_g : ℕ → ℕ
round_g i =
    if ltb i 16
    then i
    else if ltb i 32
    then (5 * i + 1) % 16
    else if ltb i 48
    then (3 * i + 5) % 16
    else 7 * i % 16

-- the main loop over the last `rest` rounds
unfoldable pub round_loop : (rest i : ℕ) → List ℕ → Words → Option Words
unfolding left_rotate round_f round_g
round_loop zero i w s = some s
round_loop (suc rest) i w s = do
  k_i ← get_elem? k i
  r_i ← get_elem? r i
  w_g ← get_elem? w (round_g i)
  round_loop rest (suc i) w (record {
    a = s.d;
    b = u32 (s.b + left_rotate (u32 (s.a + round_f i s + k_i + w_g)) r_i);
    c = s.b;
    d = s.c;
  })

-- the words `w` of a chunk, the last `rest` of them
unfoldable pub word_loop : (rest i : ℕ) → Bytes → (offset : ℕ) → Option (List ℕ)
unfolding to_int32
word_loop zero i msg offset = some []
word_loop (suc rest) i msg offset = do
  w_i ← to_int32 msg (offset + i * 4)
  w ← word_loop rest (suc i) msg offset
  some (w_i ∷ w)

-- one chunk
unfoldable pub chunk : Bytes → (offset : ℕ) → Words → Option Words
unfolding word_loop round_loop
chunk msg offset h = do
  w ← word_loop 16 0 msg offset
  s ← round_loop 64 0 w h
  some (record {
    a = u32 (h.a + s.a);
    b = u32 (h.b + s.b);
    c = u32 (h.c + s.c);
    d = u32 (h.d + s.d);
  })

-- the loop over the chunks, on fuel
unfoldable pub chunk_loop : (fuel offset new_len : ℕ) → Bytes → Words → Option Words
unfolding chunk
chunk_loop zero offset new_len msg h = none
chunk_loop (suc fuel) offset new_len msg h =
    if not (ltb offset new_len)
    then some h
    else do h' ← chunk msg offset h; chunk_loop fuel (u64 (offset + 64)) new_len msg h'

-- the loop that looks for `new_len`; 64 steps are enough
unfoldable pub pad_loop : (fuel new_len : ℕ) → Option ℕ
pad_loop zero new_len = none
pad_loop (suc fuel) new_len =
    let rest = pad_loop fuel (u64 (new_len + 1)) in
    if new_len % 64 == 56 then some new_len else rest

-- the block that is summed; it is zeroed by `calloc`, so that the loop that writes zeros into it changes
-- nothing
unfoldable pub padded : Bytes → (initial_len new_len : ℕ) → Option Bytes
unfolding to_bytes
padded initial_msg initial_len new_len = do
  msg1 ← memcpy (replicate (new_len + 8) 0) 0 initial_msg 0 initial_len
  msg2 ← memcpy msg1 initial_len (0x80 ∷ []) 0 1
  msg3 ← to_bytes (u32 (u64 (initial_len * 8))) msg2 new_len
  to_bytes (u32 (initial_len / 2 ^ 29)) msg3 (new_len + 4)

abbrev pub initial : Words
initial = record { a = 0x67452301; b = 0xefcdab89; c = 0x98badcfe; d = 0x10325476 }

-- `HyMd5sum`: `digest` after it, with a round of fuel for each chunk and one more
unfoldable pub hy_md5sum : (calloc_ok : Bool) → Bytes → ℕ → Bytes → Option Bytes
unfolding pad_loop padded chunk_loop
hy_md5sum calloc_ok initial_msg initial_len digest = do
  new_len ← pad_loop 64 (u64 (initial_len + 1))
  (if not calloc_ok
      then none
      else (padded initial_msg initial_len new_len >>= λ msg.
          chunk_loop (new_len / 64 + 2) 0 new_len msg initial >>= λ h.
          to_bytes h.a digest 0 >>= λ d1.
          to_bytes h.b d1 4 >>= λ d2. to_bytes h.c d2 8 >>= λ d3. to_bytes h.d d3 12))
