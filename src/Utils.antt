-- ===== src/Utils.antt =====
-- src/hy_utils.c: the conversions, and the loops that write and read a whole buffer.
pub mod Whole
pub mod BitString
pub mod RoundTrip
pub mod Digits
mod Tests
use Prim.Native.Nat.{bit_and, bit_or}
use libhy_utils_bak.Base.{
  get_elem?, ltb, ◌==◌, if◌then◌else◌, memcpy, memset, Bool, true, false, ◌&&◌, leb, ◌*◌, u32, ℕ,
  zero, suc, ◌+◌, ◌-◌, ◌%◌, ◌^◌, Option, some, none, List, [], ◌∷◌, ◌++◌, Bytes, length, take, drop,
  ◌>>=◌, sub_mod, u64, overwrite,
}

-- What one call of `write` or `read` comes back with. `done` is the number it returns, `interrupted`
-- is -1 with EINTR, `blocked` -1 with EAGAIN or EWOULDBLOCK, `failed` -1 with another `errno`.
pub data Return : Type 0 where
  done : ℕ → Return
  interrupted blocked failed : Return

-- what `HyUtilsWrite` returns: the length asked for, or -1
pub data Outcome : Type 0 where
  total : ℕ → Outcome
  error : Outcome

-- `HyUtilsWrite`, whose calls of `write` come back with the returns in turn: the outcome, and the
-- bytes that the calls have taken; `none` while it still waits for a call.
unfoldable pub write_loop : List Return → (len nleft : ℕ) → Bytes → Option (Outcome × Bytes)
write_loop returns len zero ptr = some (total len, [])
write_loop [] len (suc n) ptr = none
write_loop (done zero ∷ returns) len (suc n) ptr = some (error, [])
write_loop (done (suc ret) ∷ returns) len (suc n) ptr = do
  (outcome, taken) ←
      write_loop returns len (sub_mod (2 ^ 64) (suc n) (suc ret)) (drop (suc ret) ptr)
  some (outcome, take (suc ret) ptr ++ taken)
write_loop (interrupted ∷ returns) len (suc n) ptr = write_loop returns len (suc n) ptr
write_loop (blocked ∷ returns) len (suc n) ptr = some (error, [])
write_loop (failed ∷ returns) len (suc n) ptr = some (error, [])

unfoldable pub hy_utils_write : List Return → Bytes → ℕ → Option (Outcome × Bytes)
unfolding write_loop
hy_utils_write returns buf len = write_loop returns len len buf

-- one call of `read`: the bytes that it delivers, none at the end of the file
pub data Input : Type 0 where
  got : Bytes → Input
  interrupted blocked failed : Input

-- `HyUtilsRead`: the outcome, and the caller's buffer, into which each call has written from
-- `buf + offset` on; `none` while it still waits for a call, or for a write outside the buffer.
unfoldable pub fill_loop : List Input → (nleft offset : ℕ) → Bytes → Option (Outcome × Bytes)
fill_loop inputs zero offset buf = some (total offset, buf)
fill_loop [] (suc n) offset buf = none
fill_loop (got [] ∷ inputs) (suc n) offset buf = some (total offset, buf)
fill_loop (got (b ∷ bs) ∷ inputs) (suc n) offset buf = do
  buf' ← memcpy buf offset (b ∷ bs) 0 (suc (length bs))
  fill_loop inputs (sub_mod (2 ^ 64) (suc n) (suc (length bs))) (u64 (offset + suc (length bs)))
      buf'
fill_loop (interrupted ∷ inputs) (suc n) offset buf = fill_loop inputs (suc n) offset buf
fill_loop (blocked ∷ inputs) (suc n) offset buf = fill_loop inputs (suc n) offset buf
fill_loop (failed ∷ inputs) (suc n) offset buf = some (error, buf)

unfoldable pub hy_utils_read : List Input → Bytes → ℕ → Option (Outcome × Bytes)
unfolding fill_loop
hy_utils_read inputs buf len = fill_loop inputs len 0 buf

-- `snprintf(dst + off, cap, ...)` of a text: its length, and the array with as much of it as fits
-- and a NUL behind
unfoldable pub snprintf : Bytes → (off cap : ℕ) → Bytes → Option (ℕ × Bytes)
snprintf dst off zero text = some (length text, dst)
snprintf dst off (suc room) text = do
  let out = take room text ++ (0 ∷ [])
  dst' ← memcpy dst off out 0 (length out)
  some (length text, dst')

-- `atoi` of a string of one character
abbrev pub atoi_char : ℕ → ℕ
atoi_char c = if leb 48 c && leb c 57 then c - 48 else 0

-- `HyBitStr2Dec`: the loop over the last `rest` of the characters, from `i` on
unfoldable pub dec_of_bits : (rest i : ℕ) → Bytes → ℕ → Option ℕ
dec_of_bits zero i bit_str num = some num
dec_of_bits (suc rest) i bit_str num = do
  c ← get_elem? bit_str i
  dec_of_bits rest (suc i) bit_str (bit_or num (u32 (atoi_char c * 2 ^ rest)))

unfoldable pub hy_bit_str_2_dec : Bytes → ℕ → Option ℕ
unfolding dec_of_bits
hy_bit_str_2_dec bit_str len = dec_of_bits len 0 bit_str 0

-- `HyDec2BitStr`: the loop from `i` down
unfoldable pub bits_of_dec : (i num len str_len : ℕ) → Bytes → Option Bytes
unfolding snprintf
bits_of_dec zero num len str_len bit_str = some bit_str
bits_of_dec (suc i) num len str_len bit_str = do
  let text = if bit_and num (2 ^ i) == 0 then 48 ∷ [] else 49 ∷ []
  (n, bit_str') ← snprintf bit_str len (sub_mod (2 ^ 64) str_len len) text
  bits_of_dec i num (u64 (len + n)) str_len bit_str'

unfoldable pub hy_dec_2_bit_str : (num num_len : ℕ) → Bytes → ℕ → Option Bytes
unfolding bits_of_dec
hy_dec_2_bit_str num num_len bit_str str_len = do
  zeroed ← memset bit_str 0 str_len
  bits_of_dec num_len num 0 str_len zeroed
