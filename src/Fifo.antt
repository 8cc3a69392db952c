-- ===== src/Fifo.antt =====
-- src/hy_fifo.c with include/hy_fifo.h and the macros of include/hy_utils.h that it uses.
-- A function that updates `*context` returns the new context; `none` is an access outside an array.
-- `void *handle` and `void *buf` that the code tests for NULL are options.
pub mod Info
pub mod Inv
pub mod Create
pub mod Get
pub mod Put
pub mod Refine
pub mod Queue
pub mod Run
mod Tests
pub mod Window
pub mod Slices
use Prim.Native.Nat.{bit_and}
use libhy_utils_bak.Base.{
  ℕ, zero, suc, ◌+◌, ◌-◌, ◌/◌, ◌%◌, ◌^◌, Bool, true, false, not, ◌&&◌, ◌||◌, Option, none, some,
  List, [], ◌∷◌, ◌++◌, ltb, leb, ◌==◌, if◌then◌else◌, Bytes, ◌>>=◌, memcpy, memset, u32, u64,
  sub_mod, length, replicate,
}

-- `_fifo_context_t`; `in_pos` and `out_pos` are its `in` and `out`, which run on past `size`.
pub record Fifo : Type 0 where
  pub buf : Bytes
  pub size : ℕ
  pub use_cnt : ℕ
  pub in_pos : ℕ
  pub out_pos : ℕ

-- `HyUtilsMinMacro`
abbrev pub min_macro : ℕ → ℕ → ℕ
min_macro x y = if ltb x y then x else y

-- `HyUtilsIsPowerOf2`, at `size_t`
unfoldable pub is_power_of2 : ℕ → Bool
is_power_of2 x = not (x == 0) && (bit_and x (sub_mod (2 ^ 64) x 1) == 0)

-- the macros `out_index` and `in_index`
unfoldable pub out_index : Fifo → ℕ
out_index f = bit_and f.out_pos (sub_mod (2 ^ 64) f.size 1)

unfoldable pub in_index : Fifo → ℕ
in_index f = bit_and f.in_pos (sub_mod (2 ^ 64) f.size 1)

-- `_get_data_com`: `len` and `len_tmp` are `uint32_t`, the context's fields `size_t`.
unfoldable pub get_data_com : Fifo → Bytes → ℕ → Option (ℕ × Bytes)
get_data_com f dst len = do
  let n = u32 (min_macro (u32 len) (sub_mod (2 ^ 64) f.in_pos f.out_pos))
  let len_tmp = u32 (min_macro n (sub_mod (2 ^ 64) f.size (out_index f)))
  dst1 ← memcpy dst 0 f.buf (out_index f) len_tmp
  dst2 ← memcpy dst1 len_tmp f.buf 0 (sub_mod (2 ^ 32) n len_tmp)
  some (n, dst2)

-- `HyFifoPut`, which tests neither pointer
unfoldable pub hy_fifo_put : Fifo → Bytes → ℕ → Option (ℕ × Fifo)
hy_fifo_put f src len = do
  let n = min_macro len (u64 (f.size + 2 ^ 64 - f.in_pos + f.out_pos))
  let len_tmp = min_macro n (sub_mod (2 ^ 64) f.size (in_index f))
  buf1 ← memcpy f.buf (in_index f) src 0 len_tmp
  buf2 ← memcpy buf1 0 src len_tmp (sub_mod (2 ^ 64) n len_tmp)
  some (n, record f { buf = buf2; in_pos = u64 (f.in_pos + n); use_cnt = u64 (f.use_cnt + n) })

-- what a call leaves: the length it returns, the context, and the caller's buffer
abbrev pub Reply : Type 0
Reply = ℕ × Option Fifo × Option Bytes

-- `HyFifoGet`
unfoldable pub hy_fifo_get : Option Fifo → Option Bytes → ℕ → Option Reply
hy_fifo_get (some f) (some dst) len = if len == 0 then some (0, some f, some dst) else do
  (n, dst') ← get_data_com f dst len
  some (
    n,
    some (record f { out_pos = u64 (f.out_pos + n); use_cnt = sub_mod (2 ^ 64) f.use_cnt n }),
    some dst',
  )
hy_fifo_get handle buf len = some (0, handle, buf)

-- `HyFifoPeek`
unfoldable pub hy_fifo_peek : Option Fifo → Option Bytes → ℕ → Option Reply
hy_fifo_peek (some f) (some dst) len =
    if len == 0
    then some (0, some f, some dst)
    else do (n, dst') ← get_data_com f dst len; some (n, some f, some dst')
hy_fifo_peek handle buf len = some (0, handle, buf)

-- `HyFifoUpdateOut`, whose bytes go into a local array of 1024
unfoldable pub hy_fifo_update_out : Option Fifo → ℕ → Option (ℕ × Option Fifo)
hy_fifo_update_out (some f) len = if len == 0 then some (0, some f) else do
  (n, _) ← get_data_com f (replicate 1024 0) len
  some (n, some (record f { out_pos = u64 (f.out_pos + n) }))
hy_fifo_update_out none len = some (0, none)

-- `HyFifoInfoType_t`
pub data InfoType : Type 0 where
  total_len used_len free_len info_max : InfoType

-- `HyFifoGetInfo`: `val` before and after, `none` for NULL
unfoldable pub hy_fifo_get_info : Option Fifo → InfoType → Option ℕ → Option ℕ
hy_fifo_get_info (some f) total_len (some v) = some f.size
hy_fifo_get_info (some f) used_len (some v) = some f.use_cnt
hy_fifo_get_info (some f) free_len (some v) =
    some (sub_mod (2 ^ 64) f.size (u64 (f.in_pos + f.out_pos)))
hy_fifo_get_info handle type val = val

-- `HyFifoClean`
unfoldable pub hy_fifo_clean : Option Fifo → Option (Option Fifo)
hy_fifo_clean none = some none
hy_fifo_clean (some f) = do
  buf' ← memset f.buf 0 f.size
  some (some (record f { buf = buf'; in_pos = 0; out_pos = 0 }))

-- `_print_hex_ascii`: the numbers printed, each with the character shown in the brackets. A `char`
-- is signed, so a byte from 128 on is below 32.
unfoldable pub print_hex_ascii : Bytes → List (ℕ × Option ℕ)
print_hex_ascii [] = []
print_hex_ascii (b ∷ bs) =
    (b, if b == 0x0d || (b == 0x0a || (ltb b 32 || leb 127 b)) then none else some b)
    ∷ print_hex_ascii bs

-- `_print_content`: what it prints behind the three counters
unfoldable pub print_content : Fifo → Option (List (ℕ × Option ℕ))
print_content f = do
  let fifo_len = u32 (sub_mod (2 ^ 64) f.in_pos f.out_pos)
  let len_tmp = u32 (min_macro fifo_len (sub_mod (2 ^ 64) f.size (out_index f)))
  first ← memcpy (replicate len_tmp 0) 0 f.buf (out_index f) len_tmp
  second ←
      memcpy (replicate (sub_mod (2 ^ 32) fifo_len len_tmp) 0) 0 f.buf 0
        (sub_mod (2 ^ 32) fifo_len len_tmp)
  some (print_hex_ascii first ++ print_hex_ascii second)

-- `HyFifoDump`
unfoldable pub hy_fifo_dump : Option Fifo → Option (List (ℕ × Option ℕ))
hy_fifo_dump none = some []
hy_fifo_dump (some f) = print_content f

-- `HyFifoDestroy`: what `handle` points to before and after, the outer `none` for NULL
unfoldable pub hy_fifo_destroy : Option (Option Fifo) → Option (Option Fifo)
hy_fifo_destroy (some (some f)) = some none
hy_fifo_destroy handle = handle

-- `_HyUtilsNumTo2N2`: the loop `while (num >>= 1) i <<= 1`, on fuel
unfoldable pub num_to_2n2_loop : ℕ → ℕ → ℕ → Option ℕ
num_to_2n2_loop zero num i = none
num_to_2n2_loop (suc fuel) num i =
    let rest = num_to_2n2_loop fuel (num / 2) (u32 (i + i)) in if num / 2 == 0 then some i else rest

-- 32 rounds are enough for a `uint32_t`.
unfoldable pub num_to_2n2 : ℕ → Option ℕ
num_to_2n2 num = do i ← num_to_2n2_loop 32 num 1; some (if ltb i num then u32 (i + i) else i)

-- `HyFifoCreate`. The two booleans say whether `malloc` of the context and of the buffer succeeds;
-- the inner `none` is the NULL that is returned. Both blocks are zeroed.
unfoldable pub hy_fifo_create : (ctx_ok buf_ok : Bool) → Option ℕ → Option (Option Fifo)
hy_fifo_create ctx_ok buf_ok none = some none
hy_fifo_create ctx_ok buf_ok (some size) = do
  size' ←
      (if not (is_power_of2 size) || ltb 0x80000000 size then num_to_2n2 (u32 size) else some size)
  some (
      if ctx_ok && buf_ok
      then some
          (record { buf = replicate size' 0; size = size'; use_cnt = 0; in_pos = 0; out_pos = 0 })
      else none)
