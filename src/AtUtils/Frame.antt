-- ===== src/AtUtils/Frame.antt =====
-- src/hy_at_utils.c: the search for the start of a frame, and the frames with data.
use libhy_utils_bak.Base.{
  ℕ, zero, suc, ◌+◌, ◌*◌, ◌-◌, Bool, true, false, ◌&&◌, ◌||◌, Option, none, some, List, [], ◌∷◌,
  ltb, leb, ◌==◌, if◌then◌else◌, ◌>>=◌, u8, u16, u32, Bytes, take, memcpy, length, get_elem?,
}
use libhy_utils_bak.StrCopy.{strlen}
use libhy_utils_bak.AtUtils.{
  AtState, idle, read_head, AtCatchStr, BufUnion, Env, AtUtils, destroy_clean,
}

-- whether two arrays of one length are equal
abbrev pub bytes_eq : Bytes → Bytes → Bool
bytes_eq [] [] = true
bytes_eq (x ∷ xs) (y ∷ ys) = (x == y) && bytes_eq xs ys
bytes_eq xs ys = false

-- `0 == memcmp(a, b, n)`
abbrev pub memcmp_eq : Bytes → Bytes → ℕ → Option Bool
memcmp_eq a b n =
    if leb n (length a) && leb n (length b) then some (bytes_eq (take n a) (take n b)) else none

-- The loop of `_find_frame_tag` with the flag set: the state it gives, and `offset_len`, before and
-- after.
unfoldable pub find_tag : List AtCatchStr → Bytes → (buf_len offset_len : ℕ) → Option (AtState × ℕ)
find_tag [] buf buf_len offset_len = some (idle, 1)
find_tag (c ∷ catch_str) buf buf_len offset_len =
    let rest = find_tag catch_str buf buf_len offset_len in
    do
      n ← strlen c.catch_str
      start ← memcmp_eq c.catch_str buf 2
      (if start && ltb buf_len (u16 n)
          then some (read_head, offset_len)
          else (memcmp_eq buf c.catch_str (u16 n) >>= λ equal.
              if equal then some (c.state, u16 n) else rest))

-- whether one of the strings starts with a byte; the strings are read up to their first byte
unfoldable pub starts : List AtCatchStr → ℕ → Option Bool
starts [] b = some false
starts (c ∷ catch_str) b =
    let rest = starts catch_str b in
    do x ← get_elem? c.catch_str 0; (if x == b then some true else rest)

-- The loop of `_find_frame_tag` with the flag clear, from `cnt` on over `rest` bytes.
unfoldable pub find_start : List AtCatchStr → Bytes → (rest cnt : ℕ) → Option (AtState × ℕ)
unfolding starts
find_start catch_str buf zero cnt = some (idle, u16 cnt)
find_start catch_str buf (suc rest) cnt =
    let next = find_start catch_str buf rest (suc cnt) in
    do
      b ← get_elem? buf cnt
      found ← starts catch_str b
      (if found then some (read_head, u16 cnt) else next)

-- `_get_signal_str`: the loop, at which `ret` bytes have been passed
unfoldable pub signal_loop : Bytes → ℕ → Option ℕ
signal_loop [] ret = none
signal_loop (b ∷ buf) ret =
    let rest = signal_loop buf (suc ret) in
    if b == 0
    then some 0
    else if b == 79
    then (get_elem? buf 0 >>= λ k. if k == 75 then some ret else rest)
    else rest

unfoldable pub get_signal_str : Bytes → Option ℕ
unfolding signal_loop
get_signal_str buf = signal_loop buf 0

-- the text that `sscanf(buf, "%*[^,],%[^:]", ...)` stores: behind the first comma, to the colon
unfoldable pub upto_colon : Bytes → Option Bytes
upto_colon [] = none
upto_colon (b ∷ buf) =
    let rest = upto_colon buf in
    if (b == 0) || (b == 58) then some [] else (rest >>= λ t. some (b ∷ t))

unfoldable pub behind_comma : Bytes → Option Bytes
unfolding upto_colon
behind_comma [] = none
behind_comma (b ∷ buf) =
    let rest = behind_comma buf in
    if b == 0 then some [] else if b == 44 then upto_colon buf else rest

-- a first comma leaves nothing for `%*[^,]`, so that nothing is stored
unfoldable pub sscanf : Bytes → Option Bytes
unfolding behind_comma
sscanf [] = none
sscanf (b ∷ buf) = if b == 44 then some [] else behind_comma (b ∷ buf)

-- a decimal digit
abbrev pub is_digit : ℕ → Bool
is_digit b = leb 48 b && leb b 57

abbrev pub all_digits : Bytes → Bool
all_digits [] = true
all_digits (b ∷ text) = is_digit b && all_digits text

-- `atoi` of a text of digits
abbrev pub digits_value : Bytes → ℕ → ℕ
digits_value [] n = n
digits_value (b ∷ text) n = digits_value text (n * 10 + (b - 48))

-- `_get_ipd_data_len`: what it returns and `*index`, which is 0 before. The text and its end go into
-- eight bytes.
unfoldable pub get_ipd_data_len : Bytes → ℕ → Option (ℕ × ℕ)
unfolding sscanf
get_ipd_data_len buf len = if ltb (u8 len) 8 then some (0, 0) else do
  text ← sscanf buf
  (if leb 8 (length text)
      then none
      else some (6 + length text, if all_digits text then u16 (digits_value text 0) else 0))

module _ {env : Env} where
  -- `_find_frame_tag`
  unfoldable pub find_frame_tag :
      AtUtils env → Bytes → (buf_len : ℕ) → (flag : Bool) → Option (AtState × AtUtils env)
  unfolding find_tag find_start
  find_frame_tag context buf buf_len flag = do
    (ret, offset_len) ←
        if flag
        then find_tag context.catch_str buf buf_len context.offset_len
        else find_start context.catch_str buf buf_len 0
    some (ret, record context { offset_len = offset_len })

  -- `_handle_signal_csq` and `_handle_signal_cwjap_def`, with the shortest length of their strings:
  -- whether a frame is there
  unfoldable pub handle_signal :
      (shortest : ℕ) → AtUtils env → Bytes → ℕ → Option (Bool × AtUtils env)
  unfolding get_signal_str
  handle_signal shortest context buf len = if ltb len shortest then some (false, context) else do
    ret ← get_signal_str buf
    (if ret == 0 then some (false, context) else elim (env.buf_union_create ret) [
      | none ↦ some (false, record context { buf_union = none })
      | some u ↦ memcpy u.buf 0 buf 0 u.len >>= λ filled.
          some (true, record context { buf_union = some (record u { buf = filled }) })
    ])

  unfoldable pub handle_signal_csq : AtUtils env → Bytes → ℕ → Option (Bool × AtUtils env)
  unfolding handle_signal
  handle_signal_csq context buf len = handle_signal 16 context buf len

  unfoldable pub handle_signal_cwjap_def : AtUtils env → Bytes → ℕ → Option (Bool × AtUtils env)
  unfolding handle_signal
  handle_signal_cwjap_def context buf len = handle_signal 38 context buf len

  -- `_handle_ipd_data` at the first piece, whose header has been read. The length of a piece that ends
  -- within its header is negative, and as a `size_t` more than any array has.
  unfoldable pub first_piece :
      BufUnion → AtUtils env → Bytes → (len ipd_format_len : ℕ) → Option (Bool × AtUtils env)
  first_piece u context buf len ipd_format_len =
      if leb (u.len + ipd_format_len) len
      then (memcpy u.buf 0 buf ipd_format_len u.len >>= λ filled. some (
        true,
        record context {
          buf_union = some (record u { buf = filled });
          offset_len = u16 (ipd_format_len + u.len);
        },
      ))
      else if ltb len ipd_format_len
      then none
      else (memcpy u.buf 0 buf ipd_format_len (len - ipd_format_len) >>= λ filled. some (
        false,
        record context {
          buf_union = some (record u { buf = filled });
          frame_sum = u32 (context.frame_sum + (len - ipd_format_len));
          offset_len = len;
          parsing_flag = true;
        },
      ))

  -- `_handle_ipd_data` at a later piece
  unfoldable pub next_piece : BufUnion → AtUtils env → Bytes → ℕ → Option (Bool × AtUtils env)
  next_piece u context buf len = do
    filled ← memcpy u.buf context.frame_sum buf 0 len
    let sum = u32 (context.frame_sum + len)
    let done = sum == u.len
    some (
      done,
      record context {
        buf_union = some (record u { buf = filled });
        frame_sum = sum;
        offset_len = len;
        parsing_flag = if done then context.parsing_flag else true;
      },
    )

  -- `_handle_ipd_data` with no block yet
  unfoldable pub ipd_header : AtUtils env → Bytes → ℕ → Option (Bool × AtUtils env)
  unfolding get_ipd_data_len destroy_clean first_piece
  ipd_header context buf len = do
    (ipd_format_len, data_len) ← get_ipd_data_len buf len
    (if leb 10 ipd_format_len || (ltb 1024 data_len || (data_len == 0))
        then (destroy_clean context >>= λ cleaned. some (false, cleaned))
        else elim (env.buf_union_create data_len) [
          | none ↦ some (false, context)
          | some u ↦ first_piece u context buf len ipd_format_len
        ])

  -- `_handle_ipd_data` at the block that is there
  unfoldable pub ipd_piece : Option BufUnion → AtUtils env → Bytes → ℕ → Option (Bool × AtUtils env)
  unfolding ipd_header next_piece
  ipd_piece none context buf len = ipd_header context buf len
  ipd_piece (some u) context buf len = next_piece u context buf len

  -- `_handle_ipd_data`: whether the frame is whole. Its wait for more bytes, which another thread puts
  -- into the ring, changes nothing of its own but `parsing_flag`.
  unfoldable pub handle_ipd_data : AtUtils env → Bytes → ℕ → Option (Bool × AtUtils env)
  unfolding ipd_piece
  handle_ipd_data context buf len = ipd_piece context.buf_union context buf len
