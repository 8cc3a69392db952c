-- ===== src/AtUtils/Arrive.antt =====
-- A frame with data from its header on: the first round, and the whole.
use libhy_utils_bak.Base.{
  ℕ, ◌+◌, ◌-◌, ◌≤◌, ◌≡◌, refl, ap, ◌∙◌, Bool, true, false, ◌||◌, Option, none, some, [], ◌∷◌, ◌++◌,
  leb, ltb, ◌==◌, if◌then◌else◌, u16, u32, Bytes, length, arith, memcpy, replicate, length-append,
}
use libhy_utils_bak.AtUtils.{AtState, read_ipd_data, BufUnion, Env, AtUtils}
use libhy_utils_bak.AtUtils.Frame.{
  all_digits, digits_value, get_ipd_data_len, first_piece, ipd_header, ipd_piece, handle_ipd_data,
}
use libhy_utils_bak.AtUtils.Engine.{Turn, Reply, ipd_turn}
use libhy_utils_bak.AtUtils.Read.{factor, resume, read_case, update, read_turn}
use libhy_utils_bak.AtUtils.Ring.{IsEnv}
use libhy_utils_bak.AtUtils.Header.{ipd_tag}

-- `+IPD,` with a number and a colon
abbrev pub header : Bytes → Bytes
header ds = ipd_tag (ds ++ (58 ∷ []))

pub length-header : (ds : Bytes) → length (header ds) ≡ 6 + length ds
length-header ds = omega (arith, length-append ds (58 ∷ []))

module _ {env : Env} where
  pub start_steps :
      (ret : AtState) (c : AtUtils env) {len : ℕ} {buf : Bytes} {t : Turn env} {r : Reply env}
      → env.fifo_peek c.fifo_handle (replicate 200 0) (factor c) ≡ some (len, buf)
      → (u16 len == 0) ≡ false
      → resume c ≡ c
      → read_case c.state ret c buf (u16 len) ≡ some t
      → update t ≡ some r
      → read_turn ret c ≡ some (r.context.parsing_flag, r)
  unfolding read_turn
  start_steps ret c x y z u v = rw x (rw y (rw z (rw u (rw v refl))))

  pub resume_none : (c : AtUtils env) → c.parsing_flag ≡ false → resume c ≡ c
  unfolding resume
  resume_none c h = ap (λ (b : Bool). if b then record c { state = read_ipd_data } else c) h

  pub ipd_case :
      (ret : AtState) (c : AtUtils env) (buf : Bytes) (len : ℕ)
      → c.state ≡ read_ipd_data
      → read_case c.state ret c buf len ≡ ipd_turn ret c buf len
  unfolding read_case
  ipd_case ret c buf len h = ap (λ (s : AtState). read_case s ret c buf len) h

  pub header_case :
      (c : AtUtils env) (buf : Bytes) (len : ℕ) {n v : ℕ} {u : BufUnion}
      → c.buf_union ≡ none
      → get_ipd_data_len buf len ≡ some (n, v)
      → (leb 10 n || (ltb 1024 v || (v == 0))) ≡ false
      → env.buf_union_create v ≡ some u
      → handle_ipd_data c buf len ≡ first_piece u c buf len n
  unfolding handle_ipd_data ipd_piece ipd_header
  header_case c buf len x y z w =
      ap (λ (o : Option BufUnion). ipd_piece o c buf len) x ∙ rw y (rw z (rw w refl))

  pub first_whole :
      (u : BufUnion) (c : AtUtils env) (buf : Bytes) (len n : ℕ) {filled : Bytes}
      → leb (u.len + n) len ≡ true
      → memcpy u.buf 0 buf n u.len ≡ some filled
      → first_piece u c buf len n
        ≡ some (
          true,
          record c { buf_union = some (record u { buf = filled }); offset_len = u16 (n + u.len) },
        )
  unfolding first_piece
  first_whole u c buf len n x y = rw x (rw y refl)

  pub first_part :
      (u : BufUnion) (c : AtUtils env) (buf : Bytes) (len n : ℕ) {filled : Bytes}
      → leb (u.len + n) len ≡ false
      → ltb len n ≡ false
      → memcpy u.buf 0 buf n (len - n) ≡ some filled
      → first_piece u c buf len n
        ≡ some (
          false,
          record c {
            buf_union = some (record u { buf = filled });
            frame_sum = u32 (c.frame_sum + (len - n));
            offset_len = len;
            parsing_flag = true;
          },
        )
  unfolding first_piece
  first_part u c buf len n x y z = rw x (rw y (rw z refl))

-- A number of one to three digits, and as many bytes.
pub record IsFrame (ds payload : Bytes) : Type 0 where
  pub digits : all_digits ds ≡ true
  pub short : length ds ≤ 3
  pub some_digit : 1 ≤ length ds
  pub number : digits_value ds 0 ≡ length payload
  pub small : length payload ≤ 1024
  pub some_byte : 1 ≤ length payload

-- The engine has found the start of a frame with data, and waits for it.
pub record Arriving {env : Env} (e : IsEnv env) (c : AtUtils env) : Type 0 where
  pub found : c.state ≡ read_ipd_data
  pub not_parsing : c.parsing_flag ≡ false
  pub no_block : c.buf_union ≡ none
  pub no_sum : c.frame_sum ≡ 0
  pub good : e.IsGood c.fifo_handle
