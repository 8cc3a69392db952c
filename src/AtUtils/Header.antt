-- ===== src/AtUtils/Header.antt =====
-- The header of a frame with data, `+IPD,` with a number and a colon.
use libhy_utils_bak.Base.{
  ℕ, ◌+◌, ◌<◌, ◌≤◌, ◌≡◌, refl, true, false, ◌||◌, some, [], ◌∷◌, ◌++◌, leb, ltb, ◌==◌, u8, u16,
  Bytes, length, arith,
}
use libhy_utils_bak.AtUtils.Frame.{
  upto_colon, behind_comma, sscanf, all_digits, digits_value, get_ipd_data_len,
}

-- `+IPD,`
abbrev pub ipd_tag : Bytes → Bytes
ipd_tag text = 43 ∷ 73 ∷ 80 ∷ 68 ∷ 44 ∷ text

upto_colon-digits :
    (ds rest : Bytes) → all_digits ds ≡ true → upto_colon (ds ++ (58 ∷ rest)) ≡ some ds
unfolding upto_colon
upto_colon-digits [] rest h = refl
upto_colon-digits (d ∷ ds) rest h =
    let stops : ((d == 0) || (d == 58)) ≡ false = ground (arith, h) in
    rw stops (rw (upto_colon-digits ds rest (ground (arith, h))) refl)

sscanf-tag :
    (ds rest : Bytes) → all_digits ds ≡ true → sscanf (ipd_tag (ds ++ (58 ∷ rest))) ≡ some ds
unfolding sscanf behind_comma
sscanf-tag ds rest h = upto_colon-digits ds rest h

pub header_steps :
    (buf text : Bytes) (len : ℕ)
    → ltb (u8 len) 8 ≡ false
    → sscanf buf ≡ some text
    → leb 8 (length text) ≡ false
    → all_digits text ≡ true
    → get_ipd_data_len buf len ≡ some (6 + length text, u16 (digits_value text 0))
unfolding get_ipd_data_len
header_steps buf text len x y z u = rw x (rw y (rw z (rw u refl)))

-- A header of up to seven digits is read as its length and its number.
pub get_ipd_data_len-digits :
    (ds rest : Bytes) (len : ℕ)
    → all_digits ds ≡ true
    → length ds < 8
    → 8 ≤ len
    → len ≤ 200
    → get_ipd_data_len (ipd_tag (ds ++ (58 ∷ rest))) len
      ≡ some (6 + length ds, u16 (digits_value ds 0))
get_ipd_data_len-digits ds rest len h short lo hi =
    header_steps (ipd_tag (ds ++ (58 ∷ rest))) ds len (ground (arith, lo, hi))
      (sscanf-tag ds rest h) (ground (arith, short)) h
