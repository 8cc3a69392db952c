-- ===== src/Md5/Digest.antt =====
-- The digest as the bytes of four words.
use libhy_utils_bak.Base.{
  ℕ, ◌+◌, ◌/◌, ◌^◌, ◌≤◌, ◌≡◌, ◌∙◌, some, [], ◌∷◌, ◌++◌, u8, Bytes, length, arith, memcpy-overwrite,
  overwrite, overwrite_more, overwrite-whole, length-overwrite,
}
use libhy_utils_bak.Md5.{Words, to_bytes}

-- a word as four bytes, the lowest first, and the four words of a sum
abbrev pub bytes_of : ℕ → Bytes
bytes_of v = u8 v ∷ u8 (v / 2 ^ 8) ∷ u8 (v / 2 ^ 16) ∷ u8 (v / 2 ^ 24) ∷ []

abbrev pub digest_of : Words → Bytes
digest_of h = bytes_of h.a ++ (bytes_of h.b ++ (bytes_of h.c ++ bytes_of h.d))

pub to_bytes-overwrite :
    (val : ℕ) (bytes : Bytes) (off : ℕ)
    → off + 4 ≤ length bytes
    → to_bytes val bytes off ≡ some (overwrite bytes off (bytes_of val))
unfolding to_bytes
to_bytes-overwrite val bytes off h = memcpy-overwrite bytes off (bytes_of val) 0 4 h (omega arith)

-- Four writes in a row leave the digest, whatever stood in its array.
pub write_digest :
    (h : Words) (digest : Bytes)
    → length digest ≡ 16
    → overwrite
        (overwrite
          (overwrite (overwrite digest 0 (bytes_of h.a)) 4 (bytes_of h.b))
          8
          (bytes_of h.c))
        12
        (bytes_of h.d)
      ≡ digest_of h
write_digest h digest n =
    let d1 = overwrite digest 0 (bytes_of h.a) in
    let n1 : length d1 ≡ length digest =
      length-overwrite digest 0 (bytes_of h.a) (omega (arith, n)) in
    let d2 = overwrite d1 4 (bytes_of h.b) in
    let n2 : length d2 ≡ length d1 = length-overwrite d1 4 (bytes_of h.b) (omega (arith, n, n1)) in
    overwrite_more d2 8 (bytes_of h.c ++ bytes_of h.d) 4 (omega arith) (omega (arith, n, n1, n2))
    ∙ (overwrite_more d1 4 (bytes_of h.b ++ (bytes_of h.c ++ bytes_of h.d)) 4 (omega arith)
          (omega (arith, n, n1))
        ∙ (overwrite_more digest 0 (digest_of h) 4 (omega arith) (omega (arith, n))
            ∙ overwrite-whole digest (digest_of h) (omega (arith, n))))
