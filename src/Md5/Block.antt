-- ===== src/Md5/Block.antt =====
-- The padded message, piece by piece.
use mathlib.Core.List.{append_assoc}
use libhy_utils_bak.Base.{
  ℕ, zero, suc, ◌+◌, ◌*◌, ◌/◌, ◌^◌, ◌≡◌, refl, sym, ap, ◌∙◌, some, [], ◌∷◌, ◌++◌, u32, u64, Bytes,
  length, take-length, replicate, length-replicate, length-append, memcpy, memcpy-overwrite,
  overwrite, arith,
}
use libhy_utils_bak.Utils.BitString.{overwrite_middle}
use libhy_utils_bak.Md5.{to_bytes, padded}
use libhy_utils_bak.Md5.Digest.{bytes_of}

-- a copy over a stretch of the same length
put :
    (front ys ws zs : Bytes) (off : ℕ)
    → off ≡ length front
    → length ws ≡ length ys
    → memcpy (front ++ (ys ++ zs)) off ws 0 (length ws) ≡ some (front ++ (ws ++ zs))
put front ys ws zs off e h =
    ap (λ (o : ℕ). memcpy (front ++ (ys ++ zs)) o ws 0 (length ws)) e
    ∙ (memcpy-overwrite (front ++ (ys ++ zs)) (length front) ws 0 (length ws)
          (omega (arith, h, length-append front (ys ++ zs), length-append ys zs)) (omega arith)
        ∙ (ap (λ (t : Bytes). some (overwrite (front ++ (ys ++ zs)) (length front) t))
              (take-length (length ws) ws (omega arith))
            ∙ ap some (overwrite_middle front ys ws zs h)))

put_word :
    (front zs : Bytes) (val off : ℕ)
    → off ≡ length front
    → to_bytes val (front ++ ((0 ∷ 0 ∷ 0 ∷ 0 ∷ []) ++ zs)) off
      ≡ some (front ++ (bytes_of val ++ zs))
unfolding to_bytes
put_word front zs val off e = put front (0 ∷ 0 ∷ 0 ∷ 0 ∷ []) (bytes_of val) zs off e refl

abbrev zeros : ℕ → Bytes
zeros n = replicate n 0

abbrev zeros4 : Bytes
zeros4 = 0 ∷ 0 ∷ 0 ∷ 0 ∷ []

replicate-add : (a b : ℕ) → zeros (a + b) ≡ zeros a ++ zeros b
replicate-add zero b = ap zeros {x = 0 + b} {y = b} (omega arith)
replicate-add (suc a) b =
    ap zeros {x = suc a + b} {y = suc (a + b)} (omega arith)
    ∙ ap (λ (t : Bytes). 0 ∷ t) (replicate-add a b)

block_steps :
    (msg : Bytes) (new_len : ℕ) {m1 m2 m3 m4 : Bytes}
    → memcpy (replicate (new_len + 8) 0) 0 msg 0 (length msg) ≡ some m1
    → memcpy m1 (length msg) (0x80 ∷ []) 0 1 ≡ some m2
    → to_bytes (u32 (u64 (length msg * 8))) m2 new_len ≡ some m3
    → to_bytes (u32 (length msg / 2 ^ 29)) m3 (new_len + 4) ≡ some m4
    → padded msg (length msg) new_len ≡ some m4
unfolding padded
block_steps msg new_len x y z w = rw x (rw y (rw z w))

-- the message, a one bit, zeros, and the length in bits as two words, the lowest byte first
abbrev pub block_of : Bytes → ℕ → Bytes
block_of msg p =
    msg
    ++ (0x80
        ∷ (replicate p 0
            ++ (bytes_of (u32 (u64 (length msg * 8))) ++ bytes_of (u32 (length msg / 2 ^ 29)))))

pub length-block_of : (msg : Bytes) (p : ℕ) → length (block_of msg p) ≡ length msg + 1 + p + 8
length-block_of msg p =
    let lo : Bytes = bytes_of (u32 (u64 (length msg * 8))) in
    let hi : Bytes = bytes_of (u32 (length msg / 2 ^ 29)) in
    omega (
      arith,
      length-append msg (0x80 ∷ (zeros p ++ (lo ++ hi))),
      length-append (zeros p) (lo ++ hi),
      length-replicate {A = ℕ} p 0,
    )

pub padded-block :
    (msg : Bytes) (p : ℕ) → padded msg (length msg) (length msg + 1 + p) ≡ some (block_of msg p)
padded-block msg p =
    let n : ℕ = length msg in
    let new_len : ℕ = n + 1 + p in
    let lo : Bytes = bytes_of (u32 (u64 (n * 8))) in
    let hi : Bytes = bytes_of (u32 (n / 2 ^ 29)) in
    let front : Bytes = msg ++ (0x80 ∷ zeros p) in
    let size : length front ≡ new_len =
      omega (arith, length-append msg (0x80 ∷ zeros p), length-replicate {A = ℕ} p 0) in
    let fresh : zeros (new_len + 8) ≡ zeros n ++ (0 ∷ (zeros p ++ (zeros4 ++ zeros4))) =
      ap zeros {x = new_len + 8} {y = n + suc (p + 8)} (omega arith)
      ∙ (replicate-add n (suc (p + 8))
          ∙ ap (λ (t : Bytes). zeros n ++ (0 ∷ t)) (replicate-add p 8)) in
    block_steps msg new_len
      (ap (λ (b : Bytes). memcpy b 0 msg 0 n) fresh
        ∙ put [] (zeros n) msg (0 ∷ (zeros p ++ (zeros4 ++ zeros4))) 0 refl
            (sym (length-replicate n 0)))
      (put msg (0 ∷ []) (0x80 ∷ []) (zeros p ++ (zeros4 ++ zeros4)) n refl refl)
      (ap (λ (b : Bytes). to_bytes (u32 (u64 (n * 8))) b new_len)
          (sym (append_assoc msg (0x80 ∷ zeros p) (zeros4 ++ zeros4)))
        ∙ put_word front zeros4 (u32 (u64 (n * 8))) new_len (sym size))
      (ap (λ (b : Bytes). to_bytes (u32 (n / 2 ^ 29)) b (new_len + 4))
          (sym (append_assoc front lo zeros4))
        ∙ put_word (front ++ lo) [] (u32 (n / 2 ^ 29)) (new_len + 4)
            (omega (arith, size, length-append front lo)))
    ∙ ap some (append_assoc front lo hi ∙ append_assoc msg (0x80 ∷ zeros p) (lo ++ hi))
