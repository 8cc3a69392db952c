-- ===== src/Md5/Total.antt =====
-- The MD5 sum of any message is computed, and stays inside its arrays.
use Prim.Native.Nat.{bit_or}
use libhy_utils_bak.Base.{
  ℕ, zero, suc, ◌+◌, ◌*◌, ◌-◌, ◌/◌, ◌%◌, ◌^◌, ◌<◌, ◌≤◌, ◌≡◌, ◌≢◌, refl, ap, ◌∙◌, true, some, List,
  [], ◌∷◌, ltb, ◌==◌, ==_iff, u32, u64, Bytes, get_elem?, get_elem?-some, length, arith, inl, inr,
  Bool-cases, overwrite, length-overwrite,
}
use libhy_utils_bak.Md5.{
  k, r, Words, left_rotate, round_f, round_g, to_bytes, to_int32, round_loop, word_loop, chunk,
  chunk_loop, pad_loop, padded, hy_md5sum, initial,
}
use libhy_utils_bak.Md5.Block.{block_of, length-block_of, padded-block}
use libhy_utils_bak.Md5.Digest.{bytes_of, digest_of, to_bytes-overwrite, write_digest}

-- how far the next length lies that leaves 56 modulo 64
abbrev pub to_pad : ℕ → ℕ
to_pad n = (120 - n % 64) % 64

-- Padding stops at the first length from there on that leaves 56 modulo 64.
pad_loop-next :
    (fuel n : ℕ) → n + to_pad n < 2 ^ 64 → to_pad n < fuel → pad_loop fuel n ≡ some (n + to_pad n)
unfolding pad_loop
pad_loop-next zero n small enough = absurd (omega arith)
pad_loop-next (suc fuel) n small enough = elim (Bool-cases (n % 64 == 56)) [
  | inl e ↦ rw e (ap (λ (t : ℕ). some t) (omega (arith, (==_iff (n % 64) 56).0 e)))
  | inr e ↦
      let apart : n % 64 ≢ 56 = λ h. absurd (ground (arith, e, h)) in
      let on : n + 1 + to_pad (n + 1) ≡ n + to_pad n = omega (arith, apart) in
      let word : u64 (n + 1) ≡ n + 1 = omega (arith, apart) in
      rw e (
        ap (pad_loop fuel) word
        ∙ (pad_loop-next fuel (n + 1) (omega (arith, on)) (omega (arith, apart))
            ∙ ap (λ (t : ℕ). some t) on))
]

-- A copy between arrays keeps the length.
to_int32_returns :
    (bytes : Bytes) (off : ℕ) → off + 4 ≤ length bytes → (v : ℕ) × (to_int32 bytes off ≡ some v)
unfolding to_int32
to_int32_returns bytes off h =
    let (b0, e0) = get_elem?-some bytes off (omega arith) in
    let (b1, e1) = get_elem?-some bytes (off + 1) (omega arith) in
    let (b2, e2) = get_elem?-some bytes (off + 2) (omega arith) in
    let (b3, e3) = get_elem?-some bytes (off + 3) (omega arith) in
    (
      bit_or (bit_or (bit_or b0 (u32 (b1 * 2 ^ 8))) (u32 (b2 * 2 ^ 16))) (u32 (b3 * 2 ^ 24)),
      rw e0 (rw e1 (rw e2 (rw e3 refl))),
    )

word_steps :
    (rest i : ℕ) (msg : Bytes) (offset : ℕ) {v : ℕ} {w : List ℕ}
    → to_int32 msg (offset + i * 4) ≡ some v
    → word_loop rest (suc i) msg offset ≡ some w
    → word_loop (suc rest) i msg offset ≡ some (v ∷ w)
unfolding word_loop
word_steps rest i msg offset x y = rw x (rw y refl)

word_loop_returns :
    (rest i : ℕ) (msg : Bytes) (offset : ℕ)
    → offset + (i + rest) * 4 ≤ length msg
    → (w : List ℕ) × (word_loop rest i msg offset ≡ some w) × (length w ≡ rest)
unfolding word_loop
word_loop_returns zero i msg offset h = ([], refl, refl)
word_loop_returns (suc rest) i msg offset h =
    let (v, e) = to_int32_returns msg (offset + i * 4) (omega arith) in
    let (w, l, n) = word_loop_returns rest (suc i) msg offset (omega arith) in
    (v ∷ w, word_steps rest i msg offset e l, ap suc n)

round_g-lt : (i : ℕ) → round_g i < 16
unfolding round_g
round_g-lt i = ground arith

round_steps :
    (rest i : ℕ) (w : List ℕ) (s : Words) {k_i r_i w_g : ℕ}
    → get_elem? k i ≡ some k_i
    → get_elem? r i ≡ some r_i
    → get_elem? w (round_g i) ≡ some w_g
    → round_loop (suc rest) i w s
      ≡ round_loop rest (suc i) w (record {
        a = s.d;
        b = u32 (s.b + left_rotate (u32 (s.a + round_f i s + k_i + w_g)) r_i);
        c = s.b;
        d = s.c;
      })
unfolding round_loop
round_steps rest i w s x y z = rw x (rw y (rw z refl))

round_loop_returns :
    (rest i : ℕ) (w : List ℕ) (s : Words)
    → i + rest ≤ 64
    → length w ≡ 16
    → (out : Words) × (round_loop rest i w s ≡ some out)
unfolding round_loop
round_loop_returns zero i w s h n = (s, refl)
round_loop_returns (suc rest) i w s h n =
    let (k_i, e) = get_elem?-some k i (omega arith) in
    let (r_i, l) = get_elem?-some r i (omega arith) in
    let (w_g, m) = get_elem?-some w (round_g i) (omega (arith, round_g-lt i, n)) in
    let (out, runs) = round_loop_returns rest (suc i) w _ (omega arith) n in
    (out, round_steps rest i w s e l m ∙ runs)

chunk_steps :
    (msg : Bytes) (offset : ℕ) (h : Words) {w : List ℕ} {s : Words}
    → word_loop 16 0 msg offset ≡ some w
    → round_loop 64 0 w h ≡ some s
    → (out : Words) × (chunk msg offset h ≡ some out)
unfolding chunk
chunk_steps msg offset h {s = s} x y = (
  record { a = u32 (h.a + s.a); b = u32 (h.b + s.b); c = u32 (h.c + s.c); d = u32 (h.d + s.d) },
  rw x (rw y refl),
)

chunk_returns :
    (msg : Bytes) (offset : ℕ) (h : Words)
    → offset + 64 ≤ length msg
    → (out : Words) × (chunk msg offset h ≡ some out)
chunk_returns msg offset h room =
    let (w, e, n) = word_loop_returns 16 0 msg offset (omega arith) in
    let (s, l) = round_loop_returns 64 0 w h (omega arith) n in chunk_steps msg offset h e l

loop_steps :
    (fuel offset new_len : ℕ) (msg : Bytes) (h : Words) {h' : Words}
    → ltb offset new_len ≡ true
    → chunk msg offset h ≡ some h'
    → chunk_loop (suc fuel) offset new_len msg h
      ≡ chunk_loop fuel (u64 (offset + 64)) new_len msg h'
unfolding chunk_loop
loop_steps fuel offset new_len msg h x y = rw x (rw y refl)

chunk_loop_returns :
    (fuel offset new_len : ℕ) (msg : Bytes) (h : Words)
    → length msg ≡ new_len + 8
    → new_len % 64 ≡ 56
    → offset % 64 ≡ 0
    → new_len < 2 ^ 63
    → offset ≤ new_len + 8
    → new_len + 64 ≤ offset + fuel * 64
    → (out : Words) × (chunk_loop fuel offset new_len msg h ≡ some out)
unfolding chunk_loop
chunk_loop_returns zero offset new_len msg h n m o small reach enough = absurd (omega arith)
chunk_loop_returns (suc fuel) offset new_len msg h n m o small reach enough =
    elim (Bool-cases (ltb offset new_len)) [
      | inr done ↦ (h, rw done refl)
      | inl more ↦
          let lt : offset < new_len = ground (arith, more) in
          let (h', e) = chunk_returns msg offset h (omega (arith, lt)) in
          let (out, runs) =
            chunk_loop_returns fuel (u64 (offset + 64)) new_len msg h' n m (omega (arith, lt)) small
              (omega (arith, lt)) (omega (arith, lt)) in
          (out, loop_steps fuel offset new_len msg h more e ∙ runs)
    ]

sum_steps :
    (msg0 : Bytes) (initial_len : ℕ) (digest : Bytes) {new_len : ℕ} {msg d1 d2 d3 d4 : Bytes}
    {h : Words}
    → pad_loop 64 (u64 (initial_len + 1)) ≡ some new_len
    → padded msg0 initial_len new_len ≡ some msg
    → chunk_loop (new_len / 64 + 2) 0 new_len msg initial ≡ some h
    → to_bytes h.a digest 0 ≡ some d1
    → to_bytes h.b d1 4 ≡ some d2
    → to_bytes h.c d2 8 ≡ some d3
    → to_bytes h.d d3 12 ≡ some d4
    → hy_md5sum true msg0 initial_len digest ≡ some d4
unfolding hy_md5sum
sum_steps msg0 initial_len digest x y z u v w t = rw x (rw y (rw z (rw u (rw v (rw w t)))))

-- The sum of every message of fewer than 2^60 bytes is computed, with memory for the padded message: 64
-- steps find the length of the padded message, the first above that of the message that leaves 56 modulo 64;
-- its block is the message, the byte 0x80, zeros up to that length, and the number of bits as two words; the
-- loop over its chunks ends, and the 16 bytes of the digest are the four words that the loop gives, the
-- lowest byte of each first, whatever stood in the array.
pub hy_md5sum_returns :
    (msg digest : Bytes)
    → length msg < 2 ^ 60
    → length digest ≡ 16
    → (new_len : ℕ) × (block : Bytes) × (h : Words) × (new_len
        ≡ length msg + 1 + to_pad (length msg + 1))
      × (block ≡ block_of msg (to_pad (length msg + 1)))
      × (padded msg (length msg) new_len ≡ some block)
      × (chunk_loop (new_len / 64 + 2) 0 new_len block initial ≡ some h)
      × (hy_md5sum true msg (length msg) digest ≡ some (digest_of h))
hy_md5sum_returns msg digest small n =
    let len : ℕ = length msg + 1 in
    let new_len : ℕ = len + to_pad len in
    let word : u64 (length msg + 1) ≡ len = omega arith in
    let pad = ap (pad_loop 64) word ∙ pad_loop-next 64 len (omega arith) (omega arith) in
    let block : Bytes = block_of msg (to_pad len) in
    let e = padded-block msg (to_pad len) in
    let size : length block ≡ new_len + 8 = length-block_of msg (to_pad len) in
    let (h, runs) =
      chunk_loop_returns (new_len / 64 + 2) 0 new_len block initial size (omega arith) refl
        (omega arith) (omega arith) (omega arith) in
    let d1 = overwrite digest 0 (bytes_of h.a) in
    let n1 : length d1 ≡ length digest =
      length-overwrite digest 0 (bytes_of h.a) (omega (arith, n)) in
    let d2 = overwrite d1 4 (bytes_of h.b) in
    let n2 : length d2 ≡ length d1 = length-overwrite d1 4 (bytes_of h.b) (omega (arith, n, n1)) in
    let d3 = overwrite d2 8 (bytes_of h.c) in
    let n3 : length d3 ≡ length d2 =
      length-overwrite d2 8 (bytes_of h.c) (omega (arith, n, n1, n2)) in
    (
      new_len,
      block,
      h,
      refl,
      refl,
      e,
      runs,
      sum_steps msg (length msg) digest pad e runs
            (to_bytes-overwrite h.a digest 0 (omega (arith, n)))
            (to_bytes-overwrite h.b d1 4 (omega (arith, n, n1)))
            (to_bytes-overwrite h.c d2 8 (omega (arith, n, n1, n2)))
            (to_bytes-overwrite h.d d3 12 (omega (arith, n, n1, n2, n3)))
          ∙ ap some (write_digest h digest n),
    )
