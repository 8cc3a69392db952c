-- ===== src/Utils/Whole.antt =====
-- A whole buffer is written and read, whatever the pieces.
use mathlib.Core.Bool.{false≢true}
use libhy_utils_bak.Base.{
  ℕ, zero, suc, ◌+◌, ◌-◌, ◌^◌, ◌≤◌, ◌<◌, ◌≡◌, refl, ap, ap₂, sym, ◌∙◌, Option, some, overwrite,
  overwrite_more, memcpy-overwrite, take-length, take-append, drop-append, memcpy, length-overwrite,
  List, [], ◌∷◌, ◌++◌, Bytes, length, take, drop, sub_mod, u64, arith, length-append, length-drop,
  ltb, leb, Bool, true, false, ◌&&◌,
}
use libhy_utils_bak.Utils.{
  Return, done, total, write_loop, hy_utils_write, Input, got, fill_loop, hy_utils_read, Outcome,
}

-- what `write` promises: it takes at least one byte and no more than it is given, or is interrupted
abbrev pub accepts : Return → ℕ → Bool
accepts (done k) nleft = ltb 0 k && leb k nleft
accepts Return.interrupted nleft = true
accepts Return.blocked nleft = false
accepts Return.failed nleft = false

-- the bytes left after a call
abbrev pub left : Return → ℕ → ℕ
left (done k) nleft = nleft - k
left _ nleft = nleft

-- calls that all accept, up to the one that takes the last byte
abbrev pub all_accept : List Return → ℕ → Bool
all_accept returns zero = true
all_accept [] (suc n) = false
all_accept (r ∷ returns) (suc n) = accepts r (suc n) && all_accept returns (left r (suc n))

take-drop : {A : Type 0} (n : ℕ) (xs : List A) → take n xs ++ drop n xs ≡ xs
take-drop zero xs = refl
take-drop (suc n) [] = refl
take-drop (suc n) (x ∷ xs) = ap (λ t. x ∷ t) (take-drop n xs)

write_loop_total :
    (returns : List Return) (len : ℕ) (nleft : ℕ) (ptr : Bytes)
    → length ptr ≡ nleft
    → nleft < 2 ^ 64
    → all_accept returns nleft ≡ true
    → write_loop returns len nleft ptr ≡ some (total len, ptr)
unfolding write_loop
write_loop_total returns len zero [] e w h = refl
write_loop_total returns len zero (x ∷ ptr) e w h = absurd (omega (arith, e))
write_loop_total [] len (suc n) ptr e w h = absurd (false≢true h)
write_loop_total (done zero ∷ returns) len (suc n) ptr e w h = absurd (false≢true h)
write_loop_total (done (suc k) ∷ returns) len (suc n) ptr e w h =
    let room : suc k ≤ suc n = ground (arith, h) in
    let less : sub_mod (2 ^ 64) (suc n) (suc k) ≡ suc n - suc k = omega arith in
    rw less (
      rw
        (write_loop_total returns len (suc n - suc k) (drop (suc k) ptr)
          (omega (arith, length-drop (suc k) ptr)) (omega arith) (ground (arith, h)))
        (ap (λ t. some (total len, t)) (take-drop (suc k) ptr)))
write_loop_total (Return.interrupted ∷ returns) len (suc n) ptr e w h =
    write_loop_total returns len (suc n) ptr e w h
write_loop_total (Return.blocked ∷ returns) len (suc n) ptr e w h = absurd (false≢true h)
write_loop_total (Return.failed ∷ returns) len (suc n) ptr e w h = absurd (false≢true h)

-- When every call of `write` takes at least one byte and no more than it is given, or is
-- interrupted, until all bytes are taken, `HyUtilsWrite` of fewer than 2^31 bytes returns their
-- number, and the calls have taken exactly the buffer, in order.
pub write_takes_all :
    (returns : List Return) (buf : Bytes)
    → length buf < 2 ^ 31
    → all_accept returns (length buf) ≡ true
    → hy_utils_write returns buf (length buf) ≡ some (total (length buf), buf)
unfolding hy_utils_write
write_takes_all returns buf w h =
    write_loop_total returns (length buf) (length buf) buf refl (omega (arith, w)) h

-- what the calls of `read` deliver of the bytes asked for: up to the end of the file
abbrev pub delivered : List Input → ℕ → Bytes
delivered inputs zero = []
delivered [] (suc n) = []
delivered (got [] ∷ inputs) (suc n) = []
delivered (got (b ∷ bs) ∷ inputs) (suc n) = (b ∷ bs) ++ delivered inputs (n - length bs)
delivered (_ ∷ inputs) (suc n) = delivered inputs (suc n)

-- Calls that deliver no more than they are asked for, or are to be repeated, until all bytes are
-- there or the file ends.
abbrev pub all_deliver : List Input → ℕ → Bool
all_deliver inputs zero = true
all_deliver [] (suc n) = false
all_deliver (got [] ∷ inputs) (suc n) = true
all_deliver (got (b ∷ bs) ∷ inputs) (suc n) =
    leb (length bs) n && all_deliver inputs (n - length bs)
all_deliver (Input.interrupted ∷ inputs) (suc n) = all_deliver inputs (suc n)
all_deliver (Input.blocked ∷ inputs) (suc n) = all_deliver inputs (suc n)
all_deliver (Input.failed ∷ inputs) (suc n) = false

stopped :
    (offset : ℕ) (buf : Bytes)
    → ◌≡◌ {A = Option (Outcome × Bytes)}
        (some (total offset, buf))
        (some (total (offset + 0), overwrite buf offset []))
stopped offset buf =
    ap₂ (λ (k : ℕ) (t : Bytes). some (total k, t)) (omega arith)
      (sym (
        ap (λ (k : ℕ). take offset buf ++ drop k buf) {x = offset + 0} {y = offset} (omega arith)
        ∙ take-drop offset buf))

length-delivered :
    (inputs : List Input) (n : ℕ) → all_deliver inputs n ≡ true → length (delivered inputs n) ≤ n
length-delivered inputs zero h = omega arith
length-delivered [] (suc n) h = omega arith
length-delivered (got [] ∷ inputs) (suc n) h = omega arith
length-delivered (got (b ∷ bs) ∷ inputs) (suc n) h =
    let few : length bs ≤ n = ground (arith, h) in
    omega (
      arith,
      few,
      length-append bs (delivered inputs (n - length bs)),
      length-delivered inputs (n - length bs) (ground (arith, h)),
    )
length-delivered (Input.interrupted ∷ inputs) (suc n) h = length-delivered inputs (suc n) h
length-delivered (Input.blocked ∷ inputs) (suc n) h = length-delivered inputs (suc n) h
length-delivered (Input.failed ∷ inputs) (suc n) h = absurd (false≢true h)

fill_steps :
    (b : ℕ) (bs : Bytes) (inputs : List Input) (n offset : ℕ) (buf : Bytes) {buf' : Bytes}
    → memcpy buf offset (b ∷ bs) 0 (suc (length bs)) ≡ some buf'
    → fill_loop (got (b ∷ bs) ∷ inputs) (suc n) offset buf
      ≡ fill_loop inputs
          (sub_mod (2 ^ 64) (suc n) (suc (length bs)))
          (u64 (offset + suc (length bs)))
          buf'
unfolding fill_loop
fill_steps b bs inputs n offset buf x = rw x refl

fill_loop_delivers :
    (inputs : List Input) (nleft offset : ℕ) (buf : Bytes)
    → offset + nleft < 2 ^ 64
    → offset + nleft ≤ length buf
    → all_deliver inputs nleft ≡ true
    → fill_loop inputs nleft offset buf
      ≡ some (
        total (offset + length (delivered inputs nleft)),
        overwrite buf offset (delivered inputs nleft),
      )
unfolding fill_loop
fill_loop_delivers inputs zero offset buf w room h = stopped offset buf
fill_loop_delivers [] (suc n) offset buf w room h = absurd (false≢true h)
fill_loop_delivers (got [] ∷ inputs) (suc n) offset buf w room h = stopped offset buf
fill_loop_delivers (got (b ∷ bs) ∷ inputs) (suc n) offset buf w room h =
    let k : ℕ = suc (length bs) in
    let few : length bs ≤ n = ground (arith, h) in
    let less : sub_mod (2 ^ 64) (suc n) k ≡ n - length bs = omega arith in
    let more : u64 (offset + k) ≡ offset + k = omega arith in
    let rest : Bytes = delivered inputs (n - length bs) in
    let whole : Bytes = (b ∷ bs) ++ rest in
    let size = length-append bs rest in
    let bound = length-delivered inputs (n - length bs) (ground (arith, h)) in
    let first : Bytes = overwrite buf offset (b ∷ bs) in
    let filled = memcpy-overwrite buf offset (b ∷ bs) 0 k (omega (arith, few)) (omega arith) in
    let exact : take k (b ∷ bs) ≡ b ∷ bs = take-length k (b ∷ bs) (omega arith) in
    let behind : drop k whole ≡ rest =
      ap (λ (j : ℕ). drop j whole) {x = k} {y = k + 0} (omega arith)
      ∙ drop-append (b ∷ bs) rest 0 in
    let joined : overwrite first (offset + k) rest ≡ overwrite buf offset whole =
      ap₂ (λ (t r : Bytes). overwrite (overwrite buf offset t) (offset + k) r)
        (sym (take-append k (b ∷ bs) rest refl)) (sym behind)
      ∙ overwrite_more buf offset whole k (omega (arith, size)) (omega (arith, size, bound, few)) in
    fill_steps b bs inputs n offset buf
      (filled ∙ ap (λ (t : Bytes). some (overwrite buf offset t)) exact)
    ∙ (ap₂ (λ (l o : ℕ). fill_loop inputs l o first) less more
        ∙ (fill_loop_delivers inputs (n - length bs) (offset + k) first (omega arith)
              (omega (arith, few, length-overwrite buf offset (b ∷ bs) (omega (arith, few))))
              (ground (arith, h))
            ∙ ap₂ (λ (l : ℕ) (t : Bytes). some (total l, t)) (omega (arith, size)) joined))
fill_loop_delivers (Input.interrupted ∷ inputs) (suc n) offset buf w room h =
    fill_loop_delivers inputs (suc n) offset buf w room h
fill_loop_delivers (Input.blocked ∷ inputs) (suc n) offset buf w room h =
    fill_loop_delivers inputs (suc n) offset buf w room h
fill_loop_delivers (Input.failed ∷ inputs) (suc n) offset buf w room h = absurd (false≢true h)

-- When no call of `read` fails or delivers more than it is asked for, until all bytes are there or the
-- file ends, `HyUtilsRead` of fewer than 2^31 bytes into a buffer that holds them leaves the bytes
-- delivered at its start, in order, and the rest of the buffer as it was, and returns how many they are:
-- fewer than asked for when the file ends before.
pub read_delivers :
    (inputs : List Input) (buf : Bytes) (len : ℕ)
    → len < 2 ^ 31
    → len ≤ length buf
    → all_deliver inputs len ≡ true
    → hy_utils_read inputs buf len
      ≡ some (
        total (length (delivered inputs len)),
        delivered inputs len ++ drop (length (delivered inputs len)) buf,
      )
unfolding hy_utils_read
read_delivers inputs buf len w room h =
    fill_loop_delivers inputs len 0 buf (omega (arith, w)) (omega arith) h
    ∙ ap (λ (k : ℕ). some (total k, delivered inputs len ++ drop k buf))
        {x = 0 + length (delivered inputs len)} (omega arith)
