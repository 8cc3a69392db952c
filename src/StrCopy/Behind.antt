-- ===== src/StrCopy/Behind.antt =====
-- What the copy is when there is a separator, and that it faults when there is none.
use mathlib.Core.List.{append_assoc}
use libhy_utils_bak.Base.{
  ℕ, suc, ◌+◌, ◌-◌, ◌^◌, ◌<◌, ◌≤◌, ◌≡◌, refl, sym, ap, ap₂, ◌∙◌, Bool, true, ◌||◌, none, some, [],
  ◌∷◌, ◌++◌, leb, ◌==◌, ==_refl, if◌then◌else◌, Bytes, get_elem?, memcpy, memset, sub_mod, length,
  arith, take, take-append_left, drop, replicate, min, length-append, get_elem?-append, drop-append,
  overwrite, length-replicate, length-overwrite, memcpy-overwrite,
}
use libhy_utils_bak.StrCopy.{strlen, scan, copy_right, hy_str_copy_right, hy_str_copy_right2}
use libhy_utils_bak.StrCopy.Scan.{
  no_nul, no_ch, strlen_lem, passed, Passed-behind, scan_stop, scan_down, no_nul-append,
}

-- `memset` of the whole array, and the text over its start
abbrev pub copied : Bytes → ℕ → Bytes → Bytes
copied dst len text = overwrite (overwrite dst 0 (replicate len 0)) 0 text

copy_steps :
    (is_ch : ℕ → Bool) (src dst zeroed out : Bytes) (len n p cnt : ℕ)
    → memset dst 0 len ≡ some zeroed
    → strlen src ≡ some n
    → scan is_ch src n n 0 ≡ some (p, cnt)
    → memcpy zeroed 0 src p (if leb len cnt then sub_mod (2 ^ 64) len 1 else cnt) ≡ some out
    → copy_right is_ch src dst len ≡ some out
unfolding copy_right
copy_steps is_ch src dst zeroed out len n p cnt a b c d = rw a (rw b (rw c d))

memset_lem :
    (dst : Bytes) (len : ℕ)
    → len ≤ length dst
    → memset dst 0 len ≡ some (overwrite dst 0 (replicate len 0))
unfolding memset
memset_lem dst len h = ground arith

module _ (is_ch : ℕ → Bool) (pre suf more : Bytes) (c : ℕ) where
  copy_right_lem :
      (dst : Bytes) (len : ℕ)
      → is_ch c ≡ true
      → no_nul (pre ++ (c ∷ [])) ≡ true
      → no_nul suf ≡ true
      → no_ch is_ch suf ≡ true
      → 0 < len
      → len ≤ length dst
      → length dst < 2 ^ 64
      → copy_right is_ch ((pre ++ (c ∷ [])) ++ (suf ++ (0 ∷ more))) dst len
        ≡ some (copied dst len (take (min (length suf) (len - 1)) suf))
  copy_right_lem dst len sep h k free pos fits word =
      copy_steps is_ch src dst zeroed (copied dst len (take n suf)) len (length xs + length suf)
        (suc (length pre)) (0 + length suf) cleared measured scanned
        (ap (memcpy zeroed 0 src (suc (length pre))) {y = n} (ground arith)
          ∙ (memcpy-overwrite zeroed 0 src (suc (length pre)) n (omega (arith, zeroed_size))
                (omega (arith, src_size, front_size))
              ∙ ap (λ (t : Bytes). some (overwrite zeroed 0 t)) text))
    where
      xs : Bytes
      xs = pre ++ (c ∷ [])

      src : Bytes
      src = xs ++ (suf ++ (0 ∷ more))

      n : ℕ
      n = min (length suf) (len - 1)

      zeroed : Bytes
      zeroed = overwrite dst 0 (replicate len 0)

      front_size : length xs ≡ suc (length pre)
      front_size = omega (arith, length-append pre (c ∷ []))

      src_size : length xs + length suf < length src
      src_size = omega (arith, length-append xs (suf ++ (0 ∷ more)), length-append suf (0 ∷ more))

      zeroed_size : length zeroed ≡ length dst
      zeroed_size =
          length-overwrite dst 0 (replicate len 0) (omega (arith, length-replicate {A = ℕ} len 0))

      cleared : memset dst 0 len ≡ some zeroed
      cleared = memset_lem dst len fits

      measured : strlen src ≡ some (length xs + length suf)
      measured =
          ap strlen (sym (append_assoc xs suf (0 ∷ more)))
          ∙ (strlen_lem (xs ++ suf) more (ground (arith, h, k, no_nul-append xs suf))
              ∙ ap some (length-append xs suf))

      at_ch : get_elem? src (length pre) ≡ some c
      at_ch =
          ap₂ get_elem? {u = length pre} {v = length pre + 0}
            (append_assoc pre (c ∷ []) (suf ++ (0 ∷ more))) (omega arith)
          ∙ get_elem?-append pre (c ∷ (suf ++ (0 ∷ more))) 0

      scanned :
          scan is_ch src (length xs + length suf) (length xs + length suf) 0
          ≡ some (suc (length pre), 0 + length suf)
      scanned =
          scan_down is_ch src (length xs + length suf) (length suf) (length xs) 0
            (λ i l.
              Passed-behind is_ch xs suf (0 ∷ more) i (passed is_ch suf (0 ∷ more) i k free l))
            (omega arith)
          ∙ (ap (λ (t : ℕ). scan is_ch src (length xs + length suf) t (0 + length suf)) front_size
              ∙ scan_stop is_ch src (length xs + length suf) (length pre) (0 + length suf) c at_ch
                  sep)

      text : take n (drop (suc (length pre)) src) ≡ take n suf
      text =
          ap (λ (t : ℕ). take n (drop t src)) {x = suc (length pre)} {y = length xs + 0}
            (omega (arith, front_size))
          ∙ (ap (take n) (drop-append xs (suf ++ (0 ∷ more)) 0)
              ∙ take-append_left n suf (0 ∷ more) (omega arith))

-- `HyStrCopyRight` of a string leaves in the first `len` bytes of the destination what stands behind
-- the last separator, cut to `len - 1` bytes, with zeros behind, and nothing changed from there on.
pub hy_str_copy_right-copied :
    (pre suf more dst : Bytes) (len ch : ℕ)
    → no_nul (pre ++ (ch ∷ [])) ≡ true
    → no_nul suf ≡ true
    → no_ch (λ b. b == ch) suf ≡ true
    → 0 < len
    → len ≤ length dst
    → length dst < 2 ^ 64
    → hy_str_copy_right (some ((pre ++ (ch ∷ [])) ++ (suf ++ (0 ∷ more)))) (some dst) len ch
      ≡ some (some (copied dst len (take (min (length suf) (len - 1)) suf)))
unfolding hy_str_copy_right
hy_str_copy_right-copied pre suf more dst len ch h k free pos fits word =
    rw (copy_right_lem (λ b. b == ch) pre suf more ch dst len (==_refl ch) h k free pos fits word)
      refl

fault_steps :
    (is_ch : ℕ → Bool) (src dst zeroed : Bytes) (len n : ℕ)
    → memset dst 0 len ≡ some zeroed
    → strlen src ≡ some n
    → scan is_ch src n n 0 ≡ none
    → copy_right is_ch src dst len ≡ none
unfolding copy_right
fault_steps is_ch src dst zeroed len n a b c = rw a (rw b (rw c refl))

copy_right-none :
    (is_ch : ℕ → Bool) (s more dst : Bytes) (len : ℕ)
    → no_nul s ≡ true
    → no_ch is_ch s ≡ true
    → len ≤ length dst
    → copy_right is_ch (s ++ (0 ∷ more)) dst len ≡ none
unfolding scan
copy_right-none is_ch s more dst len h free fits =
    fault_steps is_ch (s ++ (0 ∷ more)) dst (overwrite dst 0 (replicate len 0)) len (length s)
      (memset_lem dst len fits) (strlen_lem s more h)
      (ap (λ (t : ℕ). scan is_ch (s ++ (0 ∷ more)) (length s) t 0) {x = length s} {y = 0 + length s}
          (omega arith)
        ∙ scan_down is_ch (s ++ (0 ∷ more)) (length s) (length s) 0 0
            (λ i l. Passed-behind is_ch [] s (0 ∷ more) i (passed is_ch s (0 ∷ more) i h free l))
            (omega arith))

-- Of a string without the separator, the empty string among them, `HyStrCopyRight` reads the byte
-- before the string, and `HyStrCopyRight2` does of a string without both of its own.
pub hy_str_copy_right_faults :
    (s more dst : Bytes) (len ch ch2 : ℕ)
    → no_nul s ≡ true
    → no_ch (λ b. b == ch) s ≡ true
    → no_ch (λ b. (b == ch) || (b == ch2)) s ≡ true
    → len ≤ length dst
    → (hy_str_copy_right (some (s ++ (0 ∷ more))) (some dst) len ch ≡ none)
      × (hy_str_copy_right2 (some (s ++ (0 ∷ more))) (some dst) len ch ch2 ≡ none)
unfolding hy_str_copy_right hy_str_copy_right2
hy_str_copy_right_faults s more dst len ch ch2 h free free2 fits = (
  rw (copy_right-none (λ b. b == ch) s more dst len h free fits) refl,
  rw (copy_right-none (λ b. (b == ch) || (b == ch2)) s more dst len h free2 fits) refl,
)
