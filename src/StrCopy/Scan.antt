-- ===== src/StrCopy/Scan.antt =====
-- The length of a string, and the loop down from its end.
use libhy_utils_bak.Base.{
  ℕ, zero, suc, ◌+◌, ◌<◌, ◌≤◌, ◌≡◌, refl, ap, ap₂, ◌∙◌, Bool, true, false, not, ◌&&◌, ◌||◌, some,
  [], ◌∷◌, ◌++◌, ltb, ◌==◌, if◌then◌else◌, Bytes, get_elem?, length, arith, get_elem?-append,
}
use libhy_utils_bak.StrCopy.{strlen, scan}

-- no byte is the NUL
abbrev pub no_nul : Bytes → Bool
no_nul [] = true
no_nul (b ∷ bs) = not (b == 0) && no_nul bs

-- no byte is a separator
abbrev pub no_ch : (ℕ → Bool) → Bytes → Bool
no_ch is_ch [] = true
no_ch is_ch (b ∷ bs) = not (is_ch b) && no_ch is_ch bs

pub strlen_lem : (xs more : Bytes) → no_nul xs ≡ true → strlen (xs ++ (0 ∷ more)) ≡ some (length xs)
unfolding strlen
strlen_lem [] more h = refl
strlen_lem (x ∷ xs) more h =
    let other : (x == 0) ≡ false = ground (arith, h) in
    rw other (rw (strlen_lem xs more (ground (arith, h))) refl)

-- a byte that the loop passes
pub record Passed (is_ch : ℕ → Bool) (src : Bytes) (k : ℕ) : Type 0 where
  pub b : ℕ
  pub there : get_elem? src k ≡ some b
  pub not_nul : (b == 0) ≡ false
  pub not_ch : is_ch b ≡ false

pub passed :
    (is_ch : ℕ → Bool) (ys more : Bytes) (k : ℕ)
    → no_nul ys ≡ true
    → no_ch is_ch ys ≡ true
    → k < length ys
    → Passed is_ch (ys ++ more) k
passed is_ch [] more k h c l = absurd (omega arith)
passed is_ch (y ∷ ys) more zero h c l = record {
  b = y;
  there = refl;
  not_nul = ground (arith, h);
  not_ch = ground (arith, c);
}
passed is_ch (y ∷ ys) more (suc k) h c l =
    let r = passed is_ch ys more k (ground (arith, h)) (ground (arith, c)) (omega arith) in
    record { b = r.b; there = r.there; not_nul = r.not_nul; not_ch = r.not_ch }

-- the same behind other bytes
pub Passed-behind :
    (is_ch : ℕ → Bool) (xs ys more : Bytes) (k : ℕ)
    → Passed is_ch (ys ++ more) k
    → Passed is_ch (xs ++ (ys ++ more)) (length xs + k)
Passed-behind is_ch xs ys more k r = record {
  b = r.b;
  there = get_elem?-append xs (ys ++ more) k ∙ r.there;
  not_nul = r.not_nul;
  not_ch = r.not_ch;
}

module _ (is_ch : ℕ → Bool) (src : Bytes) (src_len : ℕ) where
  scan_step :
      (p cnt : ℕ)
      → Passed is_ch src p
      → cnt < src_len
      → scan is_ch src src_len (suc p) cnt ≡ scan is_ch src src_len p (cnt + 1)
  unfolding scan
  scan_step p cnt r h =
      let more : ltb cnt src_len ≡ true = ground arith in
      rw (r.there) (rw (r.not_nul, more, r.not_ch) refl)

  pub scan_stop :
      (p cnt c : ℕ)
      → get_elem? src p ≡ some c
      → is_ch c ≡ true
      → scan is_ch src src_len (suc p) cnt ≡ some (suc p, cnt)
  unfolding scan
  scan_stop p cnt c e h = rw (e) (ends ((c == 0) || (not (ltb cnt src_len) || is_ch c)) holds)
    where
      holds : ((c == 0) || (not (ltb cnt src_len) || is_ch c)) ≡ true
      holds = ground (arith, h)

      ends :
          (b : Bool)
          → b ≡ true
          → (if b then some (suc p, cnt) else scan is_ch src src_len p (cnt + 1))
            ≡ some (suc p, cnt)
      ends b t = rw t refl

  -- The loop passes a stretch without separators.
  pub scan_down :
      (n lo cnt : ℕ)
      → ((k : ℕ) → k < n → Passed is_ch src (lo + k))
      → cnt + n ≤ src_len
      → scan is_ch src src_len (lo + n) cnt ≡ scan is_ch src src_len lo (cnt + n)
  scan_down zero lo cnt ok h = ap₂ (scan is_ch src src_len) (omega arith) (omega arith)
  scan_down (suc n) lo cnt ok h =
      ap (λ (t : ℕ). scan is_ch src src_len t cnt) {x = lo + suc n} {y = suc (lo + n)} (omega arith)
      ∙ (scan_step (lo + n) cnt (ok n (omega arith)) (omega arith)
          ∙ (scan_down n lo (cnt + 1) (λ k l. ok k (omega arith)) (omega arith)
              ∙ ap (scan is_ch src src_len lo) {x = cnt + 1 + n} {y = cnt + suc n} (omega arith)))

pub no_nul-append : (xs ys : Bytes) → no_nul (xs ++ ys) ≡ (no_nul xs && no_nul ys)
no_nul-append [] ys = refl
no_nul-append (x ∷ xs) ys = ground (arith, no_nul-append xs ys)
