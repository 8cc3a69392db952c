-- ===== src/Base/Memory.antt =====
-- `memcpy` and `memset` on arrays of bytes, and chains of steps that may fault.
use Prim.Native.Nat.{ℕ, ◌+◌, ◌-◌, ◌≤◌, ◌<◌}
use mathlib.Core.Path.{◌≡◌, ap, ◌∙◌}
use mathlib.Core.Bool.{◌&&◌}
use mathlib.Core.List.{List, ◌++◌, append-nil}
use mathlib.Core.Option.{Option, none, some}
use native.Mathlib.Omega.{arith}
use libhy_utils_bak.Base.Tests.{ltb, leb, if◌then◌else◌}
use libhy_utils_bak.Base.Lists.{
  length, get_or, get_or_ext, take, drop, drop-length, replicate, length-append, length-take,
  length-drop, get_or-append, get_or-take, get_or-drop,
}

abbrev pub Bytes : Type 0
Bytes = List ℕ

-- `none` is an access outside an array, which C leaves undefined.
infixl 5 ◌>>=◌
abbrev pub ◌>>=◌ {ℓ κ} : {A : Type ℓ} {B : Type κ} → Option A → (A → Option B) → Option B
none >>= k = none
some a >>= k = k a

-- the bytes of `xs` over those of `dst` from `off` on
abbrev pub overwrite : Bytes → ℕ → Bytes → Bytes
overwrite dst off xs = take off dst ++ (xs ++ drop (off + length xs) dst)

-- `memcpy(dst + off, src + from, n)`
unfoldable pub memcpy : Bytes → ℕ → Bytes → ℕ → ℕ → Option Bytes
memcpy dst off src from n =
    if leb (off + n) (length dst) && leb (from + n) (length src)
    then some (overwrite dst off (take n (drop from src)))
    else none

-- `memset(dst, c, n)`
unfoldable pub memset : Bytes → ℕ → ℕ → Option Bytes
memset dst c n = if leb n (length dst) then some (overwrite dst 0 (replicate n c)) else none

pub length-overwrite :
    (dst : Bytes) (off : ℕ) (xs : Bytes)
    → off + length xs ≤ length dst
    → length (overwrite dst off xs) ≡ length dst
length-overwrite dst off xs h = omega (
  arith,
  length-append (take off dst) (xs ++ drop (off + length xs) dst),
  length-append xs (drop (off + length xs) dst),
  length-take off dst,
  length-drop (off + length xs) dst,
)

pub get_or-overwrite :
    (dst : Bytes) (off : ℕ) (xs : Bytes) (i : ℕ)
    → off + length xs ≤ length dst
    → get_or (overwrite dst off xs) i 0 ≡ (
        if ltb i off
        then get_or dst i 0
        else if ltb i (off + length xs)
        then get_or xs (i - off) 0
        else get_or dst i 0)
get_or-overwrite dst off xs i h = ground (
  arith,
  get_or-append (take off dst) (xs ++ drop (off + length xs) dst) i 0,
  get_or-append xs (drop (off + length xs) dst) (i - off) 0,
  get_or-take off dst i 0,
  get_or-drop (off + length xs) dst (i - off - length xs) 0,
  length-take off dst,
)

-- A copy inside both arrays does not fault, keeps the length, and moves exactly those bytes.
pub memcpy-overwrite :
    (dst : Bytes) (off : ℕ) (src : Bytes) (from n : ℕ)
    → off + n ≤ length dst
    → from + n ≤ length src
    → memcpy dst off src from n ≡ some (overwrite dst off (take n (drop from src)))
unfolding memcpy
memcpy-overwrite dst off src from n h k = ground arith

pub length-slice :
    (src : Bytes) (from n : ℕ) → from + n ≤ length src → length (take n (drop from src)) ≡ n
length-slice src from n h = omega (arith, length-take n (drop from src), length-drop from src)

pub get_or-slice :
    (src : Bytes) (from n i : ℕ)
    → i < n
    → get_or (take n (drop from src)) i 0 ≡ get_or src (from + i) 0
get_or-slice src from n i h =
    ground (arith, get_or-take n (drop from src) i 0, get_or-drop from src i 0)

-- A copy past the end of its destination faults.
pub memcpy-none :
    (dst : Bytes) (off : ℕ) (src : Bytes) (from n : ℕ)
    → length dst < off + n
    → memcpy dst off src from n ≡ none
unfolding memcpy
memcpy-none dst off src from n h = ground arith

-- An array that is written over whole is what was written.
pub overwrite-whole : (dst xs : Bytes) → length dst ≤ length xs → overwrite dst 0 xs ≡ xs
overwrite-whole dst xs h =
    ap (λ t. xs ++ t) (drop-length (0 + length xs) dst (omega arith)) ∙ append-nil xs

module _ (dst : Bytes) (off : ℕ) (xs : Bytes) (k : ℕ) (h : k ≤ length xs)
    (room : off + length xs ≤ length dst) where
  first_part : length (overwrite dst off (take k xs)) ≡ length dst
  first_part = length-overwrite dst off (take k xs) (omega (arith, length-take k xs))

  -- Two writes in a row are one.
  pub overwrite_more :
      overwrite (overwrite dst off (take k xs)) (off + k) (drop k xs) ≡ overwrite dst off xs
  overwrite_more =
      get_or_ext 0 (overwrite (overwrite dst off (take k xs)) (off + k) (drop k xs))
        (overwrite dst off xs)
        (omega (
          arith,
          first_part,
          length-overwrite (overwrite dst off (take k xs)) (off + k) (drop k xs)
              (omega (arith, first_part, length-drop k xs)),
          length-overwrite dst off xs room,
        ))
        (λ i l. ground (
          arith,
          length-take k xs,
          length-drop k xs,
          get_or-overwrite (overwrite dst off (take k xs)) (off + k) (drop k xs) i
              (omega (arith, first_part, length-drop k xs)),
          get_or-overwrite dst off (take k xs) i (omega (arith, length-take k xs)),
          get_or-overwrite dst off xs i room,
          get_or-take k xs (i - off) 0,
          get_or-drop k xs (i - (off + k)) 0,
          ap (λ (t : ℕ). get_or xs t 0) {x = k + (i - (off + k))} {y = i - off},
        ))
