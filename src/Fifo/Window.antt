-- ===== src/Fifo/Window.antt =====
-- The bytes that a ring holds, and the two copies that go round its end.
use native.Mathlib.Nat.{mod-lt, mod-add-mod}
use libhy_utils_bak.Bits.{mod_turn}
use libhy_utils_bak.Base.{
  ℕ, zero, suc, ◌+◌, ◌-◌, ◌%◌, ◌≤◌, ◌<◌, ◌≡◌, refl, ap, ap₂, ◌∙◌, [], ◌∷◌, ◌++◌, arith, ltb, leb,
  if◌then◌else◌, Bytes, length, get_or, take, drop, overwrite, length-overwrite, get_or-overwrite,
  length-slice, get_or-slice, get_or_ext, length-append, length-take, get_or-append, get_or-take,
}

-- the `n` bytes from position `pos` on, each position taken modulo `size`
abbrev pub window : Bytes → ℕ → ℕ → ℕ → Bytes
window buf size pos zero = []
window buf size pos (suc n) = get_or buf (pos % size) 0 ∷ window buf size (pos + 1) n

pub length-window : (buf : Bytes) (size pos n : ℕ) → length (window buf size pos n) ≡ n
length-window buf size pos zero = refl
length-window buf size pos (suc n) = ap suc (length-window buf size (pos + 1) n)

pub get_or-window :
    (buf : Bytes) (size pos n i : ℕ)
    → i < n
    → get_or (window buf size pos n) i 0 ≡ get_or buf ((pos + i) % size) 0
get_or-window buf size pos zero i h = absurd (omega arith)
get_or-window buf size pos (suc n) zero h = ap (λ k. get_or buf (k % size) 0) (omega arith)
get_or-window buf size pos (suc n) (suc i) h = ground (
  arith,
  get_or-window buf size (pos + 1) n i,
  ap (λ (k : ℕ). k % size) {x = pos + 1 + i} {y = pos + suc i} (omega arith),
)

-- `memcpy` to `start` up to the end of the ring, then to its beginning
abbrev pub first_part : ℕ → ℕ → ℕ → ℕ
first_part size start n = if ltb n (size - start) then n else size - start

abbrev pub put_first : Bytes → ℕ → ℕ → Bytes → ℕ → Bytes
put_first buf size start src n = overwrite buf start (take (first_part size start n) (drop 0 src))

abbrev pub put_round : Bytes → ℕ → ℕ → Bytes → ℕ → Bytes
put_round buf size start src n =
    overwrite (put_first buf size start src n) 0
      (take (n - first_part size start n) (drop (first_part size start n) src))

-- how far an index lies behind `start`, going round
abbrev pub behind : ℕ → ℕ → ℕ → ℕ
behind size start i = if leb start i then i - start else i + size - start

module _ (buf : Bytes) (size start : ℕ) (src : Bytes) (n : ℕ) (whole : length buf ≡ size)
    (inside : start < size) (fits : n ≤ size) (given : n ≤ length src) where
  pub length-put_first : length (put_first buf size start src n) ≡ size
  length-put_first = ground (
    arith,
    length-slice src 0 (first_part size start n),
    length-overwrite buf start (take (first_part size start n) (drop 0 src)),
  )

  pub length-put_round : length (put_round buf size start src n) ≡ size
  length-put_round = ground (
    arith,
    length-put_first,
    length-slice src (first_part size start n) (n - first_part size start n),
    length-overwrite (put_first buf size start src n) 0
        (take (n - first_part size start n) (drop (first_part size start n) src)),
  )

  -- After both copies each index holds the byte that its distance from `start` selects.
  pub get_or-put_round :
      (i : ℕ)
      → i < size
      → get_or (put_round buf size start src n) i 0 ≡ (
          if ltb (behind size start i) n
          then get_or src (behind size start i) 0
          else get_or buf i 0)
  get_or-put_round i h = ground (
    arith,
    length-put_first,
    length-slice src 0 (first_part size start n),
    length-slice src (first_part size start n) (n - first_part size start n),
    get_or-overwrite (put_first buf size start src n) 0
        (take (n - first_part size start n) (drop (first_part size start n) src)) i,
    get_or-overwrite buf start (take (first_part size start n) (drop 0 src)) i,
    get_or-slice src 0 (first_part size start n) (i - start),
    get_or-slice src (first_part size start n) (n - first_part size start n) i,
  )

-- Positions that are the same round the ring hold the same bytes.
pub window_same :
    (buf : Bytes) (size p q n : ℕ) → p % size ≡ q % size → window buf size p n ≡ window buf size q n
window_same buf size p q zero e = refl
window_same buf size p q (suc n) e = ap₂ ◌∷◌ (ap (λ k. get_or buf k 0) e) (
    window_same buf size (p + 1) (q + 1) n (rw (← mod-add-mod p size 1, ← mod-add-mod q size 1, e)))

pub window-drop :
    (buf : Bytes) (size pos n m : ℕ)
    → window buf size (pos + n) (m - n) ≡ drop n (window buf size pos m)
window-drop buf size pos zero m = ap₂ (λ a b. window buf size a b) (omega arith) (omega arith)
window-drop buf size pos (suc n) zero =
    ap (window buf size (pos + suc n)) {x = 0 - suc n} {y = 0} (omega arith)
window-drop buf size pos (suc n) (suc m) =
    ap₂ (λ a b. window buf size a b) (omega arith) (omega arith)
    ∙ window-drop buf size (pos + 1) n m

pub window-take :
    (buf : Bytes) (size pos n m : ℕ)
    → n ≤ m
    → window buf size pos n ≡ take n (window buf size pos m)
window-take buf size pos zero m h = refl
window-take buf size pos (suc n) zero h = absurd (omega arith)
window-take buf size pos (suc n) (suc m) h =
    ap (λ t. get_or buf (pos % size) 0 ∷ t) (window-take buf size (pos + 1) n m (omega arith))

-- where the `i`th position of a window lies behind the window's end
behind_window :
    (size pos used i : ℕ)
    → 0 < size
    → used ≤ size
    → i < size
    → behind size ((pos + used) % size) ((pos + i) % size)
      ≡ (if ltb i used then size - used + i else i - used)
behind_window size pos used i room h k =
    ground (arith, mod_turn pos used size, mod_turn pos i size, mod-lt pos {m = size})

module _ (buf : Bytes) (size pos : ℕ) (whole : length buf ≡ size) (some_room : 0 < size) where
  put_round_at :
      (used start : ℕ) (src : Bytes) (n i : ℕ)
      → used + n ≤ size
      → n ≤ length src
      → start ≡ (pos + used) % size
      → i < used + n
      → get_or (put_round buf size start src n) ((pos + i) % size) 0
        ≡ (if ltb i used then get_or buf ((pos + i) % size) 0 else get_or src (i - used) 0)
  put_round_at used start src n i fits given e h =
      rw
        (
          e,
          get_or-put_round buf size ((pos + used) % size) src n whole
              (mod-lt (pos + used) some_room) (omega arith) given ((pos + i) % size)
              (mod-lt (pos + i) some_room),
        )
        (ground (arith, behind_window size pos used i))

  -- Bytes put where a window ends extend it.
  pub window-put_round :
      (used start : ℕ) (src : Bytes) (n : ℕ)
      → used + n ≤ size
      → n ≤ length src
      → start ≡ (pos + used) % size
      → window (put_round buf size start src n) size pos (used + n)
        ≡ window buf size pos used ++ take n src
  window-put_round used start src n fits given e =
      get_or_ext 0 _ _
        (omega (
          arith,
          length-window (put_round buf size start src n) size pos (used + n),
          length-append (window buf size pos used) (take n src),
          length-window buf size pos used,
          length-take n src,
        ))
        λ i h. ground (
          arith,
          length-window (put_round buf size start src n) size pos (used + n),
          length-window buf size pos used,
          get_or-append (window buf size pos used) (take n src) i 0,
          get_or-take n src (i - used) 0,
          get_or-window (put_round buf size start src n) size pos (used + n) i,
          get_or-window buf size pos used i,
          put_round_at used start src n i,
        )
