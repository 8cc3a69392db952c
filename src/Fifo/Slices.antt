-- ===== src/Fifo/Slices.antt =====
-- The two copies of a read, and the two stretches of a ring that a window covers.
use native.Mathlib.Nat.{mod-lt}
use libhy_utils_bak.Bits.{mod_turn}
use libhy_utils_bak.Base.{
  ℕ, ◌+◌, ◌-◌, ◌%◌, ◌≤◌, ◌<◌, ◌≡◌, ◌++◌, arith, ltb, if◌then◌else◌, Bytes, length, get_or, take,
  drop, overwrite, length-overwrite, get_or-overwrite, length-slice, get_or-slice, get_or_ext,
  length-append, get_or-append,
}
use libhy_utils_bak.Fifo.Window.{window, length-window, get_or-window, first_part}

-- The two copies of a read.
module _ (buf : Bytes) (size pos : ℕ) (whole : length buf ≡ size) (some_room : 0 < size) where
  abbrev pub get_first : Bytes → ℕ → Bytes
  get_first dst n = overwrite dst 0 (take (first_part size (pos % size) n) (drop (pos % size) buf))

  -- the two copies of a read
  abbrev pub get_round : Bytes → ℕ → Bytes
  get_round dst n =
      overwrite (get_first dst n) (first_part size (pos % size) n)
        (take (n - first_part size (pos % size) n) (drop 0 buf))

  module _ (dst : Bytes) (n : ℕ) (fits : n ≤ size) (given : n ≤ length dst) where
    pub length-get_first : length (get_first dst n) ≡ length dst
    length-get_first = ground (
      arith,
      mod-lt pos {m = size},
      length-slice buf (pos % size) (first_part size (pos % size) n),
      length-overwrite dst 0 (take (first_part size (pos % size) n) (drop (pos % size) buf)),
    )

    length-get_round : length (get_round dst n) ≡ length dst
    length-get_round = ground (
      arith,
      length-get_first,
      mod-lt pos {m = size},
      length-slice buf 0 (n - first_part size (pos % size) n),
      length-overwrite (get_first dst n) (first_part size (pos % size) n)
          (take (n - first_part size (pos % size) n) (drop 0 buf)),
    )

    get_or-get_round :
        (i : ℕ)
        → get_or (get_round dst n) i 0 ≡ (
            if ltb i n
            then get_or buf
                (if ltb (pos % size + i) size then pos % size + i else pos % size + i - size)
                0
            else get_or dst i 0)
    get_or-get_round i = ground (
      arith,
      length-get_first,
      mod-lt pos {m = size},
      length-slice buf (pos % size) (first_part size (pos % size) n),
      length-slice buf 0 (n - first_part size (pos % size) n),
      get_or-overwrite (get_first dst n) (first_part size (pos % size) n)
          (take (n - first_part size (pos % size) n) (drop 0 buf)) i,
      get_or-overwrite dst 0 (take (first_part size (pos % size) n) (drop (pos % size) buf)) i,
      get_or-slice buf (pos % size) (first_part size (pos % size) n) i,
      get_or-slice buf 0 (n - first_part size (pos % size) n) (i - first_part size (pos % size) n),
    )

    -- The two copies of a read give the bytes of the window.
    pub window-get_round : get_round dst n ≡ overwrite dst 0 (window buf size pos n)
    window-get_round =
        get_or_ext 0 _ _
          (omega (
            arith,
            length-get_round,
            length-overwrite dst 0 (window buf size pos n),
            length-window buf size pos n,
          ))
          λ i h. ground (
            arith,
            get_or-get_round i,
            length-window buf size pos n,
            get_or-overwrite dst 0 (window buf size pos n) i,
            get_or-window buf size pos n i,
            mod_turn pos i size,
          )

-- The two stretches of a ring that a window covers.
pub window_slices :
    (buf : Bytes) (size pos : ℕ)
    → length buf ≡ size
    → 0 < size
    → (n : ℕ) → n ≤ size
    → take (first_part size (pos % size) n) (drop (pos % size) buf)
        ++ take (n - first_part size (pos % size) n) (drop 0 buf)
      ≡ window buf size pos n
window_slices buf size pos whole room n fits =
    let o : ℕ = pos % size in
    let t : ℕ = first_part size o n in
    let inside : o < size = mod-lt pos room in
    let l1 : length (take t (drop o buf)) ≡ t = length-slice buf o t (ground arith) in
    let l2 : length (take (n - t) (drop 0 buf)) ≡ n - t =
      length-slice buf 0 (n - t) (ground arith) in
    get_or_ext 0 _ _
      (ground (
        arith,
        length-append (take t (drop o buf)) (take (n - t) (drop 0 buf)),
        length-window buf size pos n,
      ))
      λ i h. ground (
        arith,
        length-append (take t (drop o buf)) (take (n - t) (drop 0 buf)),
        get_or-append (take t (drop o buf)) (take (n - t) (drop 0 buf)) i 0,
        get_or-slice buf o t i,
        get_or-slice buf 0 (n - t) (i - t),
        get_or-window buf size pos n i,
        mod_turn pos i size,
      )
