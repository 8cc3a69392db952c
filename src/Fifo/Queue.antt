-- ===== src/Fifo/Queue.antt =====
-- What a byte ring promises: a queue of at most `cap` bytes, oldest first.
use libhy_utils_bak.Base.{ℕ, ◌-◌, List, [], ◌∷◌, ◌++◌, Bytes, length, take, drop, min}

-- A call of a client, and what it sees of it: the length that is returned and the bytes.
pub data Op : Type 0 where
  put : Bytes → Op
  get peek : ℕ → Op

abbrev pub Seen : Type 0
Seen = ℕ × Bytes

module _ (cap : ℕ) where
  -- A put takes the bytes that fit; a get removes the oldest, a peek leaves them.
  abbrev pub step : Op → Bytes → Seen × Bytes
  step (put src) q = let n = min (length src) (cap - length q) in ((n, []), q ++ take n src)
  step (get len) q = let n = min len (length q) in ((n, take n q), drop n q)
  step (peek len) q = let n = min len (length q) in ((n, take n q), q)

  abbrev pub run : List Op → Bytes → List Seen
  run [] q = []
  run (op ∷ ops) q = let (seen, q') = step op q in seen ∷ run ops q'
