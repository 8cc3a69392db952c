-- ===== src/Fifo/Run.antt =====
-- A client's calls in order, each buffer as long as its call says, against the queue.
use libhy_utils_bak.Base.{
  ℕ, ◌<◌, ◌≡◌, refl, ap₂, List, [], ◌∷◌, Option, some, none, arith, Bytes, length, take, drop,
  ◌>>=◌, overwrite, min, replicate, length-replicate, take-append, length-take, ◌≤◌, ◌+◌, ◌^◌,
}
use libhy_utils_bak.Fifo.{Fifo, hy_fifo_put, hy_fifo_get, hy_fifo_peek}
use libhy_utils_bak.Fifo.Queue
use libhy_utils_bak.Fifo.Queue.{Op, put, get, peek, Seen}
use libhy_utils_bak.Fifo.Window.{length-window}
use libhy_utils_bak.Fifo.Inv.{IsValid, used, contents}
use libhy_utils_bak.Fifo.Refine.{IsCounted, Left, put_appends, get_removes, peek_keeps}

-- what the client finds of the bytes that a read returned
abbrev seen : ℕ → Option Fifo → Option Bytes → Option (Seen × Fifo)
seen n (some f) (some dst) = some ((n, take n dst), f)
seen n _ _ = none

unfoldable pub call : Op → Fifo → Option (Seen × Fifo)
call (put src) f = do (n, f') ← hy_fifo_put f src (length src); some ((n, []), f')
call (get len) f = do
  (n, f', dst) ← hy_fifo_get (some f) (some (replicate len 0)) len
  seen n f' dst
call (peek len) f = do
  (n, f', dst) ← hy_fifo_peek (some f) (some (replicate len 0)) len
  seen n f' dst

unfoldable pub run : List Op → Fifo → Option (List Seen)
unfolding call
run [] f = some []
run (op ∷ ops) f = do (s, f') ← call op f; rest ← run ops f'; some (s ∷ rest)

-- a read asks for at least one byte, and its length fits 32 bits
abbrev pub Asks : Op → Type 0
Asks (put src) = Unit {0}
Asks (get len) = (0 < len) × (len < 2 ^ 32)
Asks (peek len) = (0 < len) × (len < 2 ^ 32)

abbrev pub AllAsk : List Op → Type 0
AllAsk [] = Unit {0}
AllAsk (op ∷ ops) = Asks op × AllAsk ops

take-overwrite : (dst xs : Bytes) (n : ℕ) → length xs ≡ n → take n (overwrite dst 0 xs) ≡ xs
take-overwrite dst xs n e = take-append n xs (drop (0 + length xs) dst) e

record Agrees (f : Fifo) (op : Op) : Type 0 where
  after : Fifo
  left : Left after f.size (Queue.step f.size op (contents f)).1
  replies : call op f ≡ some ((Queue.step f.size op (contents f)).0, after)

module _ {f : Fifo} (v : IsValid f) (c : IsCounted f) where
  held : length (contents f) ≡ used f
  held = length-window f.buf f.size f.out_pos (used f)

  -- the bytes that a read of `len` finds, behind the count that it returns
  found :
      (len : ℕ)
      → take
          (min len (used f))
          (overwrite (replicate len 0) 0 (take (min len (used f)) (contents f)))
        ≡ take (min len (used f)) (contents f)
  found len =
      take-overwrite (replicate len 0) (take (min len (used f)) (contents f)) (min len (used f))
        (omega (arith, length-take (min len (used f)) (contents f), held))

  room : (len : ℕ) → min len (used f) ≤ length {A = ℕ} (replicate len 0)
  room len = omega (arith, length-replicate {A = ℕ} len 0)

  call-Agrees : (op : Op) → Asks op → Agrees f op
  unfolding call
  call-Agrees (put src) ok =
      let (f', e, left) = put_appends v src (length src) c (omega arith) in
      record { after = f'; left = rw held left; replies = rw (e, held) refl }
  call-Agrees (get len) ok =
      let (f', e, left) = get_removes v (replicate len 0) len c ok.0 ok.1 (room len) in
      record { after = f'; left = rw held left; replies = rw e (rw (found len, held) refl) }
  call-Agrees (peek len) ok = record {
    after = f;
    left = record { valid = v; counted = c; same_size = refl; holds = refl };
    replies =
        rw (peek_keeps v (replicate len 0) len ok.0 ok.1 (room len)) (rw (found len, held) refl);
  }

-- No sequence of puts of whole buffers, and of gets and peeks of at least one and fewer than 2^32
-- bytes, tells a valid ring whose counter is right from the bounded queue of its contents: every
-- call returns the length and the bytes of the queue, and none of them faults.
pub run_refines :
    (ops : List Op) {f : Fifo}
    → IsValid f
    → IsCounted f
    → AllAsk ops
    → run ops f ≡ some (Queue.run f.size ops (contents f))
unfolding run
run_refines [] v c ok = refl
run_refines (op ∷ ops) {f} v c ok =
    let agrees : Agrees f op = call-Agrees v c op ok.0 in
    let l = agrees.left in
    rw agrees.replies (
      rw (run_refines ops l.valid l.counted ok.1) (
        ap₂ (λ size q. some ((Queue.step f.size op (contents f)).0 ∷ Queue.run size ops q))
          l.same_size l.holds))
