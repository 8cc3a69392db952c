-- ===== src/Fifo/Refine.antt =====
-- A valid ring behaves as the queue of the bytes that it holds.
use libhy_utils_bak.Base.{
  ℕ, ◌+◌, ◌-◌, ◌^◌, ◌≤◌, ◌<◌, ◌≡◌, refl, ap, ◌∙◌, false, some, ◌++◌, arith, ◌==◌, Bytes, length,
  take, drop, overwrite, min, replicate, length-replicate,
}
use libhy_utils_bak.Fifo.{
  Fifo, get_data_com, hy_fifo_put, hy_fifo_get, hy_fifo_peek, hy_fifo_update_out,
}
use libhy_utils_bak.Fifo.Inv.{IsValid, used, contents, size_bounds}
use libhy_utils_bak.Fifo.Put.{
  accepted, after_put, hy_fifo_put_lem, used-after_put, after_put-IsValid, contents-after_put,
}
use libhy_utils_bak.Fifo.Get.{
  delivered, get_data_com_lem, after_get, after_update, used-after_update, after_update-IsValid,
  after_get-IsValid, contents-after_update,
}

-- `use_cnt` is the number of bytes held.
abbrev pub IsCounted : Fifo → Type 0
IsCounted f = f.use_cnt ≡ used f

-- what a call leaves behind
pub record Left (f : Fifo) (size : ℕ) (bytes : Bytes) : Type 0 where
  pub valid : IsValid f
  pub counted : IsCounted f
  pub same_size : f.size ≡ size
  pub holds : contents f ≡ bytes

accepted-min : (f : Fifo) (len : ℕ) → accepted f len ≡ min len (f.size - used f)
accepted-min f len = ground arith

delivered-min : (f : Fifo) (len : ℕ) → len < 2 ^ 32 → delivered f len ≡ min len (used f)
delivered-min f len h = ground arith

nonzero : (len : ℕ) → 0 < len → (len == 0) ≡ false
nonzero len h = ground arith

module _ {f : Fifo} (v : IsValid f) where
  -- `HyFifoPut` to a valid ring whose counter is right, given at least `len` bytes, returns how
  -- many fit, appends exactly those in order, leaves such a ring, and reads and writes inside
  -- both arrays.
  pub put_appends :
      (src : Bytes) (len : ℕ)
      → IsCounted f
      → len ≤ length src
      → (f' : Fifo) × (hy_fifo_put f src len ≡ some (min len (f.size - used f), f'))
        × Left f' f.size (contents f ++ take (min len (f.size - used f)) src)
  put_appends src len c given =
      let n : ℕ = min len (f.size - used f) in
      let fits : used f + n ≤ f.size = omega (arith, v.held) in
      let enough : n ≤ length src = omega arith in
      (
        after_put f src n,
        hy_fifo_put_lem v src len given
            ∙ ap (λ k. some (k, after_put f src k)) (accepted-min f len),
        record {
          valid = after_put-IsValid v src n fits enough;
          counted = omega (arith, used-after_put v src n fits enough, v.held, size_bounds v);
          same_size = refl;
          holds = contents-after_put v src n fits enough;
        },
      )

  read :
      (dst : Bytes) (len : ℕ)
      → len < 2 ^ 32
      → min len (used f) ≤ length dst
      → get_data_com f dst len
        ≡ some (min len (used f), overwrite dst 0 (take (min len (used f)) (contents f)))
  read dst len word room =
      get_data_com_lem v dst len (omega (arith, delivered-min f len))
      ∙ ap (λ k. some (k, overwrite dst 0 (take k (contents f)))) (delivered-min f len word)

  -- `HyFifoGet` from a valid ring whose counter is right, of at least one and fewer than 2^32
  -- bytes, with room for those there are, returns how many there were, leaves exactly the oldest
  -- ones at the start of the caller's buffer and the rest of it as it was, and removes them from
  -- the ring, which stays such a ring.
  pub get_removes :
      (dst : Bytes) (len : ℕ)
      → IsCounted f
      → 0 < len
      → len < 2 ^ 32
      → min len (used f) ≤ length dst
      → (f' : Fifo) × (hy_fifo_get (some f) (some dst) len
          ≡ some (
            min len (used f),
            some f',
            some (overwrite dst 0 (take (min len (used f)) (contents f))),
          ))
        × Left f' f.size (drop (min len (used f)) (contents f))
  unfolding hy_fifo_get
  get_removes dst len c asked word room =
      let n : ℕ = min len (used f) in
      let held : n ≤ used f = omega arith in
      (
        after_get f n,
        rw (nonzero len asked) (rw (read dst len word room) refl),
        record {
          valid = after_get-IsValid v n held;
          counted = omega (arith, used-after_update v n held, v.held, size_bounds v);
          same_size = refl;
          holds = contents-after_update v n held;
        },
      )

  -- `HyFifoPeek` of a valid ring, under the conditions of a get on length and room, delivers the
  -- oldest bytes at the start of the caller's buffer, and changes nothing else.
  pub peek_keeps :
      (dst : Bytes) (len : ℕ)
      → 0 < len
      → len < 2 ^ 32
      → min len (used f) ≤ length dst
      → hy_fifo_peek (some f) (some dst) len
        ≡ some (
          min len (used f),
          some f,
          some (overwrite dst 0 (take (min len (used f)) (contents f))),
        )
  unfolding hy_fifo_peek
  peek_keeps dst len asked word room = rw (nonzero len asked) (rw (read dst len word room) refl)

  -- `HyFifoUpdateOut` on a valid ring, for at least one and fewer than 2^32 bytes, drops as many
  -- of the oldest bytes as there are, if those are at most the 1024 of its local array, and
  -- leaves the counter as it was.
  pub update_out_drops :
      (len : ℕ)
      → 0 < len
      → len < 2 ^ 32
      → min len (used f) ≤ 1024
      → (f' : Fifo) × (hy_fifo_update_out (some f) len ≡ some (min len (used f), some f'))
        × IsValid f'
        × (contents f' ≡ drop (min len (used f)) (contents f))
        × (f'.use_cnt ≡ f.use_cnt)
  unfolding hy_fifo_update_out
  update_out_drops len asked word room =
      let n : ℕ = min len (used f) in
      let held : n ≤ used f = omega arith in
      (
        after_update f n,
        rw (nonzero len asked) (
            rw (read (replicate 1024 0) len word (omega (arith, length-replicate {A = ℕ} 1024 0)))
              refl),
        after_update-IsValid v n held,
        contents-after_update v n held,
        refl,
      )
