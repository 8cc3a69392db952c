-- ===== src/AtUtils/Ring.antt =====
-- What the AT command engine needs of its byte ring and of its blocks, and that src/hy_fifo.c gives it.
use native.Mathlib.Decide.{dec_le}
use libhy_utils_bak.Fifo.Window.{length-window}
use libhy_utils_bak.Base.{
  true, sym, ℕ, ◌<◌, ◌≤◌, ◌≡◌, refl, ap, ◌∙◌, Option, none, some, [], ◌>>=◌, Bytes, length, take,
  drop, min, arith, overwrite, drop-length,
}
use libhy_utils_bak.Fifo.{
  Fifo, hy_fifo_put, hy_fifo_peek, hy_fifo_update_out, hy_fifo_clean, hy_fifo_create, used_len,
  hy_fifo_get_info,
}
use libhy_utils_bak.Fifo.Inv.{IsValid, contents, used}
use libhy_utils_bak.Fifo.Refine.{peek_keeps, update_out_drops}
use libhy_utils_bak.Fifo.Info.{clean_empties}
use libhy_utils_bak.AtUtils.{BufUnion, Env}

-- A ring as a queue of bytes, on the rings that are well formed; a block has the length asked for.
pub record IsEnv (env : Env) : Type 1 where
  pub IsGood : env.Ring → Type 0
  pub queue : env.Ring → Bytes
  pub peek :
      (r : env.Ring) (buf : Bytes) (n : ℕ)
      → IsGood r
      → 0 < n
      → n ≤ 200
      → n ≤ length buf
      → env.fifo_peek r buf n
        ≡ some
            (min n (length (queue r)), overwrite buf 0 (take (min n (length (queue r))) (queue r)))
  pub update_out :
      (r : env.Ring) (n : ℕ)
      → IsGood r
      → 0 < n
      → n ≤ 1024
      → (r' : env.Ring) × (env.fifo_update_out r n ≡ some r')
        × IsGood r'
        × (queue r' ≡ drop n (queue r))
  pub clean :
      (r : env.Ring)
      → IsGood r
      → (r' : env.Ring) × (env.fifo_clean r ≡ some r') × IsGood r' × (queue r' ≡ [])
  pub create_size :
      (n : ℕ) (u : BufUnion) → env.buf_union_create n ≡ some u → (u.len ≡ n) × (length u.buf ≡ n)

-- The ring of src/hy_fifo.c, whose used length is the counter that it keeps, and a library of blocks.
abbrev pub fifo_env : (ℕ → Option BufUnion) → Env
fifo_env buf_union_create = record {
  Ring = Fifo;
  fifo_create = λ n. hy_fifo_create true true (some n) >>= λ r. r;
  fifo_put = hy_fifo_put;
  fifo_peek = λ f buf n. hy_fifo_peek (some f) (some buf) n >>= λ r. r.2 >>= λ out. some (r.0, out);
  fifo_update_out = λ f n. hy_fifo_update_out (some f) n >>= λ r. r.1;
  fifo_used_len = λ f. elim (hy_fifo_get_info (some f) used_len (some 0)) [ none ↦ 0 | some n ↦ n ];
  fifo_clean = λ f. hy_fifo_clean (some f) >>= λ r. r;
  buf_union_create = buf_union_create;
}

pub length-contents : {f : Fifo} → IsValid f → length (contents f) ≡ used f
length-contents {f} v = length-window f.buf f.size f.out_pos (used f)

drop-min : (n : ℕ) (xs : Bytes) → drop (min n (length xs)) xs ≡ drop n xs
drop-min n xs = elim (dec_le n (length xs)) [
  | yes h ↦ ap (λ (k : ℕ). drop k xs) {x = min n (length xs)} {y = n} (omega arith)
  | no h ↦ drop-length (min n (length xs)) xs (omega arith) ∙ sym (drop-length n xs (omega arith))
]

module _ (create : ℕ → Option BufUnion) where
  peek_steps :
      (f : Fifo) (buf out : Bytes) (n k : ℕ)
      → hy_fifo_peek (some f) (some buf) n ≡ some (k, some f, some out)
      → (fifo_env create).fifo_peek f buf n ≡ some (k, out)
  peek_steps f buf out n k e = rw e refl

  update_steps :
      (f f' : Fifo) (n k : ℕ)
      → hy_fifo_update_out (some f) n ≡ some (k, some f')
      → (fifo_env create).fifo_update_out f n ≡ some f'
  update_steps f f' n k e = rw e refl

  clean_steps :
      (f f' : Fifo)
      → hy_fifo_clean (some f) ≡ some (some f')
      → (fifo_env create).fifo_clean f ≡ some f'
  clean_steps f f' e = rw e refl

  pub peek_queue :
      (f : Fifo) (buf : Bytes) (n : ℕ)
      → IsValid f
      → 0 < n
      → n ≤ 200
      → n ≤ length buf
      → (fifo_env create).fifo_peek f buf n
        ≡ some (
          min n (length (contents f)),
          overwrite buf 0 (take (min n (length (contents f))) (contents f)),
        )
  peek_queue f buf n v pos small room =
      peek_steps f buf _ n _ (peek_keeps v buf n pos (omega arith) (omega arith))
      ∙ ap (λ (k : ℕ). some (min n k, overwrite buf 0 (take (min n k) (contents f))))
          (sym (length-contents v))

  update_queue :
      (f : Fifo) (n : ℕ)
      → IsValid f
      → 0 < n
      → n ≤ 1024
      → (f' : Fifo) × ((fifo_env create).fifo_update_out f n ≡ some f')
        × IsValid f'
        × (contents f' ≡ drop n (contents f))
  update_queue f n v pos small =
      let (f', e, v', holds, counter) = update_out_drops v n pos (omega arith) (omega arith) in
      (
        f',
        update_steps f f' n _ e,
        v',
        holds
            ∙ (ap (λ (k : ℕ). drop (min n k) (contents f)) (sym (length-contents v))
                ∙ drop-min n (contents f)),
      )

  clean_queue :
      (f : Fifo)
      → IsValid f
      → (f' : Fifo) × ((fifo_env create).fifo_clean f ≡ some f') × IsValid f' × (contents f' ≡ [])
  clean_queue f v =
      let (f', e, v', size, holds, counter) = clean_empties v in (f', clean_steps f f' e, v', holds)

  -- Every valid ring of src/hy_fifo.c is such a ring, as the queue of its contents, when the library of
  -- blocks makes blocks of the length asked for.
  pub fifo_env-IsEnv :
      ((n : ℕ) (u : BufUnion) → create n ≡ some u → (u.len ≡ n) × (length u.buf ≡ n))
      → (e : IsEnv (fifo_env create)) × (e.IsGood ≡ IsValid) × (e.queue ≡ contents)
  fifo_env-IsEnv sizes = (
    record {
      IsGood = IsValid;
      queue = contents;
      peek = peek_queue;
      update_out = update_queue;
      clean = clean_queue;
      create_size = sizes;
    },
    refl,
    refl,
  )
