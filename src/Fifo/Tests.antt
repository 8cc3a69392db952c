-- ===== src/Fifo/Tests.antt =====
-- Runs of the byte ring on small buffers.
use libhy_utils_bak.Base.{
  ℕ, ◌-◌, ◌*◌, ◌^◌, ◌≤◌, ◌<◌, ◌≡◌, refl, true, false, Option, some, List, [], ◌∷◌, arith, replicate,
  length-replicate,
}
use libhy_utils_bak.Fifo.{Fifo, hy_fifo_put, hy_fifo_get, hy_fifo_peek, hy_fifo_create}
use libhy_utils_bak.Fifo.Inv.{IsValid, contents}
use libhy_utils_bak.Fifo.Queue
use libhy_utils_bak.Fifo.Queue.{Op, put, get, peek, Seen}
use libhy_utils_bak.Fifo.Refine.{Left, put_appends}
use libhy_utils_bak.Fifo.Run.{run, run_refines}
use libhy_utils_bak.Fifo.Create.{create-IsNew, create_returns, IsNew, is_given}

-- 8 and 9 round the end of the buffer
abbrev wrapped : Fifo
wrapped = record { buf = 9 ∷ 5 ∷ 6 ∷ 8 ∷ []; size = 4; use_cnt = 2; in_pos = 5; out_pos = 3 }

-- the same at positions that have wrapped round 2^64
abbrev far : Fifo
far = record { buf = 9 ∷ 5 ∷ 6 ∷ 8 ∷ []; size = 4; use_cnt = 2; in_pos = 1; out_pos = 2 ^ 64 - 1 }

abbrev script : List Op
script = put (1 ∷ 2 ∷ 3 ∷ []) ∷ peek 2 ∷ get 3 ∷ get 8 ∷ get 1 ∷ []

wrapped-IsValid : IsValid wrapped
wrapped-IsValid = record {
  exponent = 2;
  power = refl;
  small = omega arith;
  whole = refl;
  in_word = omega arith;
  out_word = omega arith;
  held = omega arith;
}

far-IsValid : IsValid far
far-IsValid = record {
  exponent = 2;
  power = refl;
  small = omega arith;
  whole = refl;
  in_word = omega arith;
  out_word = omega arith;
  held = omega arith;
}

contents-far : contents far ≡ 8 ∷ 9 ∷ []
contents-far = refl

run-far :
    run script far
    ≡ some ((2, []) ∷ (2, 8 ∷ 9 ∷ []) ∷ (3, 8 ∷ 9 ∷ 1 ∷ []) ∷ (1, 2 ∷ []) ∷ (0, []) ∷ [])
unfolding run hy_fifo_put hy_fifo_get hy_fifo_peek
run-far = run_refines script far-IsValid refl (
    (
      tt,
      (
        (omega arith, omega arith),
        (
          (omega arith, omega arith),
          ((omega arith, omega arith), ((omega arith, omega arith), tt)),
        ),
      ),
    ))

run_refines_example : run script wrapped ≡ some (Queue.run 4 script (8 ∷ 9 ∷ []))
run_refines_example = run_refines script wrapped-IsValid refl (
  tt,
  (
    (omega arith, omega arith),
    ((omega arith, omega arith), ((omega arith, omega arith), ((omega arith, omega arith), tt))),
  ),
)

put_appends_example :
    (f' : Fifo) × (hy_fifo_put far (1 ∷ 2 ∷ 3 ∷ []) 3 ≡ some (2, f'))
    × Left f' 4 (8 ∷ 9 ∷ 1 ∷ 2 ∷ [])
put_appends_example = put_appends far-IsValid (1 ∷ 2 ∷ 3 ∷ []) 3 refl (omega arith)

create-IsNew_example :
    (f : Fifo) × (hy_fifo_create true true (some 5) ≡ some (some f))
    × IsNew f
    × (5 ≤ f.size)
    × (f.size < 2 * 5)
create-IsNew_example = create-IsNew 5 (omega arith) (omega arith)

create_returns_example :
    (handle : Option Fifo) × (hy_fifo_create true false (some 5) ≡ some handle)
    × (is_given handle ≡ false)
create_returns_example = create_returns true false (some 5)

-- 2048 bytes that are all held
abbrev large : Fifo
large = record { buf = replicate 2048 1; size = 2048; use_cnt = 2048; in_pos = 2048; out_pos = 0 }

large-IsValid : IsValid large
large-IsValid = record {
  exponent = 11;
  power = refl;
  small = omega arith;
  whole = length-replicate {A = ℕ} 2048 1;
  in_word = omega arith;
  out_word = omega arith;
  held = omega arith;
}
