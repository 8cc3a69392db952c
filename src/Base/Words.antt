-- ===== src/Base/Words.antt =====
-- The fixed widths of C: wrap by `%`.
use Prim.Native.Nat.{ℕ, ◌+◌, ◌-◌, ◌%◌, ◌^◌}

abbrev pub u8 : ℕ → ℕ
u8 n = n % 2 ^ 8

abbrev pub u16 : ℕ → ℕ
u16 n = n % 2 ^ 16

abbrev pub u32 : ℕ → ℕ
u32 n = n % 2 ^ 32

-- `size_t`
abbrev pub u64 : ℕ → ℕ
u64 n = n % 2 ^ 64

-- `a - b` at a type of `m` values, for `b` below `m`
abbrev pub sub_mod : ℕ → ℕ → ℕ → ℕ
sub_mod m a b = (a + m - b) % m
