-- ===== src/Common/Words.antt =====
-- Fixed-width words as native numbers: wrap by `%`, shift by `/` and `*`.
use Prim.Native.Nat.{ℕ, ◌-◌, ◌%◌, ◌^◌, ◌<◌}
use mathlib.Core.List.{List}
use package.ohmy_miner_etc.Common.Lists.{All}

abbrev pub u8 : ℕ → ℕ
u8 n = n % 2 ^ 8

abbrev pub u32 : ℕ → ℕ
u32 n = n % 2 ^ 32

abbrev pub u64 : ℕ → ℕ
u64 n = n % 2 ^ 64

abbrev pub max_u32 : ℕ
max_u32 = 2 ^ 32 - 1

abbrev pub max_u64 : ℕ
max_u64 = 2 ^ 64 - 1

abbrev pub IsByte : ℕ → Type 0
IsByte n = n < 256

abbrev pub IsBytes : List ℕ → Type 0
IsBytes = All IsByte
