-- ===== src/Prelude/Int.antt =====
-- Signed integers over the native numbers; `negsuc n` is -(n + 1).
use Prim.Native.Nat.{ℕ, ◌^◌, ◌-◌}

pub data ℤ : Type 0 where
  pos : ℕ → ℤ
  negsuc : ℕ → ℤ

-- The largest value of Go's `int` and `int64` on a 64-bit platform.
abbrev pub max_int64 : ℕ
max_int64 = 2 ^ 63 - 1
