-- ===== src/Base/Int.antt =====
-- Signed integers, for functions that return an `int`.
use Prim.Native.Nat.{ℕ, ◌-◌, ◌^◌}
use hlos.Base.Tests.{leb, if◌then◌else◌}

-- `negsuc n` is -(n + 1).
pub data ℤ : Type 0 where
  pos : ℕ → ℤ
  negsuc : ℕ → ℤ

-- The `int` of a 32-bit pattern.
abbrev pub to_int : ℕ → ℤ
to_int v = if leb (2 ^ 31) v then negsuc (2 ^ 32 - 1 - v) else pos v

-- a - b
abbrev pub sub_ℕ : ℕ → ℕ → ℤ
sub_ℕ a b = if leb b a then pos (a - b) else negsuc (b - a - 1)
