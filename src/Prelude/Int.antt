-- ===== src/Prelude/Int.antt =====
-- Go's signed integers as ℤ over the native numbers, under the library's names.
use Prim.Native.Nat.{ℕ}
use mathlib.Core.Bool.{Bool, false}
use manta.Prelude.Tests.{ltb, if◌then◌else◌}

-- `negsuc n` is -(n + 1).
pub data ℤ : Type 0 where
  pos : ℕ → ℤ
  negsuc : ℕ → ℤ

-- x > 0
abbrev pub is_pos : ℤ → Bool
is_pos (pos n) = ltb 0 n
is_pos (negsuc n) = false

-- A positive value, or the default that the source puts in its place.
abbrev pub pos_or : ℤ → ℕ → ℕ
pos_or (pos n) d = if ltb 0 n then n else d
pos_or (negsuc n) d = d
