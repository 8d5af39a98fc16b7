-- ===== src/Base/Int.antt =====
-- Go's int, where the sign matters. Priorities arrive from JSON and may be negative.
use Prim.Native.Nat.{ℕ}
use mathlib.Core.Bool.{Bool, true, false}
use grns.Base.Tests.{leb}

-- `negsuc n` is -(n + 1).
pub data ℤ : Type 0 where
  pos : ℕ → ℤ
  negsuc : ℕ → ℤ

infix 50 ◌≤ℤ?◌
abbrev pub ◌≤ℤ?◌ : ℤ → ℤ → Bool
pos a ≤ℤ? pos b = leb a b
pos a ≤ℤ? negsuc b = false
negsuc a ≤ℤ? pos b = true
negsuc a ≤ℤ? negsuc b = leb b a
