-- ===== src/Base/Int.antt =====
-- Integers over the native numbers, as far as the program computes with them.
use Prim.Native.Nat.{ℕ, ◌-◌, ◌^◌}
use mathlib.Core.Path.{◌≡◌}
use mathlib.Core.Logic.{◌↔◌}
use mathlib.Core.Bool.{Bool, true, false}
use native.Mathlib.Omega.{arith}
use sharing.Base.Tests.{ltb, leb, ◌==◌ as nat_eq, if◌then◌else◌}

-- `negsuc n` is -(n + 1).
pub data ℤ : Type 0 where
  pos : ℕ → ℤ
  negsuc : ℕ → ℤ

-- a - b, as an integer.
abbrev pub sub_ℕ : ℕ → ℕ → ℤ
sub_ℕ a b = if leb b a then pos (a - b) else negsuc (b - a - 1)

infix 50 ◌==◌
abbrev pub ◌==◌ : ℤ → ℤ → Bool
pos a == pos b = nat_eq a b
pos a == negsuc b = false
negsuc a == pos b = false
negsuc a == negsuc b = nat_eq a b

pub ==_iff : (a b : ℤ) → ((a == b) ≡ true) ↔ (a ≡ b)
==_iff a b = ground arith

-- Go's `int` and `int64` on the platforms that the daemon is built for.
abbrev pub fits_int64 : ℤ → Bool
fits_int64 (pos n) = ltb n (2 ^ 63)
fits_int64 (negsuc n) = ltb n (2 ^ 63)
