-- ===== src/Base/Time.antt =====
-- Go's `time.Time` as nanoseconds since its zero time, and `time.Duration` as nanoseconds. An
-- instant that lies before the zero time is a negative integer, which only a subtraction gives.
use Prim.Native.Nat.{ℕ, ◌+◌, ◌-◌, ◌*◌, ◌/◌, ◌%◌}
use mathlib.Core.Path.{◌≡◌}
use mathlib.Core.Bool.{Bool, true}
use native.Mathlib.Omega.{arith}
use sharing.Base.Tests.{ltb}
use sharing.Base.Int.{ℤ, pos, negsuc, sub_ℕ}

-- `t.After(c)`
abbrev pub after : ℕ → ℤ → Bool
after t (pos c) = ltb c t
after t (negsuc c) = true

abbrev pub millisecond : ℕ
millisecond = 1000000

abbrev pub second : ℕ
second = 1000000000

abbrev pub minute : ℕ
minute = 60 * second

-- `t.Truncate(d)`: down to a multiple of `d` since the zero time.
abbrev pub truncate : ℕ → ℕ → ℕ
truncate t d = t - t % d

-- `t.UnixMilli()`; the clock is taken not to stand before 1970.
abbrev pub unix_milli : ℕ → ℕ
unix_milli t = t / millisecond - 62135596800000

-- `t.After(now.Add(-d))` says that `now` comes before `t + d`.
after-sub_ℕ : (t now d : ℕ) → after t (sub_ℕ now d) ≡ ltb now (t + d)
after-sub_ℕ t now d = ground arith
