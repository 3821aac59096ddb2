-- ===== src/Shared/Time.antt =====
-- Instants and durations. An instant is a number of nanoseconds since Go's zero `time.Time`, so the
-- zero instant is 0; a duration is an `int64` of nanoseconds.
use Prim.Native.Nat.{ℕ, ◌+◌, ◌-◌, ◌≤◌, ◌<◌, min}
use mathlib.Core.Path.{◌≡◌}
use mathlib.Core.Bool.{Bool, true, false}
use native.Mathlib.Omega.{arith}
use prometheus_multi_tenant.Shared.Tests.{leb, ◌==◌, if◌then◌else◌}
use prometheus_multi_tenant.Shared.Int.{ℤ, pos, negsuc, ltb_ℤ}

abbrev pub Time : Type 0
Time = ℕ

abbrev pub Duration : Type 0
Duration = ℤ

-- `t.IsZero()`
abbrev pub is_zero_time : Time → Bool
is_zero_time t = t == 0

-- The largest `time.Duration`, 2 ^ 63 - 1.
abbrev pub max_duration : ℕ
max_duration = 9223372036854775807

abbrev pub second : ℕ
second = 1000000000

abbrev pub minute : ℕ
minute = 60000000000

-- `a.Sub(b)`, which saturates at the ends of `time.Duration`.
unfoldable pub sub : Time → Time → Duration
sub a b = if leb b a then pos (min (a - b) max_duration) else negsuc (min (b - a - 1) max_duration)

-- For a duration below the saturation, `a.Sub(b) > d` compares the instants themselves.
pub sub_exceeds : (a b d : ℕ) → d < max_duration → ltb_ℤ (pos d) (sub a b) ≡ true → b + d < a
unfolding sub
sub_exceeds a b d h e = ground arith

pub exceeds_sub : (a b d : ℕ) → d < max_duration → b + d < a → ltb_ℤ (pos d) (sub a b) ≡ true
unfolding sub
exceeds_sub a b d h e = ground arith

-- `a.Sub(b) < d` in the same way: where the test fails, `d` has passed.
pub sub_reached :
    (a b d : ℕ) → 0 < d → d ≤ max_duration → ltb_ℤ (sub a b) (pos d) ≡ false → b + d ≤ a
unfolding sub
sub_reached a b d z h e = ground arith

pub reached_sub :
    (a b d : ℕ) → 0 < d → d ≤ max_duration → b + d ≤ a → ltb_ℤ (sub a b) (pos d) ≡ false
unfolding sub
reached_sub a b d z h e = ground arith
