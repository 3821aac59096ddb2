-- ===== src/Shared/Word.antt =====
-- Go's 64-bit counters as bit patterns below 2 ^ 64, with their wrap-around written out.
use Prim.Native.Nat.{ℕ, ◌+◌, ◌%◌, ◌^◌, ◌<◌}
use mathlib.Core.Path.{◌≡◌}
use mathlib.Core.Bool.{Bool}
use native.Mathlib.Omega.{arith}
use prometheus_multi_tenant.Shared.Tests.{leb}

-- `n += k` on int64 (and on int, 64 bits wide).
abbrev pub add64 : ℕ → ℕ → ℕ
add64 n k = (n + k) % 2 ^ 64

-- `n++`
abbrev pub inc64 : ℕ → ℕ
inc64 n = add64 n 1

-- The sign bit: the pattern reads as a negative number.
abbrev pub is_negative64 : ℕ → Bool
is_negative64 n = leb (2 ^ 63) n

-- `int32(n)` keeps the low half of the pattern.
abbrev pub to_int32 : ℕ → ℕ
to_int32 n = n % 2 ^ 32

pub inc64_small : (n : ℕ) → n + 1 < 2 ^ 64 → inc64 n ≡ n + 1
inc64_small n h = omega arith
