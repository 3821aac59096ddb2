-- ===== src/Shared/Float.antt =====
-- Go's `float64` as its IEEE 754 bit pattern, with the comparison `>`: false where either side is a
-- NaN, and equal on the two zeros.
use Prim.Native.Nat.{ℕ, ◌+◌, ◌%◌}
use mathlib.Core.Path.{◌≡◌, refl}
use mathlib.Core.Bool.{Bool, true, false, not, ◌&&◌}
use native.Mathlib.Omega.{arith}
use prometheus_multi_tenant.Shared.Tests.{ltb, leb, if◌then◌else◌}

abbrev pub Float64 : Type 0
Float64 = ℕ

-- The sign bit is 2 ^ 63; the rest orders the magnitudes.
abbrev magnitude : Float64 → ℕ
magnitude x = x % 9223372036854775808

abbrev is_signed : Float64 → Bool
is_signed x = leb 9223372036854775808 x

-- Above the pattern of an infinity.
unfoldable pub is_nan : Float64 → Bool
is_nan x = ltb 9218868437227405312 (magnitude x)

-- The magnitude above and below zero: one of the two is 0.
unfoldable pub above : Float64 → ℕ
above x = if is_signed x then 0 else magnitude x

unfoldable pub below : Float64 → ℕ
below x = if is_signed x then magnitude x else 0

-- `x > y`
unfoldable pub gt : Float64 → Float64 → Bool
gt x y = not (is_nan x) && not (is_nan y) && ltb (above y + below x) (above x + below y)

pub gt_irrefl : (x : Float64) → gt x x ≡ false
unfolding gt
gt_irrefl x = ground arith

-- Away from the NaNs the comparison is a strict weak order.
pub not_gt_trans :
    (x y z : Float64) → is_nan y ≡ false → gt x y ≡ false → gt y z ≡ false → gt x z ≡ false
unfolding gt
not_gt_trans x y z h p q = ground arith

pub gt_asym : (x y : Float64) → gt x y ≡ true → gt y x ≡ false
unfolding gt
gt_asym x y h = ground arith

pub gt_not_nan : (x y : Float64) → gt x y ≡ true → is_nan x ≡ false
unfolding gt
gt_not_nan x y h = ground arith

pub nan_not_exceeded : (x y : Float64) → is_nan y ≡ true → gt x y ≡ false
unfolding gt
nan_not_exceeded x y h = ground arith

-- 2.0 > -1.0, -1.0 > -2.0, and no order with a NaN.
gt_runs :
    (gt 4611686018427387904 13830554455654793216 ≡ true)
    × (gt 13830554455654793216 13835058055282163712 ≡ true)
    × (gt 9221120237041090561 0 ≡ false)
    × (gt 0 9221120237041090561 ≡ false)
    × (gt 0 9223372036854775808 ≡ false)
unfolding gt is_nan above below
gt_runs = (refl, refl, refl, refl, refl)
