-- ===== src/Shared/Result.antt =====
-- Go's pair of a value and an error, whose text is kept.
use Prim.Native.String.{String}
use mathlib.Core.Path.{◌≡◌}

pub data Result (A : Type 0) : Type 0 where
  err : String → Result A
  ok : A → Result A

pub ok_inj : {A : Type 0} {a b : A} → ok a ≡ ok b → a ≡ b
ok_inj h = cc
