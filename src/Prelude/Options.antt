-- ===== src/Prelude/Options.antt =====
-- Lemmas on options and on tests, for the other modules.
use mathlib.Core.Path.{◌≡◌}
use mathlib.Core.Bool.{Bool, true, false}
use mathlib.Core.Option.{some}
use native.Mathlib.Omega.{arith}
use sgos.Prelude.Tests.{if◌then◌else◌}

pub some_injective {ℓ} : {A : Type ℓ} {a b : A} → some a ≡ some b → a ≡ b
some_injective e = ground arith

pub if_true {ℓ} : {A : Type ℓ} (b : Bool) (x y : A) → b ≡ true → x ≡ (if b then x else y)
if_true b x y e = ground arith

pub if_false {ℓ} : {A : Type ℓ} (b : Bool) (x y : A) → b ≡ false → y ≡ (if b then x else y)
if_false b x y e = ground arith
