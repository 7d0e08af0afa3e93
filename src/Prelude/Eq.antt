-- ===== src/Prelude/Eq.antt =====
-- The comparison `==` of the types that serve as keys of maps, an interface that each type fills.
use mathlib.Core.Path.{◌≡◌}
use mathlib.Core.Logic.{◌↔◌}
use mathlib.Core.Bool.{Bool, true}

-- A test, and the law that it decides equality.
pub record Equality {κ} (K : Type κ) : Type κ where
  pub test : K → K → Bool
  pub decides : (x y : K) → (test x y ≡ true) ↔ (x ≡ y)

abbrev pub ◌==◌ {κ} : {K : Type κ} ⦃keys : Equality K⦄ → (x y : K) → Bool
◌==◌ ⦃keys⦄ x y = keys.test x y

infix 50 ◌==◌
