-- ===== src/Prelude/Maps.antt =====
-- Go's maps as association lists. The order of the entries stands for the order in which `range`
-- visits them, which Go leaves open.
use mathlib.Core.Path.{◌≡◌, refl}
use mathlib.Core.Bool.{true}
use mathlib.Core.Option.{Option, none, some}
use mathlib.Core.List.{List, [], ◌∷◌}
use native.Mathlib.Omega.{arith}
use configmapsecrets.Prelude.Tests.{if◌then◌else◌}
use configmapsecrets.Prelude.Eq.{Equality, ◌==◌}

abbrev pub Map {ℓ κ} : Type ℓ → Type κ → Type (ℓ ⊔ κ)
Map K V = List (K × V)

module _ {ℓ κ} {K : Type ℓ} {V : Type κ} ⦃keys : Equality K⦄ where
  -- value, ok := m[key]
  unfoldable pub lookup : K → Map K V → Option V
  lookup key [] = none
  lookup key ((name, value) ∷ rest) = if name == key then some value else lookup key rest

  -- delete(m, key)
  unfoldable pub delete : K → Map K V → Map K V
  delete key [] = []
  delete key ((name, value) ∷ m) =
      let rest = delete key m in if name == key then rest else (name, value) ∷ rest

  -- m[key] = value: in the place of an old entry, or at the end
  unfoldable pub insert : K → V → Map K V → Map K V
  insert key value [] = (key, value) ∷ []
  insert key value ((name, old) ∷ rest) =
      if name == key then (name, value) ∷ rest else (name, old) ∷ insert key value rest

  pub lookup-delete :
      (gone key : K) (m : Map K V)
      → lookup key (delete gone m) ≡ (if gone == key then none else lookup key m)
  unfolding lookup delete
  lookup-delete gone key [] = ground arith
  lookup-delete gone key ((name, value) ∷ rest) = ground (
    arith,
    keys.decides name key,
    keys.decides name gone,
    keys.decides gone key,
    lookup-delete gone key rest,
  )

  pub lookup-insert :
      (set key : K) (value : V) (m : Map K V)
      → lookup key (insert set value m) ≡ (if set == key then some value else lookup key m)
  unfolding insert lookup
  lookup-insert set key value [] = refl
  lookup-insert set key value ((name, old) ∷ rest) = ground (
    arith,
    keys.decides name key,
    keys.decides name set,
    keys.decides set key,
    lookup-insert set key value rest,
  )

pub eq_refl {ℓ} : {K : Type ℓ} ⦃e : Equality K⦄ (k : K) → (k == k) ≡ true
eq_refl ⦃e⦄ k = (e.decides k k).1 refl

module _ {ℓ κ} {K : Type ℓ} {V : Type κ} ⦃e : Equality K⦄ where
  -- No key occurs twice.
  abbrev pub IsMap : Map K V → Type κ
  IsMap [] = Unit
  IsMap ((k, v) ∷ m) = (lookup k m ≡ none) × IsMap m
