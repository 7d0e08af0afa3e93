-- ===== src/Controller/Render/Data.antt =====
-- The data of the rendered Secret, key by key.
use configmapsecrets.Prelude.{
  Text, text_eq_iff, text_equality, Map, lookup, insert, lookup-insert, ◌≡◌, refl, Option, none,
  some, [], ◌∷◌, arith, or_else,
}
use configmapsecrets.Prelude.Maps.{IsMap}
use configmapsecrets.Api.{ConfigMapSecret}
use configmapsecrets.Runtime.{Library}
use configmapsecrets.Controller.Variables.{items}
use configmapsecrets.Controller.Render.{expand_all, secret_of}

-- A value of the template after its references are expanded
abbrev pub expanded : Library → Map Text Text → Option Text → Option Text
expanded lib vars none = none
expanded lib vars (some v) = some (lib.expand v (lib.mapping_func_for vars))

lookup-expand_all :
    (lib : Library) (vars m acc : Map Text Text) (k : Text)
    → IsMap m
    → lookup k (expand_all lib vars m acc) ≡ or_else (expanded lib vars (lookup k m)) (lookup k acc)
unfolding expand_all lookup
lookup-expand_all lib vars [] acc k h = refl
lookup-expand_all lib vars ((j, v) ∷ m) acc k h =
    let v' = lib.expand v (lib.mapping_func_for vars) in
    ground (
      arith,
      lookup-expand_all lib vars m (insert j v' acc) k,
      lookup-insert j k v' acc,
      text_eq_iff j k,
    )

-- The rendered Secret has exactly the keys of the template's Data and BinaryData, each with its
-- value expanded by the variables; a key of both has the value of BinaryData. The template's maps
-- hold no key twice.
pub lookup-secret_of :
    (lib : Library) (cms : ConfigMapSecret) (vars : Map Text Text) (k : Text)
    → IsMap cms.spec.template.text_data
    → IsMap cms.spec.template.binary_data
    → lookup k (items (secret_of lib cms vars).secret_data)
      ≡ or_else
          (expanded lib vars (lookup k cms.spec.template.binary_data))
          (expanded lib vars (lookup k cms.spec.template.text_data))
unfolding secret_of
lookup-secret_of lib cms vars k t b =
    rw (lookup-expand_all lib vars _ _ k b, lookup-expand_all lib vars _ _ k t)
      (unfold lookup in ground arith)
