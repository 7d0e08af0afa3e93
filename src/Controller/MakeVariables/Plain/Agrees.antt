-- ===== src/Controller/MakeVariables/Plain/Agrees.antt =====
-- The caches of makeVariables change nothing.
use mathlib.Core.List.{append-nil}
use configmapsecrets.Prelude.{
  Text, codes, text_equality, lookup, Bool-cases, Option, none, some, List, [], ◌∷◌, ◌≡◌, refl, inl,
  inr,
}
use configmapsecrets.Api.{
  ConfigMapSecret, VarsFromSource, Var, SecretVarsSource, ConfigMapVarsSource, SecretKeySelector,
  ConfigMapKeySelector,
}
use configmapsecrets.Runtime.{Result, ok, err, Error, Library, Client, State}
use configmapsecrets.Controller.Variables.{
  Locals, secret_values, config_map_values, secret_value, config_map_value, is_nil,
}
use configmapsecrets.Controller.MakeVariables.{
  vars_from, all_vars_from, referenced_value, value_of, all_vars, both_loops, make_variables, start,
  vars_result,
}
use configmapsecrets.Controller.MakeVariables.Plain.{
  made_result, made_secret_values, made_config_map_values, Reading, Made, nothing, made_from,
  all_made_from, made_value, made_of, all_made, made,
}
use configmapsecrets.Controller.MakeVariables.Plain.Simulation.{
  Stands, Simulates, bind-Simulates, lift-Simulates, use_values-Simulates, use_value-Simulates,
}
use configmapsecrets.Controller.MakeVariables.Plain.Gets.{
  Reads, secret-Simulates, config_map-Simulates,
}

module _ {W : Type 0} (client : Client W) (lib : Library) (reading : Reading) (s : State W)
    (namespace : Text) (reads : Reads client namespace reading) where
  vars_from-Simulates :
      (prefix : Text) (x : Option SecretVarsSource) (c : Option ConfigMapVarsSource)
      → Simulates reading s
          (vars_from client lib namespace prefix x c)
          (made_from lib reading namespace prefix x c)
  unfolding vars_from made_from secret_values config_map_values made_secret_values
      made_config_map_values
  vars_from-Simulates prefix (some ref) c =
      bind-Simulates reading s (secret_values client lib namespace prefix ref)
        (made_secret_values lib reading namespace prefix ref) _ _
        (bind-Simulates reading s _ _ _ _
          (secret-Simulates client lib reading s namespace reads ref)
          (λ found. lift-Simulates reading s (ok _)))
        (λ values. use_values-Simulates reading s (codes "Secret") namespace ref.name values)
  vars_from-Simulates prefix none (some ref) =
      bind-Simulates reading s (config_map_values client lib namespace prefix ref)
        (made_config_map_values lib reading namespace prefix ref) _ _
        (bind-Simulates reading s _ _ _ _
          (config_map-Simulates client lib reading s namespace reads ref)
          (λ found. lift-Simulates reading s (ok _)))
        (λ values. use_values-Simulates reading s (codes "ConfigMap") namespace ref.name values)
  vars_from-Simulates prefix none none = use_values-Simulates reading s _ namespace _ _

  all_vars_from-Simulates :
      (vs : List VarsFromSource)
      → Simulates reading s
          (all_vars_from client lib namespace vs)
          (all_made_from lib reading namespace vs)
  unfolding all_vars_from all_made_from
  all_vars_from-Simulates [] = lift-Simulates reading s (ok tt)
  all_vars_from-Simulates (v ∷ vs) =
      bind-Simulates reading s _ _ _ _ (vars_from-Simulates v.prefix v.secret_ref v.config_map_ref)
        (λ _. all_vars_from-Simulates vs)

  referenced-Simulates :
      (v : Var) (x : Option SecretKeySelector) (c : Option ConfigMapKeySelector)
      → v.secret_value ≡ x
      → v.config_map_value ≡ c
      → Simulates reading s
          (referenced_value client lib namespace v)
          (made_value lib reading namespace v)
  unfolding referenced_value made_value secret_value config_map_value
  referenced-Simulates v (some ref) c ex ec =
      rw (ex, referenced_value, made_value)
        (bind-Simulates reading s _ _ _ _
          (secret-Simulates client lib reading s namespace reads
            (record { name = ref.name; optional = ref.optional }))
          (λ found. lift-Simulates reading s _))
  referenced-Simulates v none (some ref) ex ec =
      rw (ex, ec, referenced_value, made_value)
        (bind-Simulates reading s _ _ _ _
          (config_map-Simulates client lib reading s namespace reads
            (record { name = ref.name; optional = ref.optional }))
          (λ found. lift-Simulates reading s _))
  referenced-Simulates v none none ex ec =
      rw (ex, ec, referenced_value, made_value) (lift-Simulates reading s (ok (some v.value)))

  value_of-Simulates :
      (v : Var)
      → Simulates reading s (value_of client lib namespace v) (made_of lib reading namespace v)
  unfolding value_of made_of Simulates
  value_of-Simulates v l q t = elim (Bool-cases (is_nil v.value)) [
    | inl e ↦ rw e (referenced-Simulates v v.secret_value v.config_map_value refl refl l q t)
    | inr e ↦ rw e (record { result = rw (t.vars) refl; left = t })
  ]

  all_vars-Simulates :
      (vs : List Var)
      → Simulates reading s (all_vars client lib namespace vs) (all_made lib reading namespace vs)
  unfolding all_vars all_made
  all_vars-Simulates [] = lift-Simulates reading s (ok tt)
  all_vars-Simulates (v ∷ vs) = bind-Simulates reading s _ _ _ _ (value_of-Simulates v) (λ val.
      bind-Simulates reading s _ _ _ _ (use_value-Simulates reading s v.name val)
        (λ _. all_vars-Simulates vs))

module _ {W : Type 0} (reading : Reading) (s : State W) where
  start-Stands : Stands reading s (start s) nothing
  unfolding lookup
  start-Stands = record {
    vars = refl;
    state = rw (append-nil s.events) refl;
    secrets = λ name a e. cc e;
    config_maps = λ name a e. cc e;
  }

  result-Stands :
      (r : Result Error (Unit {0})) (l : Locals W) (q : Made)
      → Stands reading s l q
      → vars_result r l ≡ made_result r q s
  result-Stands (ok u) l q t = rw (t.vars, t.state) refl
  result-Stands (err e) l q t = rw (t.state) refl

-- With a client whose Gets of the namespace answer as a fixed reading and change nothing,
-- makeVariables makes the variables, or the error, that the loops over that reading make, and adds
-- their events to the reconciler's, without any other change: its caches make no difference.
pub make_variables-made :
    {W : Type 0} (client : Client W) (lib : Library) (reading : Reading) (cms : ConfigMapSecret)
    (s : State W)
    → Reads client cms.namespace reading
    → make_variables client lib cms s
      ≡ made_result (made lib reading cms).0 (made lib reading cms).1 s
unfolding make_variables both_loops made Simulates
make_variables-made client lib reading cms s reads =
    let x =
      bind-Simulates reading s _ _ _ _
        (all_vars_from-Simulates client lib reading s cms.namespace reads cms.spec.vars_from)
        (λ _. all_vars-Simulates client lib reading s cms.namespace reads cms.spec.vars) in
    let same = x (start s) nothing (start-Stands reading s) in
    rw (same.result) (result-Stands reading s _ _ _ (same.left))
