-- ===== src/Controller/MakeVariables/Reads.antt =====
-- makeVariables reads only the objects that varRefs names, so the watches cover all it depends on.
use mathlib.Core.Path.{fun_ext}
use configmapsecrets.Prelude.{
  Text, text_eq_iff, text_equality, true, ◌≡◌, Option, none, some, List, [], ◌∷◌, arith, refl, ap,
}
use configmapsecrets.Api.{
  ConfigMapSecret, VarsFromSource, Var, SecretVarsSource, ConfigMapVarsSource, SecretKeySelector,
  ConfigMapKeySelector, Secret, ConfigMap,
}
use configmapsecrets.RefMap.{named}
use configmapsecrets.RefMap.Assign.{mentions}
use configmapsecrets.Runtime.{Library, Client, State, Exec}
use configmapsecrets.Controller.Variables.{
  Locals, fetch_secret, secret, fetch_config_map, config_map, secret_values, config_map_values,
  secret_value, config_map_value,
}
use configmapsecrets.Controller.MakeVariables.{
  vars_from, all_vars_from, referenced_value, value_of, all_vars, both_loops, make_variables,
}
use configmapsecrets.Controller.Refs.{var_refs}
use configmapsecrets.Controller.Refs.Names.{
  named_by, any, from_secret, from_config_map, var_secret, var_config_map, mentions-var_refs,
}

module _ {W : Type 0} (client client' : Client W) (lib : Library) (namespace : Text) where
  -- The two clients answer alike about a Secret, or a ConfigMap, of this name.
  abbrev SameSecret : Text → Type 0
  SameSecret name =
      client.get_secret (named namespace name) ≡ client'.get_secret (named namespace name)

  abbrev SameConfigMap : Text → Type 0
  SameConfigMap name =
      client.get_config_map (named namespace name) ≡ client'.get_config_map (named namespace name)

  fetch_secret-agree :
      (ref : SecretVarsSource)
      → SameSecret ref.name
      → fetch_secret client lib namespace ref ≡ fetch_secret client' lib namespace ref
  unfolding fetch_secret
  fetch_secret-agree ref e = fun_ext λ s. rw e

  secret-agree :
      (ref : SecretVarsSource)
      → SameSecret ref.name
      → secret client lib namespace ref ≡ secret client' lib namespace ref
  unfolding secret
  secret-agree ref e = fun_ext λ s.
      ground (arith, ap (λ (f : Exec (Locals W) (Option Secret)). f s) (fetch_secret-agree ref e))

  fetch_config_map-agree :
      (ref : ConfigMapVarsSource)
      → SameConfigMap ref.name
      → fetch_config_map client lib namespace ref ≡ fetch_config_map client' lib namespace ref
  unfolding fetch_config_map
  fetch_config_map-agree ref e = fun_ext λ s. rw e

  config_map-agree :
      (ref : ConfigMapVarsSource)
      → SameConfigMap ref.name
      → config_map client lib namespace ref ≡ config_map client' lib namespace ref
  unfolding config_map
  config_map-agree ref e = fun_ext λ s.
      ground
        (arith, ap (λ (f : Exec (Locals W) (Option ConfigMap)). f s) (fetch_config_map-agree ref e))

  vars_from-agree :
      (prefix : Text) (s : Option SecretVarsSource) (c : Option ConfigMapVarsSource)
      → ((k : Text) → named_by (λ (r : SecretVarsSource). r.name) s k ≡ true → SameSecret k)
      → ((k : Text) → named_by (λ (r : ConfigMapVarsSource). r.name) c k ≡ true → SameConfigMap k)
      → vars_from client lib namespace prefix s c ≡ vars_from client' lib namespace prefix s c
  unfolding vars_from secret_values config_map_values
  vars_from-agree prefix (some ref) c hs hc =
      rw (secret-agree ref (hs ref.name ((text_eq_iff ref.name ref.name).1 refl)))
  vars_from-agree prefix none (some ref) hs hc =
      rw (config_map-agree ref (hc ref.name ((text_eq_iff ref.name ref.name).1 refl)))
  vars_from-agree prefix none none hs hc = refl

  all_vars_from-agree :
      (vs : List VarsFromSource)
      → ((k : Text) → any (from_secret k) vs ≡ true → SameSecret k)
      → ((k : Text) → any (from_config_map k) vs ≡ true → SameConfigMap k)
      → all_vars_from client lib namespace vs ≡ all_vars_from client' lib namespace vs
  unfolding all_vars_from any
  all_vars_from-agree [] hs hc = refl
  all_vars_from-agree (v ∷ vs) hs hc = rw (
    vars_from-agree v.prefix v.secret_ref v.config_map_ref (λ k e. hs k (rw e))
        (λ k e. hc k (rw e)),
    all_vars_from-agree vs (λ k e. hs k (ground arith)) (λ k e. hc k (ground arith)),
  )

  referenced_value-agree :
      (v : Var)
      → ((k : Text) → var_secret k v ≡ true → SameSecret k)
      → ((k : Text) → var_config_map k v ≡ true → SameConfigMap k)
      → (s : Option SecretKeySelector) → v.secret_value ≡ s
      → (c : Option ConfigMapKeySelector) → v.config_map_value ≡ c
      → referenced_value client lib namespace v ≡ referenced_value client' lib namespace v
  unfolding referenced_value secret_value config_map_value
  referenced_value-agree v hs hc (some ref) es c ec =
      let same : SameSecret ref.name =
        hs ref.name (rw es ((text_eq_iff ref.name ref.name).1 refl)) in
      rw (es, secret-agree (record { name = ref.name; optional = ref.optional }) same)
  referenced_value-agree v hs hc none es (some ref) ec =
      let same : SameConfigMap ref.name =
        hc ref.name (rw ec ((text_eq_iff ref.name ref.name).1 refl)) in
      rw (es, ec, config_map-agree (record { name = ref.name; optional = ref.optional }) same)
  referenced_value-agree v hs hc none es none ec = rw (es, ec)

  value_of-agree :
      (v : Var)
      → ((k : Text) → var_secret k v ≡ true → SameSecret k)
      → ((k : Text) → var_config_map k v ≡ true → SameConfigMap k)
      → value_of client lib namespace v ≡ value_of client' lib namespace v
  unfolding value_of
  value_of-agree v hs hc =
      fun_ext λ s. rw (referenced_value-agree v hs hc v.secret_value refl v.config_map_value refl)

  all_vars-agree :
      (vs : List Var)
      → ((k : Text) → any (var_secret k) vs ≡ true → SameSecret k)
      → ((k : Text) → any (var_config_map k) vs ≡ true → SameConfigMap k)
      → all_vars client lib namespace vs ≡ all_vars client' lib namespace vs
  unfolding all_vars any
  all_vars-agree [] hs hc = refl
  all_vars-agree (v ∷ vs) hs hc = rw (
    value_of-agree v (λ k e. hs k (rw e)) (λ k e. hc k (rw e)),
    all_vars-agree vs (λ k e. hs k (ground arith)) (λ k e. hc k (ground arith)),
  )

-- Of two clients that answer alike about every Secret and every ConfigMap that varRefs names, and
-- differ in whatever else, makeVariables has the same outcome and leaves the same state.
pub make_variables-var_refs :
    {W : Type 0} (client client' : Client W) (lib : Library) (cms : ConfigMapSecret) (s : State W)
    → ((k : Text)
        → mentions (var_refs cms.spec.vars_from cms.spec.vars).secrets k ≡ true
        → client.get_secret (named cms.namespace k) ≡ client'.get_secret (named cms.namespace k))
    → ((k : Text)
        → mentions (var_refs cms.spec.vars_from cms.spec.vars).config_maps k ≡ true
        → client.get_config_map (named cms.namespace k)
          ≡ client'.get_config_map (named cms.namespace k))
    → make_variables client lib cms s ≡ make_variables client' lib cms s
unfolding make_variables both_loops
make_variables-var_refs client client' lib cms s hs hc =
    let m = mentions-var_refs cms.spec.vars_from cms.spec.vars in
    rw (
      all_vars_from-agree client client' lib cms.namespace cms.spec.vars_from
          (λ k e. hs k (rw (m k).0 (ground arith))) (λ k e. hc k (rw (m k).1 (ground arith))),
      all_vars-agree client client' lib cms.namespace cms.spec.vars
          (λ k e. hs k (rw (m k).0 (ground arith))) (λ k e. hc k (rw (m k).1 (ground arith))),
    )
