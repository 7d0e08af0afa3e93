-- ===== src/Controller/MakeVariables/Plain/Sources.antt =====
-- Which source of VarsFrom a variable has its value from.
use configmapsecrets.Prelude.{
  Text, codes, if_keeps, text_eq, text_equality, Map, lookup, insert, lookup-insert, true, false,
  Option, none, some, or_else, List, [], ◌∷◌, ◌≡◌, refl, sym, ap, ◌∙◌, arith,
}
use configmapsecrets.Api.{
  ConfigMapSecret, VarsFromSource, Var, SecretVarsSource, ConfigMapVarsSource, SecretKeySelector,
  ConfigMapKeySelector,
}
use configmapsecrets.Runtime.{
  Result, ok, err, Error, Library, Client, State, Exec, ◌>>=◌, ◌>>◌, resume,
}
use configmapsecrets.Controller.Variables.{
  no_values, is_nil, values_of_secret, values_of_config_map,
}
use configmapsecrets.Controller.MakeVariables.{make_variables}
use configmapsecrets.Controller.MakeVariables.Plain.{
  Reading, Made, nothing, lift, make_value, read_secret, read_config_map, made_secret_values,
  made_config_map_values, made_from, all_made_from, made_value, made_of, all_made, made,
  made_result,
}
use configmapsecrets.Controller.MakeVariables.Plain.Gets.{Reads}
use configmapsecrets.Controller.MakeVariables.Plain.Agrees.{make_variables-made}
use configmapsecrets.Controller.MakeVariables.Plain.Entries.{
  last_value, or_else_assoc, or_else-none, of_secret, of_config_map, last_value-of_secret,
  last_value-of_config_map, source_value, last_source, unnamed,
}
use configmapsecrets.Controller.MakeVariables.Plain.Puts.{Puts, make_values-Puts, read-Puts}

module _ (lib : Library) (k namespace : Text) where
  made_from-Puts :
      (reading : Reading) (prefix : Text) (s : Option SecretVarsSource)
      (c : Option ConfigMapVarsSource)
      → Puts k (source_value lib k reading prefix s c) (made_from lib reading namespace prefix s c)
  unfolding made_from made_secret_values made_config_map_values read_secret read_config_map
      values_of_secret values_of_config_map last_value
  made_from-Puts reading prefix (some ref) c =
      read-Puts lib k namespace (values_of_secret lib prefix) (of_secret lib prefix k) refl
        (last_value-of_secret lib prefix k) (λ e. refl) (codes "Secret") ref.name ref.optional
        (reading.secrets ref.name)
  made_from-Puts reading prefix none (some ref) =
      read-Puts lib k namespace (values_of_config_map lib prefix) (of_config_map lib prefix k) refl
        (last_value-of_config_map lib prefix k) (λ e. refl) (codes "ConfigMap") ref.name
        ref.optional (reading.config_maps ref.name)
  made_from-Puts reading prefix none none = make_values-Puts k [] namespace [] none no_values refl

  then-Puts :
      (o o' : Option Text) (m n : Exec Made (Unit {0}))
      → Puts k o m
      → Puts k o' n
      → Puts k (or_else o' o) (m >> n)
  unfolding ◌>>=◌
  then-Puts o o' m n p p' = record { at = λ q e. after q (m q).0 (m q).1 (p.at q) e }
    where
      after :
          (q : Made) (r : Result Error (Unit {0})) (q' : Made)
          → (r ≡ ok tt → lookup k q'.vars ≡ or_else o (lookup k q.vars))
          → (resume r (λ _. n) q').0 ≡ ok tt
          → lookup k (resume r (λ _. n) q').1.vars ≡ or_else (or_else o' o) (lookup k q.vars)
      after q (ok u) q' h e =
          p'.at q' e ∙ ap (or_else o') (h refl) ∙ sym (or_else_assoc o' o (lookup k q.vars))
      after q (err x) q' h e = cc e

  all_made_from-Puts :
      (reading : Reading) (vs : List VarsFromSource)
      → Puts k (last_source lib k reading vs) (all_made_from lib reading namespace vs)
  unfolding all_made_from last_source
  all_made_from-Puts reading [] = record { at = λ q e. refl }
  all_made_from-Puts reading (v ∷ vs) =
      then-Puts _ _ _ _ (made_from-Puts reading v.prefix v.secret_ref v.config_map_ref)
        (all_made_from-Puts reading vs)

  lift-same :
      {A B : Type 0} (r : Result Error A) (f : A → Result Error B) (q : Made)
      → ((lift r >>= λ a. lift (f a)) q).1 ≡ q
  unfolding ◌>>=◌
  lift-same (ok a) f q = refl
  lift-same (err e) f q = refl

  made_value-same :
      (reading : Reading) (v : Var) (q : Made) → (made_value lib reading namespace v q).1 ≡ q
  unfolding made_value read_secret read_config_map
  made_value-same reading v q = of_parts v.secret_value v.config_map_value
    where
      of_parts :
          (s : Option SecretKeySelector) (c : Option ConfigMapKeySelector)
          → (made_value lib reading namespace
              (record v { secret_value = s; config_map_value = c })
              q).1
            ≡ q
      of_parts (some ref) c = lift-same _ _ q
      of_parts none (some ref) = lift-same _ _ q
      of_parts none none = refl

  made_of-same :
      (reading : Reading) (v : Var) (q : Made) → (made_of lib reading namespace v q).1 ≡ q
  unfolding made_of
  made_of-same reading v q =
      if_keeps (λ x. x.1 ≡ q) (is_nil v.value) (made_value lib reading namespace v q) _
        (made_value-same reading v q) refl

  make_value-other :
      (name : Text) (val : Option Text) (q : Made)
      → text_eq name k ≡ false
      → lookup k (make_value name val q).1.vars ≡ lookup k q.vars
  unfolding make_value
  make_value-other name none q e = refl
  make_value-other name (some val) q e = lookup-insert name k val q.vars ∙ rw e refl

  all_made-Puts :
      (reading : Reading) (vs : List Var)
      → unnamed k vs ≡ true
      → Puts k none (all_made lib reading namespace vs)
  unfolding all_made unnamed ◌>>=◌ make_value
  all_made-Puts reading [] h = record { at = λ q e. refl }
  all_made-Puts reading (v ∷ vs) h =
      let other : text_eq v.name k ≡ false = ground (arith, h) in
      let rest = all_made-Puts reading vs (ground (arith, h)) in
      record {
        at = λ q e.
            after other rest q (made_of lib reading namespace v q).0
              (made_of lib reading namespace v q).1 (made_of-same reading v q) e;
      }
    where
      after :
          text_eq v.name k ≡ false
          → Puts k none (all_made lib reading namespace vs)
          → (q : Made) (r : Result Error (Option Text)) (q' : Made) → q' ≡ q
          → (resume r (λ val. make_value v.name val >> all_made lib reading namespace vs) q').0
            ≡ ok tt
          → lookup k
              (resume r
                (λ val. make_value v.name val >> all_made lib reading namespace vs)
                q').1.vars
            ≡ lookup k q.vars
      after other rest q (err x) q' s e = cc
      after other rest q (ok none) q' s e = rest.at q' e ∙ ap (λ q. lookup k q.vars) s
      after other rest q (ok (some val)) q' s e =
          rest.at (record q' { vars = insert v.name val q'.vars }) e
          ∙ make_value-other v.name (some val) q' other
          ∙ ap (λ q. lookup k q.vars) s

-- The variables of a result
abbrev vars_in : Result Error (Map Text Text) → Map Text Text
vars_in (ok vars) = vars
vars_in (err e) = []

made_result-vars :
    {W : Type 0} (r : Result Error (Unit {0})) (q : Made) (s : State W) (vars : Map Text Text)
    → (made_result r q s).0 ≡ ok vars
    → (r ≡ ok tt) × (q.vars ≡ vars)
made_result-vars (ok u) q s vars e = (refl, ap vars_in e)
made_result-vars (err x) q s vars e = cc e

-- With a client whose Gets of the namespace answer as a fixed reading and change nothing: in the
-- variables that makeVariables returns, a name that none of Vars has stands for the value of the last
-- source of VarsFrom that has it, and for nothing if none has it. A source has a name if that is the
-- prefix with one of its keys, and a valid name; BinaryData of a ConfigMap goes before Data.
pub make_variables-last_source :
    {W : Type 0} (client : Client W) (lib : Library) (reading : Reading) (cms : ConfigMapSecret)
    (s : State W) (vars : Map Text Text) (k : Text)
    → Reads client cms.namespace reading
    → (make_variables client lib cms s).0 ≡ ok vars
    → unnamed k cms.spec.vars ≡ true
    → lookup k vars ≡ last_source lib k reading cms.spec.vars_from
unfolding made lookup
make_variables-last_source client lib reading cms s vars k reads e n =
    let agrees = make_variables-made client lib reading cms s reads in
    let (o, v) =
      made_result-vars (made lib reading cms).0 (made lib reading cms).1 s vars
        (sym (ap (λ r. r.0) agrees) ∙ e) in
    let both =
      then-Puts lib k cms.namespace (last_source lib k reading cms.spec.vars_from) none
        (all_made_from lib reading cms.namespace cms.spec.vars_from)
        (all_made lib reading cms.namespace cms.spec.vars)
        (all_made_from-Puts lib k cms.namespace reading cms.spec.vars_from)
        (all_made-Puts lib k cms.namespace reading cms.spec.vars n) in
    ap (lookup k) (sym v) ∙ both.at nothing o ∙ or_else-none _
