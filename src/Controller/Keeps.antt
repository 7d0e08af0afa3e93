-- ===== src/Controller/Keeps.antt =====
-- Invariants of makeVariables: what its reads and its events keep, it keeps.
use configmapsecrets.Prelude.{
  Text, text_equality, lookup, Bool, ◌≡◌, Option, none, some, List, [], ◌∷◌, refl, if_keeps,
}
use configmapsecrets.Api.{
  ConfigMapSecret, VarsFromSource, Var, SecretVarsSource, ConfigMapVarsSource, SecretKeySelector,
  ConfigMapKeySelector, Secret, ConfigMap,
}
use configmapsecrets.RefMap.{NamespacedName, named}
use configmapsecrets.Runtime.{
  Result, ok, err, Error, ForeignError, Library, Client, State, Event, Exec, resume, ◌>>=◌, pure,
  with_world,
}
use configmapsecrets.Controller.Variables.{
  Locals, Values, fetched_secret, fetch_secret, secret, fetched_config_map, fetch_config_map,
  config_map, secret_values, config_map_values, secret_value, config_map_value, is_nil, no_values,
}
use configmapsecrets.Controller.MakeVariables.{
  vars_from, all_vars_from, referenced_value, value_of, all_vars, both_loops, make_variables,
  vars_result, start, use_values, use_value,
}
use configmapsecrets.Controller.Render.{render_secret}

-- The action keeps `P`, whether it returns a value or an error.
record Keeps {W A : Type 0} (P : State W → Type 0) (m : Exec (Locals W) A) : Type 0 where
  at : (s : Locals W) → P s.state → P (m s).1.state

module _ {W A B : Type 0} (P : State W → Type 0) where
  resume-Keeps :
      (r : Result Error A) (f : A → Exec (Locals W) B)
      → ((a : A) → Keeps P (f a))
      → (s : Locals W) → P s.state
      → P (resume r f s).1.state
  resume-Keeps (ok a) f k s h = (k a).at s h
  resume-Keeps (err e) f k s h = h

  bind-Keeps :
      (m : Exec (Locals W) A) (f : A → Exec (Locals W) B)
      → Keeps P m
      → ((a : A) → Keeps P (f a))
      → Keeps P (m >>= f)
  unfolding ◌>>=◌
  bind-Keeps m f km kf = record { at = λ s h. resume-Keeps (m s).0 f kf (m s).1 (km.at s h) }

-- Reads of Secrets and ConfigMaps, and events, keep `P`.
pub record StableReads {W : Type 0} (client : Client W) (P : State W → Type 0) : Type 0 where
  pub get_secret :
      (n : NamespacedName) (s : State W) → P s → P (with_world s (client.get_secret n s.world).1)
  pub get_config_map :
      (n : NamespacedName) (s : State W)
      → P s
      → P (with_world s (client.get_config_map n s.world).1)
  pub event : (es : List Event) (s : State W) → P s → P (record s { events = es })

module _ {W : Type 0} (client : Client W) (lib : Library) (P : State W → Type 0)
    (stable : StableReads client P) (namespace : Text) where
  fetched_secret-keeps :
      (name : Text) (o : Option Bool) (r : Result ForeignError Secret) (s : Locals W)
      → P s.state
      → P (fetched_secret lib name o r s).1.state
  unfolding fetched_secret
  fetched_secret-keeps name o (ok a) s h = h
  fetched_secret-keeps name o (err e) s h = h

  fetch_secret-keeps :
      (ref : SecretVarsSource) (s : Locals W)
      → P s.state
      → P (fetch_secret client lib namespace ref s).1.state
  unfolding fetch_secret
  fetch_secret-keeps ref s h =
      let n = named namespace ref.name in
      let r = client.get_secret n s.state.world in
      fetched_secret-keeps ref.name ref.optional r.0 (record s { state = with_world s.state r.1 })
        (stable.get_secret n s.state h)

  found_secret-keeps :
      (ref : SecretVarsSource) (o : Option Secret) (s : Locals W)
      → lookup ref.name s.secret_cache ≡ o
      → P s.state
      → P (secret client lib namespace ref s).1.state
  unfolding secret
  found_secret-keeps ref none s e h = rw (e, secret) (fetch_secret-keeps ref s h)
  found_secret-keeps ref (some a) s e h = rw (e, secret) h

  secret-Keeps : (ref : SecretVarsSource) → Keeps P (secret client lib namespace ref)
  secret-Keeps ref = record {
    at = λ s h. found_secret-keeps ref (lookup ref.name s.secret_cache) s refl h;
  }

  fetched_config_map-keeps :
      (name : Text) (o : Option Bool) (r : Result ForeignError ConfigMap) (s : Locals W)
      → P s.state
      → P (fetched_config_map lib name o r s).1.state
  unfolding fetched_config_map
  fetched_config_map-keeps name o (ok a) s h = h
  fetched_config_map-keeps name o (err e) s h = h

  fetch_config_map-keeps :
      (ref : ConfigMapVarsSource) (s : Locals W)
      → P s.state
      → P (fetch_config_map client lib namespace ref s).1.state
  unfolding fetch_config_map
  fetch_config_map-keeps ref s h =
      let n = named namespace ref.name in
      let r = client.get_config_map n s.state.world in
      fetched_config_map-keeps ref.name ref.optional r.0
        (record s { state = with_world s.state r.1 }) (stable.get_config_map n s.state h)

  found_config_map-keeps :
      (ref : ConfigMapVarsSource) (o : Option ConfigMap) (s : Locals W)
      → lookup ref.name s.config_map_cache ≡ o
      → P s.state
      → P (config_map client lib namespace ref s).1.state
  unfolding config_map
  found_config_map-keeps ref none s e h = rw (e, config_map) (fetch_config_map-keeps ref s h)
  found_config_map-keeps ref (some a) s e h = rw (e, config_map) h

  config_map-Keeps : (ref : ConfigMapVarsSource) → Keeps P (config_map client lib namespace ref)
  config_map-Keeps ref = record {
    at = λ s h. found_config_map-keeps ref (lookup ref.name s.config_map_cache) s refl h;
  }

  use_value-Keeps : (name : Text) (v : Option Text) → Keeps P (use_value name v)
  unfolding use_value
  use_value-Keeps name none = record { at = λ s h. h }
  use_value-Keeps name (some v) = record { at = λ s h. h }

  use_values-Keeps : (kind name : Text) (v : Values) → Keeps P (use_values kind namespace name v)
  unfolding use_values
  use_values-Keeps kind name v = record {
    at = λ s h.
        if_keeps (λ (l : Locals W). P l.state) (is_nil v.invalid_keys) _ _ h
          (stable.event _ s.state h);
  }

  pure-Keeps : {A : Type 0} (a : A) → Keeps P (pure {S = Locals W} a)
  pure-Keeps a = record { at = λ s h. h }

  answer-Keeps : {A : Type 0} (r : Result Error A) → Keeps {W = W} P (λ s. (r, s))
  answer-Keeps r = record { at = λ s h. h }

  vars_from-Keeps :
      (prefix : Text) (a : Option SecretVarsSource) (b : Option ConfigMapVarsSource)
      → Keeps P (vars_from client lib namespace prefix a b)
  unfolding vars_from secret_values config_map_values
  vars_from-Keeps prefix (some ref) b =
      bind-Keeps P _ _ (bind-Keeps P _ _ (secret-Keeps ref) (λ a. pure-Keeps _))
        (λ v. use_values-Keeps _ _ v)
  vars_from-Keeps prefix none (some ref) =
      bind-Keeps P _ _ (bind-Keeps P _ _ (config_map-Keeps ref) (λ a. pure-Keeps _))
        (λ v. use_values-Keeps _ _ v)
  vars_from-Keeps prefix none none = use_values-Keeps [] [] no_values

  all_vars_from-Keeps : (vs : List VarsFromSource) → Keeps P (all_vars_from client lib namespace vs)
  unfolding all_vars_from
  all_vars_from-Keeps [] = pure-Keeps tt
  all_vars_from-Keeps (v ∷ vs) =
      bind-Keeps P _ _ (vars_from-Keeps v.prefix v.secret_ref v.config_map_ref)
        (λ _. all_vars_from-Keeps vs)

  secret_value-Keeps : (ref : SecretKeySelector) → Keeps P (secret_value client lib namespace ref)
  unfolding secret_value
  secret_value-Keeps ref = bind-Keeps P _ _ (secret-Keeps _) (λ a. answer-Keeps _)

  config_map_value-Keeps :
      (ref : ConfigMapKeySelector) → Keeps P (config_map_value client lib namespace ref)
  unfolding config_map_value
  config_map_value-Keeps ref = bind-Keeps P _ _ (config_map-Keeps _) (λ a. answer-Keeps _)

  referenced_value-Keeps :
      (v : Var) (a : Option SecretKeySelector)
      → v.secret_value ≡ a
      → (b : Option ConfigMapKeySelector) → v.config_map_value ≡ b
      → Keeps P (referenced_value client lib namespace v)
  unfolding referenced_value
  referenced_value-Keeps v (some ref) ea b eb = rw ea (secret_value-Keeps ref)
  referenced_value-Keeps v none ea (some ref) eb = rw (ea, eb) (config_map_value-Keeps ref)
  referenced_value-Keeps v none ea none eb = rw (ea, eb) (pure-Keeps _)

  value_of-Keeps : (v : Var) → Keeps P (value_of client lib namespace v)
  unfolding value_of
  value_of-Keeps v = record {
    at = λ s h.
        if_keeps (λ (r : Result Error (Option Text) × Locals W). P r.1.state) (is_nil v.value) _ _
          ((referenced_value-Keeps v v.secret_value refl v.config_map_value refl).at s h) h;
  }

  all_vars-Keeps : (vs : List Var) → Keeps P (all_vars client lib namespace vs)
  unfolding all_vars
  all_vars-Keeps [] = pure-Keeps tt
  all_vars-Keeps (v ∷ vs) =
      bind-Keeps P _ _ (value_of-Keeps v)
        (λ val. bind-Keeps P _ _ (use_value-Keeps v.name val) (λ _. all_vars-Keeps vs))

module _ {W : Type 0} (client : Client W) (lib : Library) (P : State W → Type 0)
    (stable : StableReads client P) where
  vars_result-keeps :
      (r : Result Error (Unit {0})) (l : Locals W) → P l.state → P (vars_result r l).1
  vars_result-keeps (ok _) l h = h
  vars_result-keeps (err e) l h = h

  pub make_variables-keeps :
      (cms : ConfigMapSecret) (s : State W) → P s → P (make_variables client lib cms s).1
  unfolding make_variables both_loops
  make_variables-keeps cms s h =
      let k =
        bind-Keeps P _ _ (all_vars_from-Keeps client lib P stable cms.namespace cms.spec.vars_from)
          (λ _. all_vars-Keeps client lib P stable cms.namespace cms.spec.vars) in
      vars_result-keeps _ _ (k.at (start s) h)

  pub render_secret-keeps :
      (cms : ConfigMapSecret) (s : State W) → P s → P (render_secret client lib cms s).1
  unfolding render_secret
  render_secret-keeps cms s h = make_variables-keeps cms s h
