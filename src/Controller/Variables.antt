-- ===== src/Controller/Variables.antt =====
-- pkg/controllers/configmapsecret_controller.go: makeVariables and what it calls.
-- The maps that makeVariables makes (the variables and the two caches) are the fields of `Locals`,
-- next to the reconciler's state; the functions that it passes the caches to act on that.
use configmapsecrets.Prelude.{
  Text, codes, text_equality, Map, lookup, insert, Bool, true, false, Option, none, some, List, [],
  ◌∷◌, ◌++◌, if◌then◌else◌, or_else,
}
use configmapsecrets.Api.{
  ConfigMap, Secret, SecretVarsSource, ConfigMapVarsSource, SecretKeySelector, ConfigMapKeySelector,
}
use configmapsecrets.RefMap.{named}
use configmapsecrets.Runtime.{
  Result, ok, err, ForeignError, foreign, Error, config_error, new_config_error, Library, Client,
  State, Exec, ◌>>=◌, pure, with_world,
}

pub record Locals (W : Type 0) : Type 0 where
  pub state : State W
  pub vars : Map Text Text
  pub secret_cache : Map Text Secret
  pub config_map_cache : Map Text ConfigMap

-- ptr != nil && *ptr
abbrev pub is_set : Option Bool → Bool
is_set none = false
is_set (some b) = b

abbrev pub is_nil : {A : Type 0} → List A → Bool
is_nil [] = true
is_nil (_ ∷ _) = false

-- validPrefixedKey
unfoldable pub valid_prefixed_key : Library → Text → Text → Text × Bool
valid_prefixed_key lib prefix key =
    let prefixed = if is_nil prefix then key else prefix ++ key in
    (prefixed, is_nil (lib.is_env_var_name prefixed))

-- values and invalidKeys
pub record Values : Type 0 where
  pub values : Map Text Text
  pub invalid_keys : List Text

-- The body of the loops of secretValues and configMapValues
unfoldable pub put_value : Text → Bool → Text → Values → Values
put_value k true v acc = record acc { values = insert k v acc.values }
put_value k false v acc = record acc { invalid_keys = acc.invalid_keys ++ k ∷ [] }

unfoldable pub collect_values : Library → Text → Map Text Text → Values → Values
unfolding put_value
collect_values lib prefix [] acc = acc
collect_values lib prefix ((key, v) ∷ m) acc =
    let (k, valid) = valid_prefixed_key lib prefix key in
    collect_values lib prefix m (put_value k valid v acc)

abbrev pub no_values : Values
no_values = record { values = []; invalid_keys = [] }

-- m[k] of a map that may be nil, and the range over it
abbrev pub items : Option (Map Text Text) → Map Text Text
items none = []
items (some m) = m

-- "Couldn't find key %s in Secret %s/%s"
unfoldable pub missing_key : Text → Text → Text → Text → Text
missing_key kind key namespace name =
    codes "Couldn't find key "
    ++ (key ++ (codes " in " ++ (kind ++ (codes " " ++ (namespace ++ (codes "/" ++ name))))))

-- The end of secretValue and configMapValue: none is a value that was not found.
unfoldable pub key_not_found : Text → Text → Text → Text → Option Bool → Result Error (Option Text)
key_not_found kind key namespace name optional =
    if is_set optional
    then ok none
    else err (new_config_error (missing_key kind key namespace name))

unfoldable pub value_in_secret :
    Text → SecretKeySelector → Option Secret → Result Error (Option Text)
value_in_secret namespace ref none = ok none
value_in_secret namespace ref (some found) = elim (lookup ref.key (items found.secret_data)) [
  | some buf ↦ ok (some buf)
  | none ↦ key_not_found (codes "Secret") ref.key namespace ref.name ref.optional
]

unfoldable pub value_in_config_map :
    Text → ConfigMapKeySelector → Option ConfigMap → Result Error (Option Text)
value_in_config_map namespace ref none = ok none
value_in_config_map namespace ref (some found) =
    elim (or_else (lookup ref.key found.text_data) (lookup ref.key found.binary_data)) [
      | some str ↦ ok (some str)
      | none ↦ key_not_found (codes "ConfigMap") ref.key namespace ref.name ref.optional
    ]

module _ (lib : Library) where
  -- What `secret` and `configMap` make of an error of Get; none is the nil object.
  unfoldable pub not_found : {A : Type 0} → Option Bool → ForeignError → Result Error (Option A)
  not_found optional e =
      if lib.is_not_found e
      then (if is_set optional then ok none else err (config_error (foreign e)))
      else err (foreign e)

  unfoldable pub values_of_secret : Text → Option Secret → Values
  values_of_secret prefix none = no_values
  values_of_secret prefix (some found) =
      collect_values lib prefix (items found.secret_data) no_values

  unfoldable pub values_of_config_map : Text → Option ConfigMap → Values
  values_of_config_map prefix none = no_values
  values_of_config_map prefix (some found) =
      collect_values lib prefix found.binary_data
        (collect_values lib prefix found.text_data no_values)

  -- What `secret` does after its Get
  unfoldable pub fetched_secret :
      {W : Type 0}
      → Text
      → Option Bool
      → Result ForeignError Secret
      → Exec (Locals W) (Option Secret)
  fetched_secret name optional (ok found) s =
      (ok (some found), record s { secret_cache = insert name found s.secret_cache })
  fetched_secret name optional (err e) s = (not_found optional e, s)

  -- What `configMap` does after its Get
  unfoldable pub fetched_config_map :
      {W : Type 0}
      → Text
      → Option Bool
      → Result ForeignError ConfigMap
      → Exec (Locals W) (Option ConfigMap)
  fetched_config_map name optional (ok found) s =
      (ok (some found), record s { config_map_cache = insert name found s.config_map_cache })
  fetched_config_map name optional (err e) s = (not_found optional e, s)

module _ {W : Type 0} (client : Client W) (lib : Library) where
  -- The Get of `secret`
  unfoldable pub fetch_secret : Text → SecretVarsSource → Exec (Locals W) (Option Secret)
  unfolding fetched_secret
  fetch_secret namespace ref s =
      let (r, w) = client.get_secret (named namespace ref.name) s.state.world in
      fetched_secret lib ref.name ref.optional r (record s { state = with_world s.state w })

  -- secret
  unfoldable pub secret : Text → SecretVarsSource → Exec (Locals W) (Option Secret)
  secret namespace ref s = elim (lookup ref.name s.secret_cache) [
    | some found ↦ (ok (some found), s)
    | none ↦ fetch_secret namespace ref s
  ]

  -- The Get of `configMap`
  unfoldable pub fetch_config_map : Text → ConfigMapVarsSource → Exec (Locals W) (Option ConfigMap)
  unfolding fetched_config_map
  fetch_config_map namespace ref s =
      let (r, w) = client.get_config_map (named namespace ref.name) s.state.world in
      fetched_config_map lib ref.name ref.optional r (record s { state = with_world s.state w })

  -- configMap
  unfoldable pub config_map : Text → ConfigMapVarsSource → Exec (Locals W) (Option ConfigMap)
  config_map namespace ref s = elim (lookup ref.name s.config_map_cache) [
    | some found ↦ (ok (some found), s)
    | none ↦ fetch_config_map namespace ref s
  ]

  -- secretValues
  unfoldable pub secret_values : Text → Text → SecretVarsSource → Exec (Locals W) Values
  secret_values namespace prefix ref = do
    found ← secret namespace ref
    pure (values_of_secret lib prefix found)

  -- configMapValues
  unfoldable pub config_map_values : Text → Text → ConfigMapVarsSource → Exec (Locals W) Values
  config_map_values namespace prefix ref = do
    found ← config_map namespace ref
    pure (values_of_config_map lib prefix found)

  -- secretValue
  unfoldable pub secret_value : Text → SecretKeySelector → Exec (Locals W) (Option Text)
  secret_value namespace ref = do
    found ← secret namespace (record { name = ref.name; optional = ref.optional })
    λ s. (value_in_secret namespace ref found, s)

  -- configMapValue
  unfoldable pub config_map_value : Text → ConfigMapKeySelector → Exec (Locals W) (Option Text)
  config_map_value namespace ref = do
    found ← config_map namespace (record { name = ref.name; optional = ref.optional })
    λ s. (value_in_config_map namespace ref found, s)
