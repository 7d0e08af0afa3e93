-- ===== src/Controller/MakeVariables/Plain.antt =====
-- What makeVariables means: the same loops over a fixed reading of the Secrets and ConfigMaps, with
-- no caches and no calls of the client.
pub mod Simulation
pub mod Gets
pub mod Agrees
pub mod Entries
pub mod Puts
pub mod Sources
use configmapsecrets.Prelude.{
  Text, codes, Map, insert, text_equality, Bool, Option, none, some, List, [], ◌∷◌, ◌++◌,
  if◌then◌else◌,
}
use configmapsecrets.Api.{
  ConfigMapSecret, Secret, ConfigMap, VarsFromSource, Var, SecretVarsSource, ConfigMapVarsSource,
}
use configmapsecrets.Runtime.{
  Result, ok, err, Error, ForeignError, Library, State, Event, Exec, ◌>>=◌, ◌>>◌, pure, resume,
}
use configmapsecrets.Controller.Variables.{
  Values, no_values, values_of_secret, values_of_config_map, value_in_secret, value_in_config_map,
  is_nil, not_found,
}
use configmapsecrets.Controller.MakeVariables.{put_all, invalid_names_event}

-- What Get answers for each name of the namespace.
pub record Reading : Type 0 where
  pub secrets : Text → Result ForeignError Secret
  pub config_maps : Text → Result ForeignError ConfigMap

-- The variables so far, and the events.
pub record Made : Type 0 where
  pub vars : Map Text Text
  pub events : List Event

abbrev pub nothing : Made
nothing = record { vars = []; events = [] }

-- The object, none if it is optional and not there, or an error.
abbrev pub read_as :
    {A : Type 0} → Library → Option Bool → Result ForeignError A → Result Error (Option A)
read_as lib optional (ok found) = ok (some found)
read_as lib optional (err e) = not_found lib optional e

abbrev pub lift : {A : Type 0} → Result Error A → Exec Made A
lift r q = (r, q)

unfoldable pub make_values : Text → Text → Text → Values → Exec Made (Unit {0})
make_values kind namespace name values q = (
  ok tt,
  record {
    vars = put_all values.values q.vars;
    events =
        if is_nil values.invalid_keys
        then q.events
        else q.events ++ invalid_names_event kind namespace name values.invalid_keys ∷ [];
  },
)

unfoldable pub make_value : Text → Option Text → Exec Made (Unit {0})
make_value name none q = (ok tt, q)
make_value name (some val) q = (ok tt, record q { vars = insert name val q.vars })

module _ (lib : Library) (reading : Reading) (namespace : Text) where
  unfoldable pub read_secret : SecretVarsSource → Exec Made (Option Secret)
  read_secret ref = lift (read_as lib ref.optional (reading.secrets ref.name))

  unfoldable pub read_config_map : ConfigMapVarsSource → Exec Made (Option ConfigMap)
  read_config_map ref = lift (read_as lib ref.optional (reading.config_maps ref.name))

  unfoldable pub made_secret_values : Text → SecretVarsSource → Exec Made Values
  unfolding read_secret
  made_secret_values prefix ref = do
    found ← read_secret ref
    pure (values_of_secret lib prefix found)

  unfoldable pub made_config_map_values : Text → ConfigMapVarsSource → Exec Made Values
  unfolding read_config_map
  made_config_map_values prefix ref = do
    found ← read_config_map ref
    pure (values_of_config_map lib prefix found)

  unfoldable pub made_from :
      Text → Option SecretVarsSource → Option ConfigMapVarsSource → Exec Made (Unit {0})
  made_from prefix (some ref) _ = do
    values ← made_secret_values prefix ref
    make_values (codes "Secret") namespace ref.name values
  made_from prefix none (some ref) = do
    values ← made_config_map_values prefix ref
    make_values (codes "ConfigMap") namespace ref.name values
  made_from prefix none none = make_values [] namespace [] no_values

  unfoldable pub all_made_from : List VarsFromSource → Exec Made (Unit {0})
  all_made_from [] = pure tt
  all_made_from (v ∷ vs) = do made_from v.prefix v.secret_ref v.config_map_ref; all_made_from vs

  unfoldable pub made_value : Var → Exec Made (Option Text)
  made_value v = elim v.secret_value [
    | some ref ↦ do
      found ← read_secret (record { name = ref.name; optional = ref.optional })
      lift (value_in_secret namespace ref found)
    | none ↦ elim v.config_map_value [
      | some ref ↦ do
        found ← read_config_map (record { name = ref.name; optional = ref.optional })
        lift (value_in_config_map namespace ref found)
      | none ↦ pure (some v.value)
    ]
  ]

  unfoldable pub made_of : Var → Exec Made (Option Text)
  made_of v q =
      if is_nil v.value
      then made_value v q
      else (ok (some (lib.expand v.value (lib.mapping_func_for q.vars))), q)

  unfoldable pub all_made : List Var → Exec Made (Unit {0})
  all_made [] = pure tt
  all_made (v ∷ vs) = do val ← made_of v; make_value v.name val; all_made vs

-- The variables or an error, with the events.
unfoldable pub made : Library → Reading → ConfigMapSecret → Result Error (Unit {0}) × Made
unfolding all_made_from all_made
made lib reading cms =
    (all_made_from lib reading cms.namespace cms.spec.vars_from
        >> all_made lib reading cms.namespace cms.spec.vars)
      nothing

-- What makeVariables returns and the state that it leaves, for what has been made.
abbrev pub made_result :
    {W : Type 0} → Result Error (Unit {0}) → Made → State W → Result Error (Map Text Text) × State W
made_result (ok _) q s = (ok q.vars, record s { events = s.events ++ q.events })
made_result (err e) q s = (err e, record s { events = s.events ++ q.events })
