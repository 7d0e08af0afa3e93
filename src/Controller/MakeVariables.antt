-- ===== src/Controller/MakeVariables.antt =====
-- pkg/controllers/configmapsecret_controller.go: makeVariables, its two loops.
pub mod Reads
pub mod Plain
use configmapsecrets.Prelude.{
  Text, codes, text_equality, Map, insert, Option, none, some, List, [], ◌∷◌, ◌++◌, sort_texts,
  join, if◌then◌else◌,
}
use configmapsecrets.Api.{
  ConfigMapSecret, VarsFromSource, Var, SecretVarsSource, ConfigMapVarsSource,
}
use configmapsecrets.Runtime.{
  Result, ok, err, Error, Library, Client, State, Event, Exec, resume, ◌>>=◌, ◌>>◌, pure,
}
use configmapsecrets.Controller.Variables.{
  Locals, Values, no_values, secret_values, config_map_values, secret_value, config_map_value,
  is_nil,
}

-- for k, v := range srcVars { vars[k] = v }
unfoldable pub put_all : Map Text Text → Map Text Text → Map Text Text
put_all [] vars = vars
put_all ((k, v) ∷ src) vars = put_all src (insert k v vars)

unfoldable pub invalid_names_event : Text → Text → Text → List Text → Event
invalid_names_event kind namespace name invalid_keys = record {
  event_type = codes "Warning";
  reason = codes "InvalidTemplateVariableNames";
  message =
      codes "Keys ["
      ++ (join (sort_texts invalid_keys) (codes ", ")
          ++ (codes "] from the VarsFrom "
              ++ (kind
                  ++ (codes " "
                      ++ (namespace
                          ++ (codes "/"
                              ++ (name
                                  ++ codes
                                      " were skipped since they are considered invalid template variable names.")))))));
}

module _ {W : Type 0} where
  -- What an iteration of the loop over VarsFrom does with the values of its source
  unfoldable pub use_values : Text → Text → Text → Values → Exec (Locals W) (Unit {0})
  use_values kind namespace name values s =
      let put = record s { vars = put_all values.values s.vars } in
      let event = invalid_names_event kind namespace name values.invalid_keys in
      (
        ok tt,
        (if is_nil values.invalid_keys then put else record put {
          state = record put.state { events = put.state.events ++ event ∷ [] };
        }),
      )

  -- What an iteration of the loop over Vars does with its value; none is a value not found.
  unfoldable pub use_value : Text → Option Text → Exec (Locals W) (Unit {0})
  use_value name none s = (ok tt, s)
  use_value name (some val) s = (ok tt, record s { vars = insert name val s.vars })

  abbrev pub start : State W → Locals W
  start s = record { state = s; vars = []; secret_cache = []; config_map_cache = [] }

  abbrev pub vars_result :
      Result Error (Unit {0}) → Locals W → Result Error (Map Text Text) × State W
  vars_result (ok _) s = (ok s.vars, s.state)
  vars_result (err e) s = (err e, s.state)

module _ {W : Type 0} (client : Client W) (lib : Library) where
  -- The switch of the first loop, by SecretRef and ConfigMapRef
  unfoldable pub vars_from :
      Text
      → Text
      → Option SecretVarsSource
      → Option ConfigMapVarsSource
      → Exec (Locals W) (Unit {0})
  vars_from namespace prefix (some ref) _ = do
    values ← secret_values client lib namespace prefix ref
    use_values (codes "Secret") namespace ref.name values
  vars_from namespace prefix none (some ref) = do
    values ← config_map_values client lib namespace prefix ref
    use_values (codes "ConfigMap") namespace ref.name values
  vars_from namespace prefix none none = use_values [] namespace [] no_values

  unfoldable pub all_vars_from : Text → List VarsFromSource → Exec (Locals W) (Unit {0})
  all_vars_from namespace [] = pure tt
  all_vars_from namespace (v ∷ vs) = do
    vars_from namespace v.prefix v.secret_ref v.config_map_ref
    all_vars_from namespace vs

  -- The switch of the second loop, where the value is empty
  unfoldable pub referenced_value : Text → Var → Exec (Locals W) (Option Text)
  referenced_value namespace v = elim v.secret_value [
    | some ref ↦ secret_value client lib namespace ref
    | none ↦ elim v.config_map_value [
      | some ref ↦ config_map_value client lib namespace ref
      | none ↦ pure (some v.value)
    ]
  ]

  -- The switch of the second loop
  unfoldable pub value_of : Text → Var → Exec (Locals W) (Option Text)
  value_of namespace v s =
      if is_nil v.value
      then referenced_value namespace v s
      else (ok (some (lib.expand v.value (lib.mapping_func_for s.vars))), s)

  unfoldable pub all_vars : Text → List Var → Exec (Locals W) (Unit {0})
  all_vars namespace [] = pure tt
  all_vars namespace (v ∷ vs) = do
    val ← value_of namespace v
    use_value v.name val
    all_vars namespace vs

  unfoldable pub both_loops : ConfigMapSecret → Exec (Locals W) (Unit {0})
  both_loops cms = do
    all_vars_from cms.namespace cms.spec.vars_from
    all_vars cms.namespace cms.spec.vars

  -- makeVariables
  unfoldable pub make_variables : ConfigMapSecret → Exec (State W) (Map Text Text)
  make_variables cms s = let (r, s') = both_loops cms (start s) in vars_result r s'
