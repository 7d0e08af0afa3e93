-- ===== src/Controller/Render.antt =====
-- pkg/controllers/configmapsecret_controller.go: renderSecret.
pub mod Data
use configmapsecrets.Prelude.{
  Text, text_equality, Map, insert, Option, none, some, List, [], ◌∷◌, if◌then◌else◌,
}
use configmapsecrets.Api.{ConfigMapSecret, Secret, opaque}
use configmapsecrets.Conditions.{create_variables_error_reason, internal_error}
use configmapsecrets.Runtime.{Result, ok, err, ForeignError, foreign, Error, Library, Client, State}
use configmapsecrets.Controller.Variables.{is_nil}
use configmapsecrets.Controller.MakeVariables.{make_variables}

-- What renderSecret returns: the Secret, or a reason and an error.
pub data Rendered : Type 0 where
  rendered : Secret → Rendered
  failed : Text → Error → Rendered

-- data[k] = []byte(expansion.Expand(v, varMapFn))
unfoldable pub expand_all : Library → Map Text Text → Map Text Text → Map Text Text → Map Text Text
expand_all lib vars [] acc = acc
expand_all lib vars ((k, v) ∷ m) acc =
    expand_all lib vars m (insert k (lib.expand v (lib.mapping_func_for vars)) acc)

-- The name of the generated Secret, in renderSecret and in cleanup
unfoldable pub secret_name : ConfigMapSecret → Text
secret_name cms =
    let name = cms.spec.template.metadata.name in if is_nil name then cms.name else name

-- The literal of the Secret; the API server gives it its UID.
unfoldable pub secret_of : Library → ConfigMapSecret → Map Text Text → Secret
unfolding expand_all
secret_of lib cms vars =
    let template = cms.spec.template in
    record {
      namespace = cms.namespace;
      name = secret_name cms;
      uid = [];
      labels = template.metadata.labels;
      annotations = template.metadata.annotations;
      owner_references = [];
      secret_data =
          some
            (expand_all lib vars template.binary_data (expand_all lib vars template.text_data []));
      secret_type = opaque;
    }

abbrev pub with_reference : Result ForeignError Secret → Rendered
with_reference (ok secret) = rendered secret
with_reference (err e) = failed internal_error (foreign e)

abbrev pub render_with : Library → ConfigMapSecret → Result Error (Map Text Text) → Rendered
render_with lib cms (err e) = failed create_variables_error_reason e
render_with lib cms (ok vars) =
    with_reference (lib.set_controller_reference cms (secret_of lib cms vars))

module _ {W : Type 0} (client : Client W) (lib : Library) where
  -- renderSecret
  unfoldable pub render_secret : ConfigMapSecret → State W → Rendered × State W
  render_secret cms s = let (r, s') = make_variables client lib cms s in (render_with lib cms r, s')
