-- ===== src/Controller/Refs.antt =====
-- pkg/controllers/configmapsecret_controller.go: which Secrets and ConfigMaps a ConfigMapSecret
-- refers to, and the handlers of the watches, which turn the events of an object into requests.
-- A request is the name of a ConfigMapSecret. The work queue is the list of the requests added, in
-- their order. Each function runs under the reconciler's lock from its first to its last access of
-- the reference maps, so it is one step.
pub mod Names
pub mod Requests
pub mod Watch
use configmapsecrets.Prelude.{
  Text, codes, text_eq, text_equality, Map, insert, Bool, true, false, not, Option, none, some,
  List, [], ◌∷◌, ◌++◌, if◌then◌else◌, map,
}
use configmapsecrets.Api.{
  Secret, VarsFromSource, Var, OwnerReference, SecretVarsSource, ConfigMapVarsSource,
  SecretKeySelector, ConfigMapKeySelector,
}
use configmapsecrets.RefMap
use configmapsecrets.RefMap.{NamespacedName, named, StringSet, RefMap}
use configmapsecrets.Runtime.{Library, State}

-- The two sets of varRefs
pub record Refs : Type 0 where
  pub secrets : StringSet
  pub config_maps : StringSet

-- addSecret, addConfigMap
unfoldable pub add_secret : Text → Refs → Refs
add_secret name refs = record refs { secrets = insert name true refs.secrets }

unfoldable pub add_config_map : Text → Refs → Refs
add_config_map name refs = record refs { config_maps = insert name true refs.config_maps }

-- if p != nil { f(p.Name) }
abbrev pub when_set : {A : Type 0} → Option A → (A → Refs → Refs) → Refs → Refs
when_set none f refs = refs
when_set (some a) f refs = f a refs

unfoldable pub refs_from : List VarsFromSource → Refs → Refs
refs_from [] refs = refs
refs_from (v ∷ vs) refs = refs_from vs (
    when_set v.config_map_ref (λ r. add_config_map r.name)
      (when_set v.secret_ref (λ r. add_secret r.name) refs))

unfoldable pub refs_of_vars : List Var → Refs → Refs
refs_of_vars [] refs = refs
refs_of_vars (v ∷ vs) refs = refs_of_vars vs (
    when_set v.config_map_value (λ r. add_config_map r.name)
      (when_set v.secret_value (λ r. add_secret r.name) refs))

abbrev pub no_refs : Refs
no_refs = record { secrets = []; config_maps = [] }

-- varRefs
unfoldable pub var_refs : List VarsFromSource → List Var → Refs
var_refs vars_from vars = refs_of_vars vars (refs_from vars_from no_refs)

-- keys
unfoldable pub keys : StringSet → List Text
keys [] = []
keys ((k, _) ∷ set) = k ∷ keys set

-- toReqs
unfoldable pub to_reqs : Text → StringSet → List NamespacedName
to_reqs namespace [] = []
to_reqs namespace ((name, _) ∷ names) = named namespace name ∷ to_reqs namespace names

module _ {W : Type 0} where
  -- setRefs
  unfoldable pub set_refs : Text → Text → Refs → State W → State W
  set_refs namespace name refs s = record s {
    secrets = RefMap.set s.secrets namespace name refs.secrets;
    config_maps = RefMap.set s.config_maps namespace name refs.config_maps;
  }

  -- configMapEventHandler, for a ConfigMap of this namespace and name
  unfoldable pub config_map_event_handler : Text → Text → State W → List NamespacedName
  unfolding to_reqs
  config_map_event_handler namespace name s =
      to_reqs namespace (RefMap.srcs s.config_maps namespace name)

abbrev pub owner_if : Bool → OwnerReference → Option OwnerReference
owner_if true owner = some owner
owner_if false owner = none

-- v1alpha1.GroupVersion.Group
abbrev pub api_group : Text
api_group = codes "secrets.mz.com"

unfoldable pub our_owner : Library → Option OwnerReference → Option OwnerReference
our_owner lib none = none
our_owner lib (some owner) =
    if not (text_eq owner.kind (codes "ConfigMapSecret"))
    then none
    else if not (text_eq (lib.parse_group owner.api_version) api_group)
    then none
    else some owner

-- getOwner
unfoldable pub get_owner : Library → Secret → Option OwnerReference
unfolding our_owner
get_owner lib secret = our_owner lib (lib.get_controller_of secret)

-- The destinations that secretEventHandler sets for the Secret
unfoldable pub owner_set : Bool → Option OwnerReference → StringSet
owner_set true owner = []
owner_set false none = []
owner_set false (some owner) = (owner.uid, true) ∷ []

-- The loop over the names at the end of secretEventHandler
unfoldable pub other_requests : Text → Option OwnerReference → List Text → List NamespacedName
other_requests namespace owner [] = []
other_requests namespace none (name ∷ names) =
    named namespace name ∷ other_requests namespace none names
other_requests namespace (some owner) (name ∷ names) =
    let rest = other_requests namespace (some owner) names in
    if text_eq owner.name name then rest else named namespace name ∷ rest

unfoldable pub owner_request : Text → Option OwnerReference → List NamespacedName
owner_request namespace none = []
owner_request namespace (some owner) = named namespace owner.name ∷ []

-- secretEventHandler: the requests added to the queue, and the state
unfoldable pub secret_event_handler :
    {W : Type 0} → Library → Secret → Bool → State W → List NamespacedName × State W
unfolding owner_set other_requests owner_request keys
secret_event_handler lib secret deleted s =
    let owner = get_owner lib secret in
    let owned = RefMap.set s.owned secret.namespace secret.name (owner_set deleted owner) in
    let cms_names = keys (RefMap.srcs s.secrets secret.namespace secret.name) in
    (
      owner_request secret.namespace owner ++ other_requests secret.namespace owner cms_names,
      record s { owned = owned },
    )
