-- ===== src/Tests/Sample.antt =====
-- A cluster held in memory, and a small library: a text that is the name of a variable expands to
-- its value, every text but the empty one is a valid name.
use configmapsecrets.Prelude.{
  Text, codes, text_eq, text_equality, Map, lookup, insert, delete, Bool, true, Option, none, some,
  List, [], ◌∷◌, ◌++◌, ℕ, suc, if◌then◌else◌,
}
use configmapsecrets.Api.{ConfigMapSecret, ConfigMap, Secret, OwnerReference, opaque}
use configmapsecrets.RefMap.{NamespacedName, named, named_equality, empty}
use configmapsecrets.Runtime.{
  Result, ok, err, ForeignError, Library, Client, State, GroupVersionKind,
}
use configmapsecrets.Controller.Refs.{api_group}
use configmapsecrets.Controller.Owner.Laws.{first_controller}

pub record Cluster : Type 0 where
  pub cmss : Map NamespacedName ConfigMapSecret
  pub secrets : Map NamespacedName Secret
  pub config_maps : Map NamespacedName ConfigMap
  pub clock : ℕ

abbrev pub missing : ForeignError
missing = record { reason = codes "NotFound"; message = codes "not found" }

abbrev pub found : {A : Type 0} → Option A → Result ForeignError A
found none = err missing
found (some a) = ok a

-- A Secret comes back under the names that it is stored under.
abbrev pub found_as : NamespacedName → Option Secret → Result ForeignError Secret
found_as n none = err missing
found_as n (some x) = ok (record x { namespace = n.namespace; name = n.name })

abbrev pub put_secret : Secret → Cluster → Result ForeignError (Unit {0}) × Cluster
put_secret x w = (ok tt, record w { secrets = insert (named x.namespace x.name) x w.secrets })

abbrev pub memory : Client Cluster
memory = record {
  get_config_map_secret = λ n w. (found (lookup n w.cmss), w);
  get_secret = λ n w. (found_as n (lookup n w.secrets), w);
  get_config_map = λ n w. (found (lookup n w.config_maps), w);
  create_secret = put_secret;
  update_secret = put_secret;
  delete_secret =
      λ x w. (ok tt, record w { secrets = delete (named x.namespace x.name) w.secrets });
  update_status = λ c w. (ok c, record w { cmss = insert (named c.namespace c.name) c w.cmss });
  now = λ w. (w.clock, record w { clock = suc w.clock });
}

-- The same cluster seen by a client that finds no Secret but those called "keys"
abbrev pub partial : Client Cluster
partial = record memory {
  get_secret = λ n w.
      (if text_eq n.name (codes "keys") then found_as n (lookup n w.secrets) else err missing, w);
}

-- A client that finds nothing, and fails to write
abbrev pub offline : Client Cluster
offline = record {
  get_config_map_secret = λ n w. (err missing, w);
  get_secret = λ n w. (err missing, w);
  get_config_map = λ n w. (err missing, w);
  create_secret = λ x w. (err missing, w);
  update_secret = λ x w. (err missing, w);
  delete_secret = λ x w. (err missing, w);
  update_status = λ c w. (err missing, w);
  now = λ w. (w.clock, w);
}

abbrev pub kind : GroupVersionKind
kind = record { group = api_group; version = codes "v1alpha1"; kind = codes "ConfigMapSecret" }

abbrev pub owner_of : ConfigMapSecret → GroupVersionKind → OwnerReference
owner_of c k = record {
  api_version = codes "secrets.mz.com/v1alpha1";
  kind = k.kind;
  name = c.name;
  uid = c.uid;
  controller = some true;
  block_owner_deletion = some true;
}

abbrev pub value_or : Text → Option Text → Text
value_or k none = k
value_or k (some v) = v

abbrev pub is_missing : Text → Bool
is_missing reason = text_eq reason (codes "NotFound")

abbrev pub messages : Text → List Text
messages [] = codes "empty" ∷ []
messages (_ ∷ _) = []

abbrev pub group_of : Text → Text
group_of version = if text_eq version (codes "secrets.mz.com/v1alpha1") then api_group else []

abbrev pub library : Library
library = record {
  expand = λ t f. f t;
  mapping_func_for = λ vars k. value_or k (lookup k vars);
  is_env_var_name = messages;
  is_not_found = λ e. is_missing e.reason;
  get_controller_of = λ x. first_controller x.owner_references;
  parse_group = group_of;
  gvk_for_object = λ c. ok kind;
  new_controller_ref = owner_of;
  set_controller_reference =
      λ c x. ok (record x { owner_references = x.owner_references ++ owner_of c kind ∷ [] });
  already_owned_message = λ x o. o.name;
}

-- A ConfigMapSecret "app" with the variable PASS from the key "pass" of the Secret "keys"
abbrev pub app : ConfigMapSecret
app = record {
  namespace = codes "ns";
  name = codes "app";
  uid = codes "u1";
  generation = 1;
  owner_references = [];
  spec = record {
    template = record {
      metadata = record { name = []; labels = none; annotations = none };
      text_data = (codes "conf", codes "PASS") ∷ [];
      binary_data = [];
    };
    vars_from = [];
    vars =
        record {
          name = codes "PASS";
          value = [];
          secret_value = some (record { name = codes "keys"; key = codes "pass"; optional = none });
          config_map_value = none;
        }
        ∷ [];
  };
  status = record { observed_generation = 0; conditions = [] };
}

-- A ConfigMapSecret with no data in its template
abbrev pub bare : ConfigMapSecret
bare = record app {
  spec = record {
    template = record {
      metadata = record { name = []; labels = none; annotations = none };
      text_data = [];
      binary_data = [];
    };
    vars_from = [];
    vars = [];
  };
}

abbrev pub keys_secret : Secret
keys_secret = record {
  namespace = codes "ns";
  name = codes "keys";
  uid = codes "u2";
  labels = none;
  annotations = none;
  owner_references = [];
  secret_data = some ((codes "pass", codes "hunter2") ∷ []);
  secret_type = opaque;
}

abbrev pub cluster : Cluster
cluster = record {
  cmss = (named (codes "ns") (codes "app"), app) ∷ [];
  secrets = (named (codes "ns") (codes "keys"), keys_secret) ∷ [];
  config_maps = [];
  clock = 5;
}

abbrev pub at_start : {W : Type 0} → W → State W
at_start w = record {
  world = w;
  secrets = empty;
  config_maps = empty;
  owned = empty;
  events = [];
  missing_values = [];
}

abbrev pub req : NamespacedName
req = named (codes "ns") (codes "app")
