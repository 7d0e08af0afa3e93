-- ===== src/Tests/Steps.antt =====
-- Steps beside a Reconcile, and makeVariables over a fixed reading.
use configmapsecrets.Prelude.{
  codes, text_eq, text_equality, lookup, true, false, List, [], ◌∷◌, ◌||◌, ◌≡◌, refl,
}
use configmapsecrets.RefMap.{named, same_name, named_equality}
use configmapsecrets.RefMap.Consistent.{empty-IsConsistent}
use configmapsecrets.Runtime.{Client, ok}
use configmapsecrets.Controller.Refs.{get_owner, secret_event_handler, config_map_event_handler}
use configmapsecrets.Controller.Refs.Names.{
  any, var_secret, from_secret, var_config_map, from_config_map,
}
use configmapsecrets.Controller.Refs.Requests.{requested, owned_by}
use configmapsecrets.Controller.Reconcile.{reconcile}
use configmapsecrets.Controller.MakeVariables.{make_variables}
use configmapsecrets.Controller.MakeVariables.Plain.{Reading, made, made_result}
use configmapsecrets.Controller.MakeVariables.Plain.Agrees.{make_variables-made}
use configmapsecrets.Controller.Steps.{secret_event, here, next}
use configmapsecrets.Controller.Steps.Consistent.{
  AreConsistent, Operation, reconciling, secret_seen, config_map_seen, perform_all,
  perform_all-AreConsistent,
}
use configmapsecrets.Controller.Steps.Watched.{stays_watched}
use configmapsecrets.Tests.Sample.{
  Cluster, memory, library, at_start, cluster, req, app, keys_secret, found_as, found,
}

start-AreConsistent : AreConsistent (at_start cluster)
start-AreConsistent = record {
  secrets = empty-IsConsistent;
  config_maps = empty-IsConsistent;
  owned = empty-IsConsistent;
}

-- A Reconcile, two events and a second Reconcile
abbrev history : List (Operation Cluster)
history =
    reconciling memory req
    ∷ secret_seen keys_secret true
    ∷ config_map_seen app.namespace (codes "keys")
    ∷ reconciling memory req
    ∷ []

perform_all-AreConsistent_example : AreConsistent (perform_all library history (at_start cluster))
perform_all-AreConsistent_example =
    perform_all-AreConsistent library history (at_start cluster) start-AreConsistent

read_app : (memory.get_config_map_secret req cluster).0 ≡ ok app
unfolding lookup same_name text_eq
read_app = refl

-- After the Reconcile the Secret "keys" is changed twice.
stays_watched_example :
    let s = (reconcile memory library req (at_start cluster)).1 in
    let t = (secret_event_handler library keys_secret false s).1 in
    (requested app.namespace app.name (secret_event_handler library keys_secret false t).0 ≡ (
      owned_by (get_owner library keys_secret) app.name
      || (any (var_secret keys_secret.name) app.spec.vars
          || any (from_secret keys_secret.name) app.spec.vars_from)))
    × (requested app.namespace app.name (config_map_event_handler app.namespace (codes "keys") t)
        ≡ (any (var_config_map (codes "keys")) app.spec.vars
            || any (from_config_map (codes "keys")) app.spec.vars_from))
stays_watched_example =
    stays_watched memory library req (at_start cluster) app read_app start-AreConsistent
      (secret_event_handler library keys_secret false
        (reconcile memory library req (at_start cluster)).1).1
      (next here (secret_event keys_secret false refl)) keys_secret false (codes "keys") refl

-- A client that reads from a copy of the cluster
abbrev pub copied : Client Cluster
copied = record memory {
  get_secret = λ n w. (found_as n (lookup n cluster.secrets), w);
  get_config_map = λ n w. (found (lookup n cluster.config_maps), w);
}

abbrev pub reading : Reading
reading = record {
  secrets =
      λ name. found_as (named (codes "ns") name) (lookup (named (codes "ns") name) cluster.secrets);
  config_maps = λ name. found (lookup (named (codes "ns") name) cluster.config_maps);
}

make_variables-made_example :
    make_variables copied library app (at_start cluster)
    ≡ made_result (made library reading app).0 (made library reading app).1 (at_start cluster)
make_variables-made_example =
    make_variables-made copied library reading app (at_start cluster)
      (record { secret = λ name w. refl; config_map = λ name w. refl })
