-- ===== src/Tests/Runs.antt =====
-- Reconcile on the sample cluster.
use mathlib.Core.Option
use configmapsecrets.Prelude.{
  Text, codes, sym, ap, text_eq, text_eq_iff, text_equality, lookup, insert, true, false, Option,
  none, some, [], ◌∷◌, ◌≡◌, refl, arith,
}
use configmapsecrets.Api.{Secret}
use configmapsecrets.RefMap
use configmapsecrets.RefMap.{NamespacedName, named, same_name, named_equality, empty}
use configmapsecrets.RefMap.Assign.{mentions}
use configmapsecrets.RefMap.Consistent.{empty-IsConsistent}
use configmapsecrets.Runtime.{State, ok}
use configmapsecrets.Controller.MakeVariables.{make_variables}
use configmapsecrets.Controller.MakeVariables.Reads.{make_variables-var_refs}
use configmapsecrets.Controller.Refs.{
  var_refs, get_owner, secret_event_handler, config_map_event_handler,
}
use configmapsecrets.Controller.Refs.Names.{any, mentions-var_refs}
use configmapsecrets.Controller.Refs.Requests.{requested}
use configmapsecrets.Controller.Refs.Watch.{events_after_removal}
use configmapsecrets.Controller.Reconcile.{reconcile, Reconciled}
use configmapsecrets.Controller.Reconcile.Writes.{
  Traced, recording, KeepsNames, IsAllowed, reconcile-writes,
}
use configmapsecrets.Controller.Stable.Reconciling.{All}
use configmapsecrets.Controller.Owner.Laws.{first_controller}
use configmapsecrets.Runtime.{◌>>=◌}
use configmapsecrets.Conditions.{
  set_condition, get_condition, find_condition, replace_condition, remove_condition,
  without_condition, new_condition, set_over,
}
use configmapsecrets.Controller.Variables.{secret_value, secret, fetch_secret, value_in_secret}
use configmapsecrets.Controller.MakeVariables.{
  both_loops, all_vars_from, all_vars, value_of, referenced_value, use_value,
}
use configmapsecrets.Controller.Refs.{
  set_refs, keys, refs_from, refs_of_vars, add_secret, add_config_map,
}
use configmapsecrets.Controller.Render.{render_secret, secret_of, expand_all, secret_name}
use configmapsecrets.Controller.Stable.{Mine-same}
use configmapsecrets.Controller.Status.{
  answered, sync_success_status, sync_status, next_status, same_status, write_status,
}
use configmapsecrets.Controller.Sync.{sync}
use configmapsecrets.Controller.Reconcile.{cleanup}
use configmapsecrets.Tests.Sample.{
  Cluster, memory, offline, partial, found_as, library, at_start, cluster, req, app, keys_secret,
  missing,
}

got_app : (memory.get_config_map_secret req cluster).0 ≡ ok app
unfolding lookup same_name text_eq
got_app = refl

is_gone : library.is_not_found missing ≡ true
unfolding text_eq
is_gone = refl

events_after_removal_example :
    (requested
        (codes "ns")
        (codes "app")
        (secret_event_handler library keys_secret false
          (reconcile offline library req (at_start cluster)).1).0
      ≡ false)
    × (requested (codes "ns") (codes "app") (
          config_map_event_handler
            (codes "ns")
            (codes "keys")
            (reconcile offline library req (at_start cluster)).1)
        ≡ false)
    × ((reconcile offline library req (at_start cluster)).0.requeue ≡ false)
    × ((reconcile offline library req (at_start cluster)).0.error ≡ none)
unfolding get_owner first_controller text_eq
events_after_removal_example =
    events_after_removal offline library req (at_start cluster) missing keys_secret false
      (codes "ns") (codes "keys") refl is_gone empty-IsConsistent empty-IsConsistent

only_keys :
    (k : Text)
    → mentions (var_refs app.spec.vars_from app.spec.vars).secrets k ≡ true
    → memory.get_secret (named app.namespace k) ≡ partial.get_secret (named app.namespace k)
unfolding any text_eq
only_keys k h =
    let e : codes "keys" ≡ k =
      ground (
        arith,
        text_eq_iff (codes "keys") k,
        mentions-var_refs app.spec.vars_from app.spec.vars k,
      ) in
    rw (← e)

-- The spec refers to "keys" alone, and the two clients differ on every other Secret.
make_variables-var_refs_example :
    make_variables memory library app (at_start cluster)
    ≡ make_variables partial library app (at_start cluster)
make_variables-var_refs_example =
    make_variables-var_refs memory partial library app (at_start cluster) only_keys (λ k h. refl)

abbrev traced : State (Traced Cluster)
traced = at_start (record { world = cluster; calls = [] })

found_as-names :
    (n : NamespacedName) (o : Option Secret) (x : Secret)
    → found_as n o ≡ ok x
    → (x.namespace ≡ n.namespace) × (x.name ≡ n.name)
found_as-names n none x e = cc
found_as-names n (some y) x e = ground arith

memory-KeepsNames : KeepsNames memory library
memory-KeepsNames = record {
  secret = λ n w x e. found_as-names n (lookup n w.secrets) x e;
  answer = λ c a w e. rw (sym (ap (answered c) e)) Mine-same;
  reference = λ c x y e. ground arith;
}

reconcile-writes_example :
    All (IsAllowed [] app) (reconcile (recording memory) library req traced).1.world.calls
unfolding RefMap.srcs RefMap.inner lookup
reconcile-writes_example =
    reconcile-writes memory library req traced refl app memory-KeepsNames got_app

-- The sample Reconcile renders the Secret "app" with the value of the key, and reports success.
abbrev after : Reconciled × State Cluster
after = reconcile memory library req (at_start cluster)

rendered_value :
    (after.0 ≡ record { requeue = false; error = none })
    × (Option.map
          (λ (x : Secret). x.secret_data)
          (lookup (named (codes "ns") (codes "app")) after.1.world.secrets)
        ≡ some (some ((codes "conf", codes "hunter2") ∷ [])))
unfolding reconcile lookup insert same_name text_eq sync render_secret make_variables both_loops
    ◌>>=◌ all_vars_from all_vars value_of referenced_value secret_value secret fetch_secret set_refs
    value_in_secret use_value secret_of expand_all secret_name sync_success_status sync_status
    next_status set_condition get_condition find_condition replace_condition remove_condition
    without_condition new_condition set_over same_status write_status cleanup keys RefMap.srcs
    RefMap.inner RefMap.set RefMap.dsts RefMap.drop_stale RefMap.add_missing RefMap.has RefMap.test
    RefMap.add RefMap.link var_refs refs_from refs_of_vars add_secret add_config_map
rendered_value = (refl, refl)
