-- ===== src/Tests/Settled.antt =====
-- A Reconcile after a sync of the sample ConfigMapSecret.
use configmapsecrets.Prelude.{
  codes, text_eq, text_equality, lookup, insert, false, none, some, [], ◌∷◌, ◌≡◌, refl,
}
use configmapsecrets.Api.{Secret, opaque}
use configmapsecrets.RefMap.{NamespacedName, named, same_name, named_equality}
use configmapsecrets.Runtime.{ok, State}
use configmapsecrets.Runtime.{◌>>=◌}
use configmapsecrets.Conditions.{
  set_condition, get_condition, find_condition, replace_condition, remove_condition,
  without_condition, new_condition, set_over,
}
use configmapsecrets.Controller.Variables.{secret_value, secret, fetch_secret, value_in_secret}
use configmapsecrets.Controller.MakeVariables.{
  make_variables, both_loops, all_vars_from, all_vars, value_of, referenced_value, use_value,
}
use configmapsecrets.Controller.Owner.{
  set_owner, own, scan_owners, same_owner, same_map, should_update,
}
use configmapsecrets.Controller.Status.Reports.{reports}
use configmapsecrets.Controller.Render.{secret_of, expand_all, secret_name}
use configmapsecrets.Controller.Status.{
  sync_success_status, sync_status, next_status, same_status, write_status,
}
use configmapsecrets.Controller.Sync.{Synced}
use configmapsecrets.Controller.Render.{Rendered, rendered, render_secret}
use configmapsecrets.Controller.Sync.{sync}
use configmapsecrets.Controller.Settled.{IsSettled}
use configmapsecrets.Controller.Settled.Steady.{clock_read}
use configmapsecrets.Controller.Settled.Quiet.{noted, reconcile-steady}
use configmapsecrets.Controller.Reconcile.{reconcile}
use configmapsecrets.Controller.Refs.{keys, set_refs}
use configmapsecrets.Controller.Stable.Reconciling.{All}
use configmapsecrets.RefMap
use configmapsecrets.Tests.Sample.{
  Cluster, memory, library, owner_of, kind, at_start, cluster, req, app,
}

-- The Secret that the sample ConfigMapSecret renders, owned by it
abbrev app_secret : Secret
app_secret = record {
  namespace = codes "ns";
  name = codes "app";
  uid = [];
  labels = none;
  annotations = none;
  owner_references = owner_of app kind ∷ [];
  secret_data = some ((codes "conf", codes "hunter2") ∷ []);
  secret_type = opaque;
}

abbrev first_sync : Synced × State Cluster
first_sync = sync memory library app (at_start cluster)

stored :
    memory.get_config_map_secret req first_sync.1.world ≡ (ok first_sync.0.cms, first_sync.1.world)
unfolding lookup insert same_name text_eq sync render_secret make_variables both_loops ◌>>=◌
    all_vars_from all_vars value_of referenced_value secret_value secret fetch_secret
    value_in_secret use_value secret_of expand_all secret_name sync_success_status sync_status
    next_status set_condition get_condition find_condition replace_condition remove_condition
    without_condition new_condition set_over same_status write_status
stored = refl

-- The Secret of the first sync is owned as it should be, and the status tells of the success.
settled : IsSettled library first_sync.0.cms app_secret app_secret
unfolding lookup insert same_name text_eq sync render_secret make_variables both_loops ◌>>=◌
    all_vars_from all_vars value_of referenced_value secret_value secret fetch_secret
    value_in_secret use_value secret_of expand_all secret_name sync_success_status sync_status
    next_status set_condition get_condition find_condition replace_condition remove_condition
    without_condition new_condition set_over same_status write_status set_owner own scan_owners
    same_owner should_update same_map reports
settled = record { owned = refl; same = refl; told = refl }

abbrev second_render : Rendered × State Cluster
second_render =
    render_secret memory library first_sync.0.cms
      (noted memory library first_sync.0.cms first_sync.1)

found_again :
    memory.get_secret (named app_secret.namespace app_secret.name) second_render.1.world
    ≡ (ok app_secret, second_render.1.world)
unfolding lookup insert same_name text_eq sync render_secret make_variables both_loops ◌>>=◌
    all_vars_from all_vars value_of referenced_value secret_value secret fetch_secret
    value_in_secret use_value secret_of expand_all secret_name sync_success_status sync_status
    next_status set_condition get_condition find_condition replace_condition remove_condition
    without_condition new_condition set_over same_status write_status set_refs
found_again = refl

none_owned :
    All
      (λ name. name ≡ secret_name first_sync.0.cms)
      (keys (RefMap.srcs first_sync.1.owned first_sync.0.cms.namespace first_sync.0.cms.uid))
unfolding lookup insert same_name text_eq sync render_secret make_variables both_loops ◌>>=◌
    all_vars_from all_vars value_of referenced_value secret_value secret fetch_secret
    value_in_secret use_value secret_of expand_all secret_name sync_success_status sync_status
    next_status set_condition get_condition find_condition replace_condition remove_condition
    without_condition new_condition set_over same_status write_status keys RefMap.srcs RefMap.inner
none_owned = tt

noted_again : second_render.0 ≡ rendered app_secret
unfolding lookup insert same_name text_eq sync render_secret make_variables both_loops ◌>>=◌
    all_vars_from all_vars value_of referenced_value secret_value secret fetch_secret
    value_in_secret use_value secret_of expand_all secret_name sync_success_status sync_status
    next_status set_condition get_condition find_condition replace_condition remove_condition
    without_condition new_condition set_over same_status write_status set_refs
noted_again = refl

reconcile-steady_example :
    reconcile memory library req first_sync.1
    ≡ (record { requeue = false; error = none }, clock_read memory second_render.1)
reconcile-steady_example =
    reconcile-steady memory library req first_sync.0.cms app_secret app_secret first_sync.1 stored
      noted_again found_again settled none_owned
