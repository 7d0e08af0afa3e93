-- ===== src/Tests/Gone.antt =====
-- A Reconcile deletes a Secret that is recorded as owned and no longer in use.
use configmapsecrets.Prelude.{
  sym, ap, codes, text_eq, text_equality, lookup, insert, delete, none, ◌∷◌, ◌≡◌, refl,
}
use configmapsecrets.RefMap
use configmapsecrets.RefMap.{NamespacedName, named, same_name, named_equality, empty}
use configmapsecrets.Runtime.{State}
use configmapsecrets.Controller.MakeVariables.{make_variables}
use configmapsecrets.Controller.Refs.{var_refs}
use configmapsecrets.Controller.Reconcile.{reconcile, delete_found, clean_one, clean_all}
use configmapsecrets.Controller.Reconcile.Gone.{OthersDone, reconcile-OthersDone}
use configmapsecrets.Controller.Stable.{KeepsObject, Mine-same}
use configmapsecrets.Controller.Status.{answered}
use configmapsecrets.Runtime.{◌>>=◌}
use configmapsecrets.Conditions.{
  set_condition, get_condition, find_condition, replace_condition, remove_condition,
  without_condition, new_condition, set_over,
}
use configmapsecrets.Controller.Variables.{secret_value, secret, fetch_secret, value_in_secret}
use configmapsecrets.Controller.MakeVariables.{
  both_loops, all_vars_from, all_vars, value_of, referenced_value, use_value,
}
use configmapsecrets.Controller.Refs.{
  set_refs, keys, refs_from, refs_of_vars, add_secret, add_config_map,
}
use configmapsecrets.Controller.Render.{render_secret, secret_of, expand_all, secret_name}
use configmapsecrets.Controller.Status.{
  sync_success_status, sync_status, next_status, same_status, write_status,
}
use configmapsecrets.Controller.Sync.{sync}
use configmapsecrets.Controller.Reconcile.{cleanup}
use configmapsecrets.Tests.Sample.{
  Cluster, memory, library, at_start, cluster, req, app, keys_secret,
}

-- A Secret "old" of an earlier template
abbrev crowded : State Cluster
crowded =
    record (at_start (record cluster {
      secrets =
          (named (codes "ns") (codes "old"), record keys_secret { name = codes "old" })
          ∷ cluster.secrets;
    })) { owned = RefMap.add empty (codes "ns") (codes "old") (codes "u1") }

crowded-error : (reconcile memory library req crowded).0.error ≡ none
unfolding reconcile lookup insert same_name text_eq sync render_secret make_variables both_loops
    ◌>>=◌ all_vars_from all_vars value_of referenced_value secret_value secret fetch_secret set_refs
    value_in_secret use_value secret_of expand_all secret_name sync_success_status sync_status
    next_status set_condition get_condition find_condition replace_condition remove_condition
    without_condition new_condition set_over same_status write_status cleanup keys RefMap.srcs
    RefMap.inner RefMap.set RefMap.dsts RefMap.drop_stale RefMap.add_missing RefMap.has RefMap.test
    RefMap.add RefMap.link var_refs refs_from refs_of_vars add_secret add_config_map delete_found
    clean_one clean_all delete
crowded-error = refl

memory-KeepsObject : KeepsObject memory
memory-KeepsObject c a w e = rw (sym (ap (answered c) e)) Mine-same

reconcile-OthersDone_example : OthersDone memory library app crowded.owned
unfolding lookup same_name text_eq
reconcile-OthersDone_example =
    reconcile-OthersDone memory library req app crowded memory-KeepsObject refl crowded-error
