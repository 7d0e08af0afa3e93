-- ===== src/Tests/Outcomes.antt =====
-- What sync returns and reports on the sample cluster.
use configmapsecrets.Prelude.{
  codes, text_eq, text_equality, lookup, insert, true, false, Option, some, none, [], ◌≡◌, refl,
  Text,
}
use configmapsecrets.Api.{condition_true, condition_false}
use configmapsecrets.RefMap.{same_name, named_equality}
use configmapsecrets.Runtime.{
  err, Error, ForeignError, foreign, config_error, Client, is_config_error, error_text, ◌>>=◌,
}
use configmapsecrets.Conditions.{
  set_condition, get_condition, find_condition, replace_condition, remove_condition,
  without_condition, new_condition, set_over, create_variables_error_reason,
}
use configmapsecrets.Controller.Variables.{
  secret_value, secret, fetch_secret, value_in_secret, not_found,
}
use configmapsecrets.Controller.MakeVariables.{
  make_variables, both_loops, all_vars_from, all_vars, value_of, referenced_value, use_value,
}
use configmapsecrets.Controller.Render.{failed, render_secret, secret_of, expand_all, secret_name}
use configmapsecrets.Controller.Status.{
  sync_success_status, sync_status, next_status, same_status, write_status,
}
use configmapsecrets.Controller.Status.Reports.{Reported}
use configmapsecrets.Controller.Sync.{sync}
use configmapsecrets.Controller.Sync.Failure.{is_some}
use configmapsecrets.Controller.Sync.Outcome.{sync-config_error, sync-other_error, sync-quiet}
use configmapsecrets.Tests.Sample.{
  Cluster, memory, offline, library, at_start, cluster, app, missing,
}

abbrev reason : Text
reason = create_variables_error_reason

abbrev not_there : Error
not_there = config_error (foreign missing)

app_missing : (render_secret offline library app (at_start cluster)).0 ≡ failed reason not_there
unfolding render_secret make_variables ◌>>=◌ both_loops all_vars_from all_vars value_of
    referenced_value secret_value secret fetch_secret text_eq lookup not_found
app_missing = refl

sync-config_error_example :
    ((sync offline library app (at_start cluster)).0.requeue ≡ true)
    × Reported offline app condition_true reason
        (error_text library not_there)
        (sync offline library app (at_start cluster)).0.error
        (sync offline library app (at_start cluster)).1.world
unfolding is_config_error
sync-config_error_example =
    sync-config_error offline library app reason not_there (at_start cluster) app_missing refl

abbrev timeout : ForeignError
timeout = record { reason = codes "Timeout"; message = codes "timed out" }

abbrev slow : Client Cluster
slow = record memory { get_secret = λ n w. (err timeout, w) }

app_late : (render_secret slow library app (at_start cluster)).0 ≡ failed reason (foreign timeout)
unfolding render_secret make_variables ◌>>=◌ both_loops all_vars_from all_vars value_of
    referenced_value secret_value secret fetch_secret text_eq lookup not_found
app_late = refl

sync-other_error_example :
    ((sync slow library app (at_start cluster)).0.error ≡ some (foreign timeout))
    × (status_error : Option Error) × ((sync slow library app (at_start cluster)).0.requeue
        ≡ is_some status_error)
    × Reported slow app condition_true reason
        (error_text library (foreign timeout))
        status_error
        (sync slow library app (at_start cluster)).1.world
unfolding is_config_error
sync-other_error_example =
    sync-other_error slow library app reason (foreign timeout) (at_start cluster) app_late refl

app_quiet :
    ((sync memory library app (at_start cluster)).0.requeue ≡ false)
    × ((sync memory library app (at_start cluster)).0.error ≡ none)
unfolding lookup insert same_name text_eq sync render_secret make_variables both_loops ◌>>=◌
    all_vars_from all_vars value_of referenced_value secret_value secret fetch_secret
    value_in_secret use_value secret_of expand_all secret_name sync_success_status sync_status
    next_status set_condition get_condition find_condition replace_condition remove_condition
    without_condition new_condition set_over same_status write_status
app_quiet = (refl, refl)

sync-quiet_example :
    Reported memory app condition_false [] [] none
      (sync memory library app (at_start cluster)).1.world
sync-quiet_example = sync-quiet memory library app (at_start cluster) app_quiet.0 app_quiet.1
