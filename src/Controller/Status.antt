-- ===== src/Controller/Status.antt =====
-- pkg/controllers/configmapsecret_controller.go: syncStatus and its two callers. They change the
-- ConfigMapSecret that the caller holds, so they return it beside the error.
pub mod Reports
use configmapsecrets.Prelude.{
  Text, text_eq, nat_eq, Bool, true, false, ◌&&◌, Option, none, some, List, [], ◌∷◌, if◌then◌else◌,
}
use configmapsecrets.Api.{
  ConfigMapSecret, ConfigMapSecretCondition, ConfigMapSecretStatus, render_failure, condition_true,
  condition_false,
}
use configmapsecrets.Conditions.{new_condition, set_condition}
use configmapsecrets.Runtime.{
  Result, ok, err, ForeignError, foreign, Error, Client, State, with_world,
}

-- reflect.DeepEqual on conditions and on statuses
unfoldable pub same_condition : ConfigMapSecretCondition → ConfigMapSecretCondition → Bool
same_condition a b =
    text_eq a.cond_type b.cond_type
    && (text_eq a.status b.status
        && (nat_eq a.last_update_time b.last_update_time
            && (nat_eq a.last_transition_time b.last_transition_time
                && (text_eq a.reason b.reason && text_eq a.message b.message))))

unfoldable pub same_conditions :
    List ConfigMapSecretCondition → List ConfigMapSecretCondition → Bool
same_conditions [] [] = true
same_conditions (a ∷ as') (b ∷ bs) = same_condition a b && same_conditions as' bs
same_conditions _ _ = false

unfoldable pub same_status : ConfigMapSecretStatus → ConfigMapSecretStatus → Bool
unfolding same_condition same_conditions
same_status a b =
    nat_eq a.observed_generation b.observed_generation && same_conditions a.conditions b.conditions

abbrev pub error_of : {A : Type 0} → Result ForeignError A → Option Error
error_of (ok _) = none
error_of (err e) = some (foreign e)

-- The object behind the pointer that Update is given: the server's answer is decoded into it.
abbrev pub answered : ConfigMapSecret → Result ForeignError ConfigMapSecret → ConfigMapSecret
answered cms (ok answer) = answer
answered cms (err e) = cms

module _ {W : Type 0} (client : Client W) where
  -- The status that syncStatus computes, and the two readings of the clock
  unfoldable pub next_status :
      ConfigMapSecret → Text → Text → Text → State W → ConfigMapSecretStatus × State W
  next_status cms cond_status reason message s =
      let (update, w) = client.now s.world in
      let (transition, w') = client.now w in
      let status : ConfigMapSecretStatus = record {
        observed_generation = cms.generation;
        conditions = cms.status.conditions;
      } in
      (
        set_condition status
            (new_condition update transition render_failure cond_status reason message),
        with_world s w',
      )

  -- The write at the end of syncStatus
  unfoldable pub write_status :
      ConfigMapSecret → State W → (Option Error × ConfigMapSecret) × State W
  write_status cms s =
      let (r, w) = client.update_status cms s.world in
      ((error_of r, answered cms r), with_world s w)

  -- syncStatus
  unfoldable pub sync_status :
      ConfigMapSecret → Text → Text → Text → State W → (Option Error × ConfigMapSecret) × State W
  sync_status cms cond_status reason message s =
      let (status, s') = next_status cms cond_status reason message s in
      if same_status cms.status status
      then ((none, cms), s')
      else write_status (record cms { status = status }) s'

  -- syncSuccessStatus
  unfoldable pub sync_success_status :
      ConfigMapSecret → State W → (Option Error × ConfigMapSecret) × State W
  sync_success_status cms = sync_status cms condition_false [] []

  -- syncRenderFailureStatus
  unfoldable pub sync_render_failure_status :
      ConfigMapSecret → Text → Text → State W → (Option Error × ConfigMapSecret) × State W
  sync_render_failure_status cms reason message = sync_status cms condition_true reason message
