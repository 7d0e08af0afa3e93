-- ===== src/Controller/Settled/Steady.antt =====
-- A sync of a settled ConfigMapSecret.
use configmapsecrets.Prelude.{
  Text, text_eq_iff, text_equality, true, false, Option, none, some, List, [], ◌∷◌, ◌≡◌, refl, ◌∙◌,
  arith,
}
use configmapsecrets.Api.{
  ConfigMapSecret, ConfigMapSecretCondition, ConfigMapSecretStatus, Secret, render_failure,
  condition_false,
}
use configmapsecrets.RefMap.{named}
use configmapsecrets.Conditions.{
  get_condition, new_condition, same_content, set_condition, set_over,
}
use configmapsecrets.Runtime.{ok, Client, Library, State, with_world}
use configmapsecrets.Controller.Status.{
  same_condition, same_conditions, same_status, next_status, sync_status, sync_success_status,
}
use configmapsecrets.Controller.Status.Reports.{tells, reports}
use configmapsecrets.Controller.Render.{rendered, render_secret}
use configmapsecrets.Controller.Sync.{succeed, update_owned, sync_found, sync_rendered, sync}
use configmapsecrets.Controller.Settled.{IsSettled}

same_condition_refl : (a : ConfigMapSecretCondition) → same_condition a a ≡ true
unfolding same_condition
same_condition_refl a = ground (
  arith,
  text_eq_iff a.cond_type a.cond_type,
  text_eq_iff a.status a.status,
  text_eq_iff a.reason a.reason,
  text_eq_iff a.message a.message,
)

same_conditions_refl : (as' : List ConfigMapSecretCondition) → same_conditions as' as' ≡ true
unfolding same_conditions
same_conditions_refl [] = refl
same_conditions_refl (a ∷ as') = ground (arith, same_condition_refl a, same_conditions_refl as')

same_status_refl : (st : ConfigMapSecretStatus) → same_status st st ≡ true
unfolding same_status
same_status_refl st = ground (arith, same_conditions_refl st.conditions)

set_over-told :
    (st : ConfigMapSecretStatus) (c : ConfigMapSecretCondition)
    (o : Option ConfigMapSecretCondition)
    → tells o c.status c.reason c.message ≡ true
    → set_over st c o ≡ st
unfolding set_over same_content
set_over-told st c none h = ground arith
set_over-told st c (some prev) h = ground (arith, h)

module _ {W : Type 0} (client : Client W) where
  -- The state after two readings of the clock
  abbrev pub clock_read : State W → State W
  clock_read s = with_world s (client.now (client.now s.world).1).1

  next_status-told :
      (cms : ConfigMapSecret) (status reason message : Text) (s : State W)
      → reports cms.generation cms.status status reason message ≡ true
      → (next_status client cms status reason message s).0 ≡ cms.status
  unfolding next_status reports set_condition new_condition
  next_status-told cms status reason message s h =
      let st : ConfigMapSecretStatus = record {
        observed_generation = cms.generation;
        conditions = cms.status.conditions;
      } in
      let c =
        new_condition (client.now s.world).0 (client.now (client.now s.world).1).0 render_failure
          status reason message in
      set_over-told st c (get_condition st render_failure)
        (unfold get_condition in ground (arith, h))
      ∙ ground (arith, h)

  sync_status-told :
      (cms : ConfigMapSecret) (status reason message : Text) (s : State W)
      → reports cms.generation cms.status status reason message ≡ true
      → sync_status client cms status reason message s ≡ ((none, cms), clock_read s)
  unfolding sync_status
  sync_status-told cms status reason message s h =
      rw (next_status-told cms status reason message s h, same_status_refl cms.status)
        (unfold next_status in refl)

module _ {W : Type 0} (client : Client W) (lib : Library) where
  -- A sync of a settled ConfigMapSecret, once it has rendered the Secret and found it, returns at
  -- once: no error, no request to come back, no write, and the ConfigMapSecret as it was.
  pub sync-steady :
      (cms : ConfigMapSecret) (secret found : Secret) (s : State W)
      → (render_secret client lib cms s).0 ≡ rendered secret
      → client.get_secret
          (named secret.namespace secret.name)
          (render_secret client lib cms s).1.world
        ≡ (ok found, (render_secret client lib cms s).1.world)
      → IsSettled lib cms secret found
      → sync client lib cms s ≡ (
        record { requeue = false; error = none; cms = cms },
        clock_read client (render_secret client lib cms s).1,
      )
  unfolding sync sync_rendered sync_found update_owned succeed sync_success_status
  sync-steady cms secret found s r g h =
      rw (r, g, h.owned, h.same, sync_status-told client cms condition_false [] [] _ h.told) refl
