-- ===== src/Controller/Settled.antt =====
-- pkg/controllers/configmapsecret_controller.go: when sync and Reconcile have nothing to do.
pub mod Steady
pub mod Quiet
use configmapsecrets.Prelude.{true, false, [], ◌≡◌}
use configmapsecrets.Api.{ConfigMapSecret, Secret, condition_false}
use configmapsecrets.Runtime.{ok, Library}
use configmapsecrets.Controller.Owner.{Ownership, set_owner, should_update}
use configmapsecrets.Controller.Status.Reports.{reports}

-- The Secret that was found is owned by the ConfigMapSecret and has the fields of the rendered one,
-- and the status tells of a success for the current generation.
pub record IsSettled (lib : Library) (cms : ConfigMapSecret) (secret found : Secret) : Type 0 where
  pub owned : set_owner lib cms found ≡ ok (record { changed = false; secret = found; cms = cms })
  pub same : should_update found secret ≡ false
  pub told : reports cms.generation cms.status condition_false [] [] ≡ true
