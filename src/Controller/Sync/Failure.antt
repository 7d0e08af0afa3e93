-- ===== src/Controller/Sync/Failure.antt =====
-- What sync returns after an error in rendering.
use configmapsecrets.Prelude.{Text, Bool, true, false, Option, none, some, if◌then◌else◌, ◌≡◌, refl}
use configmapsecrets.Api.{ConfigMapSecret, condition_true}
use configmapsecrets.Runtime.{Error, Library, Client, State, is_config_error, error_text}
use configmapsecrets.Controller.Status.{sync_render_failure_status}
use configmapsecrets.Controller.Status.Reports.{Reported, sync_status-Reported}
use configmapsecrets.Controller.Stable.{Mine-same}
use configmapsecrets.Controller.Sync.{after_failure, count_missing, sync_failure}

abbrev pub is_some : Option Error → Bool
is_some none = false
is_some (some e) = true

after_failure-requeue :
    (o : Option Error) (r : Option Error × ConfigMapSecret)
    → (after_failure true o r).requeue ≡ true
after_failure-requeue o (none, cms) = refl
after_failure-requeue none (some e, cms) = refl
after_failure-requeue (some f) (some e, cms) = refl

after_failure-requeue_failed :
    (e : Error) (r : Option Error × ConfigMapSecret)
    → (after_failure false (some e) r).requeue ≡ is_some r.0
after_failure-requeue_failed e (none, cms) = refl
after_failure-requeue_failed e (some f, cms) = refl

after_failure-error :
    (requeue : Bool) (e : Error) (r : Option Error × ConfigMapSecret)
    → (after_failure requeue (some e) r).error ≡ some e
after_failure-error requeue e (none, cms) = refl
after_failure-error requeue e (some f, cms) = refl

after_failure-error_none :
    (requeue : Bool) (r : Option Error × ConfigMapSecret)
    → (after_failure requeue none r).error ≡ r.0
after_failure-error_none requeue (none, cms) = refl
after_failure-error_none requeue (some f, cms) = refl

module _ {W : Type 0} (client : Client W) (lib : Library) where
  -- What the status update at the end of the branch for a render error returns, and its world
  abbrev pub failed_status :
      ConfigMapSecret → Text → Error → State W → (Option Error × ConfigMapSecret) × State W
  failed_status cms reason e s =
      sync_render_failure_status client cms reason (error_text lib e)
        (if is_config_error e then count_missing cms.namespace s else s)

  pub failed_status-Reported :
      (cms : ConfigMapSecret) (reason : Text) (e : Error) (s : State W)
      → Reported client cms condition_true reason
          (error_text lib e)
          (failed_status cms reason e s).0.0
          (failed_status cms reason e s).1.world
  unfolding sync_render_failure_status
  failed_status-Reported cms reason e s =
      sync_status-Reported client cms cms condition_true reason (error_text lib e) _
        (record { mine = Mine-same; generation = refl; status = refl })

  pub sync_failure-requeue :
      (cms : ConfigMapSecret) (reason : Text) (e : Error) (s : State W)
      → is_config_error e ≡ true
      → (sync_failure client lib cms reason e s).0.requeue ≡ true
  unfolding sync_failure
  sync_failure-requeue cms reason e s c = rw c (
      after_failure-requeue none
        (sync_render_failure_status client cms reason (error_text lib e)
          (count_missing cms.namespace s)).0)

  pub sync_failure-status_error :
      (cms : ConfigMapSecret) (reason : Text) (e : Error) (s : State W)
      → is_config_error e ≡ true
      → (sync_failure client lib cms reason e s).0.error ≡ (failed_status cms reason e s).0.0
  unfolding sync_failure
  sync_failure-status_error cms reason e s c = rw c (
      after_failure-error_none true
        (sync_render_failure_status client cms reason (error_text lib e)
          (count_missing cms.namespace s)).0)

  pub sync_failure-error :
      (cms : ConfigMapSecret) (reason : Text) (e : Error) (s : State W)
      → is_config_error e ≡ false
      → ((sync_failure client lib cms reason e s).0.error ≡ some e)
        × ((sync_failure client lib cms reason e s).0.requeue
            ≡ is_some (failed_status cms reason e s).0.0)
  unfolding sync_failure
  sync_failure-error cms reason e s c = rw c (
      let r = (sync_render_failure_status client cms reason (error_text lib e) s).0 in
      (after_failure-error false e r, after_failure-requeue_failed e r))
