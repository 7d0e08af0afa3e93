-- ===== src/Controller/Sync.antt =====
-- pkg/controllers/configmapsecret_controller.go: sync. It may change the ConfigMapSecret that its
-- caller holds, so it returns it with the two results. Logging is left out.
pub mod Failure
pub mod Outcome
use configmapsecrets.Prelude.{
  Text, text_equality, lookup, insert, Bool, true, false, ◌||◌, Option, none, some, if◌then◌else◌,
  ℕ, suc,
}
use configmapsecrets.Api.{ConfigMapSecret, Secret}
use configmapsecrets.RefMap.{named}
use configmapsecrets.Runtime.{
  Result, ok, err, ForeignError, foreign, Error, error_text, is_config_error, Library, Client,
  State, with_world,
}
use configmapsecrets.Controller.Render.{Rendered, rendered, failed, render_secret}
use configmapsecrets.Controller.Owner.{Ownership, set_owner, should_update}
use configmapsecrets.Controller.Status.{sync_success_status, sync_render_failure_status}

pub record Synced : Type 0 where
  pub requeue : Bool
  pub error : Option Error
  pub cms : ConfigMapSecret

abbrev pub count_of : Option ℕ → ℕ
count_of none = 0
count_of (some n) = n

-- The deferred function of sync, on what sync is about to return and the status error.
abbrev pub after_failure : Bool → Option Error → Option Error × ConfigMapSecret → Synced
after_failure requeue error (none, cms) = record { requeue = requeue; error = error; cms = cms }
after_failure requeue none (some status_error, cms) = record {
  requeue = true;
  error = some status_error;
  cms = cms;
}
after_failure requeue (some e) (some status_error, cms) = record {
  requeue = true;
  error = some e;
  cms = cms;
}

-- The end of a sync that succeeds: the error is that of syncSuccessStatus.
abbrev pub after_success : Option Error × ConfigMapSecret → Synced
after_success (error, cms) = record { requeue = false; error = error; cms = cms }

abbrev pub stopped : Error → ConfigMapSecret → Synced
stopped e cms = record { requeue = false; error = some e; cms = cms }

module _ {W : Type 0} where
  -- missingValues.WithLabelValues(namespace).Inc()
  unfoldable pub count_missing : Text → State W → State W
  count_missing namespace s = record s {
    missing_values =
        insert namespace (suc (count_of (lookup namespace s.missing_values))) s.missing_values;
  }

-- The four fields that sync copies before it updates
unfoldable pub updated : Secret → Secret → Secret
updated found secret = record found {
  labels = secret.labels;
  annotations = secret.annotations;
  secret_data = secret.secret_data;
  secret_type = secret.secret_type;
}

module _ {W : Type 0} (client : Client W) (lib : Library) where
  -- The branch of sync for a render error
  unfoldable pub sync_failure : ConfigMapSecret → Text → Error → State W → Synced × State W
  unfolding count_missing
  sync_failure cms reason e s =
      let config = is_config_error e in
      let counted = if config then count_missing cms.namespace s else s in
      let (r, s') = sync_render_failure_status client cms reason (error_text lib e) counted in
      (after_failure config (if config then none else some e) r, s')

  unfoldable pub succeed : ConfigMapSecret → State W → Synced × State W
  succeed cms s = let (r, s') = sync_success_status client cms s in (after_success r, s')

  -- The end of the branches that write: an error of the write, or the success status
  unfoldable pub written :
      ConfigMapSecret → Result ForeignError (Unit {0}) → State W → Synced × State W
  unfolding succeed
  written cms (err e) s = (stopped (foreign e) cms, s)
  written cms (ok _) s = succeed cms s

  unfoldable pub create : ConfigMapSecret → Secret → State W → Synced × State W
  unfolding written
  create cms secret s =
      let (r, w) = client.create_secret secret s.world in written cms r (with_world s w)

  unfoldable pub update : ConfigMapSecret → Secret → State W → Synced × State W
  unfolding written
  update cms found s =
      let (r, w) = client.update_secret found s.world in written cms r (with_world s w)

  unfoldable pub update_owned :
      Secret → ConfigMapSecret → Result Error Ownership → State W → Synced × State W
  unfolding update succeed updated
  update_owned secret cms (err e) s = (stopped e cms, s)
  update_owned secret cms (ok o) s =
      if o.changed || should_update o.secret secret
      then update o.cms (updated o.secret secret) s
      else succeed o.cms s

  -- The rest of sync after the Get of the Secret
  unfoldable pub sync_found :
      ConfigMapSecret → Secret → Result ForeignError Secret → State W → Synced × State W
  unfolding create update_owned
  sync_found cms secret (err e) s =
      if lib.is_not_found e then create cms secret s else (stopped (foreign e) cms, s)
  sync_found cms secret (ok found) s = update_owned secret cms (set_owner lib cms found) s

  unfoldable pub sync_rendered : ConfigMapSecret → Rendered → State W → Synced × State W
  unfolding sync_failure sync_found
  sync_rendered cms (failed reason e) s = sync_failure cms reason e s
  sync_rendered cms (rendered secret) s =
      let (r, w) = client.get_secret (named secret.namespace secret.name) s.world in
      sync_found cms secret r (with_world s w)

  -- sync
  unfoldable pub sync : ConfigMapSecret → State W → Synced × State W
  unfolding sync_rendered
  sync cms s = let (r, s') = render_secret client lib cms s in sync_rendered cms r s'
