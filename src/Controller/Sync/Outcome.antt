-- ===== src/Controller/Sync/Outcome.antt =====
-- The results of sync, and the status that it writes.
use mathlib.Core.Path.{subst}
use configmapsecrets.Prelude.{
  Text, Bool-cases, if_keeps, true, false, ◌||◌, Option, none, some, [], ◌≡◌, refl, inl, inr, sym,
}
use configmapsecrets.Api.{ConfigMapSecret, Secret, OwnerReference, condition_true, condition_false}
use configmapsecrets.RefMap.{named}
use configmapsecrets.Runtime.{
  Result, ok, err, ForeignError, foreign, Error, Library, Client, State, GroupVersionKind,
  is_config_error, error_text, with_world,
}
use configmapsecrets.Controller.Render.{Rendered, rendered, failed, render_secret}
use configmapsecrets.Controller.Owner.{
  own_as, Scan, no_controller, other, outdated, current, Ownership, own, set_owner, should_update,
  scan_owners,
}
use configmapsecrets.Controller.Status.{sync_status, sync_success_status}
use configmapsecrets.Controller.Status.Reports.{Reported, SameStatus, sync_status-Reported}
use configmapsecrets.Controller.Stable.{Mine-same}
use configmapsecrets.Controller.Sync.{
  Synced, stopped, updated, sync_failure, succeed, written, create, update, update_owned,
  sync_found, sync_rendered, sync,
}
use configmapsecrets.Controller.Sync.Failure.{
  is_some, failed_status, failed_status-Reported, sync_failure-requeue, sync_failure-status_error,
  sync_failure-error,
}

-- The result is no error and no request to come back.
abbrev pub IsQuiet : Synced → Type 0
IsQuiet synced = (synced.requeue ≡ false) × (synced.error ≡ none)

module _ {W : Type 0} (client : Client W) (lib : Library) where
  -- A sync that cannot render for an error of the configuration asks to come back. Either the status
  -- of the ConfigMapSecret reported the current generation with a condition RenderFailure that is
  -- true and holds the reason and the error's text, and the sync returns no error; or the last thing
  -- it does is to update the status of this object so that it does, and it returns the error of this
  -- update, if there is one.
  pub sync-config_error :
      (cms : ConfigMapSecret) (reason : Text) (e : Error) (s : State W)
      → (render_secret client lib cms s).0 ≡ failed reason e
      → is_config_error e ≡ true
      → ((sync client lib cms s).0.requeue ≡ true)
        × Reported client cms condition_true reason
            (error_text lib e)
            (sync client lib cms s).0.error
            (sync client lib cms s).1.world
  unfolding sync sync_rendered sync_failure
  sync-config_error cms reason e s h c =
      let s' = (render_secret client lib cms s).1 in
      rw h (
        sync_failure-requeue client lib cms reason e s' c,
        subst
            (λ o.
              Reported client cms condition_true reason (error_text lib e) o
                (failed_status client lib cms reason e s').1.world)
            (sym (sync_failure-status_error client lib cms reason e s' c))
            (failed_status-Reported client lib cms reason e s'),
      )

  -- A sync that cannot render for another error returns this error. Either the status reported the
  -- current generation with a condition RenderFailure that is true and holds the reason and the
  -- error's text, or the last thing the sync does is to update the status of this object so that it
  -- does; it asks to come back exactly if this update fails.
  pub sync-other_error :
      (cms : ConfigMapSecret) (reason : Text) (e : Error) (s : State W)
      → (render_secret client lib cms s).0 ≡ failed reason e
      → is_config_error e ≡ false
      → ((sync client lib cms s).0.error ≡ some e)
        × (status_error : Option Error) × ((sync client lib cms s).0.requeue ≡ is_some status_error)
        × Reported client cms condition_true reason
            (error_text lib e)
            status_error
            (sync client lib cms s).1.world
  unfolding sync sync_rendered sync_failure
  sync-other_error cms reason e s h c =
      let s' = (render_secret client lib cms s).1 in
      let (a, b) = sync_failure-error client lib cms reason e s' c in
      rw h (
        a,
        (failed_status client lib cms reason e s').0.0,
        b,
        failed_status-Reported client lib cms reason e s',
      )

  -- Where the result is quiet, the status reports a success, or was written so without an error.
  abbrev IsHonest : ConfigMapSecret → Synced × State W → Type 0
  IsHonest cms (synced, s) = IsQuiet synced → Reported client cms condition_false [] [] none s.world

  sync_failure-IsHonest :
      (cms : ConfigMapSecret) (reason : Text) (e : Error) (s : State W)
      → IsHonest cms (sync_failure client lib cms reason e s)
  sync_failure-IsHonest cms reason e s q = elim (Bool-cases (is_config_error e)) [
    | inl c ↦ cc (sync_failure-requeue client lib cms reason e s c, q.0)
    | inr c ↦ cc ((sync_failure-error client lib cms reason e s c).0, q.1)
  ]

  succeed-IsHonest :
      (cms c : ConfigMapSecret) (s : State W)
      → SameStatus client cms c
      → IsHonest cms (succeed client lib c s)
  unfolding succeed sync_success_status
  succeed-IsHonest cms c s same q =
      subst
        (λ o.
          Reported client cms condition_false [] [] o
            (sync_status client c condition_false [] [] s).1.world)
        (q.1) (sync_status-Reported client cms c condition_false [] [] s same)

  written-IsHonest :
      (cms c : ConfigMapSecret) (r : Result ForeignError (Unit {0})) (s : State W)
      → SameStatus client cms c
      → IsHonest cms (written client lib c r s)
  unfolding written
  written-IsHonest cms c (err e) s same q = cc (q.1)
  written-IsHonest cms c (ok u) s same q = succeed-IsHonest cms c s same q

  refl-SameStatus : (cms : ConfigMapSecret) → SameStatus client cms cms
  refl-SameStatus cms = record { mine = Mine-same; generation = refl; status = refl }

  -- What setOwner returns has the same status.
  abbrev Keeps : ConfigMapSecret → Result Error Ownership → Type 0
  Keeps cms (err e) = Unit
  Keeps cms (ok o) = SameStatus client cms o.cms

  own-Keeps :
      (owner : OwnerReference) (cms : ConfigMapSecret) (found : Secret) (scan : Scan)
      → Keeps cms (own owner cms found scan)
  unfolding own
  own-Keeps owner cms found (other ref) = tt
  own-Keeps owner cms found (outdated refs) = refl-SameStatus cms
  own-Keeps owner cms found current = refl-SameStatus cms
  own-Keeps owner cms found no_controller = record {
    mine = record { namespace = refl; name = refl; uid = refl; spec = refl };
    generation = refl;
    status = refl;
  }

  own_as-Keeps :
      (cms : ConfigMapSecret) (found : Secret) (gvk : Result ForeignError GroupVersionKind)
      → Keeps cms (own_as lib cms found gvk)
  own_as-Keeps cms found (err e) = tt
  own_as-Keeps cms found (ok gvk) =
      let owner = lib.new_controller_ref cms gvk in
      own-Keeps owner cms found (scan_owners cms.uid owner found.owner_references)

  update_owned-IsHonest :
      (cms c : ConfigMapSecret) (secret : Secret) (r : Result Error Ownership) (s : State W)
      → Keeps cms r
      → IsHonest cms (update_owned client lib secret c r s)
  unfolding update_owned update
  update_owned-IsHonest cms c secret (err e) s g = λ q. cc (q.1)
  update_owned-IsHonest cms c secret (ok o) s g =
      if_keeps (IsHonest cms) (o.changed || should_update o.secret secret)
        (update client lib o.cms (updated o.secret secret) s) (succeed client lib o.cms s)
        (let (r, w) = client.update_secret (updated o.secret secret) s.world in
          written-IsHonest cms o.cms r (with_world s w) g)
        (succeed-IsHonest cms o.cms s g)

  sync_found-IsHonest :
      (cms : ConfigMapSecret) (secret : Secret) (r : Result ForeignError Secret) (s : State W)
      → IsHonest cms (sync_found client lib cms secret r s)
  unfolding sync_found create set_owner
  sync_found-IsHonest cms secret (ok found) s =
      update_owned-IsHonest cms cms secret (set_owner lib cms found) s
        (own_as-Keeps cms found (lib.gvk_for_object cms))
  sync_found-IsHonest cms secret (err e) s =
      if_keeps (IsHonest cms) (lib.is_not_found e) (create client lib cms secret s)
        (stopped (foreign e) cms, s)
        (let (r, w) = client.create_secret secret s.world in
          written-IsHonest cms cms r (with_world s w) (refl-SameStatus cms))
        (λ q. cc (q.1))

  sync_rendered-IsHonest :
      (cms : ConfigMapSecret) (r : Rendered) (s : State W)
      → IsHonest cms (sync_rendered client lib cms r s)
  unfolding sync_rendered
  sync_rendered-IsHonest cms (failed reason e) s = sync_failure-IsHonest cms reason e s
  sync_rendered-IsHonest cms (rendered secret) s =
      let (r, w) = client.get_secret (named secret.namespace secret.name) s.world in
      sync_found-IsHonest cms secret r (with_world s w)

  -- Where a sync returns no error and does not ask to come back, the status of the ConfigMapSecret
  -- reported the current generation with a condition RenderFailure that is false and has no reason
  -- and no message, or the last thing the sync does is to update the status of this object so that it
  -- does, without an error.
  pub sync-quiet :
      (cms : ConfigMapSecret) (s : State W)
      → (sync client lib cms s).0.requeue ≡ false
      → (sync client lib cms s).0.error ≡ none
      → Reported client cms condition_false [] [] none (sync client lib cms s).1.world
  unfolding sync
  sync-quiet cms s q e =
      let (r, s') = render_secret client lib cms s in sync_rendered-IsHonest cms r s' (q, e)
