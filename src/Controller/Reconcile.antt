-- ===== src/Controller/Reconcile.antt =====
-- pkg/controllers/configmapsecret_controller.go: cleanup and Reconcile. Logging and the hook for
-- tests, testNotifyFn, are left out.
pub mod Writes
pub mod Gone
use configmapsecrets.Prelude.{
  Text, text_eq, Bool, true, false, Option, none, some, List, [], ◌∷◌, if◌then◌else◌,
}
use configmapsecrets.Api.{ConfigMapSecret, Secret}
use configmapsecrets.RefMap
use configmapsecrets.RefMap.{NamespacedName, named}
use configmapsecrets.Runtime.{
  Result, ok, err, ForeignError, foreign, Error, Library, Client, State, with_world,
}
use configmapsecrets.Controller.Refs.{keys, set_refs, var_refs, no_refs}
use configmapsecrets.Controller.Render.{secret_name}
use configmapsecrets.Controller.Sync.{Synced, sync}

-- An iteration of the loop of cleanup goes on, or returns an error.
pub data Outcome : Type 0 where
  proceed : Outcome
  fail : Error → Outcome

abbrev pub error_in : Outcome → Option Error
error_in proceed = none
error_in (fail e) = some e

-- reconcile.Result{Requeue: requeue}, err
pub record Reconciled : Type 0 where
  pub requeue : Bool
  pub error : Option Error

-- cleanupErr != nil && err == nil
abbrev pub first_error : Option Error → Option Error → Option Error
first_error none cleanup_error = cleanup_error
first_error (some e) cleanup_error = some e

module _ {W : Type 0} (client : Client W) (lib : Library) where
  unfoldable pub deleted : Result ForeignError (Unit {0}) → Outcome
  deleted (ok _) = proceed
  deleted (err e) = fail (foreign e)

  -- After the Get of an owned Secret
  unfoldable pub delete_found : Result ForeignError Secret → State W → Outcome × State W
  unfolding deleted
  delete_found (err e) s = (if lib.is_not_found e then proceed else fail (foreign e), s)
  delete_found (ok secret) s =
      let (r, w) = client.delete_secret secret s.world in (deleted r, with_world s w)

  unfoldable pub clean_one : Text → Text → State W → Outcome × State W
  unfolding delete_found
  clean_one namespace name s =
      let (r, w) = client.get_secret (named namespace name) s.world in
      delete_found r (with_world s w)

  unfoldable pub clean_all : Text → Text → List Text → State W → Outcome × State W
  clean_all namespace kept [] s = (proceed, s)
  clean_all namespace kept (name ∷ names) s =
      let (r, s') = (if text_eq name kept then (proceed, s) else clean_one namespace name s) in
      let rest = clean_all namespace kept names s' in
      elim r [ proceed ↦ rest | fail e ↦ (fail e, s') ]

  -- cleanup
  unfoldable pub cleanup : ConfigMapSecret → State W → Outcome × State W
  unfolding clean_all
  cleanup cms s =
      clean_all cms.namespace (secret_name cms) (keys (RefMap.srcs s.owned cms.namespace cms.uid)) s

  unfoldable pub reconcile_found : ConfigMapSecret → State W → Reconciled × State W
  reconcile_found cms s =
      let refs = var_refs cms.spec.vars_from cms.spec.vars in
      let (synced, s') = sync client lib cms (set_refs cms.namespace cms.name refs s) in
      let (outcome, s'') = cleanup synced.cms s' in
      (
        record { requeue = synced.requeue; error = first_error synced.error (error_in outcome) },
        s'',
      )

  unfoldable pub reconcile_got :
      NamespacedName → Result ForeignError ConfigMapSecret → State W → Reconciled × State W
  unfolding reconcile_found
  reconcile_got req (ok cms) s = reconcile_found cms s
  reconcile_got req (err e) s =
      if lib.is_not_found e
      then (record { requeue = false; error = none }, set_refs req.namespace req.name no_refs s)
      else (record { requeue = false; error = some (foreign e) }, s)

  -- Reconcile
  unfoldable pub reconcile : NamespacedName → State W → Reconciled × State W
  unfolding reconcile_got
  reconcile req s =
      let (r, w) = client.get_config_map_secret req s.world in reconcile_got req r (with_world s w)
