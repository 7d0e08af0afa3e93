-- ===== src/Controller/Steps/Consistent.antt =====
-- The reference maps stay consistent over Reconciles, events and steps between their uses.
use configmapsecrets.Prelude.{Text, Bool, List, [], ◌∷◌, Bool-cases, inl, inr}
use configmapsecrets.Api.{ConfigMapSecret, Secret}
use configmapsecrets.RefMap.{NamespacedName}
use configmapsecrets.RefMap.Consistent.{IsConsistent, set-IsConsistent}
use configmapsecrets.Runtime.{Result, ok, err, ForeignError, Library, Client, State, with_world}
use configmapsecrets.Controller.Refs.{Refs, secret_event_handler, set_refs, no_refs}
use configmapsecrets.Controller.Reconcile.{reconcile, reconcile_got}
use configmapsecrets.Controller.Stable.Refs.{SameMaps, reconcile_found-SameMaps}
use configmapsecrets.Controller.Steps.{Step, refer, secret_event, other_step, Reach, here, next}

-- The three reference maps are consistent.
pub record AreConsistent {W : Type 0} (s : State W) : Type 0 where
  pub secrets : IsConsistent s.secrets
  pub config_maps : IsConsistent s.config_maps
  pub owned : IsConsistent s.owned

pub SameMaps-AreConsistent :
    {W : Type 0} {s t : State W} → SameMaps s t → AreConsistent s → AreConsistent t
SameMaps-AreConsistent k h = record {
  secrets = rw (k.secrets) (h.secrets);
  config_maps = rw (k.config_maps) (h.config_maps);
  owned = rw (k.owned) (h.owned);
}

module _ {W : Type 0} (lib : Library) (may : Text → Text → Bool) where
  Step-AreConsistent : (s t : State W) → Step lib may s t → AreConsistent s → AreConsistent t
  unfolding set_refs secret_event_handler
  Step-AreConsistent s t (refer n k refs m e) h = rw e (record {
    secrets = set-IsConsistent s.secrets n k refs.secrets h.secrets;
    config_maps = set-IsConsistent s.config_maps n k refs.config_maps h.config_maps;
    owned = h.owned;
  })
  Step-AreConsistent s t (secret_event x deleted e) h = rw e (record {
    secrets = h.secrets;
    config_maps = h.config_maps;
    owned = set-IsConsistent s.owned x.namespace x.name _ h.owned;
  })
  Step-AreConsistent s t (other_step k) h = SameMaps-AreConsistent k h

  -- Whatever steps of the handlers, of Reconcile and of other clients are taken, in
  -- whatever order, consistent reference maps stay so.
  pub Reach-AreConsistent : {s t : State W} → Reach lib may s t → AreConsistent s → AreConsistent t
  Reach-AreConsistent here h = h
  Reach-AreConsistent (next r st) h = Step-AreConsistent _ _ st (Reach-AreConsistent r h)

-- What runs on the state of the reconciler: a Reconcile, a handler of one of the watches, or another
-- client of the API server, which touches the world only.
pub data Operation (W : Type 0) : Type 0 where
  reconciling : Client W → NamespacedName → Operation W
  secret_seen : Secret → Bool → Operation W
  config_map_seen : (namespace name : Text) → Operation W
  elsewhere : (W → W) → Operation W

abbrev pub perform : {W : Type 0} → Library → Operation W → State W → State W
perform lib (reconciling client req) s = (reconcile client lib req s).1
perform lib (secret_seen x deleted) s = (secret_event_handler lib x deleted s).1
perform lib (config_map_seen namespace name) s = s
perform lib (elsewhere change) s = with_world s (change s.world)

unfoldable pub perform_all : {W : Type 0} → Library → List (Operation W) → State W → State W
perform_all lib [] s = s
perform_all lib (o ∷ os) s = perform_all lib os (perform lib o s)

module _ {W : Type 0} (client : Client W) (lib : Library) (req : NamespacedName) where
  set_refs-AreConsistent :
      (namespace name : Text) (refs : Refs) (s : State W)
      → AreConsistent s
      → AreConsistent (set_refs namespace name refs s)
  unfolding set_refs
  set_refs-AreConsistent namespace name refs s h = record {
    secrets = set-IsConsistent s.secrets namespace name refs.secrets h.secrets;
    config_maps = set-IsConsistent s.config_maps namespace name refs.config_maps h.config_maps;
    owned = h.owned;
  }

  reconcile_got-AreConsistent :
      (r : Result ForeignError ConfigMapSecret) (s : State W)
      → AreConsistent s
      → AreConsistent (reconcile_got client lib req r s).1
  unfolding reconcile_got
  reconcile_got-AreConsistent (ok cms) s h =
      SameMaps-AreConsistent (reconcile_found-SameMaps client lib cms s)
        (set_refs-AreConsistent cms.namespace cms.name _ s h)
  reconcile_got-AreConsistent (err e) s h = elim (Bool-cases (lib.is_not_found e)) [
    | inl g ↦ rw g (set_refs-AreConsistent req.namespace req.name no_refs s h)
    | inr g ↦ rw g h
  ]

  -- A Reconcile, whatever it reads and whatever the server answers, keeps the maps consistent.
  pub reconcile-AreConsistent :
      (s : State W) → AreConsistent s → AreConsistent (reconcile client lib req s).1
  unfolding reconcile
  reconcile-AreConsistent s h =
      let (r, w) = client.get_config_map_secret req s.world in
      reconcile_got-AreConsistent r (with_world s w)
        (record { secrets = h.secrets; config_maps = h.config_maps; owned = h.owned })

perform-AreConsistent :
    {W : Type 0} (lib : Library) (o : Operation W) (s : State W)
    → AreConsistent s
    → AreConsistent (perform lib o s)
unfolding secret_event_handler
perform-AreConsistent lib (reconciling client req) s h = reconcile-AreConsistent client lib req s h
perform-AreConsistent lib (secret_seen x deleted) s h = record {
  secrets = h.secrets;
  config_maps = h.config_maps;
  owned = set-IsConsistent s.owned x.namespace x.name _ h.owned;
}
perform-AreConsistent lib (config_map_seen namespace name) s h = h
perform-AreConsistent lib (elsewhere change) s h = record {
  secrets = h.secrets;
  config_maps = h.config_maps;
  owned = h.owned;
}

-- Any number of whole Reconciles, each of any request and with any client, of events of the Secrets
-- and of the ConfigMaps, and of changes that other clients make between them, in any order, leaves
-- the three reference maps consistent, if they were so at the start.
pub perform_all-AreConsistent :
    {W : Type 0} (lib : Library) (os : List (Operation W)) (s : State W)
    → AreConsistent s
    → AreConsistent (perform_all lib os s)
unfolding perform_all
perform_all-AreConsistent lib [] s h = h
perform_all-AreConsistent lib (o ∷ os) s h =
    perform_all-AreConsistent lib os (perform lib o s) (perform-AreConsistent lib o s h)
