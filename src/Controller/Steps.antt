-- ===== src/Controller/Steps.antt =====
-- pkg/controllers/configmapsecret_controller.go: the reference maps under concurrency. The handlers
-- of the watches run beside a Reconcile, and each function holds the reconciler's lock while it uses
-- the maps. So what can happen between two uses is one of the steps below, in any order.
pub mod Consistent
pub mod Watched
use configmapsecrets.Prelude.{Text, Bool, true, ◌≡◌}
use configmapsecrets.Api.{Secret}
use configmapsecrets.Runtime.{Library, State}
use configmapsecrets.Controller.Refs.{Refs, set_refs, secret_event_handler}
use configmapsecrets.Controller.Stable.Refs.{SameMaps}

-- One step: a call of setRefs, for a name that `may` allows; a call of secretEventHandler; or
-- anything that leaves the maps alone, such as the reads and writes of a Reconcile, the handler of
-- the ConfigMaps, and other clients of the API server.
pub data Step {W : Type 0} (lib : Library) (may : Text → Text → Bool) (s t : State W) : Type 0 where
  refer :
      (namespace name : Text) (refs : Refs)
      → may namespace name ≡ true
      → t ≡ set_refs namespace name refs s
      → Step lib may s t
  secret_event :
      (x : Secret) (deleted : Bool)
      → t ≡ (secret_event_handler lib x deleted s).1
      → Step lib may s t
  other_step : SameMaps s t → Step lib may s t

-- The states that are reached by steps.
pub data Reach {W : Type 0} (lib : Library) (may : Text → Text → Bool) (s : State W)
    : State W → Type 0 where
  here : Reach lib may s s
  next : {t u : State W} → Reach lib may s t → Step lib may t u → Reach lib may s u
