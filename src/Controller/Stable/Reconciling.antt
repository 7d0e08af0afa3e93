-- ===== src/Controller/Stable/Reconciling.antt =====
-- Invariants of cleanup.
use configmapsecrets.Prelude.{
  Text, text_eq, Bool, ◌≡◌, List, [], ◌∷◌, if◌then◌else◌, refl, true, false,
}
use configmapsecrets.Api.{ConfigMapSecret, Secret}
use configmapsecrets.RefMap
use configmapsecrets.RefMap.{NamespacedName, named, StringSet}
use configmapsecrets.Runtime.{Result, ok, err, ForeignError, Library, Client, State, with_world}
use configmapsecrets.Controller.Refs.{keys}
use configmapsecrets.Controller.Render.{secret_name}
use configmapsecrets.Controller.Reconcile.{
  Outcome, proceed, fail, delete_found, clean_one, clean_all, cleanup,
}

abbrev pub All : {A : Type 0} → (A → Type 0) → List A → Type 0
All P [] = Unit
All P (a ∷ as') = P a × All P as'

-- Gets keep `P`, and so does the deletion of a Secret that Get has found under a name of which
-- `Owned` holds and which is not the name that is kept.
pub record StableCleanup {W : Type 0} (client : Client W) (P : State W → Type 0)
    (namespace kept : Text) (Owned : Text → Type 0) : Type 0 where
  pub get :
      (n : NamespacedName) (s : State W) → P s → P (with_world s (client.get_secret n s.world).1)
  pub delete :
      (name : Text) (x : Secret) (w : W) (s : State W)
      → Owned name
      → text_eq name kept ≡ false
      → (client.get_secret (named namespace name) w).0 ≡ ok x
      → P s
      → P (with_world s (client.delete_secret x s.world).1)

module _ {W : Type 0} (client : Client W) (lib : Library) (P : State W → Type 0)
    (namespace kept : Text) (Owned : Text → Type 0)
    (stable : StableCleanup client P namespace kept Owned) where
  delete_found-keeps :
      (name : Text) (w : W) (r : Result ForeignError Secret) (s : State W)
      → Owned name
      → text_eq name kept ≡ false
      → (client.get_secret (named namespace name) w).0 ≡ r
      → P s
      → P (delete_found client lib r s).1
  unfolding delete_found
  delete_found-keeps name w (ok x) s o n e h = stable.delete name x w s o n e h
  delete_found-keeps name w (err e') s o n e h = h

  clean_one-keeps :
      (name : Text) (s : State W)
      → Owned name
      → text_eq name kept ≡ false
      → P s
      → P (clean_one client lib namespace name s).1
  unfolding clean_one
  clean_one-keeps name s o n h =
      delete_found-keeps name s.world _ _ o n refl (stable.get (named namespace name) s h)

  step-keeps :
      (b : Bool) (name : Text) (s : State W)
      → text_eq name kept ≡ b
      → Owned name
      → P s
      → P (if b then (proceed, s) else clean_one client lib namespace name s).1
  step-keeps true name s e o h = h
  step-keeps false name s e o h = clean_one-keeps name s o e h

  pub clean_all-keeps :
      (names : List Text) (s : State W)
      → All Owned names
      → P s
      → P (clean_all client lib namespace kept names s).1
  unfolding clean_all
  clean_all-keeps [] s a h = h
  clean_all-keeps (name ∷ names) s a h =
      let r = (if text_eq name kept then (proceed, s) else clean_one client lib namespace name s) in
      let h' : P r.1 = step-keeps (text_eq name kept) name s refl a.0 h in
      after-keeps r.0 _ _ (clean_all-keeps names r.1 a.1 h') h'
    where
      after-keeps :
          (r : Outcome) (x : Outcome × State W) (s : State W)
          → P x.1
          → P s
          → (let y : Outcome × State W = elim r [ proceed ↦ x | fail e ↦ (fail e, s) ] in P y.1)
      after-keeps proceed x s hx hs = hx
      after-keeps (fail e) x s hx hs = hs

module _ {W : Type 0} (client : Client W) (lib : Library) (P : State W → Type 0) where
  -- cleanup keeps what its Gets and its deletions keep.
  pub cleanup-keeps :
      (cms : ConfigMapSecret) (Owned : Text → Type 0) (s : State W)
      → StableCleanup client P cms.namespace (secret_name cms) Owned
      → All Owned (keys (RefMap.srcs s.owned cms.namespace cms.uid))
      → P s
      → P (cleanup client lib cms s).1
  unfolding cleanup
  cleanup-keeps cms Owned s stable a h =
      clean_all-keeps client lib P cms.namespace (secret_name cms) Owned stable _ s a h
