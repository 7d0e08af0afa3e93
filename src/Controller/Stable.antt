-- ===== src/Controller/Stable.antt =====
-- Invariants of sync, cleanup and Reconcile: what their reads, their bookkeeping and the writes that
-- they may make keep, they keep.
pub mod Reconciling
pub mod Refs
use configmapsecrets.Prelude.{
  Text, text_equality, Map, Bool, ◌≡◌, Option, none, some, List, [], ◌∷◌, ◌||◌, arith,
  if◌then◌else◌, refl, if_keeps, ℕ, ap, Option-cases, inl, inr, ◌∙◌, Bool-cases, true, false,
}
use configmapsecrets.Api.{ConfigMapSecret, Secret, condition_true}
use configmapsecrets.RefMap.{NamespacedName, named}
use configmapsecrets.Runtime.{
  Result, ok, err, Error, ForeignError, foreign, GroupVersionKind, Library, Client, State,
  with_world, is_config_error, error_text,
}
use configmapsecrets.Controller.Render.{
  Rendered, rendered, failed, render_secret, secret_name, secret_of, render_with, with_reference,
}
use configmapsecrets.Controller.MakeVariables.{make_variables}
use configmapsecrets.Controller.Owner.{
  Ownership, Scan, no_controller, other, outdated, current, set_owner, own, own_as, should_update,
  scan_owners,
}
use configmapsecrets.Controller.Status.{
  answered, next_status, write_status, sync_status, sync_success_status, sync_render_failure_status,
}
use configmapsecrets.Controller.Sync.{
  Synced, sync, sync_failure, sync_found, sync_rendered, succeed, written, create, update,
  update_owned, updated, count_missing, stopped, after_success, after_failure,
}
use configmapsecrets.Controller.Keeps.{StableReads, render_secret-keeps}

-- The ConfigMapSecret with another status or other owner references
pub record Mine (cms c : ConfigMapSecret) : Type 0 where
  pub namespace : c.namespace ≡ cms.namespace
  pub name : c.name ≡ cms.name
  pub uid : c.uid ≡ cms.uid
  pub spec : c.spec ≡ cms.spec

pub Mine-same : {cms : ConfigMapSecret} → Mine cms cms
Mine-same = record { namespace = refl; name = refl; uid = refl; spec = refl }

-- The server answers an update of the status with an object of the same names, UID and spec.
abbrev pub KeepsObject : {W : Type 0} → Client W → Type 0
KeepsObject {W} client =
    (c a : ConfigMapSecret) (w : W) → (client.update_status c w).0 ≡ ok a → Mine c a

pub Mine-trans : {a b c : ConfigMapSecret} → Mine a b → Mine b c → Mine a c
Mine-trans m n = record {
  namespace = n.namespace ∙ m.namespace;
  name = n.name ∙ m.name;
  uid = n.uid ∙ m.uid;
  spec = n.spec ∙ m.spec;
}

module _ {W : Type 0} (client : Client W) (P : State W → Type 0) where
  -- Reads keep `P`, and so does each write of an object of which `MayWrite` or `MayUpdate` holds;
  -- of the server's answer to an update of a status `MayAnswer` holds.
  pub record Stable (MayWrite : Secret → Type 0) (MayUpdate MayAnswer : ConfigMapSecret → Type 0)
      : Type 0 where
    pub reads : StableReads client P
    pub now : (s : State W) → P s → P (with_world s (client.now s.world).1)
    pub missing : (m : Map Text ℕ) (s : State W) → P s → P (record s { missing_values = m })
    pub create :
        (x : Secret) (s : State W)
        → MayWrite x
        → P s
        → P (with_world s (client.create_secret x s.world).1)
    pub update :
        (x : Secret) (s : State W)
        → MayWrite x
        → P s
        → P (with_world s (client.update_secret x s.world).1)
    pub status :
        (c : ConfigMapSecret) (s : State W)
        → MayUpdate c
        → P s
        → P (with_world s (client.update_status c s.world).1)
    pub answer :
        (c a : ConfigMapSecret) (w : W)
        → MayUpdate c
        → (client.update_status c w).0 ≡ ok a
        → MayAnswer a

own-same :
    (owner : _) (cms : ConfigMapSecret) (found : Secret) (scan : Scan) (o : Ownership)
    → own owner cms found scan ≡ ok o
    → (o.secret.namespace ≡ found.namespace) × (o.secret.name ≡ found.name) × Mine cms o.cms
unfolding own
own-same owner cms found scan o e = ground arith

own_as-same :
    (lib : Library) (cms : ConfigMapSecret) (found : Secret)
    (r : Result ForeignError GroupVersionKind) (o : Ownership)
    → own_as lib cms found r ≡ ok o
    → (o.secret.namespace ≡ found.namespace) × (o.secret.name ≡ found.name) × Mine cms o.cms
own_as-same lib cms found (ok gvk) o e = own-same _ cms found _ o e
own_as-same lib cms found (err x) o e = cc

-- setOwner keeps the names of the Secret, and all but the owner references of the ConfigMapSecret.
pub set_owner-same :
    (lib : Library) (cms : ConfigMapSecret) (found : Secret) (o : Ownership)
    → set_owner lib cms found ≡ ok o
    → (o.secret.namespace ≡ found.namespace) × (o.secret.name ≡ found.name) × Mine cms o.cms
unfolding set_owner
set_owner-same lib cms found o e = own_as-same lib cms found (lib.gvk_for_object cms) o e

-- `MayWrite` depends on the names of a Secret alone and holds of what is rendered and of what Get
-- finds under such names; `MayUpdate` and `MayAnswer` hold of every version of the ConfigMapSecret.
pub record Covers {W : Type 0} (client : Client W) (lib : Library) (cms : ConfigMapSecret)
    (MayWrite : Secret → Type 0) (MayUpdate MayAnswer : ConfigMapSecret → Type 0) : Type 0 where
  pub by_name :
      (a b : Secret) → b.namespace ≡ a.namespace → b.name ≡ a.name → MayWrite a → MayWrite b
  pub render :
      (vars : Map Text Text) (x : Secret)
      → lib.set_controller_reference cms (secret_of lib cms vars) ≡ ok x
      → MayWrite x
  pub got :
      (x found : Secret) (w : W)
      → MayWrite x
      → (client.get_secret (named x.namespace x.name) w).0 ≡ ok found
      → MayWrite found
  pub mine : (c : ConfigMapSecret) → Mine cms c → MayUpdate c
  pub own : (c : ConfigMapSecret) → Mine cms c → MayAnswer c

module _ {W : Type 0} (client : Client W) (lib : Library) (P : State W → Type 0)
    (cms : ConfigMapSecret) (MayWrite : Secret → Type 0)
    (MayUpdate MayAnswer : ConfigMapSecret → Type 0)
    (stable : Stable client P MayWrite MayUpdate MayAnswer)
    (covers : Covers client lib cms MayWrite MayUpdate MayAnswer) where
  answered-MayAnswer :
      (c : ConfigMapSecret) (w : W) (r : Result ForeignError ConfigMapSecret)
      → Mine cms c
      → (client.update_status c w).0 ≡ r
      → MayAnswer (answered c r)
  answered-MayAnswer c w (ok a) m e = stable.answer c a w (covers.mine c m) e
  answered-MayAnswer c w (err x) m e = covers.own c m

  sync_status-keeps :
      (c : ConfigMapSecret) (st reason message : Text) (s : State W)
      → Mine cms c
      → P s
      → P (sync_status client c st reason message s).1
        × MayAnswer (sync_status client c st reason message s).0.1
  unfolding sync_status next_status write_status
  sync_status-keeps c st reason message s m h =
      let s1 = with_world s (client.now s.world).1 in
      let h1 : P s1 = stable.now s h in
      let s2 = with_world s1 (client.now s1.world).1 in
      let h2 : P s2 = stable.now s1 h1 in
      let c' = record c { status = (next_status client c st reason message s).0 } in
      let m' : Mine cms c' = record {
        namespace = m.namespace;
        name = m.name;
        uid = m.uid;
        spec = m.spec;
      } in
      if_keeps (λ (r : (Option Error × ConfigMapSecret) × State W). P r.1 × MayAnswer r.0.1) _ _ _
        (h2, covers.own c m)
        (
          stable.status c' s2 (covers.mine c' m') h2,
          answered-MayAnswer c' s2.world (client.update_status c' s2.world).0 m' refl,
        )

  abbrev Kept : Synced × State W → Type 0
  Kept (r, s) = P s × MayAnswer r.cms

  succeed-keeps :
      (c : ConfigMapSecret) (s : State W) → Mine cms c → P s → Kept (succeed client lib c s)
  unfolding succeed sync_success_status
  succeed-keeps c s m h = sync_status-keeps c _ _ _ s m h

  written-keeps :
      (c : ConfigMapSecret) (r : Result ForeignError (Unit {0})) (s : State W)
      → Mine cms c
      → P s
      → Kept (written client lib c r s)
  unfolding written
  written-keeps c (ok _) s m h = succeed-keeps c s m h
  written-keeps c (err e) s m h = (h, covers.own c m)

  update_owned-keeps :
      (secret found : Secret) (c : ConfigMapSecret) (r : Result Error Ownership) (s : State W)
      → Mine cms c
      → MayWrite found
      → ((o : Ownership)
          → r ≡ ok o
          → (o.secret.namespace ≡ found.namespace) × (o.secret.name ≡ found.name) × Mine cms o.cms)
      → P s
      → Kept (update_owned client lib secret c r s)
  unfolding update_owned update updated
  update_owned-keeps secret found c (err e) s m may same h = (h, covers.own c m)
  update_owned-keeps secret found c (ok o) s m may same h =
      let (ns, nm, mine) = same o refl in
      if_keeps Kept (o.changed || should_update o.secret secret) _ _
        (written-keeps o.cms _ _ mine (stable.update _ s (covers.by_name found _ ns nm may) h))
        (succeed-keeps o.cms s mine h)

  sync_found-keeps :
      (secret : Secret) (r : Result ForeignError Secret) (s : State W)
      → MayWrite secret
      → ((found : Secret) → r ≡ ok found → MayWrite found)
      → P s
      → Kept (sync_found client lib cms secret r s)
  unfolding sync_found create
  sync_found-keeps secret (ok found) s may got h =
      update_owned-keeps secret found cms (set_owner lib cms found) s Mine-same (got found refl)
        (set_owner-same lib cms found) h
  sync_found-keeps secret (err e) s may got h =
      if_keeps Kept (lib.is_not_found e) _ _
        (written-keeps cms _ _ Mine-same (stable.create secret s may h))
        (h, covers.own cms (Mine-same {cms = cms}))

  after_failure-MayAnswer :
      (b : Bool) (e : Option Error) (r : Option Error × ConfigMapSecret)
      → MayAnswer r.1
      → MayAnswer (after_failure b e r).cms
  after_failure-MayAnswer b e (none, c) m = m
  after_failure-MayAnswer b none (some x, c) m = m
  after_failure-MayAnswer b (some y) (some x, c) m = m

  sync_failure-keeps :
      (reason : Text) (e : Error) (s : State W)
      → P s
      → Kept (sync_failure client lib cms reason e s)
  unfolding sync_failure count_missing sync_render_failure_status
  sync_failure-keeps reason e s h =
      let config = is_config_error e in
      let s' = (if config then count_missing cms.namespace s else s) in
      let h' : P s' = if_keeps P config _ _ (stable.missing _ s h) h in
      let k = sync_status-keeps cms condition_true reason (error_text lib e) s' Mine-same h' in
      (k.0, after_failure-MayAnswer _ _ _ k.1)

  sync_rendered-keeps :
      (r : Rendered) (s : State W)
      → ((x : Secret) → r ≡ rendered x → MayWrite x)
      → P s
      → Kept (sync_rendered client lib cms r s)
  unfolding sync_rendered
  sync_rendered-keeps (failed reason e) s may h = sync_failure-keeps reason e s h
  sync_rendered-keeps (rendered x) s may h =
      let n = named x.namespace x.name in
      sync_found-keeps x (client.get_secret n s.world).0 _ (may x refl)
        (λ found. covers.got x found s.world (may x refl)) (stable.reads.get_secret n s h)

  with_reference-rendered :
      (r : Result ForeignError Secret) (x : Secret) → with_reference r ≡ rendered x → r ≡ ok x
  with_reference-rendered (ok y) x e = cc
  with_reference-rendered (err z) x e = cc

  render_with-rendered :
      (r : Result Error (Map Text Text)) (x : Secret)
      → render_with lib cms r ≡ rendered x
      → MayWrite x
  render_with-rendered (ok vars) x e = covers.render vars x (with_reference-rendered _ x e)
  render_with-rendered (err z) x e = cc

  -- sync keeps what its reads, its bookkeeping and the writes that it may make keep, and returns
  -- the ConfigMapSecret as it may be, or as the server has answered.
  pub sync-keeps : (s : State W) → P s → Kept (sync client lib cms s)
  unfolding sync render_secret
  sync-keeps s h =
      sync_rendered-keeps _ _ (λ x. render_with-rendered (make_variables client lib cms s).0 x)
        (unfold render_secret in render_secret-keeps client lib P stable.reads cms s h)
