-- ===== src/Controller/Reconcile/Writes.antt =====
-- Which objects Reconcile writes, shown by a client that records each call that writes.
use configmapsecrets.Prelude.{
  Text, text_eq, text_eq_iff, lookup, ◌≡◌, ◌∙◌, refl, List, [], ◌∷◌, Bool, true, false, arith,
  text_equality,
}
use configmapsecrets.Api.{ConfigMapSecret, Secret}
use configmapsecrets.RefMap
use configmapsecrets.RefMap.{NamespacedName, named, StringSet, RefMap}
use configmapsecrets.RefMap.Assign.{mentions}
use configmapsecrets.Runtime.{ok, err, ForeignError, Library, Client, State}
use configmapsecrets.Controller.Refs.{keys, set_refs, var_refs}
use configmapsecrets.Controller.Render.{secret_name, secret_of}
use configmapsecrets.Controller.Sync.{sync}
use configmapsecrets.Controller.Reconcile.{cleanup, reconcile, reconcile_got, reconcile_found}
use configmapsecrets.Controller.Keeps.{StableReads}
use configmapsecrets.Controller.Stable.{Mine, Mine-trans, KeepsObject, Stable, Covers, sync-keeps}
use configmapsecrets.Controller.Stable.Reconciling.{All, cleanup-keeps}

-- A call that writes
pub data Call : Type 0 where
  create update delete : Secret → Call
  status : ConfigMapSecret → Call

pub record Traced (W : Type 0) : Type 0 where
  pub world : W
  pub calls : List Call

abbrev pub quiet : {W A : Type 0} → A × W → List Call → A × Traced W
quiet (a, w) calls = (a, record { world = w; calls = calls })

-- The client that also records, latest first, the calls that write
abbrev pub recording : {W : Type 0} → Client W → Client (Traced W)
recording client = record {
  get_config_map_secret = λ n t. quiet (client.get_config_map_secret n t.world) t.calls;
  get_secret = λ n t. quiet (client.get_secret n t.world) t.calls;
  get_config_map = λ n t. quiet (client.get_config_map n t.world) t.calls;
  create_secret = λ x t. quiet (client.create_secret x t.world) (create x ∷ t.calls);
  update_secret = λ x t. quiet (client.update_secret x t.world) (update x ∷ t.calls);
  delete_secret = λ x t. quiet (client.delete_secret x t.world) (delete x ∷ t.calls);
  update_status = λ c t. quiet (client.update_status c t.world) (status c ∷ t.calls);
  now = λ t. quiet (client.now t.world) t.calls;
}

-- The Secret that the ConfigMapSecret renders to
pub record IsTarget (cms : ConfigMapSecret) (x : Secret) : Type 0 where
  pub namespace : x.namespace ≡ cms.namespace
  pub name : x.name ≡ secret_name cms

-- Another Secret of the namespace that is known to be owned by the ConfigMapSecret
pub record IsLeftover (owned : StringSet) (cms : ConfigMapSecret) (x : Secret) : Type 0 where
  pub namespace : x.namespace ≡ cms.namespace
  pub not_target : text_eq x.name (secret_name cms) ≡ false
  pub known : mentions owned x.name ≡ true

abbrev pub IsAllowed : StringSet → ConfigMapSecret → Call → Type 0
IsAllowed owned cms (create x) = IsTarget cms x
IsAllowed owned cms (update x) = IsTarget cms x
IsAllowed owned cms (delete x) = IsLeftover owned cms x
IsAllowed owned cms (status c) = Mine cms c

-- Get returns an object of the names that it is asked for, an update of the status one of the names,
-- the UID and the spec that it is given, and SetControllerReference changes no names.
pub record KeepsNames {W : Type 0} (client : Client W) (lib : Library) : Type 0 where
  pub secret :
      (n : NamespacedName) (w : W) (x : Secret)
      → (client.get_secret n w).0 ≡ ok x
      → (x.namespace ≡ n.namespace) × (x.name ≡ n.name)
  pub answer : KeepsObject client
  pub reference :
      (c : ConfigMapSecret) (x y : Secret)
      → lib.set_controller_reference c x ≡ ok y
      → (y.namespace ≡ x.namespace) × (y.name ≡ x.name)

All-mono : {A : Type 0} {P Q : A → Type 0} (l : List A) → ((a : A) → P a → Q a) → All P l → All Q l
All-mono [] f h = tt
All-mono (a ∷ l) f h = (f a h.0, All-mono l f h.1)

mentions-cons :
    (k : Text) (b : Bool) (set : StringSet) (j : Text)
    → mentions set j ≡ true
    → mentions ((k, b) ∷ set) j ≡ true
unfolding mentions lookup
mentions-cons k b set j h = ground arith

mentions-head : (k : Text) (b : Bool) (set : StringSet) → mentions ((k, b) ∷ set) k ≡ true
unfolding mentions lookup
mentions-head k b set = rw ((text_eq_iff k k).1 refl)

keys-mentioned : (set : StringSet) → All (λ k. mentions set k ≡ true) (keys set)
unfolding keys
keys-mentioned [] = tt
keys-mentioned ((k, b) ∷ set) =
    (mentions-head k b set, All-mono (keys set) (mentions-cons k b set) (keys-mentioned set))

secret_name-Mine : {cms c : ConfigMapSecret} → Mine cms c → secret_name c ≡ secret_name cms
unfolding secret_name
secret_name-Mine m = rw (m.spec, m.name)

module _ {W : Type 0} (client : Client W) (lib : Library) (names : KeepsNames client lib)
    (owned : RefMap) (cms : ConfigMapSecret) where
  abbrev known : StringSet
  known = RefMap.srcs owned cms.namespace cms.uid

  record IsWell (s : State (Traced W)) : Type 0 where
    same_owned : s.owned ≡ owned
    allowed : All (IsAllowed known cms) s.world.calls

  reads-IsWell : StableReads (recording client) IsWell
  reads-IsWell = record {
    get_secret = λ n s h. record { same_owned = h.same_owned; allowed = h.allowed };
    get_config_map = λ n s h. record { same_owned = h.same_owned; allowed = h.allowed };
    event = λ es s h. record { same_owned = h.same_owned; allowed = h.allowed };
  }

  stable-IsWell : Stable (recording client) IsWell (IsTarget cms) (Mine cms) (Mine cms)
  stable-IsWell = record {
    reads = reads-IsWell;
    now = λ s h. record { same_owned = h.same_owned; allowed = h.allowed };
    missing = λ m s h. record { same_owned = h.same_owned; allowed = h.allowed };
    create = λ x s t h. record { same_owned = h.same_owned; allowed = (t, h.allowed) };
    update = λ x s t h. record { same_owned = h.same_owned; allowed = (t, h.allowed) };
    status = λ c s m h. record { same_owned = h.same_owned; allowed = (m, h.allowed) };
    answer = λ c a t m e. Mine-trans m (names.answer c a t.world e);
  }

  covers-IsTarget : Covers (recording client) lib cms (IsTarget cms) (Mine cms) (Mine cms)
  covers-IsTarget = record {
    by_name = λ a b p q t. record { namespace = p ∙ t.namespace; name = q ∙ t.name };
    render = λ vars x e.
        let r = names.reference cms (secret_of lib cms vars) x e in
        unfold secret_of in record { namespace = r.0; name = r.1 };
    got = λ x found t h e.
        let r = names.secret (named x.namespace x.name) t.world found e in
        record { namespace = r.0 ∙ h.namespace; name = r.1 ∙ h.name };
    mine = λ c m. m;
    own = λ c m. m;
  }

  cleanup-IsWell :
      (c : ConfigMapSecret) (s : State (Traced W))
      → Mine cms c
      → IsWell s
      → IsWell (cleanup (recording client) lib c s).1
  cleanup-IsWell c s m h =
      cleanup-keeps (recording client) lib IsWell c (λ k. mentions known k ≡ true) s
        (record {
          get = reads-IsWell.get_secret;
          delete = λ name x t u k n e w.
              let r = names.secret (named c.namespace name) t.world x e in
              record {
                same_owned = w.same_owned;
                allowed = (
                  record {
                    namespace = r.0 ∙ m.namespace;
                    not_target = rw (r.1, ← secret_name-Mine m) n;
                    known = rw r.1 k;
                  },
                  w.allowed,
                );
              };
        })
        (rw (h.same_owned, m.namespace, m.uid) (keys-mentioned known)) h

module _ {W : Type 0} (client : Client W) (lib : Library) (req : NamespacedName)
    (s : State (Traced W)) (quiet_start : s.world.calls ≡ []) where
  reconcile_found-writes :
      (cms : ConfigMapSecret) (t : State (Traced W))
      → KeepsNames client lib
      → t.owned ≡ s.owned
      → t.world.calls ≡ []
      → All
          (IsAllowed (RefMap.srcs s.owned cms.namespace cms.uid) cms)
          (reconcile_found (recording client) lib cms t).1.world.calls
  unfolding reconcile_found set_refs
  reconcile_found-writes cms t names o e =
      let u = set_refs cms.namespace cms.name (var_refs cms.spec.vars_from cms.spec.vars) t in
      let k =
        sync-keeps (recording client) lib (IsWell client lib names s.owned cms) cms (IsTarget cms)
          (Mine cms) (Mine cms) (stable-IsWell client lib names s.owned cms)
          (covers-IsTarget client lib names s.owned cms) u
          (record { same_owned = o; allowed = rw e tt }) in
      let r = sync (recording client) lib cms u in
      (cleanup-IsWell client lib names s.owned cms r.0.cms r.1 k.1 k.0).allowed

  -- Where Get and SetControllerReference keep names, and the server's answer to an update of the
  -- status is an object of the same names, UID and spec, every write of a Reconcile that read the
  -- ConfigMapSecret creates or updates the Secret that it renders to, deletes another Secret of the
  -- namespace that is recorded as owned by it, or updates its own status.
  pub reconcile-writes :
      (cms : ConfigMapSecret)
      → KeepsNames client lib
      → (client.get_config_map_secret req s.world.world).0 ≡ ok cms
      → All
          (IsAllowed (RefMap.srcs s.owned cms.namespace cms.uid) cms)
          (reconcile (recording client) lib req s).1.world.calls
  unfolding reconcile reconcile_got
  reconcile-writes cms names got = rw got (reconcile_found-writes cms _ names refl quiet_start)

  -- A Reconcile that could not read the ConfigMapSecret writes nothing.
  pub reconcile-no_writes :
      (e : ForeignError)
      → (client.get_config_map_secret req s.world.world).0 ≡ err e
      → (reconcile (recording client) lib req s).1.world.calls ≡ []
  unfolding reconcile reconcile_got set_refs
  reconcile-no_writes e got = rw got (ground arith)
