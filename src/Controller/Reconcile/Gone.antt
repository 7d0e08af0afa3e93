-- ===== src/Controller/Reconcile/Gone.antt =====
-- The Secrets that cleanup is to delete: those recorded as owned that are not in use.
use mathlib.Core.Path.{subst}
use configmapsecrets.Prelude.{
  Text, Bool, text_eq, text_eq_iff, true, false, Option, none, some, List, [], ◌∷◌, if◌then◌else◌,
  ◌≡◌, ◌⊎◌, inl, inr, refl, sym, ap, ◌∙◌,
}
use configmapsecrets.Api.{ConfigMapSecret, Secret}
use configmapsecrets.RefMap
use configmapsecrets.RefMap.{NamespacedName, named}
use configmapsecrets.Runtime.{
  Result, ok, err, ForeignError, foreign, Error, Library, Client, State, with_world,
}
use configmapsecrets.Controller.Refs.{keys, set_refs, var_refs}
use configmapsecrets.Controller.Render.{secret_name}
use configmapsecrets.Controller.Stable.Reconciling.{All}
use configmapsecrets.Controller.Stable.{Mine, KeepsObject}
use configmapsecrets.Controller.Stable.Refs.{SameMaps, sync-SameMaps, sync-Mine}
use configmapsecrets.Controller.Sync.{sync}
use configmapsecrets.Controller.Reconcile.{
  Outcome, proceed, fail, first_error, error_in, deleted, delete_found, clean_one, clean_all,
  cleanup, reconcile_found, reconcile_got, reconcile,
}

no_error-proceed :
    (o : Option Error) (r : Outcome) → first_error o (error_in r) ≡ none → r ≡ proceed
no_error-proceed o proceed e = refl
no_error-proceed none (fail x) e = cc e
no_error-proceed (some y) (fail x) e = cc e

proceeds : (b : Bool) (e : Error) → (if b then proceed else fail e) ≡ proceed → b ≡ true
proceeds true e p = refl
proceeds false e p = cc p

-- At some world of the API server, the Secret was asked for, and there was none, or there was one
-- and it was deleted at once without an error.
abbrev pub IsDone : {W : Type 0} → Client W → Library → NamespacedName → Type 0
IsDone {W} client lib n =
    (w : W) × (((e : ForeignError) × ((client.get_secret n w).0 ≡ err e)
        × (lib.is_not_found e ≡ true))
      ⊎ ((x : Secret) × ((client.get_secret n w).0 ≡ ok x)
          × ((client.delete_secret x (client.get_secret n w).1).0 ≡ ok tt)))

module _ {W : Type 0} (client : Client W) (lib : Library) (namespace kept : Text) where
  deleted-ok : (r : Result ForeignError (Unit {0})) → deleted client lib r ≡ proceed → r ≡ ok tt
  unfolding deleted
  deleted-ok (ok u) p = refl
  deleted-ok (err e) p = cc p

  delete_found-IsDone :
      (n : NamespacedName) (w : W) (r : Result ForeignError Secret) (s : State W)
      → (client.get_secret n w).0 ≡ r
      → s.world ≡ (client.get_secret n w).1
      → (delete_found client lib r s).0 ≡ proceed
      → IsDone client lib n
  unfolding delete_found
  delete_found-IsDone n w (err e) s h v p =
      (w, inl (e, h, proceeds (lib.is_not_found e) (foreign e) p))
  delete_found-IsDone n w (ok x) s h v p = (
    w,
    inr (
      x,
      h,
      ap (λ u. (client.delete_secret x u).0) (sym v)
          ∙ deleted-ok (client.delete_secret x s.world).0 p,
    ),
  )

  clean_one-IsDone :
      (name : Text) (s : State W)
      → (clean_one client lib namespace name s).0 ≡ proceed
      → IsDone client lib (named namespace name)
  unfolding clean_one
  clean_one-IsDone name s p =
      let n = named namespace name in
      delete_found-IsDone n s.world (client.get_secret n s.world).0
        (with_world s (client.get_secret n s.world).1) refl refl p

  -- What the first round leaves, and the rest of the loop
  abbrev Round : Text → State W → Outcome × State W
  Round name s = (if text_eq name kept then (proceed, s) else clean_one client lib namespace name s)

  abbrev Loop : List Text → Outcome × State W → Outcome × State W
  Loop names r = elim r.0 [
    | proceed ↦ clean_all client lib namespace kept names r.1
    | fail x ↦ (fail x, r.1)
  ]

  Loop-proceed :
      (names : List Text) (o : Outcome) (s : State W)
      → (Loop names (o, s)).0 ≡ proceed
      → (o ≡ proceed) × (Loop names (o, s) ≡ clean_all client lib namespace kept names s)
  Loop-proceed names proceed s p = (refl, refl)
  Loop-proceed names (fail x) s p = cc p

  -- The Secret is the one in use, or it is done with.
  abbrev pub KeptOrDone : Text → Type 0
  KeptOrDone name = (name ≡ kept) ⊎ IsDone client lib (named namespace name)

  round-KeptOrDone :
      (b : Bool) (name : Text) (s : State W)
      → text_eq name kept ≡ b
      → (if b then (proceed, s) else clean_one client lib namespace name s).0 ≡ proceed
      → KeptOrDone name
  round-KeptOrDone true name s e p = inl ((text_eq_iff name kept).0 e)
  round-KeptOrDone false name s e p = inr (clean_one-IsDone name s p)

  pub clean_all-KeptOrDone :
      (names : List Text) (s : State W)
      → (clean_all client lib namespace kept names s).0 ≡ proceed
      → All KeptOrDone names
  unfolding clean_all
  clean_all-KeptOrDone [] s p = tt
  clean_all-KeptOrDone (name ∷ names) s p =
      let r = Round name s in
      let (q, e) = Loop-proceed names r.0 r.1 p in
      (
        round-KeptOrDone (text_eq name kept) name s refl q,
        clean_all-KeptOrDone names r.1 (sym (ap (λ x. x.0) e) ∙ p),
      )

module _ {W : Type 0} (client : Client W) (lib : Library) where
  abbrev OthersAt : Text × Text × Text × RefMap.RefMap → Type 0
  OthersAt (namespace, kept, uid, owned) =
      All (KeptOrDone client lib namespace kept) (keys (RefMap.srcs owned namespace uid))

  -- The Secrets that are recorded as owned by the ConfigMapSecret are done with, but for the one that
  -- it renders to.
  abbrev pub OthersDone : ConfigMapSecret → RefMap.RefMap → Type 0
  OthersDone cms owned = OthersAt (cms.namespace, secret_name cms, cms.uid, owned)

  cleanup-OthersDone :
      (cms : ConfigMapSecret) (s : State W)
      → (cleanup client lib cms s).0 ≡ proceed
      → OthersDone cms s.owned
  unfolding cleanup
  cleanup-OthersDone cms s p =
      clean_all-KeptOrDone client lib cms.namespace (secret_name cms)
        (keys (RefMap.srcs s.owned cms.namespace cms.uid)) s p

  after_sync-OthersDone :
      (cms c : ConfigMapSecret) (s t : State W)
      → SameMaps s t
      → Mine cms c
      → (cleanup client lib c t).0 ≡ proceed
      → OthersDone cms s.owned
  unfolding secret_name
  after_sync-OthersDone cms c s t same mine p =
      let kept : secret_name c ≡ secret_name cms = rw (mine.spec, mine.name) refl in
      let e : (c.namespace, secret_name c, c.uid, t.owned)
          ≡ (cms.namespace, secret_name cms, cms.uid, s.owned) =
        cc (mine.namespace, kept, mine.uid, same.owned) in
      subst (λ x. OthersAt x) e (cleanup-OthersDone c t p)

  reconcile_found-OthersDone :
      (cms : ConfigMapSecret) (s : State W)
      → KeepsObject client
      → (reconcile_found client lib cms s).0.error ≡ none
      → OthersDone cms s.owned
  unfolding reconcile_found set_refs
  reconcile_found-OthersDone cms s keeps e =
      let t = set_refs cms.namespace cms.name (var_refs cms.spec.vars_from cms.spec.vars) s in
      after_sync-OthersDone cms (sync client lib cms t).0.cms t (sync client lib cms t).1
        (sync-SameMaps client lib t cms) (sync-Mine client lib t cms keeps)
        (no_error-proceed (sync client lib cms t).0.error _ e)

  -- Where the server's answer to an update of the status is an object of the same names, UID and
  -- spec: in a Reconcile that read the ConfigMapSecret, and that returns no error, each Secret that
  -- was recorded as owned by it, but for the one that it renders to, was asked for, and there was none
  -- or it was deleted without an error.
  pub reconcile-OthersDone :
      (req : NamespacedName) (cms : ConfigMapSecret) (s : State W)
      → KeepsObject client
      → (client.get_config_map_secret req s.world).0 ≡ ok cms
      → (reconcile client lib req s).0.error ≡ none
      → OthersDone cms s.owned
  unfolding reconcile reconcile_got
  reconcile-OthersDone req cms s keeps g =
      let w = (client.get_config_map_secret req s.world).1 in
      subst
        (λ r.
          (reconcile_got client lib req r (with_world s w)).0.error ≡ none → OthersDone cms s.owned)
        (sym g) (reconcile_found-OthersDone cms (with_world s w) keeps)
