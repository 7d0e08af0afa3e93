-- ===== src/Controller/Settled/Quiet.antt =====
-- A Reconcile of a settled ConfigMapSecret that owns no other Secret.
use configmapsecrets.Prelude.{
  Text, text_eq, text_eq_iff, false, none, List, [], ◌∷◌, ◌≡◌, refl, sym, if◌then◌else◌, ap, ◌∙◌,
  arith,
}
use mathlib.Core.Path.{subst}
use configmapsecrets.Api.{ConfigMapSecret, Secret}
use configmapsecrets.RefMap
use configmapsecrets.RefMap.{NamespacedName, named}
use configmapsecrets.Runtime.{ok, Client, Library, State, with_world}
use configmapsecrets.Controller.Refs.{keys, set_refs, var_refs}
use configmapsecrets.Controller.Keeps.{render_secret-keeps}
use configmapsecrets.Controller.Render.{rendered, render_secret, secret_name}
use configmapsecrets.Controller.Reconcile.{
  proceed, fail, clean_one, clean_all, cleanup, reconcile_found, reconcile_got, reconcile,
}
use configmapsecrets.Controller.Stable.Reconciling.{All}
use configmapsecrets.Controller.Settled.{IsSettled}
use configmapsecrets.Controller.Settled.Steady.{clock_read, sync-steady}

module _ {W : Type 0} (client : Client W) (lib : Library) where
  clean_all-kept :
      (namespace kept : Text) (names : List Text) (s : State W)
      → All (λ name. name ≡ kept) names
      → clean_all client lib namespace kept names s ≡ (proceed, s)
  unfolding clean_all
  clean_all-kept namespace kept [] s h = refl
  clean_all-kept namespace kept (name ∷ names) s (e, h) =
      let kept_one : (if text_eq name kept
            then (proceed, s)
            else clean_one client lib namespace name s)
          ≡ (proceed, s) =
        ground (arith, e, text_eq_iff name kept) in
      ap
        (λ r. elim r.0 [
          | proceed ↦ clean_all client lib namespace kept names r.1
          | fail x ↦ (fail x, r.1)
        ])
        kept_one
      ∙ clean_all-kept namespace kept names s h

  render_secret-owned :
      (cms : ConfigMapSecret) (s : State W) → (render_secret client lib cms s).1.owned ≡ s.owned
  render_secret-owned cms s =
      render_secret-keeps client lib (λ t. t.owned ≡ s.owned)
        (record { get_secret = λ n t h. h; get_config_map = λ n t h. h; event = λ es t h. h }) cms s
        refl

  cleanup-kept :
      (cms : ConfigMapSecret) (s : State W)
      → All (λ name. name ≡ secret_name cms) (keys (RefMap.srcs s.owned cms.namespace cms.uid))
      → cleanup client lib cms s ≡ (proceed, s)
  unfolding cleanup
  cleanup-kept cms s h = clean_all-kept cms.namespace (secret_name cms) _ s h

  -- Reconcile's notes of the references, with which it renders
  abbrev pub noted : ConfigMapSecret → State W → State W
  noted cms s = set_refs cms.namespace cms.name (var_refs cms.spec.vars_from cms.spec.vars) s

  reconcile_found-steady :
      (cms : ConfigMapSecret) (secret found : Secret) (s : State W)
      → (render_secret client lib cms (noted cms s)).0 ≡ rendered secret
      → client.get_secret
          (named secret.namespace secret.name)
          (render_secret client lib cms (noted cms s)).1.world
        ≡ (ok found, (render_secret client lib cms (noted cms s)).1.world)
      → IsSettled lib cms secret found
      → All (λ name. name ≡ secret_name cms) (keys (RefMap.srcs s.owned cms.namespace cms.uid))
      → reconcile_found client lib cms s ≡ (
        record { requeue = false; error = none },
        clock_read client (render_secret client lib cms (noted cms s)).1,
      )
  unfolding reconcile_found set_refs
  reconcile_found-steady cms secret found s r g h o =
      let t = clock_read client (render_secret client lib cms (noted cms s)).1 in
      let owned : t.owned ≡ s.owned = render_secret-owned cms (noted cms s) in
      rw
        (
          sync-steady client lib cms secret found (noted cms s) r g h,
          cleanup-kept cms t (
              subst
                (λ m.
                  All (λ name. name ≡ secret_name cms) (keys (RefMap.srcs m cms.namespace cms.uid)))
                (sym owned) o),
        )
        refl

  -- A Reconcile of a request for a settled ConfigMapSecret, where the read of it leaves the world
  -- alone, once it has noted the references, rendered the Secret and found it, and where no Secret
  -- under another name is noted as owned by it: it returns no error and no request to come back, and
  -- after rendering it reads the clock twice and does nothing else.
  pub reconcile-steady :
      (req : NamespacedName) (cms : ConfigMapSecret) (secret found : Secret) (s : State W)
      → client.get_config_map_secret req s.world ≡ (ok cms, s.world)
      → (render_secret client lib cms (noted cms s)).0 ≡ rendered secret
      → client.get_secret
          (named secret.namespace secret.name)
          (render_secret client lib cms (noted cms s)).1.world
        ≡ (ok found, (render_secret client lib cms (noted cms s)).1.world)
      → IsSettled lib cms secret found
      → All (λ name. name ≡ secret_name cms) (keys (RefMap.srcs s.owned cms.namespace cms.uid))
      → reconcile client lib req s ≡ (
        record { requeue = false; error = none },
        clock_read client (render_secret client lib cms (noted cms s)).1,
      )
  unfolding reconcile reconcile_got
  reconcile-steady req cms secret found s l r g h o =
      ap (λ x. reconcile_got client lib req x.0 (with_world s x.1)) l
      ∙ reconcile_found-steady cms secret found s r g h o
