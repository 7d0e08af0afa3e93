-- ===== src/Controller/Steps/Watched.antt =====
-- What is watched stays so, whatever runs beside the Reconciles.
use configmapsecrets.Prelude.{
  Text, text_eq, text_eq_iff, Bool, true, not, ◌||◌, ◌≡◌, refl, ◌∙◌, arith,
}
use configmapsecrets.Api.{ConfigMapSecret, Secret}
use configmapsecrets.RefMap
use configmapsecrets.RefMap.{NamespacedName, RefMap, StringSet}
use configmapsecrets.RefMap.Assign.{mentions, same_src}
use configmapsecrets.RefMap.Consistent.{IsConsistent, srcs-set}
use configmapsecrets.Runtime.{ok, Library, Client, State, with_world}
use configmapsecrets.Controller.Refs.{
  Refs, get_owner, secret_event_handler, config_map_event_handler, set_refs, var_refs,
}
use configmapsecrets.Controller.Refs.Names.{
  any, from_secret, from_config_map, var_secret, var_config_map, mentions-var_refs,
}
use configmapsecrets.Controller.Refs.Requests.{
  requested, owned_by, requested-secret, requested-config_map,
}
use configmapsecrets.Controller.Reconcile.{reconcile, reconcile_got}
use configmapsecrets.Controller.Stable.Refs.{SameMaps, reconcile_found-SameMaps}
use configmapsecrets.Controller.Steps.{Step, refer, secret_event, other_step, Reach, here, next}
use configmapsecrets.Controller.Steps.Consistent.{
  AreConsistent, Reach-AreConsistent, reconcile-AreConsistent,
}

text_eq_self : (t : Text) → text_eq t t ≡ true
text_eq_self t = (text_eq_iff t t).1 refl

-- Any name but this one.
unfoldable pub other_than : Text → Text → Text → Text → Bool
other_than n k namespace name = not (same_src namespace name n k)

-- The maps record these references as those of the ConfigMapSecret of this namespace and name.
pub record Records {W : Type 0} (n k : Text) (refs : Refs) (s : State W) : Type 0 where
  pub secrets : (d : Text) → mentions (RefMap.srcs s.secrets n d) k ≡ mentions refs.secrets d
  pub config_maps :
      (d : Text) → mentions (RefMap.srcs s.config_maps n d) k ≡ mentions refs.config_maps d

srcs-set_other :
    (m : RefMap) (n k n' k' d : Text) (new : StringSet)
    → IsConsistent m
    → other_than n k n' k' ≡ true
    → mentions (RefMap.srcs (RefMap.set m n' k' new) n d) k ≡ mentions (RefMap.srcs m n d) k
unfolding other_than
srcs-set_other m n k n' k' d new c o = ground (arith, srcs-set m n' k' new n k d c)

srcs-set_self :
    (m : RefMap) (n k d : Text) (new : StringSet)
    → IsConsistent m
    → mentions (RefMap.srcs (RefMap.set m n k new) n d) k ≡ mentions new d
srcs-set_self m n k d new c =
    rw (srcs-set m n k new n k d c)
      (unfold same_src in ground (arith, text_eq_iff n n, text_eq_iff k k))

module _ {W : Type 0} (n k : Text) (refs : Refs) where
  SameMaps-Records : {s t : State W} → SameMaps s t → Records n k refs s → Records n k refs t
  SameMaps-Records same r = record {
    secrets = λ d. rw (same.secrets) (r.secrets d);
    config_maps = λ d. rw (same.config_maps) (r.config_maps d);
  }

  set_refs-Records : (s : State W) → AreConsistent s → Records n k refs (set_refs n k refs s)
  unfolding set_refs
  set_refs-Records s h = record {
    secrets = λ d. srcs-set_self s.secrets n k d refs.secrets h.secrets;
    config_maps = λ d. srcs-set_self s.config_maps n k d refs.config_maps h.config_maps;
  }

module _ {W : Type 0} (lib : Library) (n k : Text) (refs : Refs) where
  Step-Records :
      (s t : State W)
      → Step lib (other_than n k) s t
      → AreConsistent s
      → Records n k refs s
      → Records n k refs t
  unfolding set_refs secret_event_handler
  Step-Records s t (refer n' k' refs' m e) h r = rw e (record {
    secrets = λ d. srcs-set_other s.secrets n k n' k' d refs'.secrets h.secrets m ∙ r.secrets d;
    config_maps = λ d.
        srcs-set_other s.config_maps n k n' k' d refs'.config_maps h.config_maps m
        ∙ r.config_maps d;
  })
  Step-Records s t (secret_event x deleted e) h r =
      rw e (record { secrets = r.secrets; config_maps = r.config_maps })
  Step-Records s t (other_step same) h r = SameMaps-Records n k refs same r

  Reach-Records :
      {s t : State W}
      → Reach lib (other_than n k) s t
      → AreConsistent s
      → Records n k refs s
      → Records n k refs t
  Reach-Records here h r = r
  Reach-Records (next rs st) h r =
      Step-Records _ _ st (Reach-AreConsistent lib (other_than n k) rs h) (Reach-Records rs h r)

module _ {W : Type 0} (client : Client W) (lib : Library) (req : NamespacedName) (s : State W)
    (cms : ConfigMapSecret) (got : (client.get_config_map_secret req s.world).0 ≡ ok cms)
    (h : AreConsistent s) where
  read : State W
  read = with_world s (client.get_config_map_secret req s.world).1

  refs : Refs
  refs = var_refs cms.spec.vars_from cms.spec.vars

  read-AreConsistent : AreConsistent read
  unfolding read
  read-AreConsistent = record { secrets = h.secrets; config_maps = h.config_maps; owned = h.owned }

  maps_after : SameMaps (set_refs cms.namespace cms.name refs read) (reconcile client lib req s).1
  unfolding reconcile reconcile_got refs read
  maps_after = rw got (reconcile_found-SameMaps client lib cms _)

  later :
      (t : State W)
      → Reach lib (other_than cms.namespace cms.name) (reconcile client lib req s).1 t
      → Records cms.namespace cms.name refs t
  later t r =
      Reach-Records lib cms.namespace cms.name refs r (reconcile-AreConsistent client lib req s h) (
        SameMaps-Records cms.namespace cms.name refs maps_after
          (set_refs-Records cms.namespace cms.name refs read read-AreConsistent))

  -- After a Reconcile that read the ConfigMapSecret, from consistent reference maps, and after any
  -- further steps but those that refer for the ConfigMapSecret again, an event of a Secret in its
  -- namespace requests it exactly if the Secret's owner reference names it or the spec that was read
  -- refers to the Secret, and an event of a ConfigMap in its namespace exactly if that spec refers
  -- to the ConfigMap.
  pub stays_watched :
      (t : State W)
      → Reach lib (other_than cms.namespace cms.name) (reconcile client lib req s).1 t
      → (x : Secret) (deleted : Bool) (name : Text) → x.namespace ≡ cms.namespace
      → (requested cms.namespace cms.name (secret_event_handler lib x deleted t).0 ≡ (
          owned_by (get_owner lib x) cms.name
          || (any (var_secret x.name) cms.spec.vars
              || any (from_secret x.name) cms.spec.vars_from)))
        × (requested cms.namespace cms.name (config_map_event_handler cms.namespace name t) ≡ (
            any (var_config_map name) cms.spec.vars
            || any (from_config_map name) cms.spec.vars_from))
  unfolding refs
  stays_watched t r x deleted name e =
      let after = later t r in
      let found = mentions-var_refs cms.spec.vars_from cms.spec.vars in
      (
        rw (requested-secret, e, text_eq_self cms.namespace, after.secrets x.name, (found x.name).0)
            refl,
        rw
            (
              requested-config_map,
              text_eq_self cms.namespace,
              after.config_maps name,
              (found name).1,
            )
            refl,
      )
