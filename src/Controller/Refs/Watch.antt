-- ===== src/Controller/Refs/Watch.antt =====
-- The watches after a Reconcile: an event of an object requests the ConfigMapSecret again exactly if
-- its spec refers to the object (or, for a Secret, if the Secret names it as its owner).
use configmapsecrets.Prelude.{
  Text, lookup, text_eq, text_eq_iff, Bool, true, false, ◌&&◌, ◌||◌, ◌≡◌, refl, ◌∙◌, none, [],
  arith,
}
use configmapsecrets.Api.{ConfigMapSecret, Secret}
use configmapsecrets.RefMap
use configmapsecrets.RefMap.{NamespacedName, named, StringSet, RefMap}
use configmapsecrets.RefMap.Assign.{mentions, same_src}
use configmapsecrets.RefMap.Consistent.{IsConsistent, srcs-set}
use configmapsecrets.Runtime.{Result, ok, err, ForeignError, Library, Client, State, with_world}
use configmapsecrets.Controller.Refs.{
  get_owner, secret_event_handler, config_map_event_handler, set_refs, var_refs, no_refs,
}
use configmapsecrets.Controller.Refs.Names.{
  any, from_secret, from_config_map, var_secret, var_config_map, mentions-var_refs,
}
use configmapsecrets.Controller.Refs.Requests.{
  requested, owned_by, requested-secret, requested-config_map,
}
use configmapsecrets.Controller.Reconcile.{reconcile, reconcile_got}
use configmapsecrets.Controller.Stable.Refs.{SameMaps, reconcile_found-SameMaps}

text_eq_self : (t : Text) → text_eq t t ≡ true
text_eq_self t = (text_eq_iff t t).1 refl

same_src_self : (n s : Text) → same_src n s n s ≡ true
unfolding same_src
same_src_self n s = rw (text_eq_self n, text_eq_self s)

module _ {W : Type 0} (client : Client W) (lib : Library) (req : NamespacedName) (s : State W) where
  reconcile-got :
      (r : Result ForeignError ConfigMapSecret)
      → (client.get_config_map_secret req s.world).0 ≡ r
      → reconcile client lib req s
        ≡ reconcile_got client lib req r (with_world s (client.get_config_map_secret req s.world).1)
  unfolding reconcile
  reconcile-got r e = rw e

  module _ (cms : ConfigMapSecret)
      (got : (client.get_config_map_secret req s.world).0 ≡ ok cms) where
    maps_after :
        SameMaps
          (set_refs cms.namespace cms.name
            (var_refs cms.spec.vars_from cms.spec.vars)
            (with_world s (client.get_config_map_secret req s.world).1))
          (reconcile client lib req s).1
    unfolding reconcile_got
    maps_after = rw (reconcile-got (ok cms) got) (reconcile_found-SameMaps client lib cms _)

    -- After a Reconcile that read the ConfigMapSecret, from consistent reference maps, an event of
    -- a Secret in its namespace requests it exactly if the Secret's owner reference names it or its
    -- spec refers to the Secret.
    secret_event_after :
        (x : Secret) (deleted : Bool)
        → IsConsistent s.secrets
        → x.namespace ≡ cms.namespace
        → requested cms.namespace cms.name
            (secret_event_handler lib x deleted (reconcile client lib req s).1).0
          ≡ (owned_by (get_owner lib x) cms.name
              || (any (var_secret x.name) cms.spec.vars
                  || any (from_secret x.name) cms.spec.vars_from))
    secret_event_after x deleted c e =
        rw (requested-secret, maps_after.secrets, e, text_eq_self cms.namespace)
          (unfold set_refs in
            rw (
              srcs-set s.secrets cms.namespace cms.name _ cms.namespace cms.name x.name c,
              same_src_self cms.namespace cms.name,
              (mentions-var_refs cms.spec.vars_from cms.spec.vars x.name).0,
            ))

    -- The same for an event of a ConfigMap in its namespace.
    pub config_map_event_after :
        (name : Text)
        → IsConsistent s.config_maps
        → requested cms.namespace cms.name
            (config_map_event_handler cms.namespace name (reconcile client lib req s).1)
          ≡ (any (var_config_map name) cms.spec.vars
              || any (from_config_map name) cms.spec.vars_from)
    config_map_event_after name c =
        rw (requested-config_map, maps_after.config_maps, text_eq_self cms.namespace)
          (unfold set_refs in
            rw (
              srcs-set s.config_maps cms.namespace cms.name _ cms.namespace cms.name name c,
              same_src_self cms.namespace cms.name,
              (mentions-var_refs cms.spec.vars_from cms.spec.vars name).1,
            ))

  removed :
      (e : ForeignError)
      → (client.get_config_map_secret req s.world).0 ≡ err e
      → lib.is_not_found e ≡ true
      → reconcile client lib req s ≡ (
        record { requeue = false; error = none },
        set_refs req.namespace req.name no_refs
            (with_world s (client.get_config_map_secret req s.world).1),
      )
  unfolding reconcile_got
  removed e got gone = reconcile-got (err e) got ∙ rw gone

  not_referred :
      (m : RefMap) (n d : Text) (b : Bool)
      → IsConsistent m
      → (text_eq n req.namespace
          && (b || mentions (RefMap.srcs (RefMap.set m req.namespace req.name []) n d) req.name))
        ≡ (text_eq n req.namespace && b)
  not_referred m n d b c = rw (srcs-set m req.namespace req.name [] n req.name d c) (
      unfold same_src mentions lookup in
      ground
        (arith, text_eq_iff n req.namespace, text_eq_iff req.namespace n, text_eq_self req.name))

  -- After a Reconcile that finds the ConfigMapSecret gone, from consistent reference maps, no event
  -- of a ConfigMap requests it again, and an event of a Secret does so only if the Secret is in its
  -- namespace and its owner reference names it; no requeue and no error is returned.
  pub events_after_removal :
      (e : ForeignError) (x : Secret) (deleted : Bool) (namespace name : Text)
      → (client.get_config_map_secret req s.world).0 ≡ err e
      → lib.is_not_found e ≡ true
      → IsConsistent s.secrets
      → IsConsistent s.config_maps
      → (requested req.namespace req.name
            (secret_event_handler lib x deleted (reconcile client lib req s).1).0
          ≡ (text_eq x.namespace req.namespace && owned_by (get_owner lib x) req.name))
        × (requested req.namespace req.name
              (config_map_event_handler namespace name (reconcile client lib req s).1)
            ≡ false)
        × ((reconcile client lib req s).0.requeue ≡ false)
        × ((reconcile client lib req s).0.error ≡ none)
  events_after_removal e x deleted namespace name got gone cs cm = rw (removed e got gone) (
    rw requested-secret (
        unfold set_refs in
        not_referred s.secrets x.namespace x.name (owned_by (get_owner lib x) req.name) cs),
    rw requested-config_map
        (unfold set_refs in not_referred s.config_maps namespace name false cm ∙ ground arith),
    refl,
    refl,
  )
