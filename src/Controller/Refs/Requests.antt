-- ===== src/Controller/Refs/Requests.antt =====
-- Which requests the handlers of the watches add.
use configmapsecrets.Prelude.{
  Text, text_eq, text_eq_iff, text_equality, lookup, Bool, false, not, ◌&&◌, ◌||◌, ◌≡◌, refl,
  Option, none, some, List, [], ◌∷◌, ◌++◌, arith,
}
use configmapsecrets.Api.{Secret, OwnerReference}
use configmapsecrets.RefMap
use configmapsecrets.RefMap.{NamespacedName, named, same_name, StringSet, RefMap}
use configmapsecrets.RefMap.Assign.{mentions}
use configmapsecrets.Runtime.{Library, State}
use configmapsecrets.Controller.Refs.{
  keys, to_reqs, config_map_event_handler, get_owner, other_requests, owner_request,
  secret_event_handler,
}

-- Is there a request for the ConfigMapSecret of this namespace and name?
unfoldable pub requested : Text → Text → List NamespacedName → Bool
requested n k [] = false
requested n k (r ∷ rs) = (text_eq r.namespace n && text_eq r.name k) || requested n k rs

abbrev pub owned_by : Option OwnerReference → Text → Bool
owned_by none k = false
owned_by (some owner) k = text_eq owner.name k

requested-append :
    (n k : Text) (xs ys : List NamespacedName)
    → requested n k (xs ++ ys) ≡ (requested n k xs || requested n k ys)
unfolding requested
requested-append n k [] ys = refl
requested-append n k (x ∷ xs) ys = ground (arith, requested-append n k xs ys)

requested-to_reqs :
    (namespace n k : Text) (names : StringSet)
    → requested n k (to_reqs namespace names) ≡ (text_eq namespace n && mentions names k)
unfolding requested to_reqs mentions lookup
requested-to_reqs namespace n k [] = ground arith
requested-to_reqs namespace n k ((name, b) ∷ names) =
    ground (arith, requested-to_reqs namespace n k names)

requested-owner :
    (namespace n k : Text) (owner : Option OwnerReference)
    → requested n k (owner_request namespace owner) ≡ (text_eq namespace n && owned_by owner k)
unfolding requested owner_request
requested-owner namespace n k none = ground arith
requested-owner namespace n k (some owner) = ground arith

requested-others :
    (namespace n k : Text) (owner : Option OwnerReference) (names : StringSet)
    → requested n k (other_requests namespace owner (keys names))
      ≡ (text_eq namespace n && (mentions names k && not (owned_by owner k)))
unfolding requested other_requests keys mentions lookup
requested-others namespace n k none [] = ground arith
requested-others namespace n k (some owner) [] = ground arith
requested-others namespace n k none ((name, b) ∷ names) =
    ground (arith, requested-others namespace n k none names)
requested-others namespace n k (some owner) ((name, b) ∷ names) = ground (
  arith,
  requested-others namespace n k (some owner) names,
  text_eq_iff owner.name name,
  text_eq_iff owner.name k,
  text_eq_iff name k,
)

module _ {W : Type 0} (s : State W) (n k : Text) where
  -- An event of a Secret, deleted or not, requests a ConfigMapSecret exactly if it is in the
  -- Secret's namespace and is named by the Secret's owner reference to a ConfigMapSecret, or by the
  -- sources that refer to the Secret.
  pub requested-secret :
      (lib : Library) (x : Secret) (deleted : Bool)
      → requested n k (secret_event_handler lib x deleted s).0 ≡ (
          text_eq x.namespace n
          && (owned_by (get_owner lib x) k
              || mentions (RefMap.srcs s.secrets x.namespace x.name) k))
  unfolding secret_event_handler
  requested-secret lib x deleted =
      rw (requested-append n k, requested-owner x.namespace n k, requested-others x.namespace n k)
        (ground arith)

  -- An event of a ConfigMap requests exactly the sources that refer to it, in its namespace.
  pub requested-config_map :
      (namespace name : Text)
      → requested n k (config_map_event_handler namespace name s)
        ≡ (text_eq namespace n && mentions (RefMap.srcs s.config_maps namespace name) k)
  unfolding config_map_event_handler
  requested-config_map namespace name =
      requested-to_reqs namespace n k (RefMap.srcs s.config_maps namespace name)
