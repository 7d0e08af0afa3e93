-- ===== src/Controller/Refs/Names.antt =====
-- The two sets of varRefs, name by name.
use configmapsecrets.Prelude.{
  Text, text_eq, text_equality, lookup, Bool, false, ◌||◌, ◌≡◌, Option, none, some, List, [], ◌∷◌,
  arith, refl, Option-cases, inl, inr,
}
use configmapsecrets.Api.{
  VarsFromSource, Var, SecretVarsSource, ConfigMapVarsSource, SecretKeySelector,
  ConfigMapKeySelector,
}
use configmapsecrets.RefMap.Assign.{mentions}
use configmapsecrets.RefMap.Consistent.{mentions-insert}
use configmapsecrets.Controller.Refs.{
  Refs, add_secret, add_config_map, when_set, refs_from, refs_of_vars, var_refs,
}

-- Does a reference that may be nil have the name?
abbrev pub named_by : {A : Type 0} → (A → Text) → Option A → Text → Bool
named_by f none k = false
named_by f (some a) k = text_eq (f a) k

-- Is there an element that passes the test?
unfoldable pub any : {A : Type 0} → (A → Bool) → List A → Bool
any p [] = false
any p (a ∷ as') = p a || any p as'

abbrev pub from_secret : Text → VarsFromSource → Bool
from_secret k v = named_by (λ (r : SecretVarsSource). r.name) v.secret_ref k

abbrev pub from_config_map : Text → VarsFromSource → Bool
from_config_map k v = named_by (λ (r : ConfigMapVarsSource). r.name) v.config_map_ref k

abbrev pub var_secret : Text → Var → Bool
var_secret k v = named_by (λ (r : SecretKeySelector). r.name) v.secret_value k

abbrev pub var_config_map : Text → Var → Bool
var_config_map k v = named_by (λ (r : ConfigMapKeySelector). r.name) v.config_map_value k

module _ {A : Type 0} (f : A → Text) (o : Option A) (k : Text) (refs : Refs) where
  secrets-add_secret :
      mentions (when_set o (λ r. add_secret (f r)) refs).secrets k
      ≡ (named_by f o k || mentions refs.secrets k)
  unfolding add_secret
  secrets-add_secret = elim (Option-cases o) [
    | inl e ↦ rw e
    | inr (a, e) ↦ rw e (rw mentions-insert (ground arith))
  ]

  config_maps-add_secret :
      mentions (when_set o (λ r. add_secret (f r)) refs).config_maps k ≡ mentions refs.config_maps k
  unfolding add_secret
  config_maps-add_secret = ground arith

  config_maps-add_config_map :
      mentions (when_set o (λ r. add_config_map (f r)) refs).config_maps k
      ≡ (named_by f o k || mentions refs.config_maps k)
  unfolding add_config_map
  config_maps-add_config_map = elim (Option-cases o) [
    | inl e ↦ rw e
    | inr (a, e) ↦ rw e (rw mentions-insert (ground arith))
  ]

  secrets-add_config_map :
      mentions (when_set o (λ r. add_config_map (f r)) refs).secrets k ≡ mentions refs.secrets k
  unfolding add_config_map
  secrets-add_config_map = ground arith

module _ (k : Text) where
  refs_from-secrets :
      (vs : List VarsFromSource) (refs : Refs)
      → mentions (refs_from vs refs).secrets k ≡ (any (from_secret k) vs || mentions refs.secrets k)
  unfolding refs_from any
  refs_from-secrets [] refs = refl
  refs_from-secrets (v ∷ vs) refs =
      rw
        (
          refs_from-secrets vs,
          secrets-add_config_map (λ (r : ConfigMapVarsSource). r.name) v.config_map_ref k,
          secrets-add_secret (λ (r : SecretVarsSource). r.name) v.secret_ref k,
        )
        (ground arith)

  refs_from-config_maps :
      (vs : List VarsFromSource) (refs : Refs)
      → mentions (refs_from vs refs).config_maps k
        ≡ (any (from_config_map k) vs || mentions refs.config_maps k)
  unfolding refs_from any
  refs_from-config_maps [] refs = refl
  refs_from-config_maps (v ∷ vs) refs =
      rw
        (
          refs_from-config_maps vs,
          config_maps-add_config_map (λ (r : ConfigMapVarsSource). r.name) v.config_map_ref k,
          config_maps-add_secret (λ (r : SecretVarsSource). r.name) v.secret_ref k,
        )
        (ground arith)

  refs_of_vars-secrets :
      (vs : List Var) (refs : Refs)
      → mentions (refs_of_vars vs refs).secrets k
        ≡ (any (var_secret k) vs || mentions refs.secrets k)
  unfolding refs_of_vars any
  refs_of_vars-secrets [] refs = refl
  refs_of_vars-secrets (v ∷ vs) refs =
      rw
        (
          refs_of_vars-secrets vs,
          secrets-add_config_map (λ (r : ConfigMapKeySelector). r.name) v.config_map_value k,
          secrets-add_secret (λ (r : SecretKeySelector). r.name) v.secret_value k,
        )
        (ground arith)

  refs_of_vars-config_maps :
      (vs : List Var) (refs : Refs)
      → mentions (refs_of_vars vs refs).config_maps k
        ≡ (any (var_config_map k) vs || mentions refs.config_maps k)
  unfolding refs_of_vars any
  refs_of_vars-config_maps [] refs = refl
  refs_of_vars-config_maps (v ∷ vs) refs =
      rw
        (
          refs_of_vars-config_maps vs,
          config_maps-add_config_map (λ (r : ConfigMapKeySelector). r.name) v.config_map_value k,
          config_maps-add_secret (λ (r : SecretKeySelector). r.name) v.secret_value k,
        )
        (ground arith)

-- varRefs gives exactly the names that some element of VarsFrom or Vars refers to: of Secrets in
-- the first set, of ConfigMaps in the second.
pub mentions-var_refs :
    (vars_from : List VarsFromSource) (vars : List Var) (k : Text)
    → (mentions (var_refs vars_from vars).secrets k
        ≡ (any (var_secret k) vars || any (from_secret k) vars_from))
      × (mentions (var_refs vars_from vars).config_maps k
          ≡ (any (var_config_map k) vars || any (from_config_map k) vars_from))
unfolding var_refs
mentions-var_refs vars_from vars k = (
  rw (refs_of_vars-secrets k vars, refs_from-secrets k vars_from)
      (unfold mentions lookup in ground arith),
  rw (refs_of_vars-config_maps k vars, refs_from-config_maps k vars_from)
      (unfold mentions lookup in ground arith),
)
