-- ===== src/Controller/MakeVariables/Plain/Entries.antt =====
-- The entries of a source of VarsFrom under a prefix.
use configmapsecrets.Prelude.{
  not, Text, Bool-cases, inl, inr, text_eq, text_eq_iff, text_equality, Map, lookup, insert,
  lookup-insert, Bool, true, false, ◌&&◌, Option, none, some, or_else, List, [], ◌∷◌, ◌≡◌, refl,
  sym, ap, ◌∙◌, if◌then◌else◌, arith,
}
use configmapsecrets.Prelude.Maps.{IsMap}
use configmapsecrets.Api.{
  Secret, ConfigMap, VarsFromSource, Var, SecretVarsSource, ConfigMapVarsSource,
}
use configmapsecrets.Runtime.{Result, ok, err, ForeignError, Library}
use configmapsecrets.Controller.Variables.{
  Values, no_values, items, valid_prefixed_key, put_value, collect_values, values_of_secret,
  values_of_config_map,
}
use configmapsecrets.Controller.MakeVariables.{put_all}
use configmapsecrets.Controller.MakeVariables.Plain.{Reading}

-- The last value of the key in a list of entries
unfoldable pub last_value : Text → Map Text Text → Option Text
last_value k [] = none
last_value k ((j, v) ∷ m) = or_else (last_value k m) (if text_eq j k then some v else none)

-- The last entry of an object of which the key with the prefix is a valid name and is this one
unfoldable pub prefixed_value : Library → Text → Text → Map Text Text → Option Text
prefixed_value lib prefix k [] = none
prefixed_value lib prefix k ((key, v) ∷ m) =
    let (name, valid) = valid_prefixed_key lib prefix key in
    or_else (prefixed_value lib prefix k m) (if valid && text_eq name k then some v else none)

pub or_else_assoc : (a b c : Option Text) → or_else (or_else a b) c ≡ or_else a (or_else b c)
or_else_assoc none b c = refl
or_else_assoc (some a) b c = refl

or_else-if :
    (b : Bool) (v : Text) (o : Option Text)
    → or_else (if b then some v else none) o ≡ (if b then some v else o)
or_else-if true v o = refl
or_else-if false v o = refl

pub lookup-put_all :
    (k : Text) (m vars : Map Text Text)
    → lookup k (put_all m vars) ≡ or_else (last_value k m) (lookup k vars)
unfolding put_all last_value
lookup-put_all k [] vars = refl
lookup-put_all k ((j, v) ∷ m) vars =
    lookup-put_all k m (insert j v vars)
    ∙ ap (or_else (last_value k m))
        (lookup-insert j k v vars ∙ sym (or_else-if (text_eq j k) v (lookup k vars)))
    ∙ sym (or_else_assoc (last_value k m) (if text_eq j k then some v else none) (lookup k vars))

pub or_else-none : (o : Option Text) → or_else o none ≡ o
or_else-none none = refl
or_else-none (some v) = refl

or_else-last :
    (b : Bool) (v : Text) (o : Option Text)
    → (b ≡ true → o ≡ none)
    → or_else o (if b then some v else none) ≡ (if b then some v else o)
or_else-last true v o h = rw (h refl) refl
or_else-last false v o h = or_else-none o

last_value-lookup : (k : Text) (m : Map Text Text) → IsMap m → last_value k m ≡ lookup k m
unfolding last_value lookup
last_value-lookup k [] h = refl
last_value-lookup k ((j, v) ∷ m) (e, h) =
    ap (λ o. or_else o (if text_eq j k then some v else none)) (last_value-lookup k m h)
    ∙ or_else-last (text_eq j k) v (lookup k m)
        (λ t. ap (λ i. lookup i m) (sym ((text_eq_iff j k).0 t)) ∙ e)

insert-IsMap : (k v : Text) (m : Map Text Text) → IsMap m → IsMap (insert k v m)
unfolding insert lookup
insert-IsMap k v [] h = (refl, tt)
insert-IsMap k v ((j, old) ∷ m) (e, h) = elim (Bool-cases (text_eq j k)) [
  | inl t ↦ rw t (e, h)
  | inr f ↦
      let other : text_eq k j ≡ false = ground (arith, f, text_eq_iff j k, text_eq_iff k j) in
      rw f (lookup-insert k j v m ∙ rw other e, insert-IsMap k v m h)
]

put_value-IsMap :
    (k : Text) (b : Bool) (v : Text) (acc : Values)
    → IsMap acc.values
    → IsMap (put_value k b v acc).values
unfolding put_value
put_value-IsMap k true v acc h = insert-IsMap k v acc.values h
put_value-IsMap k false v acc h = h

collect_values-IsMap :
    (lib : Library) (prefix : Text) (m : Map Text Text) (acc : Values)
    → IsMap acc.values
    → IsMap (collect_values lib prefix m acc).values
unfolding collect_values
collect_values-IsMap lib prefix [] acc h = h
collect_values-IsMap lib prefix ((key, v) ∷ m) acc h =
    collect_values-IsMap lib prefix m _ (put_value-IsMap _ _ v acc h)

lookup-put_value :
    (k j : Text) (b : Bool) (v : Text) (acc : Values)
    → lookup k (put_value j b v acc).values
      ≡ or_else (if b && text_eq j k then some v else none) (lookup k acc.values)
unfolding put_value
lookup-put_value k j true v acc =
    lookup-insert j k v acc.values ∙ sym (or_else-if (text_eq j k) v (lookup k acc.values))
lookup-put_value k j false v acc = refl

lookup-collect_values :
    (lib : Library) (prefix k : Text) (m : Map Text Text) (acc : Values)
    → lookup k (collect_values lib prefix m acc).values
      ≡ or_else (prefixed_value lib prefix k m) (lookup k acc.values)
unfolding collect_values prefixed_value
lookup-collect_values lib prefix k [] acc = refl
lookup-collect_values lib prefix k ((key, v) ∷ m) acc =
    let (name, valid) = valid_prefixed_key lib prefix key in
    lookup-collect_values lib prefix k m (put_value name valid v acc)
    ∙ ap (or_else (prefixed_value lib prefix k m)) (lookup-put_value k name valid v acc)
    ∙ sym (
        or_else_assoc (prefixed_value lib prefix k m)
          (if valid && text_eq name k then some v else none) (lookup k acc.values))

module _ (lib : Library) (prefix k : Text) where
  -- The value that a Secret has for the name, and that of a ConfigMap, BinaryData before Data
  abbrev pub of_secret : Result ForeignError Secret → Option Text
  of_secret (ok found) = prefixed_value lib prefix k (items found.secret_data)
  of_secret (err e) = none

  abbrev pub of_config_map : Result ForeignError ConfigMap → Option Text
  of_config_map (ok found) =
      or_else (prefixed_value lib prefix k found.binary_data)
        (prefixed_value lib prefix k found.text_data)
  of_config_map (err e) = none

  pub last_value-of_secret :
      (found : Secret)
      → last_value k (values_of_secret lib prefix (some found)).values ≡ of_secret (ok found)
  unfolding values_of_secret lookup
  last_value-of_secret found =
      let m = items found.secret_data in
      last_value-lookup k _ (collect_values-IsMap lib prefix m no_values tt)
      ∙ lookup-collect_values lib prefix k m no_values
      ∙ or_else-none _

  pub last_value-of_config_map :
      (found : ConfigMap)
      → last_value k (values_of_config_map lib prefix (some found)).values
        ≡ of_config_map (ok found)
  unfolding values_of_config_map lookup
  last_value-of_config_map found =
      let texts = collect_values lib prefix found.text_data no_values in
      last_value-lookup k _ (
        collect_values-IsMap lib prefix found.binary_data texts
          (collect_values-IsMap lib prefix found.text_data no_values tt))
      ∙ lookup-collect_values lib prefix k found.binary_data texts
      ∙ ap (or_else (prefixed_value lib prefix k found.binary_data))
          (lookup-collect_values lib prefix k found.text_data no_values ∙ or_else-none _)

module _ (lib : Library) (k : Text) where
  -- The value of the key in a source of VarsFrom
  abbrev pub source_value :
      Reading → Text → Option SecretVarsSource → Option ConfigMapVarsSource → Option Text
  source_value reading prefix (some ref) _ = of_secret lib prefix k (reading.secrets ref.name)
  source_value reading prefix none (some ref) =
      of_config_map lib prefix k (reading.config_maps ref.name)
  source_value reading prefix none none = none

  -- The value of the key in the last source that has it
  unfoldable pub last_source : Reading → List VarsFromSource → Option Text
  last_source reading [] = none
  last_source reading (v ∷ vs) =
      or_else (last_source reading vs) (source_value reading v.prefix v.secret_ref v.config_map_ref)

-- No variable of Vars has the name.
unfoldable pub unnamed : Text → List Var → Bool
unnamed k [] = true
unnamed k (v ∷ vs) = not (text_eq v.name k) && unnamed k vs
