-- ===== src/Genapi/Load/Described.antt =====
-- The constants of the package that ParsePackage returns.
use configmapsecrets.Prelude.{
  ℕ, Text, text_eq, text_eq_iff, text_equality, Map, lookup, lookup-insert, Bool, true, Option,
  none, some, List, [], ◌∷◌, ◌++◌, ◌≡◌, refl, ap, ◌∙◌, arith, if◌then◌else◌,
}
use configmapsecrets.Prelude.Maps.{IsMap}
use configmapsecrets.Genapi.Docs.{fmt_raw_doc}
use configmapsecrets.Genapi.Packages.{Value, Constant, Struct, Package}
use configmapsecrets.Genapi.Constants.{ValuesByType, values_at}
use configmapsecrets.Genapi.Constants.Adds.{IsFilled, is_empty}
use configmapsecrets.Genapi.Constants.Gathered.{
  are_known_consts, are_known_types, of_consts, of_types, all_consts-of_types,
}
use configmapsecrets.Genapi.Load.{
  Basic, InternalPackage, put_constant, constants_from, structs_from, parsed_packages, parse_loaded,
}

lookup-values_at :
    (typ : Text) (cvs : ValuesByType)
    → IsFilled cvs
    → lookup typ cvs ≡ (if is_empty (values_at typ cvs) then none else some (values_at typ cvs))
unfolding values_at lookup
lookup-values_at typ [] h = refl
lookup-values_at typ ((t, vals) ∷ cvs) h = ground (arith, lookup-values_at typ cvs h.2, h.1)

module _ (is_url : Text → Bool) where
  -- How a basic type with these constants is described, if it has any
  abbrev pub described : Basic → List Value → Option Constant
  described typ [] = none
  described typ (v ∷ vals) = some (record {
    name = typ.doc_type.name;
    doc = fmt_raw_doc is_url typ.doc_type.doc;
    values = v ∷ vals;
  })

  abbrev pub described? : Option Basic → (Text → List Value) → Option Constant
  described? none vals = none
  described? (some typ) vals = described typ (vals typ.type_text)

  abbrev or_else : Option Constant → Option Constant → Option Constant
  or_else none c = c
  or_else (some c) c' = some c

  or_else-none : (c : Option Constant) → or_else c none ≡ c
  or_else-none none = refl
  or_else-none (some c) = refl

  described?-same :
      (o : Option Basic) (u v : Text → List Value)
      → ((typ : Text) → u typ ≡ v typ)
      → described? o u ≡ described? o v
  described?-same none u v e = refl
  described?-same (some typ) u v e = ap (described typ) (e typ.type_text)

  lookup-put_some :
      (key name : Text) (typ : Basic) (vals : List Value) (acc : Map Text Constant)
      → lookup key (put_constant is_url name typ (if is_empty vals then none else some vals) acc)
        ≡ (if text_eq name key
            then or_else (described typ vals) (lookup key acc)
            else lookup key acc)
  lookup-put_some key name typ [] acc = ground arith
  lookup-put_some key name typ (v ∷ vals) acc = lookup-insert name key _ acc

  lookup-put_constant :
      (key name : Text) (typ : Basic) (cvs : ValuesByType) (acc : Map Text Constant)
      → IsFilled cvs
      → lookup key (put_constant is_url name typ (lookup typ.type_text cvs) acc) ≡ (
          if text_eq name key
          then or_else (described typ (values_at typ.type_text cvs)) (lookup key acc)
          else lookup key acc)
  lookup-put_constant key name typ cvs acc f =
      rw (lookup-values_at typ.type_text cvs f)
        (lookup-put_some key name typ (values_at typ.type_text cvs) acc)

  lookup-constants_from :
      (key : Text) (cvs : ValuesByType) (basics : Map Text Basic) (acc : Map Text Constant)
      → IsFilled cvs
      → IsMap basics
      → lookup key (constants_from is_url cvs basics acc)
        ≡ or_else (described? (lookup key basics) (λ typ. values_at typ cvs)) (lookup key acc)
  unfolding constants_from lookup
  lookup-constants_from key cvs [] acc f m = refl
  lookup-constants_from key cvs ((name, typ) ∷ basics) acc f m =
      lookup-constants_from key cvs basics _ f m.1
      ∙ ground (arith, lookup-put_constant key name typ cvs acc f, text_eq_iff name key, m.0)

  -- Where the structs are described and every name that the package declares is in scope, and a
  -- constant if its type is named, ParsePackage describes each documented basic type that has
  -- constants, with those declared anywhere in the package as its values, and no other name.
  pub parse_loaded-described :
      (fuel : ℕ) (x : InternalPackage) (pkgs : Map Text InternalPackage) (structs : Map Text Struct)
      → structs_from is_url fuel (parsed_packages pkgs) x.structs [] ≡ some structs
      → are_known_consts is_url x.pkg.scope x.pkg.consts ≡ true
      → are_known_types is_url x.pkg.scope x.pkg.types ≡ true
      → IsMap x.basics
      → (pkg : Package) × (parse_loaded is_url fuel x pkgs ≡ some pkg)
        × (pkg.structs ≡ structs)
        × ((name : Text)
            → lookup name pkg.constants
              ≡ described? (lookup name x.basics) (λ typ.
                of_consts is_url x.pkg.scope typ x.pkg.consts
                ++ of_types is_url x.pkg.scope typ x.pkg.types))
  unfolding parse_loaded lookup
  parse_loaded-described fuel x pkgs structs e h k m =
      let (consts, run, values, filled) =
        all_consts-of_types is_url x.pkg.scope x.pkg.consts x.pkg.types h k in
      (
        record {
          pkg_path = x.pkg.pkg_path;
          constants = constants_from is_url consts x.basics [];
          structs = structs;
        },
        rw (run, e) refl,
        refl,
        (λ name.
            lookup-constants_from name consts x.basics [] filled m
            ∙ or_else-none (described? (lookup name x.basics) (λ typ. values_at typ consts))
            ∙ described?-same (lookup name x.basics) _ _ values),
      )
