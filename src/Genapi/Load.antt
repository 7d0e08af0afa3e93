-- ===== src/Genapi/Load.antt =====
-- pkg/genapi/internal/internal.go: Packages and LoadPackage, and pkg/genapi/genapi.go: ParsePackage.
-- A package comes as golang.org/x/tools/go/packages loads it, with the documentation that go/doc
-- makes of its files; the syntax tree that Packages builds for go/doc is left out.
pub mod Described
use configmapsecrets.Prelude.{
  ℕ, suc, Text, codes, text_equality, Map, lookup, insert, Bool, Option, none, some, List, [], ◌∷◌,
  ◌++◌,
}
use configmapsecrets.Runtime.{Result, ok, err, Error, ForeignError, foreign, formatted}
use configmapsecrets.Genapi.Docs.{fmt_raw_doc}
use configmapsecrets.Genapi.Types.{decimal}
use configmapsecrets.Genapi.Packages.{Value, Constant, Struct, Package}
use configmapsecrets.Genapi.Fields.{ParsedStruct, Packages, struct_fields}
use configmapsecrets.Genapi.Constants.{Scope, DocValue, DocType, ValuesByType, ◌>>=◌, all_consts}

-- The underlying type of a named type: a basic one, a struct, with its declaration if that is one
-- of a struct, or another
pub data Underlying : Type 0 where
  basic_type : Underlying
  struct_type : Option ParsedStruct → Underlying
  other_underlying : Underlying

-- The type of an object of the scope, none if it is not a named one
pub record Named : Type 0 where
  pub type_text : Text
  pub underlying : Underlying

-- packages.Package
pub record Loaded : Type 0 where
  pub pkg_path : Text
  pub errors : List ForeignError
  pub consts : List DocValue
  pub types : List DocType
  pub scope : Scope
  -- scope.Lookup(name).Type(), none where the object is nil
  pub type_of : Text → Option (Option Named)

-- internal.Basic
pub record Basic : Type 0 where
  pub doc_type : DocType
  pub type_text : Text

-- internal.Struct
pub record DocumentedStruct : Type 0 where
  pub doc_type : DocType
  pub type_text : Text
  pub parsed : ParsedStruct

-- internal.Package
pub record InternalPackage : Type 0 where
  pub pkg : Loaded
  pub basics : Map Text Basic
  pub structs : Map Text DocumentedStruct

-- The switch of Packages on the underlying type
unfoldable pub put_type : DocType → Text → Underlying → InternalPackage → InternalPackage
put_type dt text basic_type x = record x {
  basics = insert dt.name (record { doc_type = dt; type_text = text }) x.basics;
}
put_type dt text (struct_type none) x = x
put_type dt text (struct_type (some st)) x = record x {
  structs = insert dt.name (record { doc_type = dt; type_text = text; parsed = st }) x.structs;
}
put_type dt text other_underlying x = x

abbrev add_type : DocType → Option (Option Named) → InternalPackage → Option InternalPackage
add_type dt none x = none
add_type dt (some none) x = some x
add_type dt (some (some named)) x = some (put_type dt named.type_text named.underlying x)

-- The loop of Packages over the types of a package; none where it panics, on a type that is not in
-- scope
unfoldable pub add_types : List DocType → InternalPackage → Option InternalPackage
unfolding put_type
add_types [] x = some x
add_types (dt ∷ types) x = do x' ← add_type dt (x.pkg.type_of dt.name) x; add_types types x'

-- Packages, over the packages in the order of packages.Visit
unfoldable pub packages_from :
    Map Text InternalPackage → List Loaded → Option (Map Text InternalPackage)
unfolding add_types
packages_from pkgs [] = some pkgs
packages_from pkgs (p ∷ loaded) = do
  x ← add_types p.types (record { pkg = p; basics = []; structs = [] })
  packages_from (insert p.pkg_path x pkgs) loaded

abbrev Pair : Type 0
Pair = Option InternalPackage × Map Text InternalPackage

abbrev length : List Loaded → ℕ
length [] = 0
length (_ ∷ loaded) = suc (length loaded)

abbrev wrong_count : List Loaded → Error
wrong_count loaded = formatted (codes "expected 1 package, found " ++ decimal (length loaded))

module _ (visit : List Loaded → List Loaded) where
  unfoldable pub load_one : Loaded → List ForeignError → Option (Result Error Pair)
  unfolding packages_from
  load_one p (e ∷ errors) = some (err (foreign e))
  load_one p [] = do
    pkgs ← packages_from [] (visit (p ∷ []))
    some (ok (lookup p.pkg_path pkgs, pkgs))

  -- LoadPackage, by what packages.Load returns
  unfoldable pub load_package : Result ForeignError (List Loaded) → Option (Result Error Pair)
  unfolding load_one decimal
  load_package (err e) = some (err (foreign e))
  load_package (ok []) = some (err (wrong_count []))
  load_package (ok (p ∷ [])) = load_one p p.errors
  load_package (ok (p ∷ q ∷ loaded)) = some (err (wrong_count (p ∷ q ∷ loaded)))

-- The structs that structFields looks for
unfoldable pub parsed_structs : Map Text DocumentedStruct → Map Text ParsedStruct
parsed_structs [] = []
parsed_structs ((name, s) ∷ structs) = (name, s.parsed) ∷ parsed_structs structs

unfoldable pub parsed_packages : Map Text InternalPackage → Packages
unfolding parsed_structs
parsed_packages [] = []
parsed_packages ((path, x) ∷ pkgs) = (path, parsed_structs x.structs) ∷ parsed_packages pkgs

module _ (is_url : Text → Bool) where
  abbrev put_constant : Text → Basic → Option (List Value) → Map Text Constant → Map Text Constant
  put_constant name typ none constants = constants
  put_constant name typ (some vals) constants =
      insert name
        (record {
          name = typ.doc_type.name;
          doc = fmt_raw_doc is_url typ.doc_type.doc;
          values = vals;
        })
        constants

  -- The loop of ParsePackage over the basic types
  unfoldable pub constants_from :
      ValuesByType → Map Text Basic → Map Text Constant → Map Text Constant
  constants_from consts [] constants = constants
  constants_from consts ((name, typ) ∷ basics) constants =
      constants_from consts basics (put_constant name typ (lookup typ.type_text consts) constants)

  -- The loop of ParsePackage over the structs
  unfoldable pub structs_from :
      ℕ → Packages → Map Text DocumentedStruct → Map Text Struct → Option (Map Text Struct)
  structs_from fuel pkgs [] structs = some structs
  structs_from fuel pkgs ((name, typ) ∷ more) structs = do
    fields ← struct_fields fuel is_url pkgs typ.parsed
    structs_from fuel pkgs more (
        insert name
          (record {
            name = typ.doc_type.name;
            doc = fmt_raw_doc is_url typ.doc_type.doc;
            type_text = typ.type_text;
            fields = fields;
          })
          structs)

  -- ParsePackage after LoadPackage
  unfoldable pub parse_loaded : ℕ → InternalPackage → Map Text InternalPackage → Option Package
  unfolding all_consts constants_from structs_from parsed_packages
  parse_loaded fuel x pkgs = do
    consts ← all_consts is_url x.pkg.scope x.pkg.consts x.pkg.types
    structs ← structs_from fuel (parsed_packages pkgs) x.structs []
    some (record {
      pkg_path = x.pkg.pkg_path;
      constants = constants_from consts x.basics [];
      structs = structs;
    })

  abbrev as_ok : Option Package → Option (Result Error Package)
  as_ok none = none
  as_ok (some pkg) = some (ok pkg)

  abbrev parse_result : ℕ → Option (Result Error Pair) → Option (Result Error Package)
  parse_result fuel none = none
  parse_result fuel (some (err e)) = some (err e)
  parse_result fuel (some (ok (none, pkgs))) = none
  parse_result fuel (some (ok (some x, pkgs))) = as_ok (parse_loaded fuel x pkgs)

  -- ParsePackage; the fuel is that of structFields
  unfoldable pub parse_package :
      ℕ
      → (List Loaded → List Loaded)
      → Result ForeignError (List Loaded)
      → Option (Result Error Package)
  unfolding load_package parse_loaded
  parse_package fuel visit loaded = parse_result fuel (load_package visit loaded)
