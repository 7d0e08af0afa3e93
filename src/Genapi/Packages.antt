-- ===== src/Genapi/Packages.antt =====
-- pkg/genapi/genapi.go: the description of a package, and sortedNames. Of the fields of Package
-- those are left out that nothing reads once the package is parsed.
pub mod Names
use configmapsecrets.Prelude.{ℕ, Text, sort_texts, Bool, Map, List, [], ◌∷◌, ◌++◌}

-- What the generator tells apart of go/types.Type: a basic type with its name, the types made from
-- others, a named type with the path of its package, and any other. The named types of the language
-- itself, `error` for one, have no package.
pub data GoType : Type 0 where
  basic : Text → GoType
  pointer : GoType → GoType
  slice : GoType → GoType
  array : ℕ → GoType → GoType
  map_type : GoType → GoType → GoType
  named_type : Text → Text → GoType
  predeclared : Text → GoType
  other_type : GoType

-- The value as fmt prints it
pub record Value : Type 0 where
  pub doc : Text
  pub name : Text
  pub value : Text

pub record Constant : Type 0 where
  pub name : Text
  pub doc : Text
  pub values : List Value

pub record Field : Type 0 where
  pub name : Text
  pub doc : Text
  pub field_type : GoType
  pub required : Bool

-- Of its type the text that the method String gives, all that is read of it
pub record Struct : Type 0 where
  pub name : Text
  pub doc : Text
  pub type_text : Text
  pub fields : List Field

pub record Package : Type 0 where
  pub pkg_path : Text
  pub constants : Map Text Constant
  pub structs : Map Text Struct

-- The names that a loop over a map collects
unfoldable pub names_of {ℓ} : {V : Type ℓ} → Map Text V → List Text
names_of [] = []
names_of ((name, _) ∷ m) = name ∷ names_of m

-- sortedNames
unfoldable pub sorted_names : Package → List Text
unfolding names_of
sorted_names pkg = sort_texts (names_of pkg.structs ++ names_of pkg.constants)
