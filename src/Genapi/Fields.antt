-- ===== src/Genapi/Fields.antt =====
-- pkg/genapi/genapi.go: structFields, and pkg/genapi/internal/internal.go: AstField and FieldDoc.
pub mod Depth
use configmapsecrets.Prelude.{
  ℕ, zero, suc, Text, codes, text_eq, text_equality, Map, lookup, Bool, true, false, not, ◌||◌,
  Option, none, some, List, [], ◌∷◌, ◌++◌, if◌then◌else◌,
}
use configmapsecrets.Genapi.Texts.{null}
use configmapsecrets.Genapi.Tags.{Tag, parse, contains}
use configmapsecrets.Genapi.Packages.{
  GoType, basic, pointer, slice, array, map_type, named_type, predeclared, other_type, Field,
}
use configmapsecrets.Genapi.Docs.{CommentGroup, has_comment, text_of, fmt_raw_doc}

-- ast.Field: its names, and for an embedded field, which has none, that of an identifier or of a
-- selector as its type
pub record AstField : Type 0 where
  pub names : List Text
  pub embedded : Option Text
  pub doc : Option CommentGroup

-- A field of types.Struct, with the json tag that reflect.StructTag finds
pub record StructField : Type 0 where
  pub name : Text
  pub exported : Bool
  pub field_type : GoType
  pub json : Text

-- internal.Struct
pub record ParsedStruct : Type 0 where
  pub fields : List StructField
  pub ast_fields : List AstField

-- internal.Package by its path, of each the structs
abbrev pub Packages : Type 0
Packages = Map Text (Map Text ParsedStruct)

unfoldable pub has_name : List Text → Text → Bool
has_name [] name = false
has_name (n ∷ names) name = let rest = has_name names name in if text_eq n name then true else rest

abbrev is_named : Option Text → Text → Bool
is_named none name = false
is_named (some n) name = text_eq n name

-- AstField, by the list of fields
unfoldable pub ast_field : List AstField → Text → Option AstField
unfolding has_name
ast_field [] name = none
ast_field (f ∷ fields) name =
    let rest = ast_field fields name in
    if (if null f.names then is_named f.embedded name else has_name f.names name)
    then some f
    else rest

abbrev doc_of : Option AstField → Option CommentGroup
doc_of none = none
doc_of (some f) = f.doc

-- FieldDoc
unfoldable pub ast_field_doc : ParsedStruct → Text → Option CommentGroup
unfolding ast_field
ast_field_doc x name = doc_of (ast_field x.ast_fields name)

abbrev pub inline : Text
inline = codes "inline"

-- The field that structFields adds
unfoldable pub field_of : (Text → Bool) → ParsedStruct → StructField → Tag → Field
unfolding ast_field_doc
field_of is_url x f tag =
    let doc = ast_field_doc x f.name in
    record {
      name = if null tag.name then f.name else tag.name;
      doc = fmt_raw_doc is_url (text_of doc);
      field_type = f.field_type;
      required = not (contains tag (codes "omitempty") || has_comment doc (codes "+optional"));
    }

abbrev struct_in : Option (Map Text ParsedStruct) → Text → Option ParsedStruct
struct_in none name = none
struct_in (some structs) name = lookup name structs

-- pkgs[o.Pkg().Path()].Structs[o.Name()]; none where the code panics, on a type that is not named,
-- has no package or is not found
abbrev pub find_struct : Packages → GoType → Option ParsedStruct
find_struct pkgs (named_type path name) = struct_in (lookup path pkgs) name
find_struct pkgs (basic name) = none
find_struct pkgs (pointer elem) = none
find_struct pkgs (slice elem) = none
find_struct pkgs (array size elem) = none
find_struct pkgs (map_type key elem) = none
find_struct pkgs (predeclared name) = none
find_struct pkgs other_type = none

abbrev pub appended : Option (List Field) → Option (List Field) → Option (List Field)
appended none rest = none
appended (some fields) none = none
appended (some fields) (some rest) = some (fields ++ rest)

-- What the body of the loop of structFields adds; `inlined` gives the fields of a type that is
-- inlined.
unfoldable pub added :
    (GoType → Option (List Field))
    → (Text → Bool)
    → ParsedStruct
    → StructField
    → Option (List Field)
unfolding field_of
added inlined is_url x f =
    let tag = parse f.json in
    if not f.exported
    then some []
    else if contains tag inline
    then inlined f.field_type
    else some (field_of is_url x f tag ∷ [])

unfoldable pub fields_in :
    (GoType → Option (List Field))
    → (Text → Bool)
    → ParsedStruct
    → List StructField
    → Option (List Field)
unfolding added
fields_in inlined is_url x [] = some []
fields_in inlined is_url x (f ∷ fields) =
    appended (added inlined is_url x f) (fields_in inlined is_url x fields)

-- structFields. The fuel bounds how deep structs are inlined in one another; there is no result
-- where the code panics, and none where the fuel is short.
unfoldable pub struct_fields : ℕ → (Text → Bool) → Packages → ParsedStruct → Option (List Field)
unfolding fields_in
struct_fields zero is_url pkgs x = none
struct_fields (suc fuel) is_url pkgs x =
    fields_in
      (λ t. elim (find_struct pkgs t) [ none ↦ none | some y ↦ struct_fields fuel is_url pkgs y ])
      is_url x x.fields
