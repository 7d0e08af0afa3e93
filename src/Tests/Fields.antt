-- ===== src/Tests/Fields.antt =====
-- The parsing of docs and of struct fields.
use configmapsecrets.Prelude.{
  Text, codes, text_eq, text_equality, lookup, true, false, none, some, is_some, Bool, [], ◌∷◌, ◌≡◌,
  refl, arith,
}
use configmapsecrets.Genapi.Texts.{cut, split}
use configmapsecrets.Genapi.Tags.{parse, contains}
use configmapsecrets.Genapi.Markdown.{trim_space}
use configmapsecrets.Genapi.Packages.{basic, named_type}
use configmapsecrets.Genapi.Docs.{fmt_raw_doc, has_comment}
use configmapsecrets.Genapi.Fields.{ParsedStruct, Packages, struct_fields}
use configmapsecrets.Genapi.Fields.Depth.{is_inline, IsNested, struct_fields-fuel}

abbrev never : Text → Bool
never s = false

fmt_raw_doc_run :
    fmt_raw_doc never (codes "A name\nof it.\n\n+optional\nTODO: more\nSee:\n  x\n---\nhidden")
    ≡ codes "A name of it.\n\nSee:\n  x"
unfolding fmt_raw_doc split trim_space
fmt_raw_doc_run = refl

abbrev meta : ParsedStruct
meta = record {
  fields =
      record {
        name = codes "Name";
        exported = true;
        field_type = basic (codes "string");
        json = codes "name,omitempty";
      }
      ∷ [];
  ast_fields = record { names = codes "Name" ∷ []; embedded = none; doc = none } ∷ [];
}

abbrev outer : ParsedStruct
outer = record {
  fields =
      record {
        name = codes "Meta";
        exported = true;
        field_type = named_type (codes "api") (codes "Meta");
        json = codes ",inline";
      }
      ∷ record {
        name = codes "hidden";
        exported = false;
        field_type = basic (codes "int");
        json = [];
      }
      ∷ [];
  ast_fields = [];
}

abbrev parsed : Packages
parsed = (codes "api", (codes "Meta", meta) ∷ (codes "Outer", outer) ∷ []) ∷ []

outer-IsNested : IsNested 2 parsed outer
unfolding lookup text_eq is_inline parse contains cut
outer-IsNested = (λ h. (meta, refl, ((λ k. cc k), tt)), ((λ k. cc k), tt))

struct_fields-fuel_example :
    (struct_fields 5 never parsed outer ≡ struct_fields 2 never parsed outer)
    × (is_some (struct_fields 5 never parsed outer) ≡ true)
struct_fields-fuel_example = struct_fields-fuel never parsed 2 5 outer outer-IsNested (omega arith)

struct_fields_run :
    struct_fields 2 never parsed outer
    ≡ some (
        record {
          name = codes "name";
          doc = [];
          field_type = basic (codes "string");
          required = false;
        }
        ∷ [])
unfolding struct_fields lookup text_eq parse contains cut has_comment fmt_raw_doc split trim_space
struct_fields_run = refl
