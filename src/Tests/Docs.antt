-- ===== src/Tests/Docs.antt =====
-- The generator of the API's documentation.
use configmapsecrets.Prelude.{
  ◌++◌, ◌+◌, ◌||◌, Text, codes, ltb, ◌&&◌, join, true, false, some, is_some, not, List, [], ◌∷◌,
  ◌≡◌, refl, text_equality, text_eq, sort_texts, insert_sorted, text_le, if◌then◌else◌,
}
use configmapsecrets.Genapi.Texts.{lacks, member, cut}
use configmapsecrets.Genapi.Tags.{parse, contains}
use configmapsecrets.Genapi.Tags.Laws.{contains-parse, separator}
use configmapsecrets.Genapi.Markdown.{trim_space, md_doc, md_section_link}
use configmapsecrets.Genapi.Markdown.Cells.{md_doc-guarded, guarded}
use configmapsecrets.Genapi.Idents.{Unicode, package_ident}
use configmapsecrets.Genapi.Packages.{
  GoType, basic, pointer, slice, array, map_type, named_type, Struct, Package, sorted_names,
}
use configmapsecrets.Genapi.Print.{Schema, Options, write_markdown}
use configmapsecrets.Genapi.Print.Total.{all_printable, printable, write_markdown-is_some}
use configmapsecrets.Genapi.Texts.{null}
use configmapsecrets.Genapi.Types.{md_type}
use configmapsecrets.Genapi.Types.Links.{has_predeclared, md_type-has_predeclared}

abbrev field_options : List Text
field_options = codes "inline" ∷ codes "omitempty" ∷ []

contains-parse_example :
    let tag = parse (join (codes "spec" ∷ field_options) separator) in
    (tag.name ≡ codes "spec")
    × (contains tag (codes "omitempty") ≡ member (codes "omitempty") field_options)
unfolding lacks
contains-parse_example =
    contains-parse (codes "spec") field_options (codes "omitempty") refl
      ((refl, refl), ((refl, refl), tt))

parse_empty_part : contains (parse (codes "a,,b")) (codes "b") ≡ true
unfolding parse contains cut text_eq
parse_empty_part = refl

abbrev cell : Text
cell = codes " a \"b\" | \\\"c\\\"\n"

md_doc-guarded_example :
    (lacks 10 (md_doc cell) ≡ true)
    × (lacks 9 (md_doc cell) ≡ true)
    × (guarded b'"' false (md_doc cell) ≡ true)
    × (guarded b'|' false (md_doc cell) ≡ true)
md_doc-guarded_example = md_doc-guarded cell

md_doc_run : md_doc cell ≡ codes "a \\\"b\\\" \\| \\\"c\\\"<br/>"
unfolding md_doc
md_doc_run = refl

-- The byte 160 ends the letter U+00E0, and it ends the space U+00A0, which is cut off.
trim_space_run : trim_space (194 ∷ 133 ∷ 195 ∷ 160 ∷ 194 ∷ 160 ∷ 32 ∷ []) ≡ 195 ∷ 160 ∷ []
unfolding trim_space
trim_space_run = refl

abbrev ascii_lower : Text → Text
ascii_lower [] = []
ascii_lower (c ∷ s) = (if ltb 64 c && ltb c 91 then c + 32 else c) ∷ ascii_lower s

abbrev ascii : Unicode
ascii = record {
  is_letter = λ c. (ltb 64 c && ltb c 91) || (ltb 96 c && ltb c 123);
  is_digit = λ c. ltb 47 c && ltb c 58;
  lower = ascii_lower;
}

abbrev spec_struct : Struct
spec_struct = record {
  name = codes "Spec";
  doc = [];
  type_text = codes "example/api/v1.Spec";
  fields = [];
}

abbrev api_package : Package
api_package = record {
  pkg_path = codes "example/api/v1";
  constants = (codes "Kind", record { name = codes "Kind"; doc = []; values = [] }) ∷ [];
  structs =
      (codes "Spec", spec_struct) ∷ (codes "Item", record spec_struct { name = codes "Item" }) ∷ [];
}

sorted_names_run : sorted_names api_package ≡ codes "Item" ∷ codes "Kind" ∷ codes "Spec" ∷ []
unfolding sorted_names sort_texts insert_sorted text_le
sorted_names_run = refl

abbrev nested : GoType
nested =
    map_type (basic (codes "string"))
      (slice (pointer (named_type (codes "k8s.io/api/core/v1") (codes "Pod"))))

md_type-has_predeclared_example :
    is_some (md_type ascii api_package nested) ≡ not (has_predeclared nested)
md_type-has_predeclared_example = md_type-has_predeclared ascii api_package nested

md_type_run :
    md_type ascii api_package (array 10 nested)
    ≡ some (codes "[10]map[string][]*[corev1.Pod](https://pkg.go.dev/k8s.io/api/core/v1#Pod)")
unfolding md_type package_ident text_eq
md_type_run = refl

section_link_run : md_section_link ascii_lower (codes "Spec") ≡ codes "[Spec](#spec)"
unfolding md_section_link
section_link_run = refl

ident_run : package_ident ascii (codes "example/go-api/v1beta1") ≡ codes "goapiv1beta1"
unfolding package_ident text_eq
ident_run = refl

plain_ident_run : package_ident ascii (codes "v1") ≡ codes "v1"
unfolding package_ident
plain_ident_run = refl

abbrev plain_schema : Schema
plain_schema = record {
  is_empty = λ gv. null gv.version;
  text = λ gv. gv.group ++ (codes "/" ++ gv.version);
}

abbrev options : Options
options = record { types = []; gv = record { group = codes "example"; version = codes "v1" } }

abbrev listed_package : Package
listed_package = record api_package {
  structs =
      (
        codes "Spec",
        record spec_struct {
          fields =
              record { name = codes "pods"; doc = []; field_type = nested; required = true } ∷ [];
        },
      )
      ∷ [];
}

all_printed : all_printable listed_package.structs ≡ true
unfolding all_printable printable has_predeclared
all_printed = refl

write_markdown-is_some_example :
    is_some (write_markdown ascii plain_schema listed_package options) ≡ true
write_markdown-is_some_example =
    write_markdown-is_some ascii plain_schema listed_package options all_printed
