-- ===== src/Genapi/Print.antt =====
-- pkg/genapi/genapi.go: WriteMarkdown and the functions that print. Each gives the text that it
-- writes, or nothing where mdType panics. The errors of the writer are left out.
pub mod Total
use configmapsecrets.Prelude.{
  Text, codes, text_eq, text_equality, Map, lookup, Bool, true, false, Option, none, some, List, [],
  ◌∷◌, ◌++◌, if◌then◌else◌,
}
use configmapsecrets.Runtime.{GroupVersionKind}
use configmapsecrets.Genapi.Texts.{replace_char}
use configmapsecrets.Genapi.Markdown.{md_doc, md_section_link}
use configmapsecrets.Genapi.Idents.{Unicode}
use configmapsecrets.Genapi.Packages.{Value, Constant, Field, Struct, Package, sorted_names}
use configmapsecrets.Genapi.Types.{md_type}

-- schema.GroupVersion
pub record GroupVersion : Type 0 where
  pub group : Text
  pub version : Text

-- GroupVersionKind.GroupVersion
abbrev pub group_version : GroupVersionKind → GroupVersion
group_version gvk = record { group = gvk.group; version = gvk.version }

-- The methods Empty and String of schema.GroupVersion
pub record Schema : Type 0 where
  pub is_empty : GroupVersion → Bool
  pub text : GroupVersion → Text

-- option: types are the names of Go types, with their package's path, in the scheme
pub record Options : Type 0 where
  pub types : Map Text GroupVersionKind
  pub gv : GroupVersion

abbrev newline : Text
newline = 10 ∷ []

-- fmt.Fprintln of texts: with spaces between them and a newline at the end
abbrev pub line : List Text → Text
line [] = newline
line (s ∷ []) = s ++ newline
line (s ∷ t ∷ ts) = s ++ (32 ∷ line (t ∷ ts))

-- The loop of pkgGroupVersion, over the structs in the order of the map
unfoldable pub gv_of_structs : Map Text GroupVersionKind → Map Text Struct → Option GroupVersion
gv_of_structs types [] = none
gv_of_structs types ((_, s) ∷ structs) = elim (lookup s.type_text types) [
  | some gvk ↦ some (group_version gvk)
  | none ↦ gv_of_structs types structs
]

-- pkgGroupVersion
unfoldable pub pkg_group_version : Schema → Package → Options → Option GroupVersion
unfolding gv_of_structs
pkg_group_version schema pkg opt =
    if schema.is_empty opt.gv then gv_of_structs opt.types pkg.structs else some opt.gv

abbrev title_of : Schema → Option GroupVersion → Text
title_of schema none = codes "API"
title_of schema (some gv) = replace_char b'.' (codes "&#46;") (schema.text gv)

-- printHeader
unfoldable pub print_header : Schema → Package → Options → Text
unfolding pkg_group_version
print_header schema pkg opt =
    line (codes "#" ∷ title_of schema (pkg_group_version schema pkg opt) ∷ [])
    ++ (newline
        ++ line (
            codes
              "**Note:** This document is generated from code and comments. Do not edit it directly."
            ∷ []))

unfoldable pub toc_lines : Unicode → List Text → Text
toc_lines unicode [] = []
toc_lines unicode (name ∷ names) =
    codes "* " ++ (md_section_link unicode.lower name ++ (newline ++ toc_lines unicode names))

-- printTOC
unfoldable pub print_toc : Unicode → Package → Text
unfolding toc_lines
print_toc unicode pkg =
    newline ++ (codes "## Table of Contents" ++ (newline ++ toc_lines unicode (sorted_names pkg)))

-- "\n## %s\n\n%s\n\n"
abbrev section_head : Text → Text → Text
section_head name doc =
    newline ++ (codes "## " ++ (name ++ (newline ++ (newline ++ (doc ++ (newline ++ newline))))))

abbrev section_end : Text
section_end = line ([] ∷ []) ++ line (codes "[Back to TOC](#table-of-contents)" ∷ [])

abbrev quoted : Text → Text
quoted s = b'`' ∷ (s ++ (b'`' ∷ []))

-- The doc of a field, which its name replaces in a type of the scheme
unfoldable pub field_doc : Schema → Option GroupVersionKind → Field → Text
field_doc schema none f = f.doc
field_doc schema (some gvk) f =
    if text_eq f.name (codes "kind")
    then quoted gvk.kind
    else if text_eq f.name (codes "apiVersion")
    then quoted (schema.text (group_version gvk))
    else f.doc

abbrev bool_text : Bool → Text
bool_text true = codes "true"
bool_text false = codes "false"

abbrev bar : Text
bar = codes "|"

-- One text before another, if both are there
abbrev pub joined : Option Text → Option Text → Option Text
joined none t = none
joined (some s) none = none
joined (some s) (some t) = some (s ++ t)

abbrev field_row : Field → Text → Option Text → Option Text
field_row f doc none = none
field_row f doc (some t) =
    some (line (bar ∷ f.name ∷ bar ∷ md_doc doc ∷ bar ∷ t ∷ bar ∷ bool_text f.required ∷ bar ∷ []))

unfoldable pub field_rows :
    Unicode → Schema → Package → Option GroupVersionKind → List Field → Option Text
unfolding field_doc
field_rows unicode schema pkg gvk [] = some []
field_rows unicode schema pkg gvk (f ∷ fields) =
    joined (field_row f (field_doc schema gvk f) (md_type unicode pkg f.field_type))
      (field_rows unicode schema pkg gvk fields)

-- printStruct
unfoldable pub print_struct : Unicode → Schema → Package → Struct → Options → Option Text
unfolding field_rows
print_struct unicode schema pkg s opt =
    joined
      (some (
        section_head s.name s.doc
        ++ (line (codes "| Field | Description | Type | Required |" ∷ [])
            ++ line (codes "| ----- | ----------- | ---- | -------- |" ∷ []))))
      (joined (field_rows unicode schema pkg (lookup s.type_text opt.types) s.fields)
        (some section_end))

unfoldable pub value_rows : List Value → Text
value_rows [] = []
value_rows (v ∷ values) =
    line (bar ∷ v.name ∷ bar ∷ v.value ∷ bar ∷ md_doc v.doc ∷ bar ∷ []) ++ value_rows values

-- printConst
unfoldable pub print_const : Constant → Text
unfolding value_rows
print_const c =
    section_head c.name c.doc
    ++ (line (codes "| Name | Value | Description |" ∷ [])
        ++ (line (codes "| ---- | ----- | ----------- |" ∷ [])
            ++ (value_rows c.values ++ section_end)))

-- pkg.Constants[name]
abbrev constant_or_zero : Option Constant → Constant
constant_or_zero none = record { name = []; doc = []; values = [] }
constant_or_zero (some c) = c

-- The section of a name
unfoldable pub print_section : Unicode → Schema → Package → Options → Text → Option Text
unfolding print_struct print_const
print_section unicode schema pkg opt name = elim (lookup name pkg.structs) [
  | some s ↦ print_struct unicode schema pkg s opt
  | none ↦ some (print_const (constant_or_zero (lookup name pkg.constants)))
]

unfoldable pub print_sections : Unicode → Schema → Package → Options → List Text → Option Text
unfolding print_section
print_sections unicode schema pkg opt [] = some []
print_sections unicode schema pkg opt (name ∷ names) =
    joined (print_section unicode schema pkg opt name) (print_sections unicode schema pkg opt names)

-- printTypes
unfoldable pub print_types : Unicode → Schema → Package → Options → Option Text
unfolding print_sections
print_types unicode schema pkg opt = print_sections unicode schema pkg opt (sorted_names pkg)

-- WriteMarkdown, with its options applied
unfoldable pub write_markdown : Unicode → Schema → Package → Options → Option Text
unfolding print_header print_toc print_types
write_markdown unicode schema pkg opt =
    joined (some (print_header schema pkg opt ++ print_toc unicode pkg))
      (print_types unicode schema pkg opt)
