-- ===== src/Genapi/Print/Total.antt =====
-- Where WriteMarkdown has a result.
use configmapsecrets.Prelude.{
  Text, text_equality, Map, lookup, Bool, true, not, ◌&&◌, Option, none, some, is_some, List, [],
  ◌∷◌, ◌≡◌, refl, arith, Option-cases, inl, inr,
}
use configmapsecrets.Runtime.{GroupVersionKind}
use configmapsecrets.Genapi.Idents.{Unicode}
use configmapsecrets.Genapi.Packages.{Field, Struct, Package, sorted_names}
use configmapsecrets.Genapi.Types.{md_type}
use configmapsecrets.Genapi.Types.Links.{has_predeclared, md_type-has_predeclared}
use configmapsecrets.Genapi.Print.{
  Schema, Options, joined, field_row, field_doc, field_rows, print_struct, print_section,
  print_sections, print_types, write_markdown,
}

-- No field has a type in which a named type of the language itself stands.
unfoldable pub printable : List Field → Bool
printable [] = true
printable (f ∷ fields) = not (has_predeclared f.field_type) && printable fields

unfoldable pub all_printable : Map Text Struct → Bool
all_printable [] = true
all_printable ((_, s) ∷ structs) = printable s.fields && all_printable structs

joined-is_some :
    (a b : Option Text) → is_some a ≡ true → is_some b ≡ true → is_some (joined a b) ≡ true
joined-is_some none b h k = h
joined-is_some (some s) none h k = k
joined-is_some (some s) (some t) h k = refl

lookup-printable :
    (name : Text) (structs : Map Text Struct) (s : Struct)
    → all_printable structs ≡ true
    → lookup name structs ≡ some s
    → printable s.fields ≡ true
unfolding all_printable lookup
lookup-printable name [] s h e = cc e
lookup-printable name ((k, t) ∷ structs) s h e = ground (arith, lookup-printable name structs s)

field_row-is_some :
    (f : Field) (doc : Text) (t : Option Text)
    → is_some t ≡ true
    → is_some (field_row f doc t) ≡ true
field_row-is_some f doc none h = h
field_row-is_some f doc (some t) h = refl

module _ (unicode : Unicode) (schema : Schema) (pkg : Package) (opt : Options) where
  field_rows-is_some :
      (gvk : Option GroupVersionKind) (fields : List Field)
      → printable fields ≡ true
      → is_some (field_rows unicode schema pkg gvk fields) ≡ true
  unfolding field_rows printable
  field_rows-is_some gvk [] h = refl
  field_rows-is_some gvk (f ∷ fields) h =
      joined-is_some (field_row f (field_doc schema gvk f) (md_type unicode pkg f.field_type))
        (field_rows unicode schema pkg gvk fields)
        (field_row-is_some f (field_doc schema gvk f) (md_type unicode pkg f.field_type)
          (ground (arith, md_type-has_predeclared unicode pkg f.field_type)))
        (field_rows-is_some gvk fields (ground arith))

  print_struct-is_some :
      (s : Struct)
      → printable s.fields ≡ true
      → is_some (print_struct unicode schema pkg s opt) ≡ true
  unfolding print_struct
  print_struct-is_some s h =
      ground (arith, field_rows-is_some (lookup s.type_text opt.types) s.fields h)

  print_section-is_some :
      (name : Text)
      → all_printable pkg.structs ≡ true
      → is_some (print_section unicode schema pkg opt name) ≡ true
  unfolding print_section
  print_section-is_some name h = elim (Option-cases (lookup name pkg.structs)) [
    | inl e ↦ rw (is_some, e) refl
    | inr found ↦
        rw (is_some, found.1)
          (print_struct-is_some found.0 (lookup-printable name pkg.structs found.0 h found.1))
  ]

  print_sections-is_some :
      (names : List Text)
      → all_printable pkg.structs ≡ true
      → is_some (print_sections unicode schema pkg opt names) ≡ true
  unfolding print_sections
  print_sections-is_some [] h = refl
  print_sections-is_some (name ∷ names) h =
      joined-is_some _ _ (print_section-is_some name h) (print_sections-is_some names h)

  -- WriteMarkdown has a result, so does not panic, for a package in whose structs no field has a
  -- type in which a named type of the language itself, such as `error`, stands.
  pub write_markdown-is_some :
      all_printable pkg.structs ≡ true → is_some (write_markdown unicode schema pkg opt) ≡ true
  unfolding write_markdown print_types
  write_markdown-is_some h = ground (arith, print_sections-is_some (sorted_names pkg) h)
