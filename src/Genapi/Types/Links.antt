-- ===== src/Genapi/Types/Links.antt =====
-- What mdType promises: where it has a result, and where its links lead.
use configmapsecrets.Prelude.{
  Text, text_eq_iff, text_equality, Bool, true, false, not, ◌||◌, is_some, some, if◌then◌else◌, ◌≡◌,
  refl, arith,
}
use configmapsecrets.Genapi.Texts.{member}
use configmapsecrets.Genapi.Markdown.{md_section_link}
use configmapsecrets.Genapi.Idents.{Unicode}
use configmapsecrets.Genapi.Packages.{
  GoType, basic, pointer, slice, array, map_type, named_type, predeclared, other_type, Package,
  sorted_names,
}
use configmapsecrets.Genapi.Packages.Names.{member-sorted_names}
use configmapsecrets.Genapi.Types.{md_type, local_name}

-- A named type of the language itself stands in the type.
unfoldable pub has_predeclared : GoType → Bool
has_predeclared (basic name) = false
has_predeclared (pointer elem) = has_predeclared elem
has_predeclared (slice elem) = has_predeclared elem
has_predeclared (array size elem) = has_predeclared elem
has_predeclared (map_type key elem) = has_predeclared key || has_predeclared elem
has_predeclared (named_type pkg_path name) = false
has_predeclared (predeclared name) = true
has_predeclared other_type = false

-- mdType has a result exactly if no named type of the language itself, such as `error`, stands in
-- the type; it panics otherwise.
pub md_type-has_predeclared :
    (unicode : Unicode) (pkg : Package) (t : GoType)
    → is_some (md_type unicode pkg t) ≡ not (has_predeclared t)
unfolding md_type has_predeclared
md_type-has_predeclared unicode pkg (basic name) = refl
md_type-has_predeclared unicode pkg (pointer elem) =
    ground (arith, md_type-has_predeclared unicode pkg elem)
md_type-has_predeclared unicode pkg (slice elem) =
    ground (arith, md_type-has_predeclared unicode pkg elem)
md_type-has_predeclared unicode pkg (array size elem) =
    ground (arith, md_type-has_predeclared unicode pkg elem)
md_type-has_predeclared unicode pkg (map_type key elem) =
    ground
      (arith, md_type-has_predeclared unicode pkg key, md_type-has_predeclared unicode pkg elem)
md_type-has_predeclared unicode pkg (named_type pkg_path name) = refl
md_type-has_predeclared unicode pkg (predeclared name) = refl
md_type-has_predeclared unicode pkg other_type = refl

-- A named type of the package itself is a link to the section of its name exactly if sortedNames
-- has the name, so if the table of contents and the sections do; otherwise it is the bare name.
md_type-local :
    (unicode : Unicode) (pkg : Package) (name : Text)
    → md_type unicode pkg (named_type pkg.pkg_path name)
      ≡ some (if member name (sorted_names pkg) then md_section_link unicode.lower name else name)
unfolding md_type local_name
md_type-local unicode pkg name =
    ground (arith, text_eq_iff pkg.pkg_path pkg.pkg_path, member-sorted_names pkg name)
