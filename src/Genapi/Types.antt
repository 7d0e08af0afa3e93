-- ===== src/Genapi/Types.antt =====
-- pkg/genapi/genapi.go: mdType.
pub mod Links
use configmapsecrets.Prelude.{
  ℕ, zero, suc, ◌+◌, Text, codes, text_eq, text_equality, lookup, ltb, Bool, true, false, is_some,
  Option, none, some, List, [], ◌∷◌, ◌++◌, if◌then◌else◌,
}
use Prim.Native.Nat.{◌/◌, ◌%◌}
use configmapsecrets.Genapi.Markdown.{md_section_link}
use configmapsecrets.Genapi.Idents.{Unicode, package_ident}
use configmapsecrets.Genapi.Packages.{
  GoType, basic, pointer, slice, array, map_type, named_type, predeclared, other_type, Package,
}

-- %d: the last digits of n, before those that follow; n is fuel enough, as each round divides by 10
unfoldable pub digits_before : ℕ → ℕ → Text → Text
digits_before zero n after = after
digits_before (suc fuel) n after =
    let digit = b'0' + n % 10 in
    let more = digits_before fuel (n / 10) (digit ∷ after) in
    if ltb n 10 then digit ∷ after else more

unfoldable pub decimal : ℕ → Text
unfolding digits_before
decimal n = digits_before (suc n) n []

-- A text before and one after that of a type, if it has one
abbrev pub within : Text → Option Text → Text → Option Text
within before none after = none
within before (some text) after = some (before ++ (text ++ after))

abbrev pub map_text : Option Text → Option Text → Option Text
map_text none elem = none
map_text (some key) elem = within (codes "map[" ++ (key ++ codes "]")) elem []

-- A name of the package that is described
unfoldable pub local_name : Unicode → Package → Text → Text
local_name unicode pkg name =
    if is_some (lookup name pkg.structs)
    then md_section_link unicode.lower name
    else if is_some (lookup name pkg.constants)
    then md_section_link unicode.lower name
    else name

-- A name of another package
unfoldable pub foreign_name : Unicode → Text → Text → Text
foreign_name unicode pkg_path name =
    let text = package_ident unicode pkg_path ++ (codes "." ++ name) in
    codes "["
    ++ (text ++ (codes "](https://pkg.go.dev/" ++ (pkg_path ++ (codes "#" ++ (name ++ codes ")")))))

-- mdType; it fails on a named type without a package, where the code asks a nil package for its
-- path
unfoldable pub md_type : Unicode → Package → GoType → Option Text
unfolding local_name foreign_name decimal
md_type unicode pkg (basic name) = some name
md_type unicode pkg (pointer elem) = within (codes "*") (md_type unicode pkg elem) []
md_type unicode pkg (slice elem) = within (codes "[]") (md_type unicode pkg elem) []
md_type unicode pkg (array size elem) =
    within (codes "[" ++ (decimal size ++ codes "]")) (md_type unicode pkg elem) []
md_type unicode pkg (map_type key elem) =
    map_text (md_type unicode pkg key) (md_type unicode pkg elem)
md_type unicode pkg (named_type pkg_path name) = some (
    if text_eq pkg_path pkg.pkg_path
    then local_name unicode pkg name
    else foreign_name unicode pkg_path name)
md_type unicode pkg (predeclared name) = none
md_type unicode pkg other_type = some (codes "???")
