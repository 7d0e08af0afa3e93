-- ===== src/Genapi/Options.antt =====
-- pkg/genapi/genapi.go: WithScheme and WithGroupVersion, and how WriteMarkdown applies options.
use configmapsecrets.Prelude.{Text, codes, text_equality, Map, insert, Option, List, [], ◌∷◌, ◌++◌}
use configmapsecrets.Runtime.{GroupVersionKind}
use configmapsecrets.Genapi.Idents.{Unicode}
use configmapsecrets.Genapi.Packages.{Package}
use configmapsecrets.Genapi.Print.{GroupVersion, Schema, Options, write_markdown}

-- reflect.Type, of which the package's path and the name are read
pub record KnownType : Type 0 where
  pub gvk : GroupVersionKind
  pub pkg_path : Text
  pub name : Text

-- Option, by the function that made it; of the scheme AllKnownTypes
pub data Choice : Type 0 where
  with_scheme : List KnownType → Choice
  with_group_version : GroupVersion → Choice

-- The loop of WithScheme
unfoldable pub put_types : List KnownType → Map Text GroupVersionKind → Map Text GroupVersionKind
put_types [] types = types
put_types (t ∷ known) types =
    put_types known (insert (t.pkg_path ++ (codes "." ++ t.name)) t.gvk types)

unfoldable pub apply : Choice → Options → Options
unfolding put_types
apply (with_scheme known) o = record o { types = put_types known [] }
apply (with_group_version gv) o = record o { gv = gv }

-- The loop of WriteMarkdown
unfoldable pub apply_all : List Choice → Options → Options
unfolding apply
apply_all [] o = o
apply_all (opt ∷ options) o = apply_all options (apply opt o)

-- option{}
abbrev pub no_options : Options
no_options = record { types = []; gv = record { group = []; version = [] } }

-- WriteMarkdown with its options
unfoldable pub write_with : Unicode → Schema → Package → List Choice → Option Text
unfolding apply_all write_markdown
write_with unicode schema pkg options =
    write_markdown unicode schema pkg (apply_all options no_options)
