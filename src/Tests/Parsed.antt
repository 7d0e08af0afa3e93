-- ===== src/Tests/Parsed.antt =====
-- ParsePackage on a small package, and the build information.
use configmapsecrets.Prelude.{
  Text, codes, text_eq, text_equality, lookup, insert, Bool, false, none, some, List, [], ◌∷◌, ◌++◌,
  ◌≡◌, refl, arith, if◌then◌else◌,
}
use configmapsecrets.Runtime.{ok}
use configmapsecrets.Genapi.Types.{decimal}
use configmapsecrets.Genapi.Docs.{fmt_raw_doc}
use configmapsecrets.Genapi.Markdown.{trim_space}
use configmapsecrets.Genapi.Texts.{split}
use configmapsecrets.Genapi.Packages.{Package}
use configmapsecrets.Genapi.Options.{with_scheme, apply_all, no_options}
use configmapsecrets.Runtime.{GroupVersionKind}
use configmapsecrets.Genapi.Constants.{Scope, DocValue, DocType}
use configmapsecrets.Genapi.Constants.Gathered.{
  are_known_consts, are_known_types, of_consts, of_types,
}
use configmapsecrets.Genapi.Load.{
  Loaded, InternalPackage, basic_type, structs_from, parse_loaded, parse_package,
}
use configmapsecrets.Genapi.Load.Described.{described?, parse_loaded-described}
use configmapsecrets.Buildinfo.{declared, positive, init, html_escape}
use configmapsecrets.Buildinfo.Time.{init-decimal}

abbrev never : Text → Bool
never s = false

abbrev phase : Text
phase = codes "v1.Phase"

abbrev objects : Scope
objects name =
    if text_eq name (codes "On")
    then some (record { named = some phase; value = some (codes "\"on\"") })
    else if text_eq name (codes "Off")
    then some (record { named = some phase; value = some (codes "\"off\"") })
    else if text_eq name (codes "Max")
    then some (record { named = none; value = some (codes "3") })
    else none

abbrev const_of : Text → Text → DocValue
const_of doc name = record {
  doc = doc;
  specs = none ∷ some (record { doc = []; names = name ∷ [] }) ∷ [];
}

abbrev package_consts : List DocValue
package_consts =
    const_of (codes "More.") (codes "Max") ∷ const_of (codes "Off it is.") (codes "Off") ∷ []

abbrev types : List DocType
types =
    record {
      name = codes "Phase";
      doc = codes "Phase of it.";
      consts = const_of (codes "On it is.") (codes "On") ∷ [];
    }
    ∷ []

abbrev loaded : Loaded
loaded = record {
  pkg_path = codes "example.com/v1";
  errors = [];
  consts = package_consts;
  types = types;
  scope = objects;
  type_of = λ name. some (some (record { type_text = phase; underlying = basic_type }));
}

abbrev parsed : InternalPackage
parsed = record {
  pkg = loaded;
  basics =
      (
        codes "Phase",
        record {
          doc_type = record {
            name = codes "Phase";
            doc = codes "Phase of it.";
            consts = const_of (codes "On it is.") (codes "On") ∷ [];
          };
          type_text = phase;
        },
      )
      ∷ [];
  structs = [];
}

parse_loaded-described_example :
    (pkg : Package) × (parse_loaded never 1 parsed [] ≡ some pkg)
    × (pkg.structs ≡ [])
    × ((name : Text)
        → lookup name pkg.constants
          ≡ described? never (lookup name parsed.basics) (λ typ.
            of_consts never objects typ package_consts ++ of_types never objects typ types))
unfolding are_known_consts are_known_types text_eq structs_from lookup
parse_loaded-described_example =
    parse_loaded-described never 1 parsed [] [] refl refl refl (refl, tt)

parse_package_run :
    parse_package never 1 (λ ps. ps) (ok (loaded ∷ []))
    ≡ some (
        ok (record {
          pkg_path = codes "example.com/v1";
          constants =
              (
                codes "Phase",
                record {
                  name = codes "Phase";
                  doc = codes "Phase of it.";
                  values =
                      record {
                        doc = codes "Off it is.";
                        name = codes "Off";
                        value = codes "\"off\"";
                      }
                      ∷ record {
                        doc = codes "On it is.";
                        name = codes "On";
                        value = codes "\"on\"";
                      }
                      ∷ [];
                },
              )
              ∷ [];
          structs = [];
        }))
unfolding parse_package fmt_raw_doc lookup insert text_eq trim_space split
parse_package_run = refl

init-decimal_example :
    (init (record declared { build_unix = decimal 1600000000 })).build_time
    ≡ some (positive 1600000000)
init-decimal_example = init-decimal declared 1600000000 (ground arith)

html_escape_run : html_escape (codes "devel +1") ≡ codes "devel &#43;1"
unfolding html_escape
html_escape_run = refl

abbrev kind : GroupVersionKind
kind = record { group = codes "g"; version = codes "v1"; kind = codes "Phase" }

with_scheme_run :
    lookup
      (codes "example.com/v1.Phase")
      (apply_all
        (with_scheme
            (record { gvk = kind; pkg_path = codes "example.com/v1"; name = codes "Phase" } ∷ [])
          ∷ [])
        no_options).types
    ≡ some kind
unfolding apply_all lookup insert text_eq
with_scheme_run = refl
