-- ===== src/Genapi/Constants.antt =====
-- pkg/genapi/genapi.go: constValues, and how ParsePackage gathers its results. A named type stands
-- for itself by its text.
pub mod Adds
pub mod Gathered
use configmapsecrets.Prelude.{
  Text, text_equality, Bool, Map, lookup, insert, Option, none, some, List, [], ◌∷◌, ◌++◌,
  if◌then◌else◌,
}
use configmapsecrets.Genapi.Texts.{null}
use configmapsecrets.Genapi.Docs.{fmt_raw_doc}
use configmapsecrets.Genapi.Packages.{Value}

-- types.Object as constValues reads it: its type, if that is a named one, and the value if it is a
-- constant
pub record Object : Type 0 where
  pub named : Option Text
  pub value : Option Text

-- types.Scope.Lookup, none for nil
abbrev pub Scope : Type 0
Scope = Text → Option Object

-- ast.ValueSpec: the text of its doc, and its names
pub record ValueSpec : Type 0 where
  pub doc : Text
  pub names : List Text

-- doc.Value: the specs of its declaration, none for one that is no ast.ValueSpec
pub record DocValue : Type 0 where
  pub doc : Text
  pub specs : List (Option ValueSpec)

-- doc.Type, without its declaration
pub record DocType : Type 0 where
  pub name : Text
  pub doc : Text
  pub consts : List DocValue

infixl 10 ◌>>=◌
abbrev pub ◌>>=◌ : {A B : Type 0} → Option A → (A → Option B) → Option B
none >>= f = none
some a >>= f = f a

abbrev pub ValuesByType : Type 0
ValuesByType = Map Text (List Value)

abbrev pub list_of : Option (List Value) → List Value
list_of none = []
list_of (some values) = values

-- Index of the map, where a missing key has the nil slice
unfoldable pub values_at : Text → ValuesByType → List Value
values_at typ cvs = list_of (lookup typ cvs)

-- cvs[typ] = append(cvs[typ], vals...)
unfoldable pub append_values : Text → List Value → ValuesByType → ValuesByType
unfolding values_at
append_values typ vals cvs = insert typ (values_at typ cvs ++ vals) cvs

-- The body of the loop over names, by the type and the value of an object
unfoldable pub add_value :
    Option Text → Option Text → Text → Text → ValuesByType → Option ValuesByType
unfolding append_values
add_value none value doc name cvs = some cvs
add_value (some typ) none doc name cvs = none
add_value (some typ) (some value) doc name cvs =
    some (append_values typ (record { doc = doc; name = name; value = value } ∷ []) cvs)

-- None where the code panics, on a name that is not in scope or that is no constant
unfoldable pub add_object : Option Object → Text → Text → ValuesByType → Option ValuesByType
unfolding add_value
add_object none doc name cvs = none
add_object (some obj) doc name cvs = add_value obj.named obj.value doc name cvs

-- The inner loop of ParsePackage over the constants of a type
unfoldable pub append_all : ValuesByType → ValuesByType → ValuesByType
unfolding append_values
append_all [] consts = consts
append_all ((typ, vals) ∷ more) consts = append_all more (append_values typ vals consts)

module _ (is_url : Text → Bool) (scope : Scope) where
  unfoldable pub add_names : Text → List Text → ValuesByType → Option ValuesByType
  unfolding add_object
  add_names doc [] cvs = some cvs
  add_names doc (n ∷ names) cvs = do cvs' ← add_object (scope n) doc n cvs; add_names doc names cvs'

  -- The doc of a spec, or else that of the declaration around it
  abbrev pub doc_or : Text → Text → Text
  doc_or own wrap =
      let doc = fmt_raw_doc is_url own in if null doc then fmt_raw_doc is_url wrap else doc

  unfoldable pub add_specs : Text → List (Option ValueSpec) → ValuesByType → Option ValuesByType
  unfolding add_names
  add_specs wrap [] cvs = some cvs
  add_specs wrap (none ∷ specs) cvs = add_specs wrap specs cvs
  add_specs wrap (some spec ∷ specs) cvs = do
    cvs' ← add_names (doc_or spec.doc wrap) spec.names cvs
    add_specs wrap specs cvs'

  unfoldable pub add_consts : List DocValue → ValuesByType → Option ValuesByType
  unfolding add_specs
  add_consts [] cvs = some cvs
  add_consts (v ∷ consts) cvs = do cvs' ← add_specs v.doc v.specs cvs; add_consts consts cvs'

  -- constValues
  unfoldable pub const_values : List DocValue → Option ValuesByType
  unfolding add_consts
  const_values consts = add_consts consts []

  -- The body of the loop of ParsePackage over the types, which goes on where a type has no
  -- constants
  unfoldable pub merge : List DocValue → ValuesByType → Option ValuesByType
  unfolding const_values append_all
  merge [] consts = some consts
  merge (v ∷ vs) consts = do more ← const_values (v ∷ vs); some (append_all more consts)

  unfoldable pub gather : List DocType → ValuesByType → Option ValuesByType
  unfolding merge
  gather [] consts = some consts
  gather (t ∷ types) consts = do consts' ← merge t.consts consts; gather types consts'

  -- The constants of ParsePackage, those of the package and then those of its types
  unfoldable pub all_consts : List DocValue → List DocType → Option ValuesByType
  unfolding const_values gather
  all_consts consts types = do found ← const_values consts; gather types found
