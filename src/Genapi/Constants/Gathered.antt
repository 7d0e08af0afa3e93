-- ===== src/Genapi/Constants/Gathered.antt =====
-- The constants of a type are found wherever they are declared.
use configmapsecrets.Prelude.{
  Text, text_equality, lookup, Bool, true, ◌&&◌, Option, none, some, List, [], ◌∷◌, ◌++◌, ◌≡◌, ap,
  ◌∙◌, arith,
}
use configmapsecrets.Genapi.Packages.{Value}
use configmapsecrets.Genapi.Constants.{
  Scope, ValueSpec, DocValue, DocType, ValuesByType, ◌>>=◌, values_at, append_all, add_names,
  doc_or, add_specs, add_consts, const_values, merge, gather, all_consts,
}
use configmapsecrets.Genapi.Constants.Adds.{
  is_known, of_object, IsFilled, Adds, nothing-Adds, bind-Adds, object-Adds, append_all-values,
  append_all-IsFilled,
}

module _ (is_url : Text → Bool) (scope : Scope) where
  unfoldable pub are_known : List Text → Bool
  are_known [] = true
  are_known (n ∷ names) = is_known (scope n) && are_known names

  unfoldable pub of_names : Text → Text → List Text → List Value
  of_names typ doc [] = []
  of_names typ doc (n ∷ names) = of_object typ (scope n) doc n ++ of_names typ doc names

  unfoldable pub are_known_specs : List (Option ValueSpec) → Bool
  unfolding are_known
  are_known_specs [] = true
  are_known_specs (none ∷ specs) = are_known_specs specs
  are_known_specs (some spec ∷ specs) = are_known spec.names && are_known_specs specs

  unfoldable pub of_specs : Text → Text → List (Option ValueSpec) → List Value
  unfolding of_names
  of_specs typ wrap [] = []
  of_specs typ wrap (none ∷ specs) = of_specs typ wrap specs
  of_specs typ wrap (some spec ∷ specs) =
      of_names typ (doc_or is_url scope spec.doc wrap) spec.names ++ of_specs typ wrap specs

  -- Every name of the declarations is known.
  unfoldable pub are_known_consts : List DocValue → Bool
  unfolding are_known_specs
  are_known_consts [] = true
  are_known_consts (v ∷ consts) = are_known_specs v.specs && are_known_consts consts

  -- The constants of a type, in the order of the declarations
  unfoldable pub of_consts : Text → List DocValue → List Value
  unfolding of_specs
  of_consts typ [] = []
  of_consts typ (v ∷ consts) = of_specs typ v.doc v.specs ++ of_consts typ consts

  names-Adds :
      (doc : Text) (names : List Text)
      → are_known names ≡ true
      → Adds (add_names is_url scope doc names) (λ typ. of_names typ doc names)
  unfolding are_known of_names add_names
  names-Adds doc [] h = nothing-Adds
  names-Adds doc (n ∷ names) h =
      bind-Adds _ _ _ _ (object-Adds (scope n) doc n (ground arith))
        (names-Adds doc names (ground arith))

  specs-Adds :
      (wrap : Text) (specs : List (Option ValueSpec))
      → are_known_specs specs ≡ true
      → Adds (add_specs is_url scope wrap specs) (λ typ. of_specs typ wrap specs)
  unfolding are_known_specs of_specs add_specs
  specs-Adds wrap [] h = nothing-Adds
  specs-Adds wrap (none ∷ specs) h = specs-Adds wrap specs h
  specs-Adds wrap (some spec ∷ specs) h =
      bind-Adds _ _ _ _ (names-Adds (doc_or is_url scope spec.doc wrap) spec.names (ground arith))
        (specs-Adds wrap specs (ground arith))

  consts-Adds :
      (consts : List DocValue)
      → are_known_consts consts ≡ true
      → Adds (add_consts is_url scope consts) (λ typ. of_consts typ consts)
  unfolding are_known_consts of_consts add_consts
  consts-Adds [] h = nothing-Adds
  consts-Adds (v ∷ consts) h =
      bind-Adds _ _ _ _ (specs-Adds v.doc v.specs (ground arith))
        (consts-Adds consts (ground arith))

  merge-Adds :
      (consts : List DocValue)
      → are_known_consts consts ≡ true
      → Adds (merge is_url scope consts) (λ typ. of_consts typ consts)
  unfolding merge const_values of_consts lookup
  merge-Adds [] h = nothing-Adds
  merge-Adds (v ∷ vs) h = record {
    at = λ cvs.
        let (more, e, values, m) = (consts-Adds (v ∷ vs) h).at [] in
        (
          append_all more cvs,
          ap (λ r. r >>= λ more. some (append_all more cvs)) e,
          (λ typ.
              append_all-values more cvs typ (m tt)
              ∙ ap (λ l. values_at typ cvs ++ l) (values typ)),
          append_all-IsFilled more cvs (m tt),
        );
  }

  -- Every name that the package or one of its types declares is known.
  unfoldable pub are_known_types : List DocType → Bool
  unfolding are_known_consts
  are_known_types [] = true
  are_known_types (t ∷ types) = are_known_consts t.consts && are_known_types types

  unfoldable pub of_types : Text → List DocType → List Value
  unfolding of_consts
  of_types typ [] = []
  of_types typ (t ∷ types) = of_consts typ t.consts ++ of_types typ types

  gather-Adds :
      (types : List DocType)
      → are_known_types types ≡ true
      → Adds (gather is_url scope types) (λ typ. of_types typ types)
  unfolding are_known_types of_types gather
  gather-Adds [] h = nothing-Adds
  gather-Adds (t ∷ types) h =
      bind-Adds _ _ _ _ (merge-Adds t.consts (ground arith)) (gather-Adds types (ground arith))

  -- Where every name of the declarations is in scope, and a constant if its type is named, the
  -- constants are gathered, and each type has those declared anywhere with it as their type: first
  -- those of the package, then those of each documented type, in the order of the declarations. Only a type with constants has
  -- an entry.
  pub all_consts-of_types :
      (consts : List DocValue) (types : List DocType)
      → are_known_consts consts ≡ true
      → are_known_types types ≡ true
      → (out : ValuesByType) × (all_consts is_url scope consts types ≡ some out)
        × ((typ : Text) → values_at typ out ≡ of_consts typ consts ++ of_types typ types)
        × IsFilled out
  unfolding all_consts const_values lookup
  all_consts-of_types consts types h k =
      let (out, e, values, m) =
        (bind-Adds _ _ _ _ (consts-Adds consts h) (gather-Adds types k)).at [] in
      (out, e, values, m tt)
