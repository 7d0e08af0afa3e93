-- ===== src/Genapi/Constants/Adds.antt =====
-- What a step of the gathering of constants appends.
use configmapsecrets.Prelude.{
  Text, text_eq, text_eq_iff, text_equality, lookup, insert, lookup-insert, Bool, true, false,
  Option, none, some, List, [], ◌∷◌, ◌++◌, ◌≡◌, refl, sym, ap, ◌∙◌, arith, if◌then◌else◌,
  Bool-cases, inl, inr,
}
use mathlib.Core.List.{append_assoc, append-nil}
use configmapsecrets.Genapi.Packages.{Value}
use configmapsecrets.Genapi.Constants.{
  Object, ValuesByType, ◌>>=◌, values_at, append_values, add_value, add_object, append_all,
}

-- A name that is in scope, and a constant if its type is named
abbrev pub has_value : Option Text → Option Text → Bool
has_value none value = true
has_value (some typ) none = false
has_value (some typ) (some value) = true

abbrev pub is_known : Option Object → Bool
is_known none = false
is_known (some obj) = has_value obj.named obj.value

-- The constant, if it is one of the type
abbrev pub of_value : Text → Option Text → Option Text → Text → Text → List Value
of_value typ none value doc name = []
of_value typ (some t) none doc name = []
of_value typ (some t) (some value) doc name =
    if text_eq t typ then record { doc = doc; name = name; value = value } ∷ [] else []

abbrev pub of_object : Text → Option Object → Text → Text → List Value
of_object typ none doc name = []
of_object typ (some obj) doc name = of_value typ obj.named obj.value doc name

abbrev pub is_empty : List Value → Bool
is_empty [] = true
is_empty (_ ∷ _) = false

-- No type occurs twice, and each has values.
abbrev pub IsFilled : ValuesByType → Type 0
IsFilled [] = Unit
IsFilled ((typ, vals) ∷ m) = (lookup typ m ≡ none) × (is_empty vals ≡ false) × IsFilled m

-- An action that has a result, appends these values for each type, and keeps this.
pub record Adds (f : ValuesByType → Option ValuesByType) (vals : Text → List Value) : Type 0 where
  pub at :
      (cvs : ValuesByType)
      → (out : ValuesByType) × (f cvs ≡ some out)
        × ((typ : Text) → values_at typ out ≡ values_at typ cvs ++ vals typ)
        × (IsFilled cvs → IsFilled out)

pub nothing-Adds : Adds (λ cvs. some cvs) (λ typ. [])
nothing-Adds = record { at = λ cvs. (cvs, refl, (λ typ. sym (append-nil _)), (λ h. h)) }

pub bind-Adds :
    (f g : ValuesByType → Option ValuesByType) (u v : Text → List Value)
    → Adds f u
    → Adds g v
    → Adds (λ cvs. f cvs >>= g) (λ typ. u typ ++ v typ)
bind-Adds f g u v a b = record {
  at = λ cvs.
      let (mid, e, h, m) = a.at cvs in
      let (out, e', h', m') = b.at mid in
      (
        out,
        ap (λ r. r >>= g) e ∙ e',
        (λ typ.
            h' typ
            ∙ ap (λ l. l ++ v typ) (h typ)
            ∙ append_assoc (values_at typ cvs) (u typ) (v typ)),
        (λ i. m' (m i)),
      );
}

insert-IsFilled :
    (key : Text) (value : List Value) (m : ValuesByType)
    → is_empty value ≡ false
    → IsFilled m
    → IsFilled (insert key value m)
unfolding insert
insert-IsFilled key value [] f h = (unfold lookup in refl, f, tt)
insert-IsFilled key value ((k, v) ∷ m) f h = elim (Bool-cases (text_eq k key)) [
  | inl e ↦ rw e (h.0, f, h.2)
  | inr e ↦ rw e (
    ground (arith, lookup-insert key k value m, text_eq_iff k key, text_eq_iff key k, h.0),
    h.1,
    insert-IsFilled key value m f h.2,
  )
]

append-is_empty : (l m : List Value) → is_empty m ≡ false → is_empty (l ++ m) ≡ false
append-is_empty [] m h = h
append-is_empty (_ ∷ l) m h = refl

append_values-IsFilled :
    (t : Text) (vals : List Value) (cvs : ValuesByType)
    → is_empty vals ≡ false
    → IsFilled cvs
    → IsFilled (append_values t vals cvs)
unfolding append_values
append_values-IsFilled t vals cvs f h =
    insert-IsFilled t _ cvs (append-is_empty (values_at t cvs) vals f) h

append_values-at :
    (typ t : Text) (vals : List Value) (cvs : ValuesByType)
    → values_at typ (append_values t vals cvs)
      ≡ values_at typ cvs ++ (if text_eq t typ then vals else [])
unfolding values_at append_values
append_values-at typ t vals cvs = ground (
  arith,
  lookup-insert t typ (values_at t cvs ++ vals) cvs,
  text_eq_iff t typ,
  append-nil (values_at typ cvs),
)

value-Adds :
    (named value : Option Text) (doc name : Text)
    → has_value named value ≡ true
    → Adds (add_value named value doc name) (λ typ. of_value typ named value doc name)
unfolding add_value append_values
value-Adds none value doc name h = nothing-Adds
value-Adds (some t) none doc name h = ground arith
value-Adds (some t) (some value) doc name h = record {
  at = λ cvs. (
    append_values t (record { doc = doc; name = name; value = value } ∷ []) cvs,
    refl,
    (λ typ. append_values-at typ t _ cvs),
    append_values-IsFilled t _ cvs refl,
  );
}

pub object-Adds :
    (o : Option Object) (doc name : Text)
    → is_known o ≡ true
    → Adds (add_object o doc name) (λ typ. of_object typ o doc name)
unfolding add_object
object-Adds none doc name h = ground arith
object-Adds (some obj) doc name h = value-Adds obj.named obj.value doc name h

values_at-cons :
    (typ t : Text) (vals : List Value) (more : ValuesByType)
    → lookup t more ≡ none
    → values_at typ ((t, vals) ∷ more) ≡ (if text_eq t typ then vals else []) ++ values_at typ more
unfolding values_at lookup
values_at-cons typ t vals more h = ground (arith, text_eq_iff t typ, h, append-nil vals)

pub append_all-values :
    (more cvs : ValuesByType) (typ : Text)
    → IsFilled more
    → values_at typ (append_all more cvs) ≡ values_at typ cvs ++ values_at typ more
unfolding append_all lookup
append_all-values [] cvs typ h = sym (append-nil (values_at typ cvs))
append_all-values ((t, vals) ∷ more) cvs typ h =
    append_all-values more (append_values t vals cvs) typ h.2
    ∙ ap (λ l. l ++ values_at typ more) (append_values-at typ t vals cvs)
    ∙ append_assoc (values_at typ cvs) (if text_eq t typ then vals else []) (values_at typ more)
    ∙ ap (λ l. values_at typ cvs ++ l) (sym (values_at-cons typ t vals more h.0))

pub append_all-IsFilled :
    (more cvs : ValuesByType) → IsFilled more → IsFilled cvs → IsFilled (append_all more cvs)
unfolding append_all
append_all-IsFilled [] cvs f h = h
append_all-IsFilled ((t, vals) ∷ more) cvs f h =
    append_all-IsFilled more _ f.2 (append_values-IsFilled t vals cvs f.1 h)
