-- ===== src/Controller/MakeVariables/Plain/Puts.antt =====
-- What the values of a source do to the variables.
use configmapsecrets.Prelude.{
  Text, if_keeps, ◌⊎◌, inl, inr, text_equality, lookup, Bool, Option, none, some, or_else, ◌≡◌,
  refl, ap, ◌∙◌, if◌then◌else◌,
}
use configmapsecrets.Runtime.{
  Result, ok, err, Error, config_error, foreign, ForeignError, Library, Exec, ◌>>=◌, pure,
}
use configmapsecrets.Controller.Variables.{Values, no_values, is_set, not_found}
use configmapsecrets.Controller.MakeVariables.Plain.{Made, read_as, lift, make_values}
use configmapsecrets.Controller.MakeVariables.Plain.Entries.{last_value, lookup-put_all}

-- Where the action succeeds, the key has the value `o`, if there is one, or that of before.
pub record Puts (k : Text) (o : Option Text) (m : Exec Made (Unit {0})) : Type 0 where
  pub at : (q : Made) → (m q).0 ≡ ok tt → lookup k (m q).1.vars ≡ or_else o (lookup k q.vars)

pub make_values-Puts :
    (k kind namespace name : Text) (o : Option Text) (values : Values)
    → last_value k values.values ≡ o
    → Puts k o (make_values kind namespace name values)
unfolding make_values
make_values-Puts k kind namespace name o values g = record {
  at = λ q e. lookup-put_all k values.values q.vars ∙ ap (λ p. or_else p (lookup k q.vars)) g;
}

abbrev Absent : {A : Type 0} → Result Error (Option A) → Type 0
Absent r = (r ≡ ok none) ⊎ ((x : Error) × (r ≡ err x))

not_found-Absent :
    {A : Type 0} (lib : Library) (optional : Option Bool) (e : ForeignError)
    → Absent (not_found lib {A = A} optional e)
unfolding not_found
not_found-Absent lib optional e =
    if_keeps Absent (lib.is_not_found e)
      (if is_set optional then ok none else err (config_error (foreign e))) (err (foreign e))
      (if_keeps Absent (is_set optional) (ok none) (err (config_error (foreign e))) (inl refl)
        (inr (config_error (foreign e), refl)))
      (inr (foreign e, refl))

module _ (lib : Library) (k namespace : Text) where
  module _ {A : Type 0} (values_in : Option A → Values)
      (value_in : Result ForeignError A → Option Text) (nil : values_in none ≡ no_values)
      (has : (a : A) → last_value k (values_in (some a)).values ≡ value_in (ok a))
      (gone : (e : ForeignError) → value_in (err e) ≡ none) (kind name : Text) where
    -- Reading an object and using its values
    abbrev pub put_read : Result Error (Option A) → Exec Made (Unit {0})
    put_read r = (lift r >>= λ found. pure (values_in found)) >>= λ values.
        make_values kind namespace name values

    Absent-Puts : (r : Result Error (Option A)) → Absent r → Puts k none (put_read r)
    unfolding ◌>>=◌ last_value
    Absent-Puts r (inl e) = rw e (
        make_values-Puts k kind namespace name none (values_in none)
          (ap (λ v. last_value k v.values) nil))
    Absent-Puts r (inr (x, e)) = rw e (record { at = λ q h. cc })

    pub read-Puts :
        (optional : Option Bool) (r : Result ForeignError A)
        → Puts k (value_in r) (put_read (read_as lib optional r))
    unfolding ◌>>=◌
    read-Puts optional (ok a) =
        make_values-Puts k kind namespace name (value_in (ok a)) (values_in (some a)) (has a)
    read-Puts optional (err e) =
        rw (gone e) (Absent-Puts (not_found lib optional e) (not_found-Absent lib optional e))
