-- ===== src/Controller/MakeVariables/Plain/Simulation.antt =====
-- When an action of makeVariables does what an action on what has been made does.
use mathlib.Core.List.{append_assoc}
use configmapsecrets.Prelude.{
  Text, text_eq_iff, text_equality, lookup, insert, lookup-insert, Map, Bool-cases, Option, none,
  some, [], ◌∷◌, ◌++◌, ◌≡◌, refl, arith, inl, inr,
}
use configmapsecrets.Runtime.{Result, ok, err, Error, ForeignError, State, Exec, ◌>>=◌, resume}
use configmapsecrets.Controller.Variables.{Locals, is_nil, Values}
use configmapsecrets.Controller.MakeVariables.{invalid_names_event, use_values, use_value}
use configmapsecrets.Controller.MakeVariables.Plain.{Reading, Made, lift, make_values, make_value}

-- What is in the cache is what Get answers.
abbrev pub IsCached : {A : Type 0} → (Text → Result ForeignError A) → Map Text A → Type 0
IsCached {A} answer cache = (name : Text) (a : A) → lookup name cache ≡ some a → answer name ≡ ok a

-- The local state of makeVariables, begun in the state s, stands for what has been made.
pub record Stands {W : Type 0} (reading : Reading) (s : State W) (l : Locals W) (q : Made)
    : Type 0 where
  pub vars : l.vars ≡ q.vars
  pub state : l.state ≡ record s { events = s.events ++ q.events }
  pub secrets : IsCached reading.secrets l.secret_cache
  pub config_maps : IsCached reading.config_maps l.config_map_cache

-- Two actions have the same result, and keep what stands for what.
pub record Same {W : Type 0} {A : Type 0} (reading : Reading) (s : State W)
    (x : Result Error A × Locals W) (y : Result Error A × Made) : Type 0 where
  pub result : x.0 ≡ y.0
  pub left : Stands reading s x.1 y.1

pub insert-IsCached :
    {A : Type 0} (answer : Text → Result ForeignError A) (name : Text) (a : A) (cache : Map Text A)
    → answer name ≡ ok a
    → IsCached answer cache
    → IsCached answer (insert name a cache)
insert-IsCached answer name a cache e h k b m =
    ground (arith, lookup-insert name k a cache, text_eq_iff name k, h k b)

module _ {W : Type 0} (reading : Reading) (s : State W) where
  -- The actions do the same from states of which one stands for the other.
  unfoldable pub Simulates : {A : Type 0} → Exec (Locals W) A → Exec Made A → Type 0
  Simulates m p = (l : Locals W) (q : Made) → Stands reading s l q → Same reading s (m l) (p q)

  resume-Same :
      {A B : Type 0} (r : Result Error A) (f : A → Exec (Locals W) B) (g : A → Exec Made B)
      (l : Locals W) (q : Made)
      → ((a : A) → Simulates (f a) (g a))
      → Stands reading s l q
      → Same reading s (resume r f l) (resume r g q)
  unfolding Simulates
  resume-Same (ok a) f g l q k t = k a l q t
  resume-Same (err e) f g l q k t = record { result = refl; left = t }

  pub bind-Simulates :
      {A B : Type 0} (m : Exec (Locals W) A) (p : Exec Made A) (f : A → Exec (Locals W) B)
      (g : A → Exec Made B)
      → Simulates m p
      → ((a : A) → Simulates (f a) (g a))
      → Simulates (m >>= f) (p >>= g)
  unfolding Simulates ◌>>=◌
  bind-Simulates m p f g h k l q t =
      let x = h l q t in rw (x.result) (resume-Same (p q).0 f g (m l).1 (p q).1 k (x.left))

  pub lift-Simulates : {A : Type 0} (r : Result Error A) → Simulates (λ l. (r, l)) (lift r)
  unfolding Simulates
  lift-Simulates r l q t = record { result = refl; left = t }

  pub use_values-Simulates :
      (kind namespace name : Text) (values : Values)
      → Simulates (use_values kind namespace name values) (make_values kind namespace name values)
  unfolding Simulates use_values make_values
  use_values-Simulates kind namespace name values l q t =
      elim (Bool-cases (is_nil values.invalid_keys)) [
        | inl none_invalid ↦ rw none_invalid (record {
          result = refl;
          left = record {
            vars = rw (t.vars) refl;
            state = t.state;
            secrets = t.secrets;
            config_maps = t.config_maps;
          };
        })
        | inr some_invalid ↦ rw some_invalid (
            let event = invalid_names_event kind namespace name values.invalid_keys in
            record {
              result = refl;
              left = record {
                vars = rw (t.vars) refl;
                state = rw (t.state, append_assoc s.events q.events (event ∷ [])) refl;
                secrets = t.secrets;
                config_maps = t.config_maps;
              };
            })
      ]

  pub use_value-Simulates :
      (name : Text) (o : Option Text) → Simulates (use_value name o) (make_value name o)
  unfolding Simulates use_value make_value
  use_value-Simulates name none l q t = record { result = refl; left = t }
  use_value-Simulates name (some val) l q t = record {
    result = refl;
    left = record {
      vars = rw (t.vars);
      state = t.state;
      secrets = t.secrets;
      config_maps = t.config_maps;
    };
  }
