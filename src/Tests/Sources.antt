-- ===== src/Tests/Sources.antt =====
-- Variables from two sources.
use configmapsecrets.Prelude.{
  Text, codes, text_eq, text_equality, Map, lookup, insert, some, none, [], ◌∷◌, ◌≡◌, refl,
}
use configmapsecrets.Api.{ConfigMapSecret}
use configmapsecrets.RefMap.{same_name, named_equality}
use configmapsecrets.Runtime.{ok, ◌>>=◌}
use configmapsecrets.Controller.Variables.{
  secret_values, secret, fetch_secret, fetched_secret, values_of_secret, collect_values, put_value,
  valid_prefixed_key,
}
use configmapsecrets.Controller.MakeVariables.{
  make_variables, both_loops, vars_from, all_vars_from, all_vars, use_values, put_all,
}
use configmapsecrets.Controller.MakeVariables.Plain.Entries.{last_source, unnamed}
use configmapsecrets.Controller.MakeVariables.Plain.Sources.{make_variables-last_source}
use configmapsecrets.Tests.Sample.{library, at_start, cluster, app}
use configmapsecrets.Tests.Steps.{copied, reading}

-- The keys of the Secret "keys", once as they are and once with a prefix
abbrev sourced : ConfigMapSecret
sourced = record app {
  spec = record app.spec {
    vars_from =
        record {
          prefix = [];
          secret_ref = some (record { name = codes "keys"; optional = none });
          config_map_ref = none;
        }
        ∷ record {
          prefix = codes "MY_";
          secret_ref = some (record { name = codes "keys"; optional = none });
          config_map_ref = none;
        }
        ∷ [];
    vars = [];
  };
}

abbrev both : Map Text Text
both = (codes "pass", codes "hunter2") ∷ (codes "MY_pass", codes "hunter2") ∷ []

sourced_variables : (make_variables copied library sourced (at_start cluster)).0 ≡ ok both
unfolding make_variables both_loops all_vars_from all_vars vars_from ◌>>=◌ use_values put_all
    secret_values secret fetch_secret fetched_secret values_of_secret collect_values put_value
    valid_prefixed_key lookup insert same_name text_eq
sourced_variables = refl

make_variables-last_source_example :
    lookup (codes "MY_pass") both
    ≡ last_source library (codes "MY_pass") reading sourced.spec.vars_from
unfolding unnamed
make_variables-last_source_example =
    make_variables-last_source copied library reading sourced (at_start cluster) both
      (codes "MY_pass") (record { secret = λ name w. refl; config_map = λ name w. refl })
      sourced_variables refl
