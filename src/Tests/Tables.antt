-- ===== src/Tests/Tables.antt =====
-- The reference maps and the conditions.
use configmapsecrets.Prelude.{
  Text, codes, text_eq, text_equality, lookup, insert, true, false, some, List, [], ◌∷◌, ◌≡◌, refl,
  arith,
}
use configmapsecrets.Api.{
  ConfigMapSecretCondition, ConfigMapSecretStatus, render_failure, condition_true,
}
use configmapsecrets.RefMap
use configmapsecrets.RefMap.{RefMap, StringSet, empty, set, has, srcs, same_name, inner, test, dsts}
use configmapsecrets.RefMap.Assign.{mentions, same_src}
use configmapsecrets.RefMap.Consistent.{
  IsConsistent, empty-IsConsistent, set-IsConsistent, srcs-set,
}
use configmapsecrets.RefMap.History.{Call, run, latest, run-latest}
use configmapsecrets.Conditions.{set_condition, get_condition, same_content, find_condition}
use configmapsecrets.Conditions.Laws.{merged, get-set, IsListMap, set-IsListMap, count_type}

abbrev ns : Text
ns = codes "ns"

abbrev app_name : Text
app_name = codes "app"

abbrev keys_name : Text
keys_name = codes "keys"

abbrev one : StringSet
one = (keys_name, true) ∷ []

-- One call that names a Secret, and a later one that drops it
abbrev calls : List Call
calls =
    record { namespace = ns; src = app_name; new = [] }
    ∷ record { namespace = ns; src = app_name; new = one }
    ∷ []

set_once : has (set empty ns app_name one) ns app_name keys_name ≡ true
unfolding has set same_name text_eq lookup inner test dsts RefMap.drop_stale RefMap.add_missing
    RefMap.add RefMap.link insert
set_once = refl

set-IsConsistent_example : IsConsistent (set empty ns app_name one)
set-IsConsistent_example = set-IsConsistent empty ns app_name one empty-IsConsistent

srcs-set_example : mentions (srcs (set empty ns app_name one) ns keys_name) app_name ≡ true
unfolding same_src mentions lookup text_eq
srcs-set_example = srcs-set empty ns app_name one ns app_name keys_name empty-IsConsistent

run-latest_example :
    (has (run calls) ns app_name keys_name ≡ false)
    × (mentions (srcs (run calls) ns keys_name) app_name ≡ false)
unfolding latest same_src mentions lookup text_eq
run-latest_example = run-latest calls ns app_name keys_name

abbrev failing : ConfigMapSecretCondition
failing = record {
  cond_type = render_failure;
  status = condition_true;
  last_update_time = 3;
  last_transition_time = 3;
  reason = codes "CreateVariablesError";
  message = codes "not found";
}

-- The same failure with another message, later
abbrev later : ConfigMapSecretCondition
later = record failing { last_update_time = 7; last_transition_time = 7; message = codes "no key" }

abbrev failed_status : ConfigMapSecretStatus
failed_status = record { observed_generation = 1; conditions = failing ∷ [] }

-- The transition time stays, since the status of the condition does.
get-set_example :
    get_condition (set_condition failed_status later) render_failure
    ≡ some (record later { last_transition_time = 3 })
unfolding merged same_content get_condition find_condition text_eq
get-set_example = get-set failed_status later render_failure

one_failure : IsListMap failed_status
unfolding count_type
one_failure t = ground arith

set-IsListMap_example : IsListMap (set_condition failed_status later)
set-IsListMap_example = set-IsListMap failed_status later one_failure
