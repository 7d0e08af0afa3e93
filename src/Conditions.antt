-- ===== src/Conditions.antt =====
-- pkg/controllers/conditions.go: the list of conditions of a status.
pub mod Laws
use configmapsecrets.Prelude.{
  Text, codes, text_eq, Bool, ◌&&◌, Option, none, some, List, [], ◌∷◌, ◌++◌, ℕ, if◌then◌else◌,
}
use configmapsecrets.Api.{ConfigMapSecretCondition, ConfigMapSecretStatus}

-- CreateVariablesErrorReason, internalError
abbrev pub create_variables_error_reason : Text
create_variables_error_reason = codes "CreateVariablesError"

abbrev pub internal_error : Text
internal_error = codes "InternalError"

-- NewConfigMapSecretCondition; the two times are what its two calls of metav1.Now return.
unfoldable pub new_condition :
    (update transition : ℕ) (typ status reason message : Text) → ConfigMapSecretCondition
new_condition update transition typ status reason message = record {
  cond_type = typ;
  status = status;
  last_update_time = update;
  last_transition_time = transition;
  reason = reason;
  message = message;
}

-- The loop of GetConfigMapSecretCondition
unfoldable pub find_condition :
    List ConfigMapSecretCondition → Text → Option ConfigMapSecretCondition
find_condition [] typ = none
find_condition (c ∷ cs) typ = if text_eq c.cond_type typ then some c else find_condition cs typ

unfoldable pub get_condition : ConfigMapSecretStatus → Text → Option ConfigMapSecretCondition
get_condition status typ = find_condition status.conditions typ

-- The loop of RemoveConfigMapSecretCondition
unfoldable pub without_condition :
    List ConfigMapSecretCondition → Text → List ConfigMapSecretCondition
without_condition [] typ = []
without_condition (c ∷ cs) typ =
    let conds = without_condition cs typ in if text_eq c.cond_type typ then conds else c ∷ conds

unfoldable pub remove_condition : ConfigMapSecretStatus → Text → ConfigMapSecretStatus
remove_condition status typ = record status { conditions = without_condition status.conditions typ }

unfoldable pub same_content : ConfigMapSecretCondition → ConfigMapSecretCondition → Bool
same_content prev cond =
    text_eq prev.status cond.status
    && (text_eq prev.reason cond.reason && text_eq prev.message cond.message)

-- The last two lines of SetConfigMapSecretCondition
unfoldable pub replace_condition :
    ConfigMapSecretStatus → ConfigMapSecretCondition → ConfigMapSecretStatus
replace_condition status cond =
    let removed = remove_condition status cond.cond_type in
    record removed { conditions = removed.conditions ++ cond ∷ [] }

-- SetConfigMapSecretCondition, by the previous condition of the type
unfoldable pub set_over :
    ConfigMapSecretStatus
    → ConfigMapSecretCondition
    → Option ConfigMapSecretCondition
    → ConfigMapSecretStatus
set_over status cond none = replace_condition status cond
set_over status cond (some prev) =
    if same_content prev cond
    then status
    else if text_eq prev.status cond.status
    then replace_condition status (record cond { last_transition_time = prev.last_transition_time })
    else replace_condition status cond

unfoldable pub set_condition :
    ConfigMapSecretStatus → ConfigMapSecretCondition → ConfigMapSecretStatus
set_condition status cond = set_over status cond (get_condition status cond.cond_type)
