-- ===== src/Conditions/Laws.antt =====
-- What the operations of conditions.go do to the list of conditions.
use configmapsecrets.Prelude.{
  Text, text_eq, text_eq_iff, true, ◌≡◌, refl, Option, none, some, List, [], ◌∷◌, ◌++◌, ℕ, ◌+◌, ◌≤◌,
  arith, if◌then◌else◌, if_keeps, or_else,
}
use configmapsecrets.Api.{ConfigMapSecretCondition, ConfigMapSecretStatus}
use configmapsecrets.Conditions.{
  find_condition, get_condition, without_condition, remove_condition, same_content,
  replace_condition, set_over, set_condition,
}

-- How many conditions have the type.
unfoldable pub count_type : Text → List ConfigMapSecretCondition → ℕ
count_type typ [] = 0
count_type typ (c ∷ cs) = (if text_eq c.cond_type typ then 1 else 0) + count_type typ cs

count_type-without :
    (cs : List ConfigMapSecretCondition) (typ t : Text)
    → count_type t (without_condition cs typ) ≡ (if text_eq typ t then 0 else count_type t cs)
unfolding count_type without_condition
count_type-without [] typ t = ground arith
count_type-without (c ∷ cs) typ t = ground (
  arith,
  count_type-without cs typ t,
  text_eq_iff c.cond_type typ,
  text_eq_iff typ t,
  text_eq_iff c.cond_type t,
)

count_type-append :
    (cs ds : List ConfigMapSecretCondition) (t : Text)
    → count_type t (cs ++ ds) ≡ count_type t cs + count_type t ds
unfolding count_type
count_type-append [] ds t = ground arith
count_type-append (c ∷ cs) ds t = ground (arith, count_type-append cs ds t)

find-without :
    (cs : List ConfigMapSecretCondition) (typ t : Text)
    → find_condition (without_condition cs typ) t
      ≡ (if text_eq typ t then none else find_condition cs t)
unfolding find_condition without_condition
find-without [] typ t = ground arith
find-without (c ∷ cs) typ t = ground (
  arith,
  find-without cs typ t,
  text_eq_iff c.cond_type typ,
  text_eq_iff typ t,
  text_eq_iff c.cond_type t,
)

find-append :
    (cs ds : List ConfigMapSecretCondition) (t : Text)
    → find_condition (cs ++ ds) t ≡ or_else (find_condition cs t) (find_condition ds t)
unfolding find_condition
find-append [] ds t = refl
find-append (c ∷ cs) ds t = ground (arith, find-append cs ds t)

-- The condition that `set_condition` leaves in place of the previous one of its type.
unfoldable pub merged :
    Option ConfigMapSecretCondition → ConfigMapSecretCondition → ConfigMapSecretCondition
merged none cond = cond
merged (some prev) cond =
    if same_content prev cond
    then prev
    else if text_eq prev.status cond.status
    then record cond { last_transition_time = prev.last_transition_time }
    else cond

-- Reading a type after a replacement
get-replace :
    (st : ConfigMapSecretStatus) (c : ConfigMapSecretCondition) (t : Text)
    → get_condition (replace_condition st c) t
      ≡ (if text_eq c.cond_type t then some c else get_condition st t)
unfolding get_condition replace_condition remove_condition
get-replace st c t = rw find-append (rw find-without (unfold find_condition in ground arith))

get-set_over :
    (st : ConfigMapSecretStatus) (c : ConfigMapSecretCondition) (t : Text)
    (o : Option ConfigMapSecretCondition)
    → get_condition st c.cond_type ≡ o
    → get_condition (set_over st c o) t
      ≡ (if text_eq c.cond_type t then some (merged o c) else get_condition st t)
unfolding set_over merged
get-set_over st c t none e = get-replace st c t
get-set_over st c t (some prev) e = ground (
  arith,
  get-replace st c t,
  get-replace st (record c { last_transition_time = prev.last_transition_time }) t,
  text_eq_iff c.cond_type t,
)

-- After SetConfigMapSecretCondition the type of the condition reads as the condition merged with
-- the previous one: the previous one itself if status, reason and message are the same; the new
-- one with the previous transition time if only the status is; the new one otherwise. Every other
-- type reads as before.
pub get-set :
    (st : ConfigMapSecretStatus) (c : ConfigMapSecretCondition) (t : Text)
    → get_condition (set_condition st c) t ≡ (
        if text_eq c.cond_type t
        then some (merged (get_condition st c.cond_type) c)
        else get_condition st t)
unfolding set_condition
get-set st c t = get-set_over st c t (get_condition st c.cond_type) refl

-- At most one condition for each type, as the API's list map wants.
abbrev pub IsListMap : ConfigMapSecretStatus → Type 0
IsListMap st = (t : Text) → count_type t st.conditions ≤ 1

replace-IsListMap :
    (st : ConfigMapSecretStatus) (c : ConfigMapSecretCondition)
    → IsListMap st
    → IsListMap (replace_condition st c)
unfolding replace_condition remove_condition
replace-IsListMap st c h t =
    rw count_type-append (rw count_type-without (unfold count_type in ground (arith, h t)))

set_over-IsListMap :
    (st : ConfigMapSecretStatus) (c : ConfigMapSecretCondition)
    (o : Option ConfigMapSecretCondition)
    → IsListMap st
    → IsListMap (set_over st c o)
unfolding set_over
set_over-IsListMap st c none h = replace-IsListMap st c h
set_over-IsListMap st c (some prev) h = if_keeps IsListMap (same_content prev c) _ _ h (
    if_keeps IsListMap (text_eq prev.status c.status) _ _
      (replace-IsListMap st (record c { last_transition_time = prev.last_transition_time }) h)
      (replace-IsListMap st c h))

-- SetConfigMapSecretCondition keeps the conditions a list map: at most one of each type.
pub set-IsListMap :
    (st : ConfigMapSecretStatus) (c : ConfigMapSecretCondition)
    → IsListMap st
    → IsListMap (set_condition st c)
unfolding set_condition
set-IsListMap st c = set_over-IsListMap st c (get_condition st c.cond_type)

text_eq_self : (s : Text) → text_eq s s ≡ true
text_eq_self s = (text_eq_iff s s).1 refl

pub same_content-merged :
    (o : Option ConfigMapSecretCondition) (c : ConfigMapSecretCondition)
    → same_content (merged o c) c ≡ true
unfolding merged same_content
same_content-merged none c = simp text_eq_self
same_content-merged (some prev) c =
    ground (arith, text_eq_self c.status, text_eq_self c.reason, text_eq_self c.message)

same_content_trans :
    (p c d : ConfigMapSecretCondition)
    → same_content p c ≡ true
    → same_content c d ≡ true
    → same_content p d ≡ true
unfolding same_content
same_content_trans p c d g h = ground (
  arith,
  text_eq_iff p.status c.status,
  text_eq_iff p.reason c.reason,
  text_eq_iff p.message c.message,
  text_eq_iff c.status d.status,
  text_eq_iff c.reason d.reason,
  text_eq_iff c.message d.message,
  text_eq_iff p.status d.status,
  text_eq_iff p.reason d.reason,
  text_eq_iff p.message d.message,
)

set_known :
    (st : ConfigMapSecretStatus) (p d : ConfigMapSecretCondition)
    → get_condition st d.cond_type ≡ some p
    → same_content p d ≡ true
    → set_condition st d ≡ st
unfolding set_condition set_over
set_known st p d e h = rw (e, set_over) (ground arith)

-- A second call with a condition of the same type, status, reason and message, at whatever times,
-- changes nothing.
set-set :
    (st : ConfigMapSecretStatus) (c d : ConfigMapSecretCondition)
    → d.cond_type ≡ c.cond_type
    → same_content c d ≡ true
    → set_condition (set_condition st c) d ≡ set_condition st c
set-set st c d e h =
    let p = merged (get_condition st c.cond_type) c in
    set_known (set_condition st c) p d
      (rw (get-set st c d.cond_type) (ground (arith, text_eq_iff c.cond_type d.cond_type)))
      (same_content_trans p c d (same_content-merged (get_condition st c.cond_type) c) h)
