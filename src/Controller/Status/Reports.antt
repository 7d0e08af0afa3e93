-- ===== src/Controller/Status/Reports.antt =====
-- What syncStatus reports, and when it writes it.
use mathlib.Core.Path.{subst}
use configmapsecrets.Prelude.{
  Text, text_eq, text_eq_iff, text_equality, nat_eq, Bool, Bool-cases, true, false, ◌&&◌, Option,
  none, some, List, [], ◌∷◌, ℕ, ◌≡◌, refl, arith, inl, inr, ◌⊎◌, sym,
}
use configmapsecrets.Api.{
  ConfigMapSecret, ConfigMapSecretCondition, ConfigMapSecretStatus, render_failure,
}
use configmapsecrets.Conditions.{
  get_condition, new_condition, same_content, set_condition, set_over, replace_condition,
  remove_condition,
}
use configmapsecrets.Conditions.Laws.{get-set, same_content-merged}
use configmapsecrets.Runtime.{Error, Client, State}
use configmapsecrets.Controller.Stable.{Mine}
use configmapsecrets.Controller.Status.{
  error_of, same_condition, same_conditions, same_status, next_status, write_status, sync_status,
}

same_condition→eq : (a b : ConfigMapSecretCondition) → same_condition a b ≡ true → a ≡ b
unfolding same_condition
same_condition→eq a b h = ground (
  arith,
  text_eq_iff a.cond_type b.cond_type,
  text_eq_iff a.status b.status,
  text_eq_iff a.reason b.reason,
  text_eq_iff a.message b.message,
)

same_conditions→eq :
    (as' bs : List ConfigMapSecretCondition) → same_conditions as' bs ≡ true → as' ≡ bs
unfolding same_conditions
same_conditions→eq [] [] h = refl
same_conditions→eq [] (b ∷ bs) h = cc
same_conditions→eq (a ∷ as') [] h = cc
same_conditions→eq (a ∷ as') (b ∷ bs) h =
    ground (arith, same_condition→eq a b, same_conditions→eq as' bs)

same_status→eq : (a b : ConfigMapSecretStatus) → same_status a b ≡ true → a ≡ b
unfolding same_status
same_status→eq a b h = ground (arith, same_conditions→eq a.conditions b.conditions)

abbrev pub tells : Option ConfigMapSecretCondition → Text → Text → Text → Bool
tells none status reason message = false
tells (some c) status reason message =
    text_eq c.status status && (text_eq c.reason reason && text_eq c.message message)

-- The status is that of the current generation, and its condition RenderFailure has this status,
-- reason and message.
unfoldable pub reports : ℕ → ConfigMapSecretStatus → Text → Text → Text → Bool
reports generation st status reason message =
    nat_eq st.observed_generation generation
    && tells (get_condition st render_failure) status reason message

set_over-observed_generation :
    (st : ConfigMapSecretStatus) (c : ConfigMapSecretCondition)
    (o : Option ConfigMapSecretCondition)
    → (set_over st c o).observed_generation ≡ st.observed_generation
unfolding set_over replace_condition remove_condition
set_over-observed_generation st c none = refl
set_over-observed_generation st c (some prev) = ground arith

set_condition-reports :
    (st : ConfigMapSecretStatus) (update transition : ℕ) (status reason message : Text)
    → reports st.observed_generation
        (set_condition st (new_condition update transition render_failure status reason message))
        status
        reason
        message
      ≡ true
unfolding reports new_condition
set_condition-reports st update transition status reason message =
    let c = new_condition update transition render_failure status reason message in
    unfold same_content set_condition in
    ground (
      arith,
      set_over-observed_generation st c (get_condition st render_failure),
      get-set st c render_failure,
      text_eq_iff render_failure render_failure,
      same_content-merged (get_condition st render_failure) c,
    )

module _ {W : Type 0} (client : Client W) where
  next_status-reports :
      (cms : ConfigMapSecret) (status reason message : Text) (s : State W)
      → reports cms.generation
          (next_status client cms status reason message s).0
          status
          reason
          message
        ≡ true
  unfolding next_status
  next_status-reports cms status reason message s =
      set_condition-reports
        (record { observed_generation = cms.generation; conditions = cms.status.conditions })
        (client.now s.world).0 (client.now (client.now s.world).1).0 status reason message

  -- The last thing that was done is an update of the status of this ConfigMapSecret, with a status
  -- that reports this of the current generation; `error` is the error of the update.
  pub record Writes (cms : ConfigMapSecret) (status reason message : Text) (error : Option Error)
      (after : W) : Type 0 where
    pub written : ConfigMapSecret
    pub before : W
    pub mine : Mine cms written
    pub tells : reports cms.generation written.status status reason message ≡ true
    pub last : after ≡ (client.update_status written before).1
    pub outcome : error ≡ error_of (client.update_status written before).0

  -- The status reports this as it was read, or it was written so.
  abbrev pub Reported : ConfigMapSecret → Text → Text → Text → Option Error → W → Type 0
  Reported cms status reason message error after =
      ((reports cms.generation cms.status status reason message ≡ true) × (error ≡ none))
      ⊎ Writes cms status reason message error after

  -- The same object but for its owner references
  pub record SameStatus (cms c : ConfigMapSecret) : Type 0 where
    pub mine : Mine cms c
    pub generation : c.generation ≡ cms.generation
    pub status : c.status ≡ cms.status

  pub sync_status-Reported :
      (cms c : ConfigMapSecret) (status reason message : Text) (s : State W)
      → SameStatus cms c
      → Reported cms status reason message
          (sync_status client c status reason message s).0.0
          (sync_status client c status reason message s).1.world
  unfolding sync_status write_status
  sync_status-Reported cms c status reason message s same =
      let next = next_status client c status reason message s in
      let tells : reports cms.generation next.0 status reason message ≡ true =
        subst (λ g. reports g next.0 status reason message ≡ true) same.generation
          (next_status-reports c status reason message s) in
      elim (Bool-cases (same_status c.status next.0)) [
        | inl e ↦ rw e (
            inl (
              rw (← same.status) (
                  subst (λ st. reports cms.generation st status reason message ≡ true)
                    (sym (same_status→eq c.status next.0 e)) tells),
              refl,
            ))
        | inr e ↦ rw e (
            inr (record {
              written = record c { status = next.0 };
              before = next.1.world;
              mine = record {
                namespace = same.mine.namespace;
                name = same.mine.name;
                uid = same.mine.uid;
                spec = same.mine.spec;
              };
              tells = tells;
              last = refl;
              outcome = refl;
            }))
      ]
