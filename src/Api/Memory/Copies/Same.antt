-- ===== src/Api/Memory/Copies/Same.antt =====
-- When one object of the API is a copy of another: it reads the same, and every pointer, slice and map
-- in it that is not nil lies at `low` or above.
use configmapsecrets.Prelude.{ℕ, ◌≡◌}
use configmapsecrets.Api.Memory.{
  Kubernetes, SecretVarsSource, ConfigMapVarsSource, VarsFromSource, EmbeddedObjectMeta,
  ConfigMapTemplate, Var, ConfigMapSecretSpec, ConfigMapSecretCondition, ConfigMapSecretStatus,
  ConfigMapSecret, ConfigMapSecretList,
}
use configmapsecrets.Api.Memory.Copies.Fresh.{IsFresh, All2, SameMap, Copies, Held, Each, IsTable}

abbrev pub Equal : {A : Type 0} → A → A → Type 0
Equal a b = b ≡ a

abbrev pub Any : {A : Type 0} → A → Type 0
Any a = Unit

-- What the DeepCopyInto of the types of Kubernetes do: the copy is related to the original.
pub record Documented (k : Kubernetes) (low : ℕ) : Type 1 where
  pub MetaCopy : k.ObjectMeta → k.ObjectMeta → Type 0
  pub ListMetaCopy : k.ListMeta → k.ListMeta → Type 0
  pub TimeCopy : k.Time → k.Time → Type 0
  pub SecretKeyCopy : k.SecretKeySelector → k.SecretKeySelector → Type 0
  pub ConfigMapKeyCopy : k.ConfigMapKeySelector → k.ConfigMapKeySelector → Type 0
  pub object_meta : Copies low Any MetaCopy k.copy_object_meta
  pub list_meta : Copies low Any ListMetaCopy k.copy_list_meta
  pub time : Copies low Any TimeCopy k.copy_time
  pub secret_key : Copies low Any SecretKeyCopy k.copy_secret_key
  pub config_map_key : Copies low Any ConfigMapKeyCopy k.copy_config_map_key

-- Every map of the object has each key once, as a map of Go does.
abbrev pub IsMeta : EmbeddedObjectMeta → Type 0
IsMeta a = Held (IsTable Any) a.labels × Held (IsTable Any) a.annotations

abbrev pub IsTemplate : ConfigMapTemplate → Type 0
IsTemplate a = IsMeta a.metadata × Held (IsTable Any) a.text_data × Held (IsTable Any) a.binary_data

module _ (low : ℕ) where
  pub record SecretVarsCopy (a b : SecretVarsSource) : Type 0 where
    pub name : Equal a.name b.name
    pub optional : IsFresh low Equal a.optional b.optional

  pub record ConfigMapVarsCopy (a b : ConfigMapVarsSource) : Type 0 where
    pub name : Equal a.name b.name
    pub optional : IsFresh low Equal a.optional b.optional

  pub record VarsFromCopy (a b : VarsFromSource) : Type 0 where
    pub prefix : Equal a.prefix b.prefix
    pub secret_ref : IsFresh low SecretVarsCopy a.secret_ref b.secret_ref
    pub config_map_ref : IsFresh low ConfigMapVarsCopy a.config_map_ref b.config_map_ref

  pub record EmbeddedMetaCopy (a b : EmbeddedObjectMeta) : Type 0 where
    pub name : Equal a.name b.name
    pub labels : IsFresh low (SameMap Equal) a.labels b.labels
    pub annotations : IsFresh low (SameMap Equal) a.annotations b.annotations

  pub record TemplateCopy (a b : ConfigMapTemplate) : Type 0 where
    pub metadata : EmbeddedMetaCopy a.metadata b.metadata
    pub text_data : IsFresh low (SameMap Equal) a.text_data b.text_data
    pub binary_data : IsFresh low (SameMap (IsFresh low Equal)) a.binary_data b.binary_data

module _ (k : Kubernetes) where
  abbrev pub IsSpec : ConfigMapSecretSpec k → Type 0
  IsSpec a = IsTemplate a.template

  abbrev pub IsResource : ConfigMapSecret k → Type 0
  IsResource a = IsSpec a.spec

  abbrev pub IsResourceList : ConfigMapSecretList k → Type 0
  IsResourceList a = Held (Each IsResource) a.items

  module _ (low : ℕ) (d : Documented k low) where
    pub record VarCopy (a b : Var k) : Type 0 where
      pub name : Equal a.name b.name
      pub value : Equal a.value b.value
      pub secret_value : IsFresh low d.SecretKeyCopy a.secret_value b.secret_value
      pub config_map_value : IsFresh low d.ConfigMapKeyCopy a.config_map_value b.config_map_value

    pub record SpecCopy (a b : ConfigMapSecretSpec k) : Type 0 where
      pub template : TemplateCopy low a.template b.template
      pub vars_from : IsFresh low (All2 (VarsFromCopy low)) a.vars_from b.vars_from
      pub vars : IsFresh low (All2 VarCopy) a.vars b.vars

    pub record ConditionCopy (a b : ConfigMapSecretCondition k) : Type 0 where
      pub cond_type : Equal a.cond_type b.cond_type
      pub status : Equal a.status b.status
      pub last_update_time : d.TimeCopy a.last_update_time b.last_update_time
      pub last_transition_time : d.TimeCopy a.last_transition_time b.last_transition_time
      pub reason : Equal a.reason b.reason
      pub message : Equal a.message b.message

    pub record StatusCopy (a b : ConfigMapSecretStatus k) : Type 0 where
      pub observed_generation : Equal a.observed_generation b.observed_generation
      pub conditions : IsFresh low (All2 ConditionCopy) a.conditions b.conditions

    pub record ResourceCopy (a b : ConfigMapSecret k) : Type 0 where
      pub type_meta : Equal a.type_meta b.type_meta
      pub object_meta : d.MetaCopy a.object_meta b.object_meta
      pub spec : SpecCopy a.spec b.spec
      pub status : StatusCopy a.status b.status

    pub record ResourceListCopy (a b : ConfigMapSecretList k) : Type 0 where
      pub type_meta : Equal a.type_meta b.type_meta
      pub list_meta : d.ListMetaCopy a.list_meta b.list_meta
      pub items : IsFresh low (All2 ResourceCopy) a.items b.items
