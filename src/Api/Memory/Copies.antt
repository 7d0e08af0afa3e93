-- ===== src/Api/Memory/Copies.antt =====
-- pkg/api/v1alpha1/zz_generated.deepcopy.go: DeepCopyInto, DeepCopy and DeepCopyObject of each type.
-- DeepCopyInto writes all of out, so it returns it; what it does not copy is that of *in. A
-- runtime.Object is nil or holds a pointer, as the pointer that DeepCopy returns.
pub mod Fresh
pub mod Same
pub mod Sound
use configmapsecrets.Prelude.{
  Text, text_equality, Map, insert, Bool, Option, none, some, List, [], ◌∷◌, ℕ, suc,
}
use configmapsecrets.Api.Memory.{
  Ref, Pointer, Slice, Table, Alloc, Kubernetes, SecretVarsSource, ConfigMapVarsSource,
  VarsFromSource, EmbeddedObjectMeta, ConfigMapTemplate, Var, ConfigMapSecretSpec,
  ConfigMapSecretCondition, ConfigMapSecretStatus, ConfigMapSecret, ConfigMapSecretList,
}

infixl 10 ◌>>=◌
unfoldable pub ◌>>=◌ : {A B : Type 0} → Alloc A → (A → Alloc B) → Alloc B
◌>>=◌ action then' next = let (a, next') = action next in then' a next'

abbrev pub pure : {A : Type 0} → A → Alloc A
pure a next = (a, next)

module _ {A : Type 0} where
  -- new(A) or make at the next address
  unfoldable pub allocate : Alloc A → Alloc (Ref A)
  allocate fill next =
      let (a, next') = fill (suc next) in (record { address = next; held = a }, next')

  unfoldable pub unless_nil : (A → Alloc A) → Option (Ref A) → Alloc (Option (Ref A))
  unfolding allocate
  unless_nil copy none = pure none
  unless_nil copy (some in') = do out ← allocate (copy in'.held); pure (some out)

  -- for i := range *in
  unfoldable pub copy_elements : (A → Alloc A) → List A → Alloc (List A)
  copy_elements copy [] = pure []
  copy_elements copy (a ∷ as') = do out ← copy a; rest ← copy_elements copy as'; pure (out ∷ rest)

  -- for key, val := range *in, from the map that is made so far
  unfoldable pub copy_entries : (A → Alloc A) → Map Text A → Map Text A → Alloc (Map Text A)
  copy_entries copy [] out = pure out
  copy_entries copy ((key, val) ∷ in') out = do
    out_val ← copy val
    copy_entries copy in' (insert key out_val out)

abbrev pub copy_slice : {A : Type 0} → (A → Alloc A) → Slice A → Alloc (Slice A)
copy_slice copy = unless_nil (copy_elements copy)

abbrev pub copy_table : {A : Type 0} → (A → Alloc A) → Table A → Alloc (Table A)
copy_table copy = unless_nil (λ in'. copy_entries copy in' [])

-- DeepCopy, by DeepCopyInto
abbrev pub deep_copy : {A : Type 0} → (A → Alloc A) → Pointer A → Alloc (Pointer A)
deep_copy into = unless_nil into

unfoldable pub secret_vars_source_into : SecretVarsSource → Alloc SecretVarsSource
unfolding unless_nil
secret_vars_source_into in' = do
  optional ← unless_nil pure in'.optional
  pure (record in' { optional = optional })

unfoldable pub config_map_vars_source_into : ConfigMapVarsSource → Alloc ConfigMapVarsSource
unfolding unless_nil
config_map_vars_source_into in' = do
  optional ← unless_nil pure in'.optional
  pure (record in' { optional = optional })

unfoldable pub vars_from_source_into : VarsFromSource → Alloc VarsFromSource
unfolding unless_nil secret_vars_source_into config_map_vars_source_into
vars_from_source_into in' = do
  secret_ref ← unless_nil secret_vars_source_into in'.secret_ref
  config_map_ref ← unless_nil config_map_vars_source_into in'.config_map_ref
  pure (record in' { secret_ref = secret_ref; config_map_ref = config_map_ref })

unfoldable pub embedded_object_meta_into : EmbeddedObjectMeta → Alloc EmbeddedObjectMeta
unfolding unless_nil copy_entries
embedded_object_meta_into in' = do
  labels ← copy_table pure in'.labels
  annotations ← copy_table pure in'.annotations
  pure (record in' { labels = labels; annotations = annotations })

unfoldable pub config_map_template_into : ConfigMapTemplate → Alloc ConfigMapTemplate
unfolding unless_nil copy_entries embedded_object_meta_into
config_map_template_into in' = do
  metadata ← embedded_object_meta_into in'.metadata
  text_data ← copy_table pure in'.text_data
  binary_data ← copy_table (unless_nil pure) in'.binary_data
  pure (record in' { metadata = metadata; text_data = text_data; binary_data = binary_data })

module _ (k : Kubernetes) where
  unfoldable pub var_into : Var k → Alloc (Var k)
  unfolding unless_nil
  var_into in' = do
    secret_value ← unless_nil k.copy_secret_key in'.secret_value
    config_map_value ← unless_nil k.copy_config_map_key in'.config_map_value
    pure (record in' { secret_value = secret_value; config_map_value = config_map_value })

  unfoldable pub config_map_secret_spec_into : ConfigMapSecretSpec k → Alloc (ConfigMapSecretSpec k)
  unfolding unless_nil copy_elements config_map_template_into vars_from_source_into var_into
  config_map_secret_spec_into in' = do
    template ← config_map_template_into in'.template
    vars_from ← copy_slice vars_from_source_into in'.vars_from
    vars ← copy_slice var_into in'.vars
    pure (record in' { template = template; vars_from = vars_from; vars = vars })

  unfoldable pub config_map_secret_condition_into :
      ConfigMapSecretCondition k → Alloc (ConfigMapSecretCondition k)
  config_map_secret_condition_into in' = do
    last_update_time ← k.copy_time in'.last_update_time
    last_transition_time ← k.copy_time in'.last_transition_time
    pure (record in' {
      last_update_time = last_update_time;
      last_transition_time = last_transition_time;
    })

  unfoldable pub config_map_secret_status_into :
      ConfigMapSecretStatus k → Alloc (ConfigMapSecretStatus k)
  unfolding unless_nil copy_elements config_map_secret_condition_into
  config_map_secret_status_into in' = do
    conditions ← copy_slice config_map_secret_condition_into in'.conditions
    pure (record in' { conditions = conditions })

  unfoldable pub config_map_secret_into : ConfigMapSecret k → Alloc (ConfigMapSecret k)
  unfolding config_map_secret_spec_into config_map_secret_status_into
  config_map_secret_into in' = do
    object_meta ← k.copy_object_meta in'.object_meta
    spec ← config_map_secret_spec_into in'.spec
    status ← config_map_secret_status_into in'.status
    pure (record in' { object_meta = object_meta; spec = spec; status = status })

  unfoldable pub config_map_secret_list_into : ConfigMapSecretList k → Alloc (ConfigMapSecretList k)
  unfolding unless_nil copy_elements config_map_secret_into
  config_map_secret_list_into in' = do
    list_meta ← k.copy_list_meta in'.list_meta
    items ← copy_slice config_map_secret_into in'.items
    pure (record in' { list_meta = list_meta; items = items })

-- runtime.Object: nil, or the pointer to an object of this package
pub data Object (k : Kubernetes) : Type 0 where
  nil_object : Object k
  resource : Ref (ConfigMapSecret k) → Object k
  resource_list : Ref (ConfigMapSecretList k) → Object k

-- if c := in.DeepCopy(); c != nil { return c }; return nil
abbrev pub object_of : {A B : Type 0} → (Ref A → B) → B → Option (Ref A) → B
object_of some_object nil none = nil
object_of some_object nil (some c) = some_object c

unfoldable pub secret_vars_source_copy : Pointer SecretVarsSource → Alloc (Pointer SecretVarsSource)
secret_vars_source_copy = deep_copy secret_vars_source_into

unfoldable pub config_map_vars_source_copy :
    Pointer ConfigMapVarsSource → Alloc (Pointer ConfigMapVarsSource)
config_map_vars_source_copy = deep_copy config_map_vars_source_into

unfoldable pub vars_from_source_copy : Pointer VarsFromSource → Alloc (Pointer VarsFromSource)
vars_from_source_copy = deep_copy vars_from_source_into

unfoldable pub embedded_object_meta_copy :
    Pointer EmbeddedObjectMeta → Alloc (Pointer EmbeddedObjectMeta)
embedded_object_meta_copy = deep_copy embedded_object_meta_into

unfoldable pub config_map_template_copy :
    Pointer ConfigMapTemplate → Alloc (Pointer ConfigMapTemplate)
config_map_template_copy = deep_copy config_map_template_into

module _ (k : Kubernetes) where
  unfoldable pub var_copy : Pointer (Var k) → Alloc (Pointer (Var k))
  var_copy = deep_copy (var_into k)

  unfoldable pub config_map_secret_spec_copy :
      Pointer (ConfigMapSecretSpec k) → Alloc (Pointer (ConfigMapSecretSpec k))
  config_map_secret_spec_copy = deep_copy (config_map_secret_spec_into k)

  unfoldable pub config_map_secret_condition_copy :
      Pointer (ConfigMapSecretCondition k) → Alloc (Pointer (ConfigMapSecretCondition k))
  config_map_secret_condition_copy = deep_copy (config_map_secret_condition_into k)

  unfoldable pub config_map_secret_status_copy :
      Pointer (ConfigMapSecretStatus k) → Alloc (Pointer (ConfigMapSecretStatus k))
  config_map_secret_status_copy = deep_copy (config_map_secret_status_into k)

  unfoldable pub config_map_secret_copy :
      Pointer (ConfigMapSecret k) → Alloc (Pointer (ConfigMapSecret k))
  config_map_secret_copy = deep_copy (config_map_secret_into k)

  unfoldable pub config_map_secret_list_copy :
      Pointer (ConfigMapSecretList k) → Alloc (Pointer (ConfigMapSecretList k))
  config_map_secret_list_copy = deep_copy (config_map_secret_list_into k)

  -- DeepCopyObject
  unfoldable pub config_map_secret_object : Pointer (ConfigMapSecret k) → Alloc (Object k)
  unfolding config_map_secret_copy
  config_map_secret_object in' = do
    c ← config_map_secret_copy in'
    pure (object_of resource nil_object c)

  unfoldable pub config_map_secret_list_object : Pointer (ConfigMapSecretList k) → Alloc (Object k)
  unfolding config_map_secret_list_copy
  config_map_secret_list_object in' = do
    c ← config_map_secret_list_copy in'
    pure (object_of resource_list nil_object c)
