-- ===== src/Api/Memory/Copies/Sound.antt =====
-- The deep copies of the types of the API.
use configmapsecrets.Prelude.{Text, ℕ, List, [], ◌∷◌, none, some, refl, ◌≡◌, ◌≤◌, arith}
use configmapsecrets.Api.Memory.{Alloc, Pointer, Kubernetes, ConfigMapSecretList}
use configmapsecrets.Api.Memory.Copies.{
  unless_nil, copy_slice, copy_table, pure, secret_vars_source_into, config_map_vars_source_into,
  vars_from_source_into, embedded_object_meta_into, config_map_template_into, var_into,
  config_map_secret_spec_into, config_map_secret_condition_into, config_map_secret_status_into,
  config_map_secret_into, config_map_secret_list_into, config_map_secret_list_copy, Object,
  nil_object, resource_list, object_of, config_map_secret_list_object,
}
use configmapsecrets.Api.Memory.Copies.Fresh.{
  Yields, pure-Yields, bind-Yields, IsFresh, All2, SameMap, Copies, Held, Each, IsTable,
  unless_nil-Copies, copy_slice-Copies, copy_table-Copies,
}
use configmapsecrets.Api.Memory.Copies.Same.{
  Equal, Any, Documented, IsMeta, IsTemplate, SecretVarsCopy, ConfigMapVarsCopy, VarsFromCopy,
  EmbeddedMetaCopy, TemplateCopy, IsSpec, IsResource, IsResourceList, VarCopy, SpecCopy,
  ConditionCopy, StatusCopy, ResourceCopy, ResourceListCopy,
}

module _ {A : Type 0} (low : ℕ) (R : A → A → Type 0) (copy : A → Alloc A)
    (c : Copies low Any R copy) where
  -- Where the copy asks nothing of the value, neither does that of a pointer or a slice.
  pointer-Copies : Copies low Any (IsFresh low R) (unless_nil copy)
  pointer-Copies none v = unless_nil-Copies low Any R copy c none tt
  pointer-Copies (some a) v = unless_nil-Copies low Any R copy c (some a) tt

  Each-Any : (as' : List A) → Each Any as'
  Each-Any [] = tt
  Each-Any (a ∷ as') = (tt, Each-Any as')

  slice-Copies : Copies low Any (IsFresh low (All2 R)) (copy_slice copy)
  slice-Copies none v = copy_slice-Copies low Any R copy c none tt
  slice-Copies (some a) v = copy_slice-Copies low Any R copy c (some a) (Each-Any a.held)

module _ (low : ℕ) where
  pub value-Copies : {A : Type 0} → Copies low Any (Equal {A = A}) pure
  value-Copies a v = pure-Yields low a refl

  pub boxed-Copies : {A : Type 0} → Copies low Any (IsFresh low (Equal {A = A})) (unless_nil pure)
  boxed-Copies {A} = pointer-Copies low (Equal {A = A}) pure value-Copies

  texts-Copies :
      Copies low (Held (IsTable Any)) (IsFresh low (SameMap (Equal {A = Text}))) (copy_table pure)
  texts-Copies = copy_table-Copies low Any Equal pure value-Copies

  secret_vars_source_into-Copies : Copies low Any (SecretVarsCopy low) secret_vars_source_into
  unfolding secret_vars_source_into
  secret_vars_source_into-Copies a v =
      bind-Yields low _ _ (boxed-Copies a.optional tt)
        (λ o p. pure-Yields low (record a { optional = o }) (record { name = refl; optional = p }))

  config_map_vars_source_into-Copies :
      Copies low Any (ConfigMapVarsCopy low) config_map_vars_source_into
  unfolding config_map_vars_source_into
  config_map_vars_source_into-Copies a v =
      bind-Yields low _ _ (boxed-Copies a.optional tt)
        (λ o p. pure-Yields low (record a { optional = o }) (record { name = refl; optional = p }))

  vars_from_source_into-Copies : Copies low Any (VarsFromCopy low) vars_from_source_into
  unfolding vars_from_source_into
  vars_from_source_into-Copies a v =
      bind-Yields low _ _
        (pointer-Copies low (SecretVarsCopy low) secret_vars_source_into
          secret_vars_source_into-Copies a.secret_ref tt)
        (λ x p.
          bind-Yields low _ _
            (pointer-Copies low (ConfigMapVarsCopy low) config_map_vars_source_into
              config_map_vars_source_into-Copies a.config_map_ref tt)
            (λ y q.
              pure-Yields low (record a { secret_ref = x; config_map_ref = y })
                (record { prefix = refl; secret_ref = p; config_map_ref = q })))

  embedded_object_meta_into-Copies :
      Copies low IsMeta (EmbeddedMetaCopy low) embedded_object_meta_into
  unfolding embedded_object_meta_into
  embedded_object_meta_into-Copies a (l, n) = bind-Yields low _ _ (texts-Copies a.labels l) (λ x p.
      bind-Yields low _ _ (texts-Copies a.annotations n) (λ y q.
        pure-Yields low (record a { labels = x; annotations = y })
          (record { name = refl; labels = p; annotations = q })))

  config_map_template_into-Copies :
      Copies low IsTemplate (TemplateCopy low) config_map_template_into
  unfolding config_map_template_into
  config_map_template_into-Copies a (m, t, b) =
      bind-Yields low _ _ (embedded_object_meta_into-Copies a.metadata m) (λ x p.
        bind-Yields low _ _ (texts-Copies a.text_data t) (λ y q.
          bind-Yields low _ _
            (copy_table-Copies low Any (IsFresh low Equal) (unless_nil pure) boxed-Copies
              a.binary_data b)
            (λ z r.
              pure-Yields low (record a { metadata = x; text_data = y; binary_data = z })
                (record { metadata = p; text_data = q; binary_data = r }))))

module _ (k : Kubernetes) (low : ℕ) (d : Documented k low) where
  var_into-Copies : Copies low Any (VarCopy k low d) (var_into k)
  unfolding var_into
  var_into-Copies a v =
      bind-Yields low _ _
        (pointer-Copies low d.SecretKeyCopy k.copy_secret_key d.secret_key a.secret_value tt)
        (λ x p.
          bind-Yields low _ _
            (pointer-Copies low d.ConfigMapKeyCopy k.copy_config_map_key d.config_map_key
              a.config_map_value tt)
            (λ y q.
              pure-Yields low (record a { secret_value = x; config_map_value = y })
                (record { name = refl; value = refl; secret_value = p; config_map_value = q })))

  config_map_secret_spec_into-Copies :
      Copies low (IsSpec k) (SpecCopy k low d) (config_map_secret_spec_into k)
  unfolding config_map_secret_spec_into
  config_map_secret_spec_into-Copies a v =
      bind-Yields low _ _ (config_map_template_into-Copies low a.template v) (λ x p.
        bind-Yields low _ _
          (slice-Copies low (VarsFromCopy low) vars_from_source_into
            (vars_from_source_into-Copies low) a.vars_from tt)
          (λ y q.
            bind-Yields low _ _
              (slice-Copies low (VarCopy k low d) (var_into k) var_into-Copies a.vars tt)
              (λ z r.
                pure-Yields low (record a { template = x; vars_from = y; vars = z })
                  (record { template = p; vars_from = q; vars = r }))))

  config_map_secret_condition_into-Copies :
      Copies low Any (ConditionCopy k low d) (config_map_secret_condition_into k)
  unfolding config_map_secret_condition_into
  config_map_secret_condition_into-Copies a v =
      bind-Yields low _ _ (d.time a.last_update_time tt) (λ x p.
        bind-Yields low _ _ (d.time a.last_transition_time tt) (λ y q.
          pure-Yields low (record a { last_update_time = x; last_transition_time = y })
            (record {
              cond_type = refl;
              status = refl;
              last_update_time = p;
              last_transition_time = q;
              reason = refl;
              message = refl;
            })))

  config_map_secret_status_into-Copies :
      Copies low Any (StatusCopy k low d) (config_map_secret_status_into k)
  unfolding config_map_secret_status_into
  config_map_secret_status_into-Copies a v =
      bind-Yields low _ _
        (slice-Copies low (ConditionCopy k low d) (config_map_secret_condition_into k)
          config_map_secret_condition_into-Copies a.conditions tt)
        (λ x p.
          pure-Yields low (record a { conditions = x })
            (record { observed_generation = refl; conditions = p }))

  config_map_secret_into-Copies :
      Copies low (IsResource k) (ResourceCopy k low d) (config_map_secret_into k)
  unfolding config_map_secret_into
  config_map_secret_into-Copies a v = bind-Yields low _ _ (d.object_meta a.object_meta tt) (λ x p.
      bind-Yields low _ _ (config_map_secret_spec_into-Copies a.spec v) (λ y q.
        bind-Yields low _ _ (config_map_secret_status_into-Copies a.status tt) (λ z r.
          pure-Yields low (record a { object_meta = x; spec = y; status = z })
            (record { type_meta = refl; object_meta = p; spec = q; status = r }))))

  config_map_secret_list_into-Copies :
      Copies low (IsResourceList k) (ResourceListCopy k low d) (config_map_secret_list_into k)
  unfolding config_map_secret_list_into
  config_map_secret_list_into-Copies a v = bind-Yields low _ _ (d.list_meta a.list_meta tt) (λ x p.
      bind-Yields low _ _
        (copy_slice-Copies low (IsResource k) (ResourceCopy k low d) (config_map_secret_into k)
          config_map_secret_into-Copies a.items v)
        (λ y q.
          pure-Yields low (record a { list_meta = x; items = y })
            (record { type_meta = refl; list_meta = p; items = q })))

  -- What DeepCopyObject returns, by the pointer that it is called on: nil of nil, and else a pointer to
  -- a copy at new memory.
  abbrev pub ObjectCopy : Pointer (ConfigMapSecretList k) → Object k → Type 0
  ObjectCopy none o = o ≡ nil_object
  ObjectCopy (some a) (resource_list b) = (low ≤ b.address) × ResourceListCopy k low d a.held b.held
  ObjectCopy (some a) _ = ⊥

  config_map_secret_list_object-Copies :
      (in' : Pointer (ConfigMapSecretList k))
      → Held (IsResourceList k) in'
      → Yields low (ObjectCopy in') (config_map_secret_list_object k in')
  unfolding config_map_secret_list_object config_map_secret_list_copy
  config_map_secret_list_object-Copies in' v =
      bind-Yields low _ _
        (unless_nil-Copies low (IsResourceList k) (ResourceListCopy k low d)
          (config_map_secret_list_into k) config_map_secret_list_into-Copies in' v)
        (λ c h.
          pure-Yields low (object_of resource_list nil_object c) (object_of-ObjectCopy in' c h))
    where
      object_of-ObjectCopy :
          (in' c : Pointer (ConfigMapSecretList k))
          → IsFresh low (ResourceListCopy k low d) in' c
          → ObjectCopy in' (object_of resource_list nil_object c)
      object_of-ObjectCopy none none h = refl
      object_of-ObjectCopy (some a) (some b) h = h
      object_of-ObjectCopy none (some b) h = absurd h
      object_of-ObjectCopy (some a) none h = absurd h

-- From any next address, where the DeepCopyInto of the types of Kubernetes return copies that are
-- related to the originals, and in each map of the list no key is twice: DeepCopyObject of a list of
-- ConfigMapSecrets returns nil for nil, and else a list that reads as the original, nil where that
-- is nil, and of which every pointer, slice and map was allocated by the call, so that it shares
-- none with the original.
pub config_map_secret_list_object-ObjectCopy :
    (k : Kubernetes) (next : ℕ) (d : Documented k next) (in' : Pointer (ConfigMapSecretList k))
    → Held (IsResourceList k) in'
    → ObjectCopy k next d in' (config_map_secret_list_object k in' next).0
config_map_secret_list_object-ObjectCopy k next d in' v =
    ((config_map_secret_list_object-Copies k next d in' v).at next (ground arith)).1
