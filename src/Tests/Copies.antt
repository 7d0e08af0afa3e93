-- ===== src/Tests/Copies.antt =====
-- A deep copy of a list with one ConfigMapSecret.
use configmapsecrets.Prelude.{
  Text, codes, text_eq, text_equality, lookup, insert, some, none, [], ◌∷◌, ℕ, ◌≡◌, refl,
}
use configmapsecrets.Api.Memory.{Pointer, Kubernetes, ConfigMapSecret, ConfigMapSecretList}
use configmapsecrets.Api.Memory.Copies.{
  ◌>>=◌, pure, unless_nil, allocate, copy_elements, copy_entries, embedded_object_meta_into,
  config_map_template_into, var_into, config_map_secret_spec_into, config_map_secret_status_into,
  config_map_secret_into, config_map_secret_list_into, config_map_secret_list_copy,
  config_map_secret_list_object,
}
use configmapsecrets.Api.Memory.Copies.Fresh.{IsFresh, Held}
use configmapsecrets.Api.Memory.Copies.Same.{Equal, Documented, IsResourceList}
use configmapsecrets.Api.Memory.Copies.Sound.{
  value-Copies, boxed-Copies, ObjectCopy, config_map_secret_list_object-ObjectCopy,
}

-- Metadata that is a pointer to a text, and the other types without memory of their own
abbrev small : Kubernetes
small = record {
  ObjectMeta = Pointer Text;
  ListMeta = Text;
  Time = ℕ;
  SecretKeySelector = Text;
  ConfigMapKeySelector = Text;
  copy_object_meta = unless_nil pure;
  copy_list_meta = pure;
  copy_time = pure;
  copy_secret_key = pure;
  copy_config_map_key = pure;
}

abbrev small-Documented : (low : ℕ) → Documented small low
small-Documented low = record {
  MetaCopy = IsFresh low Equal;
  ListMetaCopy = Equal;
  TimeCopy = Equal;
  SecretKeyCopy = Equal;
  ConfigMapKeyCopy = Equal;
  object_meta = boxed-Copies low;
  list_meta = value-Copies low;
  time = value-Copies low;
  secret_key = value-Copies low;
  config_map_key = value-Copies low;
}

abbrev one : ConfigMapSecret small
one = record {
  type_meta = record { kind = codes "ConfigMapSecret"; api_version = codes "v1alpha1" };
  object_meta = some (record { address = 1; held = codes "app" });
  spec = record {
    template = record {
      metadata = record {
        name = codes "app";
        labels = some (record { address = 2; held = (codes "a", codes "b") ∷ [] });
        annotations = none;
      };
      text_data = some (record { address = 3; held = [] });
      binary_data = some (record {
        address = 4;
        held = (codes "x", some (record { address = 5; held = 7 ∷ [] })) ∷ (codes "y", none) ∷ [];
      });
    };
    vars_from = none;
    vars = some (record {
      address = 6;
      held =
          record {
            name = codes "PASS";
            value = [];
            secret_value = some (record { address = 7; held = codes "pass" });
            config_map_value = none;
          }
          ∷ [];
    });
  };
  status = record { observed_generation = 1; conditions = none };
}

abbrev listed : Pointer (ConfigMapSecretList small)
listed = some (record {
  address = 8;
  held = record {
    type_meta = record { kind = codes "ConfigMapSecretList"; api_version = codes "v1alpha1" };
    list_meta = [];
    items = some (record { address = 9; held = one ∷ [] });
  };
})

listed-IsResourceList : Held (IsResourceList small) listed
unfolding lookup text_eq
listed-IsResourceList = ((((refl, tt, tt), tt), tt, (refl, tt, (refl, tt, tt))), tt)

config_map_secret_list_object-ObjectCopy_example :
    ObjectCopy small 10
      (small-Documented 10)
      listed
      (config_map_secret_list_object small listed 10).0
config_map_secret_list_object-ObjectCopy_example =
    config_map_secret_list_object-ObjectCopy small 10 (small-Documented 10) listed
      listed-IsResourceList

-- The copy takes nine addresses, from that of the list on.
used : (config_map_secret_list_object small listed 10).1 ≡ 19
unfolding config_map_secret_list_object config_map_secret_list_copy config_map_secret_list_into
    unless_nil allocate copy_elements copy_entries ◌>>=◌ config_map_secret_into
    config_map_secret_spec_into config_map_secret_status_into config_map_template_into
    embedded_object_meta_into var_into insert
used = refl
