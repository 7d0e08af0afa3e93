-- ===== src/Api.antt =====
-- pkg/api/v1alpha1/configmapsecret_types.go: the custom resource, and the fields of the Kubernetes
-- objects (metadata, Secret, ConfigMap, owner references) that the controller reads or writes.
-- A pointer is an `Option`. Labels, annotations and the data of a Secret are `Option (Map …)`, since
-- reflect.DeepEqual tells a nil map from an empty one; elsewhere nil is the empty map.
pub mod Memory
use configmapsecrets.Prelude.{Text, codes, Map, Bool, Option, List, ℕ}

-- SecretVarsSource and ConfigMapVarsSource, with the name of the embedded LocalObjectReference.
pub record SecretVarsSource : Type 0 where
  pub name : Text
  pub optional : Option Bool

pub record ConfigMapVarsSource : Type 0 where
  pub name : Text
  pub optional : Option Bool

-- corev1.SecretKeySelector and corev1.ConfigMapKeySelector
pub record SecretKeySelector : Type 0 where
  pub name : Text
  pub key : Text
  pub optional : Option Bool

pub record ConfigMapKeySelector : Type 0 where
  pub name : Text
  pub key : Text
  pub optional : Option Bool

pub record VarsFromSource : Type 0 where
  pub prefix : Text
  pub secret_ref : Option SecretVarsSource
  pub config_map_ref : Option ConfigMapVarsSource

pub record Var : Type 0 where
  pub name : Text
  pub value : Text
  pub secret_value : Option SecretKeySelector
  pub config_map_value : Option ConfigMapKeySelector

pub record EmbeddedObjectMeta : Type 0 where
  pub name : Text
  pub labels : Option (Map Text Text)
  pub annotations : Option (Map Text Text)

-- `Data` and `BinaryData`
pub record ConfigMapTemplate : Type 0 where
  pub metadata : EmbeddedObjectMeta
  pub text_data : Map Text Text
  pub binary_data : Map Text Text

pub record ConfigMapSecretSpec : Type 0 where
  pub template : ConfigMapTemplate
  pub vars_from : List VarsFromSource
  pub vars : List Var

-- ConfigMapSecretConditionType is a string; corev1.ConditionStatus too. A time is a number.
pub record ConfigMapSecretCondition : Type 0 where
  pub cond_type : Text
  pub status : Text
  pub last_update_time : ℕ
  pub last_transition_time : ℕ
  pub reason : Text
  pub message : Text

abbrev pub render_failure : Text
render_failure = codes "RenderFailure"

-- corev1.ConditionTrue, corev1.ConditionFalse
abbrev pub condition_true : Text
condition_true = codes "True"

abbrev pub condition_false : Text
condition_false = codes "False"

pub record ConfigMapSecretStatus : Type 0 where
  pub observed_generation : ℕ
  pub conditions : List ConfigMapSecretCondition

-- metav1.OwnerReference
pub record OwnerReference : Type 0 where
  pub api_version : Text
  pub kind : Text
  pub name : Text
  pub uid : Text
  pub controller : Option Bool
  pub block_owner_deletion : Option Bool

pub record ConfigMapSecret : Type 0 where
  pub namespace : Text
  pub name : Text
  pub uid : Text
  pub generation : ℕ
  pub owner_references : List OwnerReference
  pub spec : ConfigMapSecretSpec
  pub status : ConfigMapSecretStatus

-- corev1.Secret
pub record Secret : Type 0 where
  pub namespace : Text
  pub name : Text
  pub uid : Text
  pub labels : Option (Map Text Text)
  pub annotations : Option (Map Text Text)
  pub owner_references : List OwnerReference
  pub secret_data : Option (Map Text Text)
  pub secret_type : Text

-- corev1.SecretTypeOpaque
abbrev pub opaque : Text
opaque = codes "Opaque"

-- corev1.ConfigMap
pub record ConfigMap : Type 0 where
  pub text_data : Map Text Text
  pub binary_data : Map Text Text
