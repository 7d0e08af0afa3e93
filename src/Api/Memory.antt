-- ===== src/Api/Memory.antt =====
-- pkg/api/v1alpha1/configmapsecret_types.go: the same types as they lie in memory, where a pointer,
-- a slice or a map that is not nil has an address. The text of a string cannot be changed and has
-- none.
pub mod Copies
use configmapsecrets.Prelude.{Text, Map, Bool, Option, List, ℕ}

-- What lies at an address
pub record Ref (A : Type 0) : Type 0 where
  pub address : ℕ
  pub held : A

-- *A, []A, map[string]A; none is nil.
abbrev pub Pointer : Type 0 → Type 0
Pointer A = Option (Ref A)

abbrev pub Slice : Type 0 → Type 0
Slice A = Option (Ref (List A))

abbrev pub Table : Type 0 → Type 0
Table A = Option (Ref (Map Text A))

-- An action that allocates memory, by the next address
abbrev pub Alloc : Type 0 → Type 0
Alloc A = ℕ → A × ℕ

-- The types of k8s.io/apimachinery and k8s.io/api that the resource holds, with their DeepCopyInto
pub record Kubernetes : Type 1 where
  pub ObjectMeta : Type 0
  pub ListMeta : Type 0
  pub Time : Type 0
  pub SecretKeySelector : Type 0
  pub ConfigMapKeySelector : Type 0
  pub copy_object_meta : ObjectMeta → Alloc ObjectMeta
  pub copy_list_meta : ListMeta → Alloc ListMeta
  pub copy_time : Time → Alloc Time
  pub copy_secret_key : SecretKeySelector → Alloc SecretKeySelector
  pub copy_config_map_key : ConfigMapKeySelector → Alloc ConfigMapKeySelector

-- metav1.TypeMeta
pub record TypeMeta : Type 0 where
  pub kind : Text
  pub api_version : Text

pub record SecretVarsSource : Type 0 where
  pub name : Text
  pub optional : Pointer Bool

pub record ConfigMapVarsSource : Type 0 where
  pub name : Text
  pub optional : Pointer Bool

pub record VarsFromSource : Type 0 where
  pub prefix : Text
  pub secret_ref : Pointer SecretVarsSource
  pub config_map_ref : Pointer ConfigMapVarsSource

pub record EmbeddedObjectMeta : Type 0 where
  pub name : Text
  pub labels : Table Text
  pub annotations : Table Text

-- `Data` and `BinaryData`
pub record ConfigMapTemplate : Type 0 where
  pub metadata : EmbeddedObjectMeta
  pub text_data : Table Text
  pub binary_data : Table (Slice ℕ)

pub record Var (k : Kubernetes) : Type 0 where
  pub name : Text
  pub value : Text
  pub secret_value : Pointer k.SecretKeySelector
  pub config_map_value : Pointer k.ConfigMapKeySelector

pub record ConfigMapSecretSpec (k : Kubernetes) : Type 0 where
  pub template : ConfigMapTemplate
  pub vars_from : Slice VarsFromSource
  pub vars : Slice (Var k)

pub record ConfigMapSecretCondition (k : Kubernetes) : Type 0 where
  pub cond_type : Text
  pub status : Text
  pub last_update_time : k.Time
  pub last_transition_time : k.Time
  pub reason : Text
  pub message : Text

pub record ConfigMapSecretStatus (k : Kubernetes) : Type 0 where
  pub observed_generation : ℕ
  pub conditions : Slice (ConfigMapSecretCondition k)

pub record ConfigMapSecret (k : Kubernetes) : Type 0 where
  pub type_meta : TypeMeta
  pub object_meta : k.ObjectMeta
  pub spec : ConfigMapSecretSpec k
  pub status : ConfigMapSecretStatus k

pub record ConfigMapSecretList (k : Kubernetes) : Type 0 where
  pub type_meta : TypeMeta
  pub list_meta : k.ListMeta
  pub items : Slice (ConfigMapSecret k)
