-- ===== src/Runtime.antt =====
-- What the controller runs on: results that may be errors, the objects of other packages as
-- parameters, the state of the reconciler, and actions on it.
-- `Client` is sigs.k8s.io/controller-runtime's client with the clock; each call may read and change
-- the cluster, of type W, and may fail. `Library` is what the code calls of the Kubernetes packages
-- and of the forked expansion package under third_party. Nothing is assumed of either here.
use configmapsecrets.Prelude.{Text, Map, Bool, true, false, Option, List, ℕ}
use configmapsecrets.Api.{ConfigMapSecret, ConfigMap, Secret, OwnerReference}
use configmapsecrets.RefMap.{NamespacedName, RefMap}

pub data Result {ℓ κ} (E : Type ℓ) (A : Type κ) : Type (ℓ ⊔ κ) where
  ok : A → Result E A
  err : E → Result E A

-- An error value of another package.
pub record ForeignError : Type 0 where
  pub reason : Text
  pub message : Text

-- The error values of the controller: those of other packages, *controllerutil.AlreadyOwnedError
-- (its Object and its Owner), what fmt.Errorf and errors.New make, and *configError around another error.
pub data Error : Type 0 where
  foreign : ForeignError → Error
  already_owned : Secret → OwnerReference → Error
  formatted : Text → Error
  config_error : Error → Error

pub record GroupVersionKind : Type 0 where
  pub group : Text
  pub version : Text
  pub kind : Text

pub record Library : Type 0 where
  -- expansion.Expand and expansion.MappingFuncFor
  pub expand : Text → (Text → Text) → Text
  pub mapping_func_for : Map Text Text → Text → Text
  -- validation.IsEnvVarName: the messages, none for a valid name
  pub is_env_var_name : Text → List Text
  -- apierrors.IsNotFound
  pub is_not_found : ForeignError → Bool
  -- metav1.GetControllerOf
  pub get_controller_of : Secret → Option OwnerReference
  -- schema.ParseGroupVersion: the group
  pub parse_group : Text → Text
  -- apiutil.GVKForObject
  pub gvk_for_object : ConfigMapSecret → Result ForeignError GroupVersionKind
  -- metav1.NewControllerRef
  pub new_controller_ref : ConfigMapSecret → GroupVersionKind → OwnerReference
  -- controllerutil.SetControllerReference, which changes the Secret
  pub set_controller_reference : ConfigMapSecret → Secret → Result ForeignError Secret
  -- (*controllerutil.AlreadyOwnedError).Error
  pub already_owned_message : Secret → OwnerReference → Text

pub record Client (W : Type 0) : Type 0 where
  pub get_config_map_secret : NamespacedName → W → Result ForeignError ConfigMapSecret × W
  pub get_secret : NamespacedName → W → Result ForeignError Secret × W
  pub get_config_map : NamespacedName → W → Result ForeignError ConfigMap × W
  pub create_secret : Secret → W → Result ForeignError (Unit {0}) × W
  pub update_secret : Secret → W → Result ForeignError (Unit {0}) × W
  pub delete_secret : Secret → W → Result ForeignError (Unit {0}) × W
  -- Status().Update, with the answer of the server, which it stores in its argument
  pub update_status : ConfigMapSecret → W → Result ForeignError ConfigMapSecret × W
  -- metav1.Now
  pub now : W → ℕ × W

-- What Eventf records of the event: its type, reason and message.
pub record Event : Type 0 where
  pub event_type : Text
  pub reason : Text
  pub message : Text

-- The fields of the reconciler that change, the events it has recorded, the counter
-- missingValues by namespace, and the cluster.
pub record State (W : Type 0) : Type 0 where
  pub world : W
  pub secrets : RefMap
  pub config_maps : RefMap
  pub owned : RefMap
  pub events : List Event
  pub missing_values : Map Text ℕ

-- An action that returns a value or an error, and the state that it leaves in either case.
abbrev pub Exec : Type 0 → Type 0 → Type 0
Exec S A = S → Result Error A × S

abbrev pub raise : {S A : Type 0} → Error → Exec S A
raise cause left = (err cause, left)

abbrev pub pure : {S A : Type 0} → A → Exec S A
pure value left = (ok value, left)

-- What follows an action: the next one on its value, or the return of its error.
abbrev pub resume : {S A B : Type 0} → Result Error A → (A → Exec S B) → Exec S B
resume (err cause) next left = raise cause left
resume (ok value) next left = next value left

infixl 10 ◌>>=◌
unfoldable pub ◌>>=◌ : {S A B : Type 0} → Exec S A → (A → Exec S B) → Exec S B
◌>>=◌ action next before = let (outcome, left) = action before in resume outcome next left

infixl 10 ◌>>◌
abbrev pub ◌>>◌ : {S A B : Type 0} → Exec S A → Exec S B → Exec S B
action >> next = action >>= λ _. next

-- A call of the client, its error passed on.
abbrev pub as_error : {A : Type 0} → Result ForeignError A → Result Error A
as_error (ok a) = ok a
as_error (err e) = err (foreign e)

-- newConfigError; its callers give the formatted text
unfoldable pub new_config_error : Text → Error
new_config_error text = config_error (formatted text)

-- isConfigError: only *configError has the method that it asks for
unfoldable pub is_config_error : Error → Bool
is_config_error (config_error e) = true
is_config_error _ = false

-- The method Error of each kind of error
unfoldable pub error_text : Library → Error → Text
error_text lib (foreign e) = e.message
error_text lib (already_owned object owner) = lib.already_owned_message object owner
error_text lib (formatted text) = text
error_text lib (config_error e) = error_text lib e

-- Set the cluster after a call of the client.
abbrev pub with_world : {W : Type 0} → State W → W → State W
with_world s w = record s { world = w }
