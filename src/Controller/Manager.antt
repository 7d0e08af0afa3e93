-- ===== src/Controller/Manager.antt =====
-- pkg/controllers/configmapsecret_controller.go: the events of Secrets that SetupWithManager
-- watches.
use configmapsecrets.Prelude.{true, false, List}
use configmapsecrets.RefMap.{NamespacedName}
use configmapsecrets.Api.{Secret}
use configmapsecrets.Runtime.{Library, State}
use configmapsecrets.Controller.Refs.{secret_event_handler}

-- An event with its object; that of an update has the old one too.
pub data SecretEvent : Type 0 where
  create_event : Secret → SecretEvent
  update_event : Secret → Secret → SecretEvent
  delete_event : Secret → SecretEvent
  generic_event : Secret → SecretEvent

module _ {W : Type 0} (lib : Library) where
  -- The functions of handler.Funcs
  unfoldable pub secret_funcs : SecretEvent → State W → List NamespacedName × State W
  unfolding secret_event_handler
  secret_funcs (create_event object) s = secret_event_handler lib object false s
  secret_funcs (update_event old new) s = secret_event_handler lib new false s
  secret_funcs (delete_event object) s = secret_event_handler lib object true s
  secret_funcs (generic_event object) s = secret_event_handler lib object false s
