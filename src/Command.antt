-- ===== src/Command.antt =====
-- cmd/configmapsecret-controller/main.go: init and main, and SetupWithManager of
-- pkg/controllers/configmapsecret_controller.go. The calls of other packages are the parameter
-- Process; flag.Parse exits by itself. Logging is left out.
pub mod Order
use configmapsecrets.Prelude.{
  Text, codes, Bool, true, false, Option, none, some, List, [], ◌∷◌, ◌++◌,
}
use configmapsecrets.Runtime.{Result, ok, err, ForeignError}
use configmapsecrets.Genapi.Markdown.{trim_space}
use configmapsecrets.Genapi.Texts.{null}
use configmapsecrets.Prelude.{if◌then◌else◌}

-- The flags of main; those of zapr are not modelled.
pub record Flags : Type 0 where
  pub health_addr : Text
  pub metrics_addr : Text
  pub all_namespaces : Bool
  pub leader_election : Bool
  pub leader_election_namespace : Text

abbrev pub default_flags : Flags
default_flags = record {
  health_addr = codes ":9090";
  metrics_addr = codes ":9091";
  all_namespaces = true;
  leader_election = false;
  leader_election_namespace = [];
}

-- manager.Options, but for the scheme
pub record Options : Type 0 where
  pub health_probe_bind_address : Text
  pub metrics_bind_address : Text
  pub namespace : Text
  pub leader_election : Bool
  pub leader_election_id : Text
  pub leader_election_namespace : Text

-- What SetupWithManager has the controller watch
pub data Watched : Type 0 where
  resource_kind : Watched
  secret_kind : Watched
  config_map_kind : Watched

-- The calls of other packages that check looks at
pub data Call : Type 0 where
  add_client_scheme : Call
  add_own_scheme : Call
  register_observer : Call
  register_build_info : Call
  get_config : Call
  read_namespace : Call
  new_manager : Options → Call
  add_healthz_check : Call
  complete : List Watched → Call
  start : Call

module _ (Config Manager : Type 0) where
  -- What a call is made on; `Config` and `Manager` are types of controller-runtime.
  abbrev pub Subject : Call → Type 0
  Subject (new_manager options) = Config
  Subject add_healthz_check = Manager
  Subject (complete watched) = Manager
  Subject start = Manager
  Subject add_client_scheme = Unit
  Subject add_own_scheme = Unit
  Subject register_observer = Unit
  Subject register_build_info = Unit
  Subject get_config = Unit
  Subject read_namespace = Unit

  -- What a call returns beside its error
  abbrev pub Reply : Call → Type 0
  Reply get_config = Config
  Reply read_namespace = Text
  Reply (new_manager options) = Manager
  Reply add_client_scheme = Unit
  Reply add_own_scheme = Unit
  Reply register_observer = Unit
  Reply register_build_info = Unit
  Reply add_healthz_check = Unit
  Reply (complete watched) = Unit
  Reply start = Unit

-- The calls by what they do
pub record Process (W Config Manager : Type 0) : Type 0 where
  pub parse : Flags → W → Flags × W
  pub perform :
      (call : Call)
      → Subject Config Manager call
      → W
      → Result ForeignError (Reply Config Manager call) × W

-- A call that was made, with the error it returned
pub record Made : Type 0 where
  pub call : Call
  pub error : Option ForeignError

-- What check logs before it exits
pub record Fatal : Type 0 where
  pub error : ForeignError
  pub message : Text

-- The process with the calls that were made, in order
pub record Launch (W : Type 0) : Type 0 where
  pub world : W
  pub calls : List Made

-- A part of main goes on with a value, or has exited.
pub data Ended (A : Type 0) : Type 0 where
  going : A → Ended A
  exited : Fatal → Ended A

abbrev pub Main : Type 0 → Type 0 → Type 0
Main W A = Launch W → Ended A × Launch W

abbrev pub proceed_with : {W A B : Type 0} → Ended A → (A → Main W B) → Main W B
proceed_with (going a) next l = next a l
proceed_with (exited f) next l = (exited f, l)

infixl 10 ◌>>=◌
unfoldable pub ◌>>=◌ : {W A B : Type 0} → Main W A → (A → Main W B) → Main W B
◌>>=◌ action next l = let (r, l') = action l in proceed_with r next l'

infixl 10 ◌>>◌
abbrev pub ◌>>◌ : {W A B : Type 0} → Main W A → Main W B → Main W B
action >> next = action >>= λ _. next

abbrev pub pure : {W A : Type 0} → A → Main W A
pure a l = (going a, l)

-- The body of check. It does not use its message.
unfoldable pub checked : {A : Type 0} → Text → Result ForeignError A → Ended A
checked message (ok a) = going a
checked message (err e) = exited (record { error = e; message = codes "Fatal error" })

abbrev pub returned_error : {A : Type 0} → Result ForeignError A → Option ForeignError
returned_error (ok a) = none
returned_error (err e) = some e

-- The message of the check behind each call
unfoldable pub message_of : Call → Text
message_of add_client_scheme = codes "Unable to add kubernetes client set to scheme"
message_of add_own_scheme = codes "Unable to add secrets.mz.com/v1alpha1 to scheme"
message_of register_observer = codes "Unable to register logging metrics"
message_of register_build_info = codes "Unable to register build metrics"
message_of get_config = codes "Unable to load kubeconfig"
message_of read_namespace = codes "Unable to detect namespace"
message_of (new_manager options) = codes "Unable to create manager"
message_of add_healthz_check = codes "Unable to install healthz check"
message_of (complete watched) = codes "Unable to create controller"
message_of start = codes "Problem running manager"

module _ {W Config Manager : Type 0} (p : Process W Config Manager) where
  -- A call, and its record
  unfoldable pub make :
      (call : Call)
      → Subject Config Manager call
      → Launch W
      → Result ForeignError (Reply Config Manager call) × Launch W
  make call subject l =
      let (r, w) = p.perform call subject l.world in
      (
        r,
        record {
          world = w;
          calls = l.calls ++ record { call = call; error = returned_error r } ∷ [];
        },
      )

  -- A call, and check on its error
  unfoldable pub check_value :
      (call : Call) → Subject Config Manager call → Main W (Reply Config Manager call)
  unfolding checked message_of make
  check_value call subject l =
      let (r, l') = make call subject l in (checked (message_of call) r, l')

abbrev pub or_chosen : Text → Text → Text
or_chosen chosen namespace = if null chosen then namespace else chosen

-- manager.Options of main, by the namespace and the default for the leader election
unfoldable pub options_of : Flags → Text → Text → Options
options_of flags namespace election = record {
  health_probe_bind_address = flags.health_addr;
  metrics_bind_address = flags.metrics_addr;
  namespace = namespace;
  leader_election = flags.leader_election;
  leader_election_id = codes "configmapsecret-controller-leader";
  leader_election_namespace = or_chosen flags.leader_election_namespace election;
}

unfoldable pub trimmed : Result ForeignError Text → Result ForeignError Text
unfolding trim_space
trimmed (ok buf) = ok (trim_space buf)
trimmed (err e) = err e

abbrev pub watched_kinds : List Watched
watched_kinds = resource_kind ∷ secret_kind ∷ config_map_kind ∷ []

module _ {W Config Manager : Type 0} (p : Process W Config Manager) where
  -- currentNamespace
  unfoldable pub current_namespace : Launch W → Result ForeignError Text × Launch W
  unfolding make
  current_namespace l = let (r, l') = make p read_namespace tt l in (trimmed r, l')

  unfoldable pub parse_flags : Main W Flags
  parse_flags l =
      let (flags, w) = p.parse default_flags l.world in (going flags, record l { world = w })

  -- currentNamespace, and check on its error
  unfoldable pub checked_namespace : Main W Text
  unfolding current_namespace checked message_of
  checked_namespace l =
      let (r, l') = current_namespace l in (checked (message_of read_namespace) r, l')

  -- The namespaces of main
  unfoldable pub choose_options : Bool → Flags → Main W Options
  unfolding options_of checked_namespace
  choose_options true flags = pure (options_of flags [] (codes "kube-system"))
  choose_options false flags = do
    namespace ← checked_namespace
    pure (options_of flags namespace namespace)

  -- SetupWithManager, and check on its error
  unfoldable pub setup_with_manager : Manager → Main W (Unit {0})
  unfolding check_value
  setup_with_manager manager = check_value p (complete watched_kinds) manager

  -- init
  unfoldable pub init : Main W (Unit {0})
  unfolding check_value
  init = do check_value p add_client_scheme tt; check_value p add_own_scheme tt

  -- main, from manager.New on
  unfoldable pub run_manager : Config → Options → Main W (Unit {0})
  unfolding setup_with_manager check_value
  run_manager config options = do
    manager ← check_value p (new_manager options) config
    check_value p add_healthz_check manager
    setup_with_manager manager
    check_value p start manager

  -- main, behind flag.Parse
  unfoldable pub main_parsed : Flags → Main W (Unit {0})
  unfolding choose_options run_manager check_value
  main_parsed flags = do
    check_value p register_observer tt
    check_value p register_build_info tt
    config ← check_value p get_config tt
    options ← choose_options flags.all_namespaces flags
    run_manager config options

  -- main
  unfoldable pub main : Main W (Unit {0})
  unfolding init parse_flags main_parsed
  main = do init; flags ← parse_flags; main_parsed flags
