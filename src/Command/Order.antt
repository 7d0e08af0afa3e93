-- ===== src/Command/Order.antt =====
-- The order of the calls that main makes.
use mathlib.Core.Path.{subst}
use configmapsecrets.Prelude.{
  Text, codes, Bool, true, false, none, some, List, [], ◌∷◌, ◌++◌, ◌≡◌, refl, sym, ap, ◌∙◌,
  if◌then◌else◌,
}
use configmapsecrets.Runtime.{Result, ok, err, ForeignError}
use configmapsecrets.Genapi.Markdown.{trim_space}
use configmapsecrets.Genapi.Texts.{null}
use configmapsecrets.Command.{
  Flags, default_flags, Options, Call, add_client_scheme, add_own_scheme, register_observer,
  register_build_info, get_config, read_namespace, new_manager, add_healthz_check, complete, start,
  Process, Launch, Ended, going, exited, Main, ◌>>=◌, pure, proceed_with, message_of, checked,
  check_value, options_of, trimmed, watched_kinds, current_namespace, parse_flags, choose_options,
  init, run_manager, main_parsed, main, Made, make, Subject, Reply, returned_error,
  checked_namespace, setup_with_manager, resource_kind, secret_kind, config_map_kind,
}

abbrev pub fine : Call → Made
fine call = record { call = call; error = none }

abbrev pub failed : Call → ForeignError → Made
failed call e = record { call = call; error = some e }

-- From the calls before, the action makes those of the plan. If it goes on, each of them returned no
-- error. If it exits, the last call it makes is one of the plan, after those in front of it, which
-- returned none; this call returned the error of the exit, and the message is that of any other call.
unfoldable pub Follows : {W A : Type 0} → List Made → List Made → Ended A × Launch W → Type 0
Follows before plan (going a, l) = l.calls ≡ before ++ plan
Follows before plan (exited f, l) =
    (done : List Made) × (call : Call) × (rest : List Made) × (plan ≡ done ++ fine call ∷ rest)
    × (l.calls ≡ before ++ (done ++ failed call f.error ∷ []))
    × (f.message ≡ codes "Fatal error")

append_assoc : (a b c : List Made) → (a ++ b) ++ c ≡ a ++ (b ++ c)
append_assoc [] b c = refl
append_assoc (x ∷ a) b c = ap (λ l. x ∷ l) (append_assoc a b c)

shift-Follows :
    {W A : Type 0} (before first second : List Made) (x : Ended A × Launch W)
    → Follows (before ++ first) second x
    → Follows before (first ++ second) x
unfolding Follows
shift-Follows before first second (going a, l) h = h ∙ append_assoc before first second
shift-Follows before first second (exited f, l) (done, call, rest, e, c, m) = (
  first ++ done,
  call,
  rest,
  ap (λ p. first ++ p) e ∙ sym (append_assoc first done (fine call ∷ rest)),
  c
      ∙ append_assoc before first (done ++ failed call f.error ∷ [])
      ∙ ap (λ p. before ++ p) (sym (append_assoc first done (failed call f.error ∷ []))),
  m,
)

module _ {W : Type 0} where
  checked-Follows :
      {A : Type 0} (call : Call) (r : Result ForeignError A) (before : List Made) (w : W)
      → Follows before (fine call ∷ []) (
        checked (message_of call) r,
        record {
          world = w;
          calls = before ++ record { call = call; error = returned_error r } ∷ [];
        },
      )
  unfolding Follows checked
  checked-Follows call (ok a) before w = refl
  checked-Follows call (err e) before w = ([], call, [], refl, refl, refl)

  bind-Follows :
      {A B : Type 0} (before first second : List Made) (r : Ended A) (l : Launch W)
      (next : A → Main W B)
      → Follows before first (r, l)
      → ((a : A) → Follows l.calls second (next a l))
      → Follows before (first ++ second) (proceed_with r next l)
  unfolding Follows
  bind-Follows before first second (exited f) l next (done, call, rest, e, c, m) k = (
    done,
    call,
    rest ++ second,
    ap (λ p. p ++ second) e ∙ append_assoc done (fine call ∷ rest) second,
    c,
    m,
  )
  bind-Follows before first second (going a) l next h k =
      shift-Follows before first second (next a l)
        (subst (λ b. Follows b second (next a l)) h (k a))

module _ {W Config Manager : Type 0} (p : Process W Config Manager) where
  check_value-Follows :
      (call : Call) (subject : Subject Config Manager call) (l : Launch W)
      → Follows l.calls (fine call ∷ []) (check_value p call subject l)
  unfolding check_value make
  check_value-Follows call subject l =
      let (r, w) = p.perform call subject l.world in checked-Follows call r l.calls w

  -- A check and what follows it
  then-Follows :
      {B : Type 0} (call : Call) (subject : Subject Config Manager call) (plan : List Made)
      (next : Reply Config Manager call → Main W B) (l : Launch W)
      → ((a : Reply Config Manager call)
          → Follows
              (check_value p call subject l).1.calls
              plan
              (next a (check_value p call subject l).1))
      → Follows l.calls (fine call ∷ plan) ((check_value p call subject >>= next) l)
  unfolding ◌>>=◌
  then-Follows call subject plan next l k =
      bind-Follows l.calls (fine call ∷ []) plan (check_value p call subject l).0
        (check_value p call subject l).1 next (check_value-Follows call subject l) k

-- The options that the flags ask for, for a namespace, all of them for an empty text, and the
-- namespace of the leader election unless the flag chooses one
abbrev pub asked : Flags → Text → Text → Options
asked flags namespace election = record {
  health_probe_bind_address = flags.health_addr;
  metrics_bind_address = flags.metrics_addr;
  namespace = namespace;
  leader_election = flags.leader_election;
  leader_election_id = codes "configmapsecret-controller-leader";
  leader_election_namespace =
      if null flags.leader_election_namespace then election else flags.leader_election_namespace;
}

-- The calls from manager.New on
abbrev pub managed : Options → List Made
managed options =
    fine (new_manager options)
    ∷ fine add_healthz_check
    ∷ fine (complete (resource_kind ∷ secret_kind ∷ config_map_kind ∷ []))
    ∷ fine start
    ∷ []

-- The calls behind the choice of the namespaces, by what the file of the service account holds
abbrev pub chosen : Bool → Flags → Text → List Made
chosen true flags file = managed (asked flags [] (codes "kube-system"))
chosen false flags file =
    fine read_namespace ∷ managed (asked flags (trim_space file) (trim_space file))

-- All the calls of main
abbrev pub plan : Flags → Text → List Made
plan flags file =
    fine add_client_scheme
    ∷ fine add_own_scheme
    ∷ fine register_observer
    ∷ fine register_build_info
    ∷ fine get_config
    ∷ chosen flags.all_namespaces flags file

module _ {W Config Manager : Type 0} (p : Process W Config Manager) where
  run_manager-Follows :
      (config : Config) (options : Options) (l : Launch W)
      → Follows l.calls (managed options) (run_manager p config options l)
  unfolding run_manager setup_with_manager
  run_manager-Follows config options l =
      then-Follows p (new_manager options) config _ _ l (λ manager.
        then-Follows p add_healthz_check manager _ _ _ (λ u.
          then-Follows p (complete watched_kinds) manager _ _ _
            (λ u. check_value-Follows p start manager _)))

  -- What the file of the service account holds
  abbrev pub file_of : Result ForeignError Text → Text
  file_of (ok buf) = buf
  file_of (err e) = []

  abbrev read_made : Result ForeignError Text → Made
  read_made r = record { call = read_namespace; error = returned_error r }

  read-Follows :
      (flags : Flags) (config : Config) (r : Result ForeignError Text) (before : List Made) (w : W)
      → (let l : Launch W = record { world = w; calls = before ++ read_made r ∷ [] } in
          let x =
            proceed_with
              (checked (message_of read_namespace) (trimmed r))
              (λ namespace. pure (options_of flags namespace namespace))
              l in
          Follows before
            (chosen false flags (file_of r))
            (proceed_with x.0 (run_manager p config) x.1))
  unfolding Follows checked trimmed options_of
  read-Follows flags config (err e) before w = ([], read_namespace, _, refl, refl, refl)
  read-Follows flags config (ok buf) before w =
      shift-Follows before (fine read_namespace ∷ []) _ _ (
        run_manager-Follows config (options_of flags (trim_space buf) (trim_space buf))
          (record { world = w; calls = before ++ fine read_namespace ∷ [] }))

  -- What the file is read as in a world
  abbrev pub file_in : W → Text
  file_in w = file_of (p.perform read_namespace tt w).0

  choose_options-Follows :
      (all : Bool) (flags : Flags) (config : Config) (l : Launch W)
      → Follows l.calls
          (chosen all flags (file_in l.world))
          ((choose_options p all flags >>= run_manager p config) l)
  unfolding choose_options ◌>>=◌ checked_namespace current_namespace make options_of
  choose_options-Follows true flags config l =
      run_manager-Follows config (options_of flags [] (codes "kube-system")) l
  choose_options-Follows false flags config l =
      let (r, w) = p.perform read_namespace tt l.world in read-Follows flags config r l.calls w

  -- The world after the calls in front of the choice of the namespaces
  abbrev pub before_choice : W → W
  before_choice w =
      let after_observer = (p.perform register_observer tt w).1 in
      let after_build_info = (p.perform register_build_info tt after_observer).1 in
      (p.perform get_config tt after_build_info).1

  main_parsed-Follows :
      (flags : Flags) (l : Launch W)
      → Follows l.calls
          (fine register_observer
            ∷ fine register_build_info
            ∷ fine get_config
            ∷ chosen flags.all_namespaces flags (file_in (before_choice l.world)))
          (main_parsed p flags l)
  unfolding main_parsed check_value make
  main_parsed-Follows flags l = then-Follows p register_observer tt _ _ l (λ u.
      then-Follows p register_build_info tt _ _ _ (λ u.
        then-Follows p get_config tt _ _ _
          (λ config. choose_options-Follows flags.all_namespaces flags config _)))

  init-Follows :
      (l : Launch W)
      → Follows l.calls (fine add_client_scheme ∷ fine add_own_scheme ∷ []) (init p l)
  unfolding init
  init-Follows l =
      then-Follows p add_client_scheme tt _ _ l (λ u. check_value-Follows p add_own_scheme tt _)

  -- The flags that flag.Parse sets behind init, and the world then
  abbrev pub parsed : W → Flags × W
  parsed w = p.parse default_flags (init p (record { world = w; calls = [] })).1.world

  -- Whatever the calls return, main performs those of the plan in their order, with the flags as they
  -- are parsed behind init, and the file of the service account as it is read behind the call for the
  -- kubeconfig, for one namespace only. The manager's options have the addresses, the namespace, all
  -- namespaces for an empty text, and the leader election of the flags. If main returns, it has
  -- performed all of the plan and no call has returned an error. If it exits, the last call that it
  -- has performed is one of the plan, those in front of it are all performed without an error, this
  -- one has returned the error that is logged, and the message is "Fatal error", whichever call this
  -- is.
  pub main-Follows :
      (w : W)
      → Follows []
          (plan (parsed w).0 (file_in (before_choice (parsed w).1)))
          (main p (record { world = w; calls = [] }))
  unfolding main parse_flags ◌>>=◌
  main-Follows w =
      let l = (init p (record { world = w; calls = [] })).1 in
      bind-Follows [] (fine add_client_scheme ∷ fine add_own_scheme ∷ []) _
        (init p (record { world = w; calls = [] })).0 l _
        (init-Follows (record { world = w; calls = [] }))
        (λ u. main_parsed-Follows (parsed w).0 (record l { world = (parsed w).1 }))
