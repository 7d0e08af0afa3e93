-- ===== src/Tests/Command.antt =====
-- Runs of main with calls that succeed or fail.
use configmapsecrets.Prelude.{codes, false, [], ◌≡◌, refl}
use configmapsecrets.Runtime.{Result, ok, err, ForeignError}
use configmapsecrets.Genapi.Markdown.{trim_space}
use configmapsecrets.Command.{
  Flags, default_flags, Process, Launch, going, exited, options_of, trimmed, main, init,
  parse_flags, main_parsed, choose_options, run_manager, check_value, checked, ◌>>=◌,
  current_namespace, setup_with_manager, make, checked_namespace, Call, Reply, add_client_scheme,
  add_own_scheme, register_observer, register_build_info, get_config, read_namespace, new_manager,
  add_healthz_check, complete, start,
}
use configmapsecrets.Command.Order.{Follows, plan, main-Follows}

abbrev refused : ForeignError
refused = record { reason = codes "Forbidden"; message = codes "forbidden" }

abbrev local_flags : Flags
local_flags = record default_flags { all_namespaces = false }

abbrev answers : (call : Call) → Result ForeignError (Reply Unit Unit call)
answers read_namespace = ok (codes "apps\n")
answers add_client_scheme = ok tt
answers add_own_scheme = ok tt
answers register_observer = ok tt
answers register_build_info = ok tt
answers get_config = ok tt
answers (new_manager options) = ok tt
answers add_healthz_check = ok tt
answers (complete watched) = ok tt
answers start = ok tt

-- A process for one namespace, in which every call succeeds
abbrev local : Process (Unit {0}) (Unit {0}) (Unit {0})
local = record {
  parse = λ flags w. (local_flags, w);
  perform = λ call subject w. (answers call, w);
}

-- The same process with a manager that does not start
abbrev answers_but_start : (call : Call) → Result ForeignError (Reply Unit Unit call)
answers_but_start start = err refused
answers_but_start read_namespace = ok (codes "apps\n")
answers_but_start add_client_scheme = ok tt
answers_but_start add_own_scheme = ok tt
answers_but_start register_observer = ok tt
answers_but_start register_build_info = ok tt
answers_but_start get_config = ok tt
answers_but_start (new_manager options) = ok tt
answers_but_start add_healthz_check = ok tt
answers_but_start (complete watched) = ok tt

abbrev stuck : Process (Unit {0}) (Unit {0}) (Unit {0})
stuck = record local { perform = λ call subject w. (answers_but_start call, w) }

abbrev at_first : Launch (Unit {0})
at_first = record { world = tt; calls = [] }

main-Follows_example : Follows [] (plan local_flags (codes "apps\n")) (main local at_first)
main-Follows_example = main-Follows local tt

local_run :
    main local at_first
    ≡ (going tt, record { world = tt; calls = plan local_flags (codes "apps\n") })
unfolding main init parse_flags main_parsed choose_options run_manager check_value checked ◌>>=◌
    current_namespace setup_with_manager trimmed make checked_namespace
local_run = refl

local_options :
    (options_of local_flags (trim_space (codes "apps\n")) (trim_space (codes "apps\n"))).namespace
    ≡ codes "apps"
unfolding options_of trim_space
local_options = refl

stuck_run :
    (main stuck at_first).0 ≡ exited (record { error = refused; message = codes "Fatal error" })
unfolding main init parse_flags main_parsed choose_options run_manager check_value checked ◌>>=◌
    checked_namespace current_namespace setup_with_manager trimmed make
stuck_run = refl
