-- ===== src/Local/Main/Tests.antt =====
-- Command lines of local/main.py.
use wan_router_notifications.Common.{◌≡◌, ◌≢◌, refl, true, false, [], ◌∷◌, none, some}
use wan_router_notifications.Common.Result.{Result, returned}
use wan_router_notifications.Common.Text.{Text, codes, is_truthy, text_eq, starts_with}
use wan_router_notifications.Common.Dict
use wan_router_notifications.Common.Regex.{match_at, take_row, total_length}
use wan_router_notifications.Local.SyslogReceiver.Tests.{ascii}
use wan_router_notifications.Shared.Config.{LocalFile}
use wan_router_notifications.Shared.Config.Tests.{ascii_upper, small_file}
use wan_router_notifications.Shared.CommandLine.{
  Args, matches, is_argument, is_negative_number, parse_args,
}
use wan_router_notifications.Local.Program.{Program, launch}
use wan_router_notifications.Local.Monitor.Tests.{small_config, no_env, small_accepted}
use wan_router_notifications.Local.Main.{parse_local, main}
use wan_router_notifications.Local.Main.Launches.{
  command_line, parse_local-command_line, main-launch,
}

abbrev asked_for : Args
asked_for = record {
  config = codes "a=b.yaml";
  mock_snmp = false;
  mock_telegram = true;
  verbose = false;
}

-- letters in one argument, the last with the next argument as its value
letters :
    parse_local ascii (codes "-vc" ∷ codes "a.yaml" ∷ codes "--mock-s" ∷ [])
    ≡ some
        record { config = codes "a.yaml"; mock_snmp = true; mock_telegram = false; verbose = true }
unfolding parse_local parse_args matches is_argument is_truthy Dict.get text_eq starts_with
letters = refl

ambiguous : parse_local ascii (codes "--mock" ∷ []) ≡ none
unfolding parse_local parse_args matches Dict.get text_eq starts_with
ambiguous = refl

helped : parse_local ascii (codes "-v" ∷ codes "-h" ∷ []) ≡ none
unfolding parse_local parse_args matches Dict.get text_eq starts_with
helped = refl

-- a negative number is a value, an unknown option is none
numbers :
    parse_local ascii (codes "-c" ∷ codes "-12" ∷ [])
    ≡ some (record asked_for { config = codes "-12"; mock_telegram = false })
unfolding parse_local parse_args matches is_argument is_negative_number match_at take_row
    total_length Dict.get text_eq starts_with
numbers = refl

unknown : parse_local ascii (codes "-c" ∷ codes "-x" ∷ []) ≡ none
unfolding parse_local parse_args matches is_argument is_negative_number match_at take_row
    total_length Dict.get text_eq starts_with
unknown = refl

path_named : asked_for.config ≢ codes "--"
path_named e = cc

parse_local-command_line_example : parse_local ascii (command_line asked_for) ≡ some asked_for
parse_local-command_line_example = parse_local-command_line ascii asked_for path_named

abbrev one_file : Text → Result LocalFile
one_file path = returned small_file

main-launch_example :
    (p : Program) × ((launch ascii_upper small_config no_env false true ≡ returned p)
      × (main ascii ascii_upper one_file (returned no_env) (command_line asked_for) ≡ returned p))
main-launch_example =
    main-launch ascii ascii_upper one_file no_env asked_for small_file small_config refl refl refl
      small_accepted path_named
