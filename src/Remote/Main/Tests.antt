-- ===== src/Remote/Main/Tests.antt =====
-- Command lines of remote/main.py.
use wan_router_notifications.Common.{◌≡◌, ◌≢◌, refl, true, false, [], ◌∷◌, none, some}
use wan_router_notifications.Common.Text.{Text, codes, is_truthy, text_eq, starts_with}
use wan_router_notifications.Common.Dict
use wan_router_notifications.Local.SyslogReceiver.Tests.{ascii}
use wan_router_notifications.Shared.CommandLine.{default_args, matches, is_argument, parse_args}
use wan_router_notifications.Common.Int.{pos}
use wan_router_notifications.Shared.Config.Remote.{
  HeartbeatSection, ProbeSection, DnsSection, remote_config,
}
use wan_router_notifications.Shared.Config.{EnvConfig}
use wan_router_notifications.Remote.Program.Tests.{token}
use wan_router_notifications.Remote.Program.{launch}
use wan_router_notifications.Remote.Main.Launches.{command_line, start_of, command_line_serves}
use wan_router_notifications.Remote.Main.{
  parse_remote, RemoteFile, Attempt, threw, got, uncaught, serving, load_remote_config, start_with,
  main,
}

nothing_given : parse_remote ascii [] ≡ some (default_args (codes "remote/config.yaml"))
unfolding parse_remote parse_args
nothing_given = refl

-- only one option begins so here
abbreviated :
    parse_remote ascii (codes "--mock" ∷ codes "-c" ∷ codes "x" ∷ [])
    ≡ some record { config = codes "x"; mock_snmp = false; mock_telegram = true; verbose = false }
unfolding parse_remote parse_args matches is_argument Dict.get text_eq starts_with
abbreviated = refl

no_mock_snmp : parse_remote ascii (codes "--mock-snmp" ∷ []) ≡ none
unfolding parse_remote parse_args matches Dict.get text_eq starts_with
no_mock_snmp = refl

path_named : codes "remote.yaml" ≢ codes "--"
path_named e = cc

abbrev one_heartbeat : HeartbeatSection
one_heartbeat = record {
  expected_interval = some (pos 30);
  missed_threshold = none;
  listen_host = none;
  listen_port = none;
}

abbrev one_probe : ProbeSection
one_probe = record { enabled = none; target_ip = none; interval = none; timeout = none }

abbrev one_dns : DnsSection
one_dns = record { enabled = none; hostname = none; expected_ip = none; interval = none }

abbrev one_file : Text → Attempt Text RemoteFile
one_file path = got (one_heartbeat, one_probe, one_dns)

-- the exceptions, by name
abbrev no_env : Attempt Text EnvConfig
no_env = threw (codes "ValidationError")

command_line_serves_example :
    main ascii one_file no_env (command_line (codes "remote.yaml") true false)
    ≡ start_of (one_file (codes "remote.yaml")) no_env true
command_line_serves_example =
    command_line_serves ascii one_file no_env (codes "remote.yaml") true false path_named

-- Where both raise, it is the file's exception that ends the program.
abbrev no_file : Text → Attempt Text RemoteFile
no_file path = threw (codes "FileNotFoundError")

file_first : main ascii no_file no_env (codes "-v" ∷ []) ≡ uncaught (codes "FileNotFoundError")
unfolding main parse_remote parse_args matches start_with load_remote_config is_truthy Dict.get
    text_eq starts_with
file_first = refl

-- else it serves
file_serves :
    main ascii one_file (got token) []
    ≡ serving (launch (remote_config one_heartbeat one_probe one_dns) token false)
unfolding main parse_remote parse_args start_with load_remote_config
file_serves = refl
