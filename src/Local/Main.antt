-- ===== src/Local/Main.antt =====
-- `main` of local/main.py up to the event loop, and `load_local_config` of shared/config.py. What
-- `open`, YAML and pydantic make of the file at a path, and of the environment, are arguments.
pub mod Launches
mod Tests
use wan_router_notifications.Common.{Bool, List, [], ◌∷◌, ◌++◌, Option, none, some, if◌then◌else◌}
use wan_router_notifications.Common.Result.{Result, returned, raised, ◌>>=◌}
use wan_router_notifications.Common.Text.{Text, codes}
use wan_router_notifications.Common.Dict.{Dict}
use wan_router_notifications.Common.Unicode.{Unicode}
use wan_router_notifications.Shared.Config.{LocalConfig, EnvConfig, LocalFile, local_config}
use wan_router_notifications.Shared.CommandLine.{
  Action, show_help, set_config, set_mock_snmp, set_mock_telegram, set_verbose, Args, parse_args,
}
use wan_router_notifications.Local.Program.{Program, launch}

-- the parser's options, with the two that argparse adds
abbrev pub local_options : Dict Action
local_options =
    (codes "-h", show_help)
    ∷ (codes "--help", show_help)
    ∷ (codes "-c", set_config)
    ∷ (codes "--config", set_config)
    ∷ (codes "--mock-snmp", set_mock_snmp)
    ∷ (codes "--mock-telegram", set_mock_telegram)
    ∷ (codes "-v", set_verbose)
    ∷ (codes "--verbose", set_verbose)
    ∷ []

unfoldable pub parse_local : Unicode → List Text → Option Args
parse_local u argv = parse_args u local_options (codes "local/config.yaml") argv

unfoldable pub load_local_config :
    (Text → Text) → (Text → Result LocalFile) → Text → Result LocalConfig
load_local_config upper files path = files path >>= λ f. local_config upper f

-- `LocalMonitor(config_path=args.config, ...)` and `monitor.start()` up to its first `await`
unfoldable pub start_with :
    (Text → Text) → (Text → Result LocalFile) → Result EnvConfig → Args → Result Program
unfolding load_local_config
start_with upper files env a = load_local_config upper files a.config >>= λ config.
    env >>= λ e. launch upper config e a.mock_snmp a.mock_telegram

-- `raised` is the end of the program before its loop: help, a usage error, or an exception.
unfoldable pub main :
    Unicode
    → (Text → Text)
    → (Text → Result LocalFile)
    → Result EnvConfig
    → List Text
    → Result Program
unfolding parse_local start_with
main u upper files env argv = elim (parse_local u argv) [
  | none ↦ raised
  | some a ↦ start_with upper files env a
]
