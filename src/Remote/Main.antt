-- ===== src/Remote/Main.antt =====
-- `main` of remote/main.py up to the event loop, and `load_remote_config` of shared/config.py. What
-- `open`, YAML and pydantic make of the file at a path, and of the environment, are arguments.
pub mod Launches
mod Tests
use wan_router_notifications.Common.{List, [], ◌∷◌, Option, none, some}
use wan_router_notifications.Common.Text.{Text, codes}
use wan_router_notifications.Common.Dict.{Dict}
use wan_router_notifications.Common.Unicode.{Unicode}
use wan_router_notifications.Shared.Config.{EnvConfig}
use wan_router_notifications.Shared.Config.Remote.{
  RemoteConfig, HeartbeatSection, ProbeSection, DnsSection, remote_config,
}
use wan_router_notifications.Shared.CommandLine.{
  Action, show_help, set_config, set_mock_telegram, set_verbose, Args, parse_args,
}
use wan_router_notifications.Remote.Program.{Program, launch}

-- the parser's options, with the two that argparse adds
abbrev pub remote_options : Dict Action
remote_options =
    (codes "-h", show_help)
    ∷ (codes "--help", show_help)
    ∷ (codes "-c", set_config)
    ∷ (codes "--config", set_config)
    ∷ (codes "--mock-telegram", set_mock_telegram)
    ∷ (codes "-v", set_verbose)
    ∷ (codes "--verbose", set_verbose)
    ∷ []

unfoldable pub parse_remote : Unicode → List Text → Option Args
parse_remote u argv = parse_args u remote_options (codes "remote/config.yaml") argv

abbrev pub RemoteFile : Type 0
RemoteFile = HeartbeatSection × ProbeSection × DnsSection

-- A call that may raise, with what it raises.
pub data Attempt (E A : Type 0) : Type 0 where
  threw : E → Attempt E A
  got : A → Attempt E A

infixl 40 ◌then◌
abbrev pub ◌then◌ : {E A B : Type 0} → Attempt E A → (A → Attempt E B) → Attempt E B
(threw x) then f = threw x
(got a) then f = f a

unfoldable pub load_remote_config :
    {E : Type 0} → (Text → Attempt E RemoteFile) → Text → Attempt E RemoteConfig
load_remote_config files path =
    files path then λ (heartbeat, probe, dns). got (remote_config heartbeat probe dns)

-- `RemoteSentinel(config_path=args.config, ...)` and `sentinel.start()` up to the server
unfoldable pub start_with :
    {E : Type 0} → (Text → Attempt E RemoteFile) → Attempt E EnvConfig → Args → Attempt E Program
unfolding load_remote_config
start_with files env a = load_remote_config files a.config then λ config.
    env then λ e. got (launch config e a.mock_telegram)

-- How the program gets on: argparse ends it, for help or a usage error; an exception does, which
-- nothing catches; or it gets as far as its server.
pub data Start (E : Type 0) : Type 0 where
  exited : Start E
  uncaught : E → Start E
  serving : Program → Start E

abbrev pub begun : {E : Type 0} → Attempt E Program → Start E
begun (threw x) = uncaught x
begun (got p) = serving p

unfoldable pub main :
    {E : Type 0}
    → Unicode
    → (Text → Attempt E RemoteFile)
    → Attempt E EnvConfig
    → List Text
    → Start E
unfolding parse_remote start_with
main u files env argv = elim (parse_remote u argv) [
  | none ↦ exited
  | some a ↦ begun (start_with files env a)
]
