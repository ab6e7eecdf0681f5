-- ===== src/Remote/Main/Launches.antt =====
-- The command lines of remote/main.py.
use wan_router_notifications.Common.{
  ◌≡◌, ◌≢◌, refl, ap, ◌∙◌, Bool, true, false, List, [], ◌∷◌, ◌++◌, none, some,
}
use wan_router_notifications.Common.Text.{Text, codes, text_eq, starts_with}
use wan_router_notifications.Common.Dict
use wan_router_notifications.Common.Unicode.{Unicode}
use wan_router_notifications.Shared.Config.{EnvConfig}
use wan_router_notifications.Shared.Config.Remote.{remote_config}
use wan_router_notifications.Shared.CommandLine.Asked.{flag, take_config-taken, after_config}
use wan_router_notifications.Shared.CommandLine.{
  Args, default_args, matches, parse_loop, parse_args,
}
use wan_router_notifications.Remote.Program.{launch}
use wan_router_notifications.Remote.Main.{
  remote_options, parse_remote, RemoteFile, Attempt, threw, got, ◌then◌, load_remote_config,
  start_with, Start, exited, uncaught, serving, begun, main,
}

abbrev flags : Bool → Bool → List Text
flags mock_telegram verbose =
    flag mock_telegram (codes "--mock-telegram") (flag verbose (codes "--verbose") [])

-- the arguments that ask for a path and two flags
abbrev pub command_line : Text → Bool → Bool → List Text
command_line path mock_telegram verbose = (codes "--config=" ++ path) ∷ flags mock_telegram verbose

abbrev asked : Text → Bool → Bool → Args
asked path mock_telegram verbose = record {
  config = path;
  mock_snmp = false;
  mock_telegram = mock_telegram;
  verbose = verbose;
}

flags_parsed :
    (u : Unicode) (path : Text) (mock_telegram verbose : Bool)
    → parse_loop u remote_options (flags mock_telegram verbose) false (default_args path)
      ≡ some (asked path mock_telegram verbose)
unfolding parse_args matches Dict.get text_eq starts_with
flags_parsed u path true true = refl
flags_parsed u path true false = refl
flags_parsed u path false true = refl
flags_parsed u path false false = refl

parse_remote-command_line :
    (u : Unicode) (path : Text) (mock_telegram verbose : Bool)
    → path ≢ codes "--"
    → parse_remote u (command_line path mock_telegram verbose)
      ≡ some (asked path mock_telegram verbose)
unfolding parse_remote parse_args matches Dict.get text_eq starts_with
parse_remote-command_line u path mock_telegram verbose h =
    ap (after_config remote_options u (flags mock_telegram verbose))
      (take_config-taken path (default_args (codes "remote/config.yaml")) h)
    ∙ flags_parsed u path mock_telegram verbose

-- how a start goes by what the file and the environment give, of which the file is read first
abbrev pub start_of : {E : Type 0} → Attempt E RemoteFile → Attempt E EnvConfig → Bool → Start E
start_of (threw x) env mock_telegram = uncaught x
start_of (got file) (threw x) mock_telegram = uncaught x
start_of (got (heartbeat, probe, dns)) (got e) mock_telegram =
    serving (launch (remote_config heartbeat probe dns) e mock_telegram)

begun-start_of :
    {E : Type 0}
    → (file : Attempt E RemoteFile) (env : Attempt E EnvConfig) (mock_telegram : Bool)
    → begun (
        (file then λ (heartbeat, probe, dns). got (remote_config heartbeat probe dns))
        then λ config. env then λ e. got (launch config e mock_telegram))
      ≡ start_of file env mock_telegram
begun-start_of (threw x) env mock_telegram = refl
begun-start_of (got file) (threw x) mock_telegram = refl
begun-start_of (got file) (got e) mock_telegram = refl

-- Whatever path but `--`, and whatever flags: the program that is started with the command line that
-- asks for them ends with the exception of reading the file at that path, if that raises; else with
-- the one of reading the environment, if that raises; and else gets as far as its server, with the
-- configuration of that file, that environment, and the flag for Telegram as it was asked for.
pub command_line_serves :
    {E : Type 0}
    → (u : Unicode) (files : Text → Attempt E RemoteFile) (env : Attempt E EnvConfig) (path : Text)
      (mock_telegram verbose : Bool)
    → path ≢ codes "--"
    → main u files env (command_line path mock_telegram verbose)
      ≡ start_of (files path) env mock_telegram
unfolding main start_with load_remote_config
command_line_serves u files env path mock_telegram verbose h =
    ap (λ o. elim o [ none ↦ exited | some a ↦ begun (start_with files env a) ])
      (parse_remote-command_line u path mock_telegram verbose h)
    ∙ begun-start_of (files path) env mock_telegram
