-- ===== src/Local/Main/Launches.antt =====
-- The command lines of local/main.py.
use wan_router_notifications.Common.{
  ◌≡◌, ◌≢◌, refl, ap, ◌∙◌, Bool, true, false, List, [], ◌∷◌, ◌++◌, Option, none, some,
}
use wan_router_notifications.Common.Result.{Result, returned, raised}
use wan_router_notifications.Common.Text.{Text, codes, text_eq, starts_with}
use wan_router_notifications.Common.Dict
use wan_router_notifications.Common.Unicode.{Unicode}
use wan_router_notifications.Shared.Config.{LocalConfig, EnvConfig, LocalFile, local_config}
use wan_router_notifications.Shared.CommandLine.Asked.{flag, take_config-taken, after_config}
use wan_router_notifications.Shared.CommandLine.{
  Args, default_args, matches, parse_loop, parse_args,
}
use wan_router_notifications.Local.Program.{Program, launch}
use wan_router_notifications.Local.Program.Accepted.{accepted_launches}
use wan_router_notifications.Local.Main.{
  local_options, parse_local, load_local_config, start_with, main,
}

-- the arguments that ask for given values
abbrev pub command_line : Args → List Text
command_line a =
    (codes "--config=" ++ a.config)
    ∷ flag a.mock_snmp (codes "--mock-snmp")
        (flag a.mock_telegram (codes "--mock-telegram") (flag a.verbose (codes "--verbose") []))

flags_parsed :
    (u : Unicode) (config : Text) (mock_snmp mock_telegram verbose : Bool)
    → parse_loop u local_options
        (flag mock_snmp
          (codes "--mock-snmp")
          (flag mock_telegram (codes "--mock-telegram") (flag verbose (codes "--verbose") [])))
        false
        (default_args config)
      ≡ some record {
        config = config;
        mock_snmp = mock_snmp;
        mock_telegram = mock_telegram;
        verbose = verbose;
      }
unfolding parse_args matches Dict.get text_eq starts_with
flags_parsed u config true true true = refl
flags_parsed u config true true false = refl
flags_parsed u config true false true = refl
flags_parsed u config true false false = refl
flags_parsed u config false true true = refl
flags_parsed u config false true false = refl
flags_parsed u config false false true = refl
flags_parsed u config false false false = refl

-- Whatever path but `--`, and whatever flags: the command line that asks for them is parsed to them.
pub parse_local-command_line :
    (u : Unicode) (a : Args) → a.config ≢ codes "--" → parse_local u (command_line a) ≡ some a
unfolding parse_local parse_args matches Dict.get text_eq starts_with
parse_local-command_line u a h =
    ap
      (after_config local_options u (
        flag a.mock_snmp (codes "--mock-snmp")
          (flag a.mock_telegram (codes "--mock-telegram") (flag a.verbose (codes "--verbose") []))))
      (take_config-taken a.config (default_args (codes "local/config.yaml")) h)
    ∙ flags_parsed u a.config a.mock_snmp a.mock_telegram a.verbose

abbrev started :
    Unicode → (Text → Text) → (Text → Result LocalFile) → EnvConfig → Option Args → Result Program
started u upper files e o = elim o [
  | none ↦ raised
  | some a ↦ start_with upper files (returned e) a
]

-- Where capitals stay as they are, the file at the path of some arguments is accepted as the local
-- configuration, the environment is read, and the path is not `--`: the program that is started with
-- the command line of these arguments gets as far as its loop, with that configuration and environment
-- and the flags that were asked for.
pub main-launch :
    (u : Unicode) (upper : Text → Text) (files : Text → Result LocalFile) (e : EnvConfig) (a : Args)
    (f : LocalFile) (config : LocalConfig)
    → upper (codes "MD5") ≡ codes "MD5"
    → upper (codes "SHA") ≡ codes "SHA"
    → files a.config ≡ returned f
    → local_config upper f ≡ returned config
    → a.config ≢ codes "--"
    → (p : Program) × ((launch upper config e a.mock_snmp a.mock_telegram ≡ returned p)
        × (main u upper files (returned e) (command_line a) ≡ returned p))
unfolding main start_with load_local_config
main-launch u upper files e a f config md5 sha found accepted named =
    let (p, launches) =
      accepted_launches upper f config e a.mock_snmp a.mock_telegram md5 sha accepted in
    (
      p,
      (
        launches,
        ap (λ o. started u upper files e o) (parse_local-command_line u a named)
            ∙ rw (found, accepted) launches,
      ),
    )
