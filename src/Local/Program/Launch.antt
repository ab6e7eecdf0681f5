-- ===== src/Local/Program/Launch.antt =====
-- From the configuration to a running program of local/main.py.
use mathlib.Core.Path.{subst}
use wan_router_notifications.Common.{◌≡◌, refl, sym, Bool, true, false, List}
use wan_router_notifications.Common.Result.{returned, returned-injective, bind-returned}
use wan_router_notifications.Common.Text.{Text}
use wan_router_notifications.Shared.Config.{LocalConfig, EnvConfig}
use wan_router_notifications.Local.SyslogReceiver.Patterns.{Unicode}
use wan_router_notifications.Local.SyslogReceiver.{new_receiver, add_callback}
use wan_router_notifications.Local.Monitor.Start.{new_monitor}
use wan_router_notifications.Local.Monitor.{Monitor, run as monitor_run}
use wan_router_notifications.Local.Program.Own.{owns}
use wan_router_notifications.Local.Program.Wiring.{IsWired, run-owns}
use wan_router_notifications.Local.Program.{Program, Event, receiver_for, launched, launch, run}

receiver_for-IsWired : (enabled : Bool) → IsWired (receiver_for enabled)
unfolding add_callback new_receiver
receiver_for-IsWired false = tt
receiver_for-IsWired true = refl

-- A program that is launched has a monitor that is made.
pub launch-launched :
    (upper : Text → Text) (config : LocalConfig) (env : EnvConfig) (mock_snmp mock_telegram : Bool)
    (p : Program)
    → launch upper config env mock_snmp mock_telegram ≡ returned p
    → (m : Monitor) × ((new_monitor upper config env mock_snmp mock_telegram ≡ returned m)
        × (launched config.syslog.enabled m ≡ p))
unfolding launch
launch-launched upper config env mock_snmp mock_telegram p e =
    let (m, (made, same)) =
      bind-returned (new_monitor upper config env mock_snmp mock_telegram)
        (λ m. returned (launched config.syslog.enabled m)) p e in
    (m, (made, returned-injective (launched config.syslog.enabled m) p same))

pub launch-IsWired :
    (upper : Text → Text) (config : LocalConfig) (env : EnvConfig) (mock_snmp mock_telegram : Bool)
    (p : Program)
    → launch upper config env mock_snmp mock_telegram ≡ returned p
    → IsWired p.receiver
launch-IsWired upper config env mock_snmp mock_telegram p e =
    let (m, (made, same)) = launch-launched upper config env mock_snmp mock_telegram p e in
    subst (λ q. IsWired q.receiver) same (receiver_for-IsWired config.syslog.enabled)

-- Where the program is launched, whatever then happens, signals and datagrams included: its monitor is
-- at every moment where the monitor of the constructor is brought by those of the events that are its
-- own, a syslog event for each datagram that is received and parses among them.
pub program_refines :
    (u : Unicode) (upper : Text → Text) (config : LocalConfig) (env : EnvConfig)
    (mock_snmp mock_telegram : Bool) (p : Program) (es : List Event)
    → launch upper config env mock_snmp mock_telegram ≡ returned p
    → (m : Monitor) × ((new_monitor upper config env mock_snmp mock_telegram ≡ returned m)
        × ((run u es p).monitor ≡ monitor_run (owns u es p) m))
program_refines u upper config env mock_snmp mock_telegram p es e =
    let (m, (made, same)) = launch-launched upper config env mock_snmp mock_telegram p e in
    (
      m,
      (
        made,
        subst (λ q. (run u es p).monitor ≡ monitor_run (owns u es p) q.monitor) (sym same)
            (run-owns u es p (launch-IsWired upper config env mock_snmp mock_telegram p e)),
      ),
    )
