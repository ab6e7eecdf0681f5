-- ===== src/Local/Program/Accepted.antt =====
-- From an accepted file to a program of local/main.py that starts.
use mathlib.Core.Path.{subst}
use wan_router_notifications.Common.{
  ◌≡◌, ◌⊎◌, inl, inr, refl, sym, ap, ◌∙◌, Bool, true, false, not, ◌||◌, Option, none, some, arith,
  Bool-cases, if◌then◌else◌,
}
use wan_router_notifications.Common.Result.{returned, raised, returned-injective, bind-returned}
use wan_router_notifications.Common.Text.{Text, codes, text_eq, text_eq_iff}
use wan_router_notifications.Shared.Config.{
  validated, validate_snmp_auth_protocol, polling_config, router_config, local_config, LocalFile,
  LocalConfig, EnvConfig,
}
use wan_router_notifications.Local.Poller.{
  snmp, AuthProtocol, auth_protocol_of, choose_poller, hmac_md5, hmac_sha,
}
use wan_router_notifications.Local.SnmpPoller.{new_poller}
use wan_router_notifications.Local.Monitor.Start.{monitor_with, new_monitor}
use wan_router_notifications.Local.Program.{Program, launched, launch}

-- one of the two names that the poller knows
abbrev IsKnown : Text → Type 0
IsKnown v = (v ≡ codes "MD5") ⊎ (v ≡ codes "SHA")

raised-not_returned : {A : Type 0} (v : A) → ¬ (raised ≡ returned v)
raised-not_returned v e = cc

validate-IsKnown :
    (upper : Text → Text) (w v : Text)
    → validate_snmp_auth_protocol upper w ≡ returned v
    → IsKnown v
unfolding validate_snmp_auth_protocol
validate-IsKnown upper w v e =
    let md5 = text_eq_iff (upper w) (codes "MD5") in
    let sha = text_eq_iff (upper w) (codes "SHA") in
    let test = λ (b : Bool). if not b then raised else returned (upper w) in
    elim (Bool-cases (text_eq (upper w) (codes "MD5") || text_eq (upper w) (codes "SHA"))) [
      | inl known ↦
          let same = returned-injective (upper w) v (sym (ap test known) ∙ e) in
          subst IsKnown same (by_test md5.0 sha.0 known)
      | inr other ↦ absurd (raised-not_returned v (sym (ap test other) ∙ e))
    ]
  where
    by_test :
        (text_eq (upper w) (codes "MD5") ≡ true → upper w ≡ codes "MD5")
        → (text_eq (upper w) (codes "SHA") ≡ true → upper w ≡ codes "SHA")
        → (text_eq (upper w) (codes "MD5") || text_eq (upper w) (codes "SHA")) ≡ true
        → IsKnown (upper w)
    by_test m s h = elim (Bool-cases (text_eq (upper w) (codes "MD5"))) [
      | inl a ↦ inl (m a)
      | inr a ↦ inr (s (ground (arith, h, a)))
    ]

config-IsKnown :
    (upper : Text → Text) (f : LocalFile) (config : LocalConfig)
    → local_config upper f ≡ returned config
    → IsKnown config.router.snmp_auth_protocol
unfolding local_config router_config
config-IsKnown upper f config e =
    let (r, (er, e1)) = bind-returned (router_config upper f) _ config e in
    let (p, (ep, e2)) =
      bind-returned (polling_config f.normal_interval f.alert_interval f.recovery_threshold) _
        config e1 in
    let (v, (ev, e3)) =
      bind-returned
        (validated (validate_snmp_auth_protocol upper) f.snmp_auth_protocol (codes "MD5")) _ r er in
    let router = returned-injective _ r e3 in
    let whole = returned-injective _ config e2 in
    subst (λ c. IsKnown c.router.snmp_auth_protocol) whole
      (subst (λ q. IsKnown q.snmp_auth_protocol) router (by_field f.snmp_auth_protocol v ev))
  where
    by_field :
        (o : Option Text) (v : Text)
        → validated (validate_snmp_auth_protocol upper) o (codes "MD5") ≡ returned v
        → IsKnown v
    by_field none v e = inl (sym (returned-injective (codes "MD5") v e))
    by_field (some w) v e = validate-IsKnown upper w v e

known-auth_protocol_of :
    (upper : Text → Text) (v : Text)
    → upper (codes "MD5") ≡ codes "MD5"
    → upper (codes "SHA") ≡ codes "SHA"
    → IsKnown v
    → (a : AuthProtocol) × (auth_protocol_of upper v ≡ returned a)
unfolding auth_protocol_of text_eq
known-auth_protocol_of upper v m s (inl e) = (hmac_md5, rw (e, m) refl)
known-auth_protocol_of upper v m s (inr e) = (hmac_sha, rw (e, s) refl)

-- Where capitals stay as they are and a file is accepted as the local configuration: the constructor
-- of the monitor that is made of it raises nothing, with the poller or its mock, and the program is
-- launched.
pub accepted_launches :
    (upper : Text → Text) (f : LocalFile) (config : LocalConfig) (env : EnvConfig)
    (mock_snmp mock_telegram : Bool)
    → upper (codes "MD5") ≡ codes "MD5"
    → upper (codes "SHA") ≡ codes "SHA"
    → local_config upper f ≡ returned config
    → (p : Program) × (launch upper config env mock_snmp mock_telegram ≡ returned p)
unfolding launch new_monitor choose_poller
accepted_launches upper f config env true mock_telegram m s e = (_, refl)
accepted_launches upper f config env false mock_telegram m s e =
    let (a, known) =
      known-auth_protocol_of upper config.router.snmp_auth_protocol m s
        (config-IsKnown upper f config e) in
    let router = config.router in
    let poller' = snmp (new_poller router.wan_gateways router.wan_interfaces) in
    (launched config.syslog.enabled (monitor_with config env mock_telegram poller'), rw known refl)
