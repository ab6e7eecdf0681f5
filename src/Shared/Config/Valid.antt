-- ===== src/Shared/Config/Valid.antt =====
-- Which files are accepted as the configuration of the local monitor.
use wan_router_notifications.Common.{
  ◌≡◌, refl, ◌↔◌, ◌⊎◌, Option, none, some, arith, Bool-cases, inl, inr,
}
use wan_router_notifications.Common.Int.{ℤ, pos, ◌≤ℤ◌, ltb_ℤ}
use wan_router_notifications.Common.Result.{Result, returned, raised, ◌>>=◌, bind-returned}
use wan_router_notifications.Common.Text.{Text, codes, text_eq, text_eq_iff}
use wan_router_notifications.Shared.Config.{
  validated, validate_interval, validate_snmp_auth_protocol, polling_config, router_config,
  local_config, LocalFile,
}

abbrev pub Returns {ℓ} : {A : Type ℓ} → Result A → Type ℓ
Returns {A = A} r = (v : A) × (r ≡ returned v)

-- a field is left out, or has a value of the kind
abbrev pub Allowed : {A : Type 0} → (A → Type 0) → Option A → Type 0
Allowed P none = Unit {0}
Allowed P (some v) = P v

abbrev pub LongEnough : ℤ → Type 0
LongEnough v = pos 10 ≤ℤ v

abbrev pub KnownProtocol : (Text → Text) → Text → Type 0
KnownProtocol upper v = (upper v ≡ codes "MD5") ⊎ (upper v ≡ codes "SHA")

abbrev pub Accepted : (Text → Text) → LocalFile → Type 0
Accepted upper f =
    Allowed (KnownProtocol upper) f.snmp_auth_protocol
    × Allowed LongEnough f.normal_interval
    × Allowed LongEnough f.alert_interval

raised-Returns : {A : Type 0} → ¬ Returns {A = A} raised
raised-Returns (v, e) = cc

validate_interval-Returns : (v : ℤ) → Returns (validate_interval v) ↔ LongEnough v
unfolding validate_interval
validate_interval-Returns v = elim (Bool-cases (ltb_ℤ v (pos 10))) [
  | inl small ↦ rw small (λ r. elim (raised-Returns r) [ ], λ h. ground arith)
  | inr large ↦ rw large (λ r. ground arith, λ h. (v, refl))
]

protocol-Returns :
    (upper : Text → Text) (v : Text)
    → Returns (validate_snmp_auth_protocol upper v) ↔ KnownProtocol upper v
unfolding validate_snmp_auth_protocol
protocol-Returns upper v =
    let md5 = text_eq_iff (upper v) (codes "MD5") in
    let sha = text_eq_iff (upper v) (codes "SHA") in
    elim (Bool-cases (text_eq (upper v) (codes "MD5"))) [
      | inl m ↦ rw m (λ r. inl (md5.0 m), λ h. (upper v, refl))
      | inr m ↦ rw m (elim (Bool-cases (text_eq (upper v) (codes "SHA"))) [
        | inl s ↦ rw s (λ r. inr (sha.0 s), λ h. (upper v, refl))
        | inr s ↦ rw s (λ r. elim (raised-Returns r) [ ], λ h. ground (arith, h, md5, sha, m, s))
      ])
    ]

validated-Returns :
    {A : Type 0} (P : A → Type 0) (validate : A → Result A) (default : A)
    → ((v : A) → Returns (validate v) ↔ P v)
    → (o : Option A) → Returns (validated validate o default) ↔ Allowed P o
validated-Returns P validate default h none = (λ r. tt, λ u. (default, refl))
validated-Returns P validate default h (some v) = h v

bind-Returns :
    {A B : Type 0} (r : Result A) (f : A → Result B)
    → Returns r
    → ((a : A) → Returns (f a))
    → Returns (r >>= f)
bind-Returns r f (a, e) h = rw e (h a)

-- For every file: it is accepted as the configuration of the local monitor exactly where the
-- protocol, if it is given, is MD5 or SHA in capitals, and each of the two intervals, if it is given,
-- is at least 10.
pub local_config-Accepted :
    (upper : Text → Text) (f : LocalFile) → Returns (local_config upper f) ↔ Accepted upper f
unfolding local_config router_config polling_config
local_config-Accepted upper f =
    let protocol =
      validated-Returns (KnownProtocol upper) (validate_snmp_auth_protocol upper) (codes "MD5")
        (protocol-Returns upper) f.snmp_auth_protocol in
    let normal =
      validated-Returns LongEnough validate_interval (pos 60) validate_interval-Returns
        f.normal_interval in
    let alert =
      validated-Returns LongEnough validate_interval (pos 15) validate_interval-Returns
        f.alert_interval in
    (
      λ (c, e).
          let (r, (er, e1)) = bind-returned (router_config upper f) _ c e in
          let (p, (ep, e2)) =
            bind-returned (polling_config f.normal_interval f.alert_interval f.recovery_threshold) _
              c e1 in
          let (v, (ev, e3)) =
            bind-returned
              (validated (validate_snmp_auth_protocol upper) f.snmp_auth_protocol (codes "MD5")) _ r
              er in
          let (n, (en, e4)) =
            bind-returned (validated validate_interval f.normal_interval (pos 60)) _ p ep in
          let (a, (ea, e5)) =
            bind-returned (validated validate_interval f.alert_interval (pos 15)) _ p e4 in
          (protocol.0 (v, ev), normal.0 (n, en), alert.0 (a, ea)),
      λ (p, n, a).
          bind-Returns (router_config upper f) _
            (bind-Returns
              (validated (validate_snmp_auth_protocol upper) f.snmp_auth_protocol (codes "MD5")) _
              (protocol.1 p) (λ v. (_, refl)))
            (λ r.
              bind-Returns (polling_config f.normal_interval f.alert_interval f.recovery_threshold)
                _
                (bind-Returns (validated validate_interval f.normal_interval (pos 60)) _
                  (normal.1 n)
                  (λ v.
                    bind-Returns (validated validate_interval f.alert_interval (pos 15)) _
                      (alert.1 a) (λ w. (_, refl))))
                (λ q. (_, refl))),
    )
