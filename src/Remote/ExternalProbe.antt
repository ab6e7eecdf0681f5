-- ===== src/Remote/ExternalProbe.antt =====
-- remote/external_probe.py. How the HTTP request and each TCP connection end are arguments.
mod Tests
use wan_router_notifications.Common.{
  ℕ, ◌≡◌, refl, ◌≢◌, ◌↔◌, ◌⊎◌, inl, inr, Bool, true, false, not, ◌&&◌, ◌||◌, List, [], ◌∷◌, ◌++◌,
  arith, if◌then◌else◌,
}
use wan_router_notifications.Common.Text.{Text, is_truthy}

pub data ProbeResult : Type 0 where
  reachable unreachable disabled : ProbeResult

pub record ExternalProbe : Type 0 where
  pub target_ip : Text
  pub enabled : Bool

unfoldable pub new_probe : Text → Bool → ExternalProbe
unfolding is_truthy
new_probe target_ip enabled = record {
  target_ip = target_ip;
  enabled = enabled && is_truthy target_ip;
}

-- Any response, or an exception: an `httpx.HTTPError` and any other are treated alike.
pub data HttpOutcome : Type 0 where
  response http_error : HttpOutcome

abbrev pub probe_ports : List ℕ
probe_ports = 80 ∷ 443 ∷ 22 ∷ []

-- The loop over the ports: the result, and the ports that were tried. `connects` says whether the
-- connection to a port is made and closed again without an exception.
pub try_ports : (ℕ → Bool) → List ℕ → ProbeResult × List ℕ
try_ports connects [] = (unreachable, [])
try_ports connects (port ∷ ports) =
    let (result, tried) = try_ports connects ports in
    if connects port then (reachable, port ∷ []) else (result, port ∷ tried)

-- `check`: the result, and the ports that were tried
unfoldable pub check : ExternalProbe → HttpOutcome → (ℕ → Bool) → ProbeResult × List ℕ
check p http connects =
    if not p.enabled
    then (disabled, [])
    else elim http [ response ↦ (reachable, []) | http_error ↦ try_ports connects probe_ports ]

-- A probe that is enabled finds the target reachable exactly if the HTTP request got a response or
-- one of the ports 80, 443 and 22 accepts a connection, and unreachable exactly if neither; a probe
-- that is off always says disabled. `check` has no other result.
check_result :
    (p : ExternalProbe) (http : HttpOutcome) (connects : ℕ → Bool)
    → (((check p http connects).0 ≡ disabled) ↔ (p.enabled ≡ false))
      × (((check p http connects).0 ≡ reachable) ↔ (
          (p.enabled ≡ true)
          × ((http ≡ response) ⊎ ((connects 80 || (connects 443 || connects 22)) ≡ true))))
unfolding check try_ports
check_result p response connects =
    ((λ h. ground arith, λ h. ground arith), (λ h. (ground arith, inl refl), λ h. ground arith))
check_result p http_error connects = (
  (λ h. ground arith, λ h. ground arith),
  (λ h. (ground arith, inr (ground arith)), λ h. ground (arith, h.0, h.1)),
)
