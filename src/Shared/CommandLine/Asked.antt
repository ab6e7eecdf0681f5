-- ===== src/Shared/CommandLine/Asked.antt =====
-- Command lines that ask for given values, as the parser of the two programs reads them.
use wan_router_notifications.Common.{
  ◌≡◌, ◌≢◌, refl, Bool, true, false, List, ◌∷◌, Option, none, if◌then◌else◌,
}
use wan_router_notifications.Common.Text.{Text, codes, text_eq_ne}
use wan_router_notifications.Common.Dict.{Dict}
use wan_router_notifications.Common.Unicode.{Unicode}
use wan_router_notifications.Shared.CommandLine.{
  Action, Args, Outcome, ended, taken, wanting, take_config, parse_loop,
}

abbrev pub flag : Bool → Text → List Text → List Text
flag on name rest = if on then name ∷ rest else rest

pub take_config-taken :
    (e : Text) (a : Args) → e ≢ codes "--" → take_config e a ≡ taken (record a { config = e })
take_config-taken e a h = rw (text_eq_ne e (codes "--") h) refl

-- the rest of the arguments after the first
abbrev pub after_config : Dict Action → Unicode → List Text → Outcome → Option Args
after_config options u rest o = elim o [
  | ended ↦ none
  | taken b ↦ parse_loop u options rest false b
  | wanting b ↦ parse_loop u options rest true b
]
