-- ===== src/Local/SnmpPoller/Queries.antt =====
-- The two SNMP queries of local/snmp_poller.py. How `get_cmd` of pysnmp ends is an argument.
use wan_router_notifications.Common.{ℕ, Bool, List, [], ◌∷◌, Option, none, some, ◌==◌}
use wan_router_notifications.Common.Text.{Text}
use wan_router_notifications.Common.Dict
use wan_router_notifications.Common.Dict.{Dict}

-- An exception, an error indication or status, or the printed values of the variable bindings.
pub data Answer : Type 0 where
  failed : Answer
  error : Answer
  bound : List Text → Answer

-- `_get_next_hop`
unfoldable pub next_hop : Answer → Option Text
next_hop failed = none
next_hop error = none
next_hop (bound []) = none
next_hop (bound (value ∷ rest)) = some value

-- The same for a link query, whose values are read as integers; `none` where `int` raises.
pub data LinkAnswer : Type 0 where
  failed : LinkAnswer
  error : LinkAnswer
  bound : List (Option ℕ) → LinkAnswer

-- the loop over the variable bindings; an exception ends it, and what it wrote before stays
pub bind_link : Text → List (Option ℕ) → Dict Bool → Dict Bool
bind_link name [] results = results
bind_link name (none ∷ rest) results = results
bind_link name (some value ∷ rest) results =
    bind_link name rest (Dict.set results name (value == 1))

pub link_result : Text → LinkAnswer → Dict Bool → Dict Bool
unfolding bind_link
link_result name failed results = results
link_result name error results = results
link_result name (bound values) results = bind_link name values results

link_results : (Text → LinkAnswer) → Dict ℕ → Dict Bool → Dict Bool
unfolding link_result
link_results links [] results = results
link_results links ((name, if_index) ∷ d) results =
    link_results links d (link_result name (links name) results)

-- `_get_if_oper_status`: the answers are given by the name of the interface, whose index is in the
-- query
unfoldable pub if_oper_status : (Text → LinkAnswer) → Dict ℕ → Dict Bool
unfolding link_results
if_oper_status links wan_interfaces = link_results links wan_interfaces []
