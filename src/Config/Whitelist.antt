-- ===== src/Config/Whitelist.antt =====
-- What the whitelist of gateway/config.py protects from the engine of
-- gateway/mitigation_engine.py.
use erp_security.Prelude.{String, Option, none, some, true, ◌≡◌, ◌≢◌, arith, List, ℕ}
use erp_security.Prelude.Text.{truthy, member}
use erp_security.Config.{IpAddress, clean_ip, local_hosts, is_ip_whitelisted}
use erp_security.Agents.{ActionType}
use erp_security.StateStore.Interface.{SharedStore}
use erp_security.Mitigation.State.{Shared, MitigationEngine}
use erp_security.Mitigation.Calls.{Call, run}
use erp_security.Mitigation.Evaluate.{evaluate_request}
use erp_security.Mitigation.Quarantine.{SparesWhitelist, whitelisted_not_quarantined}

-- The gateway never locks out its own host: whatever the whitelist holds, from an engine in which
-- no quarantine on record is of a whitelisted address, after any calls, a request from a local host
-- without a principal is not answered as quarantined.
pub local_host_not_quarantined :
    (ip : IpAddress) (ws : List String) (st : SharedStore Shared) (cs : List Call)
    (e : MitigationEngine st) (now : ℕ) (host : String) (token : Option String)
    → truthy host ≡ true
    → member (clean_ip host) local_hosts ≡ true
    → SparesWhitelist st (is_ip_whitelisted ip ws) e
    → (evaluate_request st now host none token (run st (is_ip_whitelisted ip ws) cs e)).0.action
      ≢ some ActionType.quarantine_ip_temp
local_host_not_quarantined ip ws st cs e now host token named local spares =
    whitelisted_not_quarantined st (is_ip_whitelisted ip ws) cs e now host token spares
      (unfold is_ip_whitelisted in ground arith)
