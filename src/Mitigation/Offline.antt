-- ===== src/Mitigation/Offline.antt =====
-- The engine of gateway/mitigation_engine.py over class DistributedStateStore of
-- gateway/state_store.py, while Redis cannot be reached.
use erp_security.Prelude.{ℕ, String, Bool, true, false, ◌≡◌}
use erp_security.Agents.{AgentAction}
use erp_security.StateStore.Distributed.{Redis}
use erp_security.StateStore.Distributed.Offline.{offline_store}
use erp_security.Mitigation.State.{Shared, MitigationEngine}
use erp_security.Mitigation.Apply.{returned, apply_action, rollback_action}
use erp_security.Mitigation.Rollback.{IsFresh, SameView, rollback-apply}

-- While Redis cannot be reached, a rollback takes back exactly what the action did: over the
-- distributed store without a connection, where nothing was on record for the target or under the
-- id of an action that was then applied, its rollback succeeds and leaves an engine that no look-up
-- in its dictionaries or its store tells apart from the one before the action. Over a Redis that
-- answers, whose `expire` is of a whole hash and whose calls may fail, it states nothing.
pub rollback-apply_offline :
    (redis : Redis Shared)
    (unreachable : (now : ℕ) (server : redis.Server) → (redis.connect now server).0 ≡ false)
    (clock : ℕ) (whitelisted : String → Bool) (now : ℕ) (a : AgentAction)
    (e : MitigationEngine (offline_store redis unreachable clock))
    → IsFresh (offline_store redis unreachable clock) a e
    → (apply_action (offline_store redis unreachable clock) whitelisted now a e).1 ≡ returned true
    → let st = offline_store redis unreachable clock in
      let (e', undone) = rollback_action st a.action_id (apply_action st whitelisted now a e).0 in
      (undone ≡ true) × SameView st e' e
rollback-apply_offline redis unreachable clock =
    rollback-apply (offline_store redis unreachable clock)
