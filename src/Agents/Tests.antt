-- ===== src/Agents/Tests.antt =====
-- Runs of the response agent and of the orchestrator of agents/.
use erp_security.Prelude.{List, String, none, some, Bool, true, false, ◌≡◌, refl, [], ◌∷◌, All}
use erp_security.Prelude.Dict.{get}
use erp_security.Agents.{AgentAction, ActionType, ApprovalStatus}
use erp_security.Agents.Response.{
  ResponseAgent, SecurityAlert, Ids, failed, value_error, reject_action, revoke_action,
  formulate_response_plan, Severity, ThreatCategory,
}
use erp_security.Agents.Response.Plan.{RunsAlone, WaitsForHuman, plan-WaitsForHuman}
use erp_security.Agents.Response.Lifecycle.{revoke, decide_all, reject_strands_containment}
use erp_security.Agents.Orchestrator.{
  SecurityOrchestrator, approve_action as authorize, process_security_event,
}
use erp_security.Agents.Orchestrator.Approval.{answer, approval_suspends}
use erp_security.Agents.Orchestrator.Enforcement.{EngineFree, event_suspends_nobody}
use erp_security.StateStore.{get_hash_entry}
use erp_security.StateStore.Interface.{SharedStore}
use erp_security.StateStore.Memory.{memory_store}
use erp_security.Mitigation.Calls.{Call, apply, evaluate}
use erp_security.Mitigation.State.{Shared, MitigationEngine, init}

abbrev ids : Ids
ids = record { rate_limit_id = "a"; challenge_id = "b"; quarantine_id = "c"; suspend_id = "d" }

abbrev stuffing : SecurityAlert
stuffing = record {
  severity = Severity.critical;
  threat_category = ThreatCategory.credential_stuffing;
  target_entity = "eve";
}

abbrev action : ActionType → ApprovalStatus → AgentAction
action kind status = record {
  action_type = kind;
  target_entity = "eve";
  justification = "test";
  action_id = "a";
  reversible = true;
  requires_human_approval = false;
  approval_status = status;
  created_at = 0;
  approved_by = none;
  approved_at = none;
  executed_at = none;
  revoked_at = none;
  duration_seconds = none;
  parameters = [];
}

-- An agent whose one action, "a", is of a kind and in a status.
abbrev agent : ActionType → ApprovalStatus → ResponseAgent
agent kind status = record {
  actions_registry = ("a", action kind status) ∷ [];
  active_rate_limits = [];
  active_quarantined_ips = ("eve", "test") ∷ [];
  active_challenges = [];
}

abbrev quarantining : ResponseAgent
quarantining = agent ActionType.quarantine_ip_temp ApprovalStatus.executed

abbrev suspending : ResponseAgent
suspending = agent ActionType.suspend_account ApprovalStatus.pending_human_approval

plan-WaitsForHuman_example :
    let plan = (formulate_response_plan stuffing ids 10 quarantining).1 in
    All RunsAlone plan.auto_executed_actions × All WaitsForHuman plan.pending_human_actions
plan-WaitsForHuman_example = plan-WaitsForHuman stuffing ids 10 quarantining

reject_strands_containment_example :
    let r' = (reject_action "a" "ann" "no" 5 quarantining).0 in
    (r'.active_rate_limits ≡ [])
    × (r'.active_quarantined_ips ≡ ("eve", "test") ∷ [])
    × (r'.active_challenges ≡ [])
    × ((revoke_action "a" none 9 (decide_all (revoke "a" none 7 ∷ []) r')).1 ≡ failed value_error)
unfolding get
reject_strands_containment_example =
    reject_strands_containment "a" "ann" "no" 5 9 none (revoke "a" none 7 ∷ []) quarantining
      (action ActionType.quarantine_ip_temp ApprovalStatus.executed) refl refl

abbrev st : SharedStore Shared
st = memory_store Shared

abbrev nobody : String → Bool
nobody ip = false

abbrev engine : MitigationEngine st
unfolding memory_store
engine = init st (record { nonces = []; sets = []; hashes = [] })

abbrev orchestrator : SecurityOrchestrator st nobody
orchestrator = record {
  enabled = true;
  mitigation_engine = some engine;
  response_agent = suspending;
}

engine-free : EngineFree st nobody "eve" (some engine)
unfolding engine init memory_store get get_hash_entry
engine-free = record { here = refl; shared = refl }

event_suspends_nobody_example :
    EngineFree st nobody "eve"
      (process_security_event st nobody (some stuffing) ids 10 orchestrator).0.mitigation_engine
event_suspends_nobody_example =
    event_suspends_nobody st nobody (some stuffing) ids 10 "eve" orchestrator engine-free

-- A request of the account and another action come after the approval.
abbrev later_calls : List Call
later_calls =
    evaluate 6 "203.0.113.7" (some "eve") none
    ∷ apply 7 (action ActionType.rate_limit ApprovalStatus.auto_approved)
    ∷ []

approval_suspends_example :
    answer st nobody later_calls 9 "203.0.113.7"
      (some "eve")
      none
      (authorize st nobody "a" "ann" 5 orchestrator).0.mitigation_engine
    ≡ some (some ActionType.suspend_account, 403)
unfolding get
approval_suspends_example =
    approval_suspends st nobody "a" "ann" 5 9 later_calls "203.0.113.7" none orchestrator
      (action ActionType.suspend_account ApprovalStatus.pending_human_approval) engine refl refl
      refl refl refl (refl, (refl, tt))
