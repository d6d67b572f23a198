-- ===== src/Agents/Orchestrator.antt =====
-- The orchestrator of agents/orchestrator.py: how plans and the decisions of analysts reach the
-- mitigation engine. The agents that only read (detection, threat intelligence, investigation)
-- enter by the alert that they raise, if any; audit records, and the registries of alerts,
-- incidents and plans that only reports read, are left out. `none` is an orchestrator without an
-- engine.
pub mod Enforcement
pub mod Approval
use erp_security.Prelude.{
  ℕ, String, Option, none, some, Bool, true, false, if◌then◌else◌, List, [], ◌∷◌,
}
use erp_security.Agents.{AgentAction, ApprovalStatus}
use erp_security.Agents.Response
use erp_security.Agents.Response.{
  ResponseAgent, ResponsePlan, SecurityAlert, Ids, Result, ok, failed,
}
use erp_security.StateStore.Interface.{SharedStore}
use erp_security.Mitigation.State.{Shared, MitigationEngine}
use erp_security.Mitigation.Apply.{apply_action, rollback_action, is_approved}

module _ (st : SharedStore Shared) (whitelisted : String → Bool) where
  pub record SecurityOrchestrator : Type 0 where
    pub enabled : Bool
    pub mitigation_engine : Option (MitigationEngine st)
    pub response_agent : ResponseAgent

  -- `apply_action` on each action in turn; an exception is logged and passed over.
  unfoldable pub apply_all : ℕ → List AgentAction → MitigationEngine st → MitigationEngine st
  apply_all now [] e = e
  apply_all now (a ∷ as') e = apply_all now as' (apply_action st whitelisted now a e).0

  abbrev pub on_engine :
      (MitigationEngine st → MitigationEngine st)
      → Option (MitigationEngine st)
      → Option (MitigationEngine st)
  on_engine f none = none
  on_engine f (some e) = some (f e)

  unfoldable pub respond :
      SecurityAlert → Ids → ℕ → SecurityOrchestrator → SecurityOrchestrator × ResponsePlan
  unfolding apply_all
  respond alert ids now o =
      let (agent, plan) = Response.formulate_response_plan alert ids now o.response_agent in
      (
        record o {
          response_agent = agent;
          mitigation_engine =
              on_engine (apply_all now plan.auto_executed_actions) o.mitigation_engine;
        },
        plan,
      )

  -- `process_security_event`, from the result of the detection.
  unfoldable pub process_security_event :
      Option SecurityAlert
      → Ids
      → ℕ
      → SecurityOrchestrator
      → SecurityOrchestrator × Option ResponsePlan
  unfolding respond
  process_security_event alert ids now o =
      if o.enabled
      then (elim alert [
        | none ↦ (o, none)
        | some a ↦ let (o', plan) = respond a ids now o in (o', some plan)
      ])
      else (o, none)

  -- A `KeyError` or `ValueError` of the agent ends the call before the engine is reached.
  abbrev pub enforce : ℕ → Result → Option (MitigationEngine st) → Option (MitigationEngine st)
  enforce now (failed f) engine = engine
  enforce now (ok a) engine =
      if is_approved a.approval_status
      then on_engine (λ e. (apply_action st whitelisted now a e).0) engine
      else engine

  unfoldable pub approve_action :
      String → String → ℕ → SecurityOrchestrator → SecurityOrchestrator × Result
  approve_action action_id analyst_id now o =
      let (agent, result) = Response.approve_action action_id analyst_id now o.response_agent in
      (
        record o {
          response_agent = agent;
          mitigation_engine = enforce now result o.mitigation_engine;
        },
        result,
      )

  unfoldable pub reject_action :
      String → String → String → ℕ → SecurityOrchestrator → SecurityOrchestrator × Result
  reject_action action_id analyst_id reason now o =
      let (agent, result) =
        Response.reject_action action_id analyst_id reason now o.response_agent in
      (record o { response_agent = agent }, result)

  abbrev pub undo : String → Result → Option (MitigationEngine st) → Option (MitigationEngine st)
  undo action_id (failed f) engine = engine
  undo action_id (ok a) engine = on_engine (λ e. (rollback_action st action_id e).0) engine

  unfoldable pub revoke_action :
      String → Option String → ℕ → SecurityOrchestrator → SecurityOrchestrator × Result
  revoke_action action_id analyst_id now o =
      let (agent, result) = Response.revoke_action action_id analyst_id now o.response_agent in
      (
        record o {
          response_agent = agent;
          mitigation_engine = undo action_id result o.mitigation_engine;
        },
        result,
      )
