-- ===== src/Agents/Orchestrator/Approval.antt =====
-- What the approval of an analyst does, from agents/orchestrator.py to the answers of the engine.
use erp_security.Prelude.{
  ℕ, String, Option, none, some, Bool, true, false, ◌≡◌, refl, arith, eq_refl, List, All,
}
use erp_security.Prelude.Dict.{get, get-put}
use erp_security.Prelude.Text.{truthy}
use erp_security.Agents.{AgentAction, ActionType, ApprovalStatus}
use erp_security.Agents.Response.Lifecycle.{approves_once}
use erp_security.StateStore.Interface.{SharedStore}
use erp_security.Mitigation.State.{Shared, MitigationEngine}
use erp_security.Mitigation.Apply.{apply_action, route, suspend}
use erp_security.Mitigation.Evaluate.{evaluate_request}
use erp_security.Mitigation.Calls.{Call, run}
use erp_security.Mitigation.Suspended.{
  is_rollback, IsSuspended, run-IsSuspended, evaluate-IsSuspended,
}
use erp_security.Agents.Orchestrator.{SecurityOrchestrator, approve_action}

module _ (st : SharedStore Shared) (whitelisted : String → Bool) where
  -- How an engine, if there is one, answers a request after some calls.
  unfoldable pub answer :
      List Call
      → ℕ
      → String
      → Option String
      → Option String
      → Option (MitigationEngine st)
      → Option (Option ActionType × ℕ)
  answer cs now ip q token none = none
  answer cs now ip q token (some e) =
      let decision = (evaluate_request st now ip q token (run st whitelisted cs e)).0 in
      some (decision.action, decision.http_status)

  suspends_target :
      (now : ℕ) (a : AgentAction) (e : MitigationEngine st)
      → a.action_type ≡ ActionType.suspend_account
      → a.approval_status ≡ ApprovalStatus.executed
      → IsSuspended st a.target_entity (apply_action st whitelisted now a e).0
  unfolding apply_action route suspend
  suspends_target now a e kind done = record {
    on_record = grind (arith, get-put, eq_refl, kind, done);
  }

  suspended_answer :
      (cs : List Call) (later : ℕ) (ip p : String) (token : Option String) (e : MitigationEngine st)
      → All (λ c. is_rollback c ≡ false) cs
      → truthy p ≡ true
      → IsSuspended st p e
      → answer cs later ip (some p) token (some e) ≡ some (some ActionType.suspend_account, 403)
  unfolding answer
  suspended_answer cs later ip p token e kept named h =
      let (action, status) =
        evaluate-IsSuspended st p later ip token (run st whitelisted cs e) named
          (run-IsSuspended st p whitelisted cs e kept h) in
      λ i. some (action i, status i)

  -- An approval takes effect and lasts: when an analyst approves a pending suspension of an account
  -- whose name is not empty, and the orchestrator has an engine, then after any calls of the engine
  -- without a rollback, whatever else they apply and evaluate, a request of the account from any
  -- address and with any token is answered with status 403, as suspended.
  pub approval_suspends :
      (id analyst : String) (now later : ℕ) (cs : List Call) (ip : String) (token : Option String)
      (o : SecurityOrchestrator st whitelisted) (a : AgentAction) (e : MitigationEngine st)
      → o.mitigation_engine ≡ some e
      → get o.response_agent.actions_registry id ≡ some a
      → a.approval_status ≡ ApprovalStatus.pending_human_approval
      → a.action_type ≡ ActionType.suspend_account
      → truthy a.target_entity ≡ true
      → All (λ c. is_rollback c ≡ false) cs
      → answer cs later ip
          (some a.target_entity)
          token
          (approve_action st whitelisted id analyst now o).0.mitigation_engine
        ≡ some (some ActionType.suspend_account, 403)
  unfolding approve_action
  approval_suspends id analyst now later cs ip token o a e engine known pending kind named kept =
      let done = record a {
        approved_by = some analyst;
        approved_at = some now;
        approval_status = ApprovalStatus.executed;
        executed_at = some now;
      } in
      rw ((approves_once id analyst analyst now later o.response_agent a known pending).0, engine)
        (suspended_answer cs later ip a.target_entity token
          (apply_action st whitelisted now done e).0 kept named
          (suspends_target now done e kind refl))
