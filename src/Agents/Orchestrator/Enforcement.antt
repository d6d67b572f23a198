-- ===== src/Agents/Orchestrator/Enforcement.antt =====
-- What the orchestrator of agents/orchestrator.py makes the mitigation engine enforce.
use erp_security.Prelude.{
  ℕ, String, ◌==◌, Option, none, some, Bool, false, ◌&&◌, ◌≡◌, arith, List, [], ◌∷◌, All,
}
use erp_security.Agents.{AgentAction}
use erp_security.Agents.Response.{SecurityAlert, Ids}
use erp_security.Agents.Response.Plan.{RunsAlone, plan-WaitsForHuman}
use erp_security.StateStore.Interface.{SharedStore}
use erp_security.Mitigation.State.{Shared, MitigationEngine}
use erp_security.Mitigation.Apply.{apply_action}
use erp_security.Mitigation.Gate.{IsFree, apply_action-IsFree, is_suspension, carries_approval}
use erp_security.Agents.Orchestrator.{
  SecurityOrchestrator, on_engine, apply_all, respond, process_security_event,
}

RunsAlone-free :
    (p : String) (a : AgentAction)
    → RunsAlone a
    → is_suspension a.action_type && carries_approval a.approval_status && a.target_entity == p
      ≡ false
unfolding carries_approval
RunsAlone-free p a h = ground arith

module _ (st : SharedStore Shared) (whitelisted : String → Bool) where
  apply_all-IsFree :
      (now : ℕ) (as' : List AgentAction) (p : String) (e : MitigationEngine st)
      → All RunsAlone as'
      → IsFree st p e
      → IsFree st p (apply_all st whitelisted now as' e)
  unfolding apply_all
  apply_all-IsFree now [] p e h f = f
  apply_all-IsFree now (a ∷ as') p e h f =
      apply_all-IsFree now as' p (apply_action st whitelisted now a e).0 h.1
        (apply_action-IsFree st p whitelisted now a e (RunsAlone-free p a h.0) f)

  -- An engine, if there is one, holds no suspension of `p`.
  abbrev pub EngineFree : String → Option (MitigationEngine st) → Type 0
  EngineFree p none = Unit
  EngineFree p (some e) = IsFree st p e

  on_engine-EngineFree :
      (now : ℕ) (as' : List AgentAction) (p : String) (engine : Option (MitigationEngine st))
      → All RunsAlone as'
      → EngineFree p engine
      → EngineFree p (on_engine st whitelisted (apply_all st whitelisted now as') engine)
  on_engine-EngineFree now as' p none h f = f
  on_engine-EngineFree now as' p (some e) h f = apply_all-IsFree now as' p e h f

  respond-EngineFree :
      (alert : SecurityAlert) (ids : Ids) (now : ℕ) (p : String)
      (o : SecurityOrchestrator st whitelisted)
      → EngineFree p o.mitigation_engine
      → EngineFree p (respond st whitelisted alert ids now o).0.mitigation_engine
  unfolding respond
  respond-EngineFree alert ids now p o h =
      on_engine-EngineFree now _ p o.mitigation_engine
        (plan-WaitsForHuman alert ids now o.response_agent).0 h

  -- An event alone suspends nobody: whatever alert is raised, the response to it leaves an engine
  -- without a suspension of `p` without one.
  pub event_suspends_nobody :
      (alert : Option SecurityAlert) (ids : Ids) (now : ℕ) (p : String)
      (o : SecurityOrchestrator st whitelisted)
      → EngineFree p o.mitigation_engine
      → EngineFree p (process_security_event st whitelisted alert ids now o).0.mitigation_engine
  unfolding process_security_event
  event_suspends_nobody none ids now p o h = ground arith
  event_suspends_nobody (some alert) ids now p o h =
      ground (arith, respond-EngineFree alert ids now p o h)
