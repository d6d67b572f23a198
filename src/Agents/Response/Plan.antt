-- ===== src/Agents/Response/Plan.antt =====
-- The plans of agents/response_agent.py: what is carried out at once and what waits for a human.
use erp_security.Prelude.{ℕ, Bool, true, false, ◌≡◌, arith, List, [], ◌∷◌, refl, All}
use erp_security.Agents.{AgentAction, ApprovalStatus, human_approval_required}
use erp_security.Agents.Response.{
  SecurityAlert, ResponseAgent, Ids, propose_if, proposed_actions, partition,
  formulate_response_plan, execute, store, file_action, apply_containment,
}

-- Whether an action needs a human is marked as its type demands.
abbrev Marked : AgentAction → Type 0
Marked a =
    (a.requires_human_approval ≡ human_approval_required a.action_type)
    × (a.approval_status ≡ elim (human_approval_required a.action_type) [
      | true ↦ ApprovalStatus.pending_human_approval
      | false ↦ ApprovalStatus.auto_approved
    ])

abbrev pub RunsAlone : AgentAction → Type 0
RunsAlone a =
    (human_approval_required a.action_type ≡ false) × (a.approval_status ≡ ApprovalStatus.executed)

abbrev pub WaitsForHuman : AgentAction → Type 0
WaitsForHuman a =
    (human_approval_required a.action_type ≡ true)
    × (a.approval_status ≡ ApprovalStatus.pending_human_approval)

All-propose_if :
    (P : AgentAction → Type 0) (c : Bool) (a : AgentAction) (rest : List AgentAction)
    → P a
    → All P rest
    → All P (propose_if c a rest)
unfolding propose_if
All-propose_if P true a rest p ps = (p, ps)
All-propose_if P false a rest p ps = ps

proposed-Marked :
    (alert : SecurityAlert) (ids : Ids) (now : ℕ) → All Marked (proposed_actions alert ids now)
unfolding proposed_actions
proposed-Marked alert ids now =
    All-propose_if Marked _ _ _ (refl, refl)
      (All-propose_if Marked _ _ _ (refl, refl)
        (All-propose_if Marked _ _ _ (refl, refl) (All-propose_if Marked _ _ [] (refl, refl) tt)))

Marked-RunsAlone :
    (now : ℕ) (a : AgentAction)
    → Marked a
    → a.requires_human_approval ≡ false
    → RunsAlone (execute now a)
Marked-RunsAlone now a m r = (cc, refl)

Marked-WaitsForHuman :
    (a : AgentAction) → Marked a → a.requires_human_approval ≡ true → WaitsForHuman a
Marked-WaitsForHuman a m r = (cc, ground arith)

abbrev Sound : ResponseAgent × List AgentAction × List AgentAction → Type 0
Sound (r, ran, waiting) = All RunsAlone ran × All WaitsForHuman waiting

file_action-Sound :
    (b : Bool) (now : ℕ) (a : AgentAction)
    (waits runs : ResponseAgent × List AgentAction × List AgentAction)
    → Marked a
    → a.requires_human_approval ≡ b
    → Sound waits
    → Sound runs
    → Sound (file_action b now a waits runs)
file_action-Sound true now a waits runs m e w r = (w.0, (Marked-WaitsForHuman a m e, w.1))
file_action-Sound false now a waits runs m e w r = ((Marked-RunsAlone now a m e, r.0), r.1)

partition-Sound :
    (now : ℕ) (as' : List AgentAction) (r : ResponseAgent)
    → All Marked as'
    → Sound (partition now as' r)
unfolding partition
partition-Sound now [] r h = (tt, tt)
partition-Sound now (a ∷ as') r (m, ms) =
    file_action-Sound a.requires_human_approval now a _ _ m refl
      (partition-Sound now as' (store a r) ms)
      (partition-Sound now as' (store (execute now a) (apply_containment a r)) ms)

-- Nothing of high impact is carried out without a human: whatever the alert, every action that a
-- plan has executed is of a type that needs no approval, and every action that it leaves waiting
-- is of a type that does and is pending.
pub plan-WaitsForHuman :
    (alert : SecurityAlert) (ids : Ids) (now : ℕ) (r : ResponseAgent)
    → let plan = (formulate_response_plan alert ids now r).1 in
      All RunsAlone plan.auto_executed_actions × All WaitsForHuman plan.pending_human_actions
unfolding formulate_response_plan
plan-WaitsForHuman alert ids now r =
    partition-Sound now (proposed_actions alert ids now) r (proposed-Marked alert ids now)
