-- ===== src/Agents.antt =====
-- The contracts of agents/base.py that the response agent, the orchestrator and the mitigation
-- engine share. Identifiers and clock readings come from outside as values. `to_dict` and the
-- audit records only report and are left out.
pub mod Response
pub mod Orchestrator
mod Tests
use erp_security.Prelude.{ℕ, String, Option, none, some, Bool, true, false}
use erp_security.Prelude.Dict.{Dict}

pub data ActionType : Type 0 where
  rate_limit challenge_mfa revoke_session quarantine_ip_temp : ActionType
  suspend_account block_cidr_organization rollback_data change_privileges : ActionType

pub data ApprovalStatus : Type 0 where
  auto_approved pending_human_approval approved rejected executed revoked : ApprovalStatus

-- A value in `AgentAction.parameters`.
pub data Parameter : Type 0 where
  number : ℕ → Parameter
  text : String → Parameter

pub record AgentAction : Type 0 where
  pub action_type : ActionType
  pub target_entity : String
  pub justification : String
  pub action_id : String
  pub reversible : Bool
  pub requires_human_approval : Bool
  pub approval_status : ApprovalStatus
  pub created_at : ℕ
  pub approved_by : Option String
  pub approved_at : Option ℕ
  pub executed_at : Option ℕ
  pub revoked_at : Option ℕ
  pub duration_seconds : Option ℕ
  pub parameters : Dict Parameter

-- `action_type in HUMAN_APPROVAL_REQUIRED_ACTIONS`.
abbrev pub human_approval_required : ActionType → Bool
human_approval_required ActionType.suspend_account = true
human_approval_required ActionType.block_cidr_organization = true
human_approval_required ActionType.rollback_data = true
human_approval_required ActionType.change_privileges = true
human_approval_required _ = false

abbrev pub hold : ApprovalStatus → ApprovalStatus
hold ApprovalStatus.auto_approved = ApprovalStatus.pending_human_approval
hold status = status

-- `AgentAction.__post_init__`.
abbrev pub post_init : AgentAction → AgentAction
post_init a = elim (human_approval_required a.action_type) [
  | true ↦ record a { requires_human_approval = true; approval_status = hold a.approval_status }
  | false ↦ a
]
