-- ===== src/Mitigation/State.antt =====
-- The state of class MitigationEngine (gateway/mitigation_engine.py) and its decisions.
use erp_security.Prelude.{ℕ, String, Option, none, Bool, false, List, []}
use erp_security.Prelude.Dict.{Dict}
use erp_security.Agents.{ActionType}
use erp_security.StateStore.Interface.{SharedStore}

-- {"until", "reason", "action_id"}.
pub record Entry : Type 0 where
  pub until : ℕ
  pub reason : String
  pub action_id : String

-- {"limit", "window_seconds", "until", "action_id"}.
pub record Throttle : Type 0 where
  pub limit : ℕ
  pub window_seconds : ℕ
  pub until : ℕ
  pub action_id : String

-- {"action_id", "approved_by", "timestamp", "reason"}.
pub record Suspension : Type 0 where
  pub action_id : String
  pub approved_by : String
  pub timestamp : ℕ
  pub reason : String

-- A value in the shared store.
pub data Shared : Type 0 where
  entry : Entry → Shared
  suspension : Suspension → Shared

pub record MitigationEngine (st : SharedStore Shared) : Type 0 where
  pub state_store : st.Store
  pub quarantined_ips : Dict Entry
  pub revoked_tokens : List String
  pub revoked_principals : Dict Entry
  pub mfa_enforced_principals : Dict Entry
  pub dynamic_rate_limits : Dict Throttle
  pub suspended_accounts : Dict Suspension
  pub action_registry : Dict (ActionType × String)

-- `MitigationEngine.__init__` over a store.
unfoldable pub init : (st : SharedStore Shared) → st.Store → MitigationEngine st
init st store = record {
  state_store = store;
  quarantined_ips = [];
  revoked_tokens = [];
  revoked_principals = [];
  mfa_enforced_principals = [];
  dynamic_rate_limits = [];
  suspended_accounts = [];
  action_registry = [];
}

pub data Reason : Type 0 where
  no_reason session_token_revoked mfa_required throttled : Reason
  account_suspended session_revoked : String → Reason
  quarantined : String → String → Reason

pub data Header : Type 0 where
  retry_after : ℕ → Header
  token_revoked session_revoked_error mfa_header : Header
  mfa_reason : String → Header
  rate_limit_limit : ℕ → Header

pub record MitigationDecision : Type 0 where
  pub is_mitigated : Bool
  pub action : Option ActionType
  pub http_status : ℕ
  pub reason : Reason
  pub headers : List Header
  pub action_id : Option String

-- `MitigationDecision(is_mitigated=False)`.
abbrev pub no_mitigation : MitigationDecision
no_mitigation = record {
  is_mitigated = false;
  action = none;
  http_status = 200;
  reason = no_reason;
  headers = [];
  action_id = none;
}
