-- ===== src/Agents/Response.antt =====
-- The response agent of agents/response_agent.py (class ResponseAgent). Clock readings and the
-- ids of new actions are arguments. An action is one shared object in the code: here the registry
-- holds its current value, and a plan the values of its actions when it is returned. Log lines and
-- audit records are left out.
pub mod Plan
pub mod Lifecycle
use erp_security.Prelude.{
  ℕ, String, concat, Option, none, some, Bool, true, false, ◌||◌, if◌then◌else◌, List, [], ◌∷◌,
  ◌++◌, get_or,
}
use erp_security.Prelude.Dict.{Dict, get, put, pop}
use erp_security.Prelude.Text.{truthy?}
use erp_security.Agents.{
  AgentAction, ActionType, ApprovalStatus, Parameter, number, text, post_init,
}

pub data Severity : Type 0 where
  low medium high critical : Severity

pub data ThreatCategory : Type 0 where
  credential_stuffing mass_scraping privilege_escalation compound_anomaly : ThreatCategory

-- The fields of `SecurityAlert` that a response reads.
pub record SecurityAlert : Type 0 where
  pub severity : Severity
  pub threat_category : ThreatCategory
  pub target_entity : String

pub record ResponseAgent : Type 0 where
  pub actions_registry : Dict AgentAction
  pub active_rate_limits : Dict Parameter
  pub active_quarantined_ips : Dict String
  pub active_challenges : Dict String

pub record ResponsePlan : Type 0 where
  pub actions : List AgentAction
  pub auto_executed_actions : List AgentAction
  pub pending_human_actions : List AgentAction

pub data Failure : Type 0 where
  key_error value_error : Failure

pub data Result : Type 0 where
  ok : AgentAction → Result
  failed : Failure → Result

abbrev pub apply_type : ActionType → AgentAction → ResponseAgent → ResponseAgent
apply_type ActionType.rate_limit a r = record r {
  active_rate_limits =
      put r.active_rate_limits a.target_entity (get_or (get a.parameters "rate_limit") (number 5));
}
apply_type ActionType.quarantine_ip_temp a r = record r {
  active_quarantined_ips = put r.active_quarantined_ips a.target_entity a.justification;
}
apply_type ActionType.challenge_mfa a r = record r {
  active_challenges = put r.active_challenges a.target_entity a.justification;
}
apply_type ActionType.suspend_account a r = record r {
  active_challenges = put r.active_challenges a.target_entity "SUSPENDED";
}
apply_type _ a r = r

-- `_apply_containment`.
unfoldable pub apply_containment : AgentAction → ResponseAgent → ResponseAgent
apply_containment a r = apply_type a.action_type a r

abbrev pub release_type : ActionType → AgentAction → ResponseAgent → ResponseAgent
release_type ActionType.rate_limit a r = record r {
  active_rate_limits = pop r.active_rate_limits a.target_entity;
}
release_type ActionType.quarantine_ip_temp a r = record r {
  active_quarantined_ips = pop r.active_quarantined_ips a.target_entity;
}
release_type ActionType.challenge_mfa a r = record r {
  active_challenges = pop r.active_challenges a.target_entity;
}
release_type ActionType.suspend_account a r = record r {
  active_challenges = pop r.active_challenges a.target_entity;
}
release_type _ a r = r

-- `_release_containment`.
unfoldable pub release_containment : AgentAction → ResponseAgent → ResponseAgent
release_containment a r = release_type a.action_type a r

abbrev store : AgentAction → ResponseAgent → ResponseAgent
store a r = record r { actions_registry = put r.actions_registry a.action_id a }

-- What `uuid4` gives for the actions of a plan, one for each kind.
pub record Ids : Type 0 where
  pub rate_limit_id : String
  pub challenge_id : String
  pub quarantine_id : String
  pub suspend_id : String

-- The fields of `AgentAction(...)`, with their defaults, before `__post_init__`.
abbrev draft : ActionType → String → String → String → ℕ → Option ℕ → Dict Parameter → AgentAction
draft action_type target justification id now duration parameters = record {
  action_type = action_type;
  target_entity = target;
  justification = justification;
  action_id = id;
  reversible = true;
  requires_human_approval = false;
  approval_status = ApprovalStatus.auto_approved;
  created_at = now;
  approved_by = none;
  approved_at = none;
  executed_at = none;
  revoked_at = none;
  duration_seconds = duration;
  parameters = parameters;
}

abbrev new_action :
    ActionType → String → String → String → ℕ → Option ℕ → Dict Parameter → AgentAction
new_action action_type target justification id now duration parameters =
    post_init (draft action_type target justification id now duration parameters)

abbrev category_name : ThreatCategory → String
category_name credential_stuffing = "CREDENTIAL_STUFFING"
category_name mass_scraping = "MASS_SCRAPING"
category_name privilege_escalation = "PRIVILEGE_ESCALATION"
category_name compound_anomaly = "COMPOUND_ANOMALY"

abbrev throttle_action : SecurityAlert → Ids → ℕ → AgentAction
throttle_action alert ids now =
    new_action ActionType.rate_limit alert.target_entity
      (concat (concat "Automated containment: throttle abusive entity '" alert.target_entity)
        (concat "' due to " (category_name alert.threat_category)))
      ids.rate_limit_id now (some 3600)
      (("rate_limit", number 5) ∷ ("window_seconds", number 60) ∷ [])

abbrev challenge_action : SecurityAlert → Ids → ℕ → AgentAction
challenge_action alert ids now =
    new_action ActionType.challenge_mfa alert.target_entity
      (concat (concat "Require MFA re-authentication for '" alert.target_entity)
        "' following suspicious velocity/anomaly")
      ids.challenge_id now (some 1800) []

abbrev quarantine_action : SecurityAlert → Ids → ℕ → AgentAction
quarantine_action alert ids now =
    new_action ActionType.quarantine_ip_temp alert.target_entity
      (concat (concat "Temporary 1-hour IP quarantine for '" alert.target_entity)
        "' pending investigation")
      ids.quarantine_id now (some 3600) []

abbrev suspend_action : SecurityAlert → Ids → ℕ → AgentAction
suspend_action alert ids now =
    post_init
      (record (draft ActionType.suspend_account alert.target_entity
        (concat (concat "CRITICAL privilege abuse by '" alert.target_entity)
          "'. Human analyst approval required to suspend account.")
        ids.suspend_id now (some 3600) []) {
          requires_human_approval = true;
          approval_status = ApprovalStatus.pending_human_approval;
        })

-- `severity in ("MEDIUM", "HIGH", "CRITICAL")`, `severity in ("HIGH", "CRITICAL")` and
-- `severity == "CRITICAL"`.
abbrev at_least_medium : Severity → Bool
at_least_medium low = false
at_least_medium _ = true

abbrev at_least_high : Severity → Bool
at_least_high high = true
at_least_high critical = true
at_least_high _ = false

abbrev is_critical : Severity → Bool
is_critical critical = true
is_critical _ = false

abbrev challenges_identity : ThreatCategory → Bool
challenges_identity credential_stuffing = true
challenges_identity compound_anomaly = true
challenges_identity _ = false

abbrev is_escalation : ThreatCategory → Bool
is_escalation privilege_escalation = true
is_escalation _ = false

pub propose_if : Bool → AgentAction → List AgentAction → List AgentAction
propose_if c a rest = if c then a ∷ rest else rest

-- The proposed actions, in the order of the code.
unfoldable pub proposed_actions : SecurityAlert → Ids → ℕ → List AgentAction
proposed_actions alert ids now =
    propose_if (at_least_medium alert.severity) (throttle_action alert ids now) (
      propose_if (challenges_identity alert.threat_category) (challenge_action alert ids now) (
        propose_if (at_least_high alert.severity) (quarantine_action alert ids now) (
          propose_if (is_critical alert.severity || is_escalation alert.threat_category)
            (suspend_action alert ids now) [])))

abbrev execute : ℕ → AgentAction → AgentAction
execute now a = record a { approval_status = ApprovalStatus.executed; executed_at = some now }

-- Where an action goes, given what becomes of the others in either case.
abbrev pub file_action :
    Bool
    → ℕ
    → AgentAction
    → ResponseAgent × List AgentAction × List AgentAction
    → ResponseAgent × List AgentAction × List AgentAction
    → ResponseAgent × List AgentAction × List AgentAction
file_action true now a waits runs = (waits.0, waits.1, a ∷ waits.2)
file_action false now a waits runs = (runs.0, execute now a ∷ runs.1, runs.2)

-- The loop that registers the actions: those that need approval wait, the others are carried out.
unfoldable pub partition :
    ℕ → List AgentAction → ResponseAgent → ResponseAgent × List AgentAction × List AgentAction
partition now [] r = (r, [], [])
partition now (a ∷ as') r =
    let waits = partition now as' (store a r) in
    let runs = partition now as' (store (execute now a) (apply_containment a r)) in
    file_action a.requires_human_approval now a waits runs

-- The proposed actions after the loop, which changes the objects that the plan shares with it.
unfoldable pub settled : ℕ → List AgentAction → List AgentAction
settled now [] = []
settled now (a ∷ as') = (if a.requires_human_approval then a else execute now a) ∷ settled now as'

unfoldable pub formulate_response_plan :
    SecurityAlert → Ids → ℕ → ResponseAgent → ResponseAgent × ResponsePlan
unfolding proposed_actions partition settled
formulate_response_plan alert ids now r =
    let proposed = proposed_actions alert ids now in
    let (r', auto_executed, pending) = partition now proposed r in
    (
      r',
      record {
        actions = settled now proposed;
        auto_executed_actions = auto_executed;
        pending_human_actions = pending;
      },
    )

abbrev is_pending : ApprovalStatus → Bool
is_pending ApprovalStatus.pending_human_approval = true
is_pending _ = false

abbrev is_executed : ApprovalStatus → Bool
is_executed ApprovalStatus.executed = true
is_executed _ = false

unfoldable pub approve_action : String → String → ℕ → ResponseAgent → ResponseAgent × Result
unfolding apply_containment
approve_action action_id analyst_id now r = elim (get r.actions_registry action_id) [
  | none ↦ (r, failed key_error)
  | some a ↦
      if is_pending a.approval_status
      then (let approved = record a {
        approved_by = some analyst_id;
        approved_at = some now;
        approval_status = ApprovalStatus.approved;
      } in
          let done = execute now approved in
          (
            record (apply_containment approved r) {
              actions_registry = put r.actions_registry action_id done;
            },
            ok done,
          ))
      else (r, failed value_error)
]

unfoldable pub reject_action : String → String → String → ℕ → ResponseAgent → ResponseAgent × Result
reject_action action_id analyst_id reason now r = elim (get r.actions_registry action_id) [
  | none ↦ (r, failed key_error)
  | some a ↦
      let rejected = record a {
        approved_by = some analyst_id;
        approved_at = some now;
        approval_status = ApprovalStatus.rejected;
        parameters = put a.parameters "rejection_reason" (text reason);
      } in
      (record r { actions_registry = put r.actions_registry action_id rejected }, ok rejected)
]

abbrev mark_revoker : Option String → Dict Parameter → Dict Parameter
mark_revoker analyst_id parameters = elim (truthy? analyst_id) [
  | none ↦ parameters
  | some name ↦ put parameters "revoked_by" (text name)
]

unfoldable pub revoke_action : String → Option String → ℕ → ResponseAgent → ResponseAgent × Result
unfolding release_containment
revoke_action action_id analyst_id now r = elim (get r.actions_registry action_id) [
  | none ↦ (r, failed key_error)
  | some a ↦
      if is_executed a.approval_status
      then (let revoked = record a {
        approval_status = ApprovalStatus.revoked;
        revoked_at = some now;
        parameters = mark_revoker analyst_id a.parameters;
      } in
          (
            record (release_containment a r) {
              actions_registry = put r.actions_registry action_id revoked;
            },
            ok revoked,
          ))
      else (r, failed value_error)
]
