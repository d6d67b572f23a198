-- ===== src/Mitigation/Apply.antt =====
-- `apply_action` and `rollback_action` of gateway/mitigation_engine.py.
use Prim.Native.String.{count}
use erp_security.Prelude.{
  ℕ, zero, suc, ◌+◌, ◌*◌, min, String, ◌==◌, starts_with, Option, none, some, Bool, true, false,
  not, ◌&&◌, ◌||◌, ltb, if◌then◌else◌, List, ◌∷◌, filter,
}
use erp_security.Prelude.Dict.{get, put, pop}
use erp_security.Prelude.Text.{clean_token, member, truthy}
use erp_security.Agents.{AgentAction, ActionType, ApprovalStatus}
use erp_security.StateStore.{second}
use erp_security.StateStore.Interface.{SharedStore}
use erp_security.Mitigation.State.{Entry, Suspension, Shared, entry, suspension, MitigationEngine}

-- What `apply_action` returns, or `UnauthorizedMitigationError`.
pub data Applied : Type 0 where
  returned : Bool → Applied
  unauthorized : Applied

abbrev pub max_auto_quarantine_seconds : ℕ
max_auto_quarantine_seconds = 3600

-- `status in (APPROVED, EXECUTED)`.
abbrev pub is_approved : ApprovalStatus → Bool
is_approved ApprovalStatus.approved = true
is_approved ApprovalStatus.executed = true
is_approved _ = false

-- `action_type in (SUSPEND_ACCOUNT, BLOCK_CIDR_ORGANIZATION)`.
abbrev pub is_gated : ActionType → Bool
is_gated ActionType.suspend_account = true
is_gated ActionType.block_cidr_organization = true
is_gated _ = false

-- `action_type in (QUARANTINE_IP_TEMP, BLOCK_CIDR_ORGANIZATION)`.
abbrev pub blocks_address : ActionType → Bool
blocks_address ActionType.quarantine_ip_temp = true
blocks_address ActionType.block_cidr_organization = true
blocks_address _ = false

-- `action.duration_seconds or 900`.
abbrev pub duration_or_default : Option ℕ → ℕ
duration_or_default none = 900
duration_or_default (some zero) = 900
duration_or_default (some (suc n)) = suc n

-- The duration in seconds, after the cap on a quarantine.
unfoldable pub duration : AgentAction → ℕ
duration a = cap a.action_type (duration_or_default a.duration_seconds)
  where
    cap : ActionType → ℕ → ℕ
    cap ActionType.quarantine_ip_temp d = min d max_auto_quarantine_seconds
    cap _ d = d

-- A target of `REVOKE_SESSION` that is a token rather than a principal.
abbrev pub is_token : String → Bool
is_token target = starts_with target "Bearer " || ltb 32 (count target)

-- `approved_by or "HUMAN_ANALYST"`.
abbrev approver : Option String → String
approver none = "HUMAN_ANALYST"
approver (some name) = if truthy name then name else "HUMAN_ANALYST"

-- `s.add(x)` and `s.discard(x)` on a set.
abbrev pub add : String → List String → List String
add x xs = if member x xs then xs else x ∷ xs

abbrev pub discard : String → List String → List String
discard x xs = filter (λ y. not (y == x)) xs

module _ (st : SharedStore Shared) where
  abbrev entry_of : ℕ → AgentAction → Entry
  entry_of now a = record {
    until = now + duration a * second;
    reason = a.justification;
    action_id = a.action_id;
  }

  -- `self._action_registry[action_id] = (action_type, target)`, and `return True`.
  abbrev register : AgentAction → MitigationEngine st → MitigationEngine st × Applied
  register a e = (
    record e {
      action_registry = put e.action_registry a.action_id (a.action_type, a.target_entity);
    },
    returned true,
  )

  unfoldable pub quarantine : ℕ → AgentAction → MitigationEngine st → MitigationEngine st
  quarantine now a e = record e {
    quarantined_ips = put e.quarantined_ips a.target_entity (entry_of now a);
    state_store =
        st.set_hash_entry "quarantined_ips" a.target_entity (entry (entry_of now a))
          (some (duration a)) e.state_store;
  }

  unfoldable pub revoke_session : ℕ → AgentAction → MitigationEngine st → MitigationEngine st
  revoke_session now a e =
      if is_token a.target_entity
      then record e {
        revoked_tokens = add (clean_token a.target_entity) e.revoked_tokens;
        state_store = st.add_to_set "revoked_tokens" (clean_token a.target_entity) e.state_store;
      }
      else record e {
        revoked_principals = put e.revoked_principals a.target_entity (entry_of now a);
        state_store =
            st.set_hash_entry "revoked_principals" a.target_entity (entry (entry_of now a))
              (some (duration a)) e.state_store;
      }

  unfoldable pub challenge : ℕ → AgentAction → MitigationEngine st → MitigationEngine st
  challenge now a e = record e {
    mfa_enforced_principals = put e.mfa_enforced_principals a.target_entity (entry_of now a);
  }

  unfoldable pub throttle : ℕ → AgentAction → MitigationEngine st → MitigationEngine st
  throttle now a e = record e {
    dynamic_rate_limits = put e.dynamic_rate_limits a.target_entity (record {
      limit = 5;
      window_seconds = 60;
      until = now + duration a * second;
      action_id = a.action_id;
    });
  }

  abbrev suspension_of : ℕ → AgentAction → Suspension
  suspension_of now a = record {
    action_id = a.action_id;
    approved_by = approver a.approved_by;
    timestamp = now;
    reason = a.justification;
  }

  unfoldable pub suspend : ℕ → AgentAction → MitigationEngine st → MitigationEngine st
  suspend now a e = record e {
    suspended_accounts = put e.suspended_accounts a.target_entity (suspension_of now a);
    state_store =
        st.set_hash_entry "suspended_accounts" a.target_entity (suspension (suspension_of now a))
          none e.state_store;
  }

  -- The last part of `apply_action`: route and register. Other types of action are not enforced.
  unfoldable pub route :
      ActionType → ℕ → AgentAction → MitigationEngine st → MitigationEngine st × Applied
  route ActionType.quarantine_ip_temp now a e = register a (quarantine now a e)
  route ActionType.revoke_session now a e = register a (revoke_session now a e)
  route ActionType.challenge_mfa now a e = register a (challenge now a e)
  route ActionType.rate_limit now a e = register a (throttle now a e)
  route ActionType.suspend_account now a e = register a (suspend now a e)
  route _ now a e = (e, returned false)

  -- The first argument is `config.is_ip_whitelisted`.
  unfoldable pub apply_action :
      (String → Bool) → ℕ → AgentAction → MitigationEngine st → MitigationEngine st × Applied
  apply_action is_ip_whitelisted now a e =
      if is_gated a.action_type && not (is_approved a.approval_status)
      then (e, unauthorized)
      else if blocks_address a.action_type && is_ip_whitelisted a.target_entity
      then (e, returned false)
      else route a.action_type now a e

  -- What a rollback takes back, by the type and target on record.
  unfoldable pub release : ActionType → String → MitigationEngine st → MitigationEngine st
  release ActionType.quarantine_ip_temp target e = record e {
    quarantined_ips = pop e.quarantined_ips target;
    state_store = st.delete_hash_entry "quarantined_ips" target e.state_store;
  }
  release ActionType.revoke_session target e = record e {
    revoked_tokens = discard (clean_token target) e.revoked_tokens;
    revoked_principals = pop e.revoked_principals target;
    state_store =
        st.delete_hash_entry "revoked_principals" target
          (st.remove_from_set "revoked_tokens" (clean_token target) e.state_store);
  }
  release ActionType.challenge_mfa target e = record e {
    mfa_enforced_principals = pop e.mfa_enforced_principals target;
  }
  release ActionType.rate_limit target e = record e {
    dynamic_rate_limits = pop e.dynamic_rate_limits target;
  }
  release ActionType.suspend_account target e = record e {
    suspended_accounts = pop e.suspended_accounts target;
    state_store = st.delete_hash_entry "suspended_accounts" target e.state_store;
  }
  release _ target e = e

  unfoldable pub rollback_action : String → MitigationEngine st → MitigationEngine st × Bool
  rollback_action action_id e = elim (get e.action_registry action_id) [
    | none ↦ (e, false)
    | some (action_type, target) ↦
        let e' = release action_type target e in
        (record e' { action_registry = pop e'.action_registry action_id }, true)
  ]
