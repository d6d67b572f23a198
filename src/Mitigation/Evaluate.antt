-- ===== src/Mitigation/Evaluate.antt =====
-- `evaluate_request` of gateway/mitigation_engine.py, check by check.
use erp_security.Prelude.{
  ℕ, ◌-◌, ◌/◌, max, String, Option, none, some, true, ◌||◌, leb, if◌then◌else◌, List, [], ◌∷◌,
}
use erp_security.Prelude.Dict.{get, pop, has}
use erp_security.Prelude.Text.{clean_token, member, truthy, truthy?}
use erp_security.Agents.{ActionType}
use erp_security.StateStore.{second}
use erp_security.StateStore.Interface.{SharedStore}
use erp_security.Mitigation.State.{
  Entry, Throttle, Shared, entry, suspension, MitigationEngine, MitigationDecision, no_mitigation,
  Reason, Header,
}

abbrev mitigated : ActionType → ℕ → Reason → List Header → Option String → MitigationDecision
mitigated action status reason headers action_id = record {
  is_mitigated = true;
  action = some action;
  http_status = status;
  reason = reason;
  headers = headers;
  action_id = action_id;
}

module _ (st : SharedStore Shared) where
  -- A check decides the request, or passes it on; it may sweep an entry that has expired.
  abbrev pub Check : Type 0
  Check = MitigationEngine st → Option MitigationDecision × MitigationEngine st

  -- An entry of the hash "suspended_accounts", by its action id; that hash holds suspensions only.
  abbrev shared_suspension : Option Shared → Option String
  shared_suspension (some (suspension s)) = some s.action_id
  shared_suspension (some (entry x)) = some x.action_id
  shared_suspension none = none

  abbrev suspended_by : String → MitigationEngine st → Option String
  suspended_by p e = elim (get e.suspended_accounts p) [
    | some s ↦ some s.action_id
    | none ↦ shared_suspension (st.get_hash_entry "suspended_accounts" p e.state_store)
  ]

  -- 1. Suspended accounts.
  unfoldable pub check_suspended : Option String → Check
  check_suspended none e = (none, e)
  check_suspended (some p) e = elim (suspended_by p e) [
    | none ↦ (none, e)
    | some id ↦ (
      some (mitigated ActionType.suspend_account 403 (Reason.account_suspended p) [] (some id)),
      e,
    )
  ]

  abbrev find_local : String → MitigationEngine st → Option (String × Entry)
  find_local k e =
      if truthy k
      then (elim (get e.quarantined_ips k) [ none ↦ none | some x ↦ some (k, x) ])
      else none

  -- The local entry: of the address if there is one, else of the principal.
  unfoldable pub local_quarantine :
      String → Option String → MitigationEngine st → Option (String × Entry)
  local_quarantine client_ip p e =
      if has e.quarantined_ips client_ip
      then find_local client_ip e
      else elim p [ none ↦ none | some u ↦ find_local u e ]

  -- The hash "quarantined_ips" holds entries only.
  abbrev find_shared : String → MitigationEngine st → Option (String × Entry)
  find_shared k e = elim (st.get_hash_entry "quarantined_ips" k e.state_store) [
    | some (entry x) ↦ some (k, x)
    | some (suspension s) ↦ none
    | none ↦ none
  ]

  -- The shared entry of the first candidate that has one.
  unfoldable pub shared_quarantine :
      String → Option String → MitigationEngine st → Option (String × Entry)
  shared_quarantine client_ip p e =
      elim (if truthy client_ip then find_shared client_ip e else none) [
        | some found ↦ some found
        | none ↦ elim p [ none ↦ none | some u ↦ find_shared u e ]
      ]

  unfoldable pub quarantine_of :
      String → Option String → MitigationEngine st → Option (String × Entry)
  quarantine_of client_ip p e = elim (local_quarantine client_ip p e) [
    | some found ↦ some found
    | none ↦ shared_quarantine client_ip p e
  ]

  -- 2. Quarantine of the address or the principal.
  unfoldable pub check_quarantine : ℕ → String → Option String → Check
  check_quarantine now client_ip p e = elim (quarantine_of client_ip p e) [
    | none ↦ (none, e)
    | some (key, info) ↦
        if leb now info.until
        then (
          some (
              mitigated ActionType.quarantine_ip_temp 403 (Reason.quarantined key info.reason)
                (Header.retry_after (max 1 ((info.until - now) / second)) ∷ [])
                (some info.action_id)),
          e,
        )
        else (
          none,
          record e {
            quarantined_ips = pop e.quarantined_ips key;
            state_store = st.delete_hash_entry "quarantined_ips" key e.state_store;
          },
        )
  ]

  -- 3. Revoked tokens.
  unfoldable pub check_token : Option String → Check
  check_token none e = (none, e)
  check_token (some token) e =
      if member (clean_token token) e.revoked_tokens
        || st.is_member "revoked_tokens" (clean_token token) e.state_store
      then (
        some (
            mitigated ActionType.revoke_session 401 Reason.session_token_revoked
              (Header.token_revoked ∷ []) none),
        e,
      )
      else (none, e)

  -- Revoked sessions of a principal: only the local entries are read.
  unfoldable pub check_principal : ℕ → Option String → Check
  check_principal now none e = (none, e)
  check_principal now (some p) e = elim (get e.revoked_principals p) [
    | none ↦ (none, e)
    | some info ↦
        if leb now info.until
        then (
          some (
              mitigated ActionType.revoke_session 401 (Reason.session_revoked p)
                (Header.session_revoked_error ∷ []) (some info.action_id)),
          e,
        )
        else (none, record e { revoked_principals = pop e.revoked_principals p })
  ]

  -- 4. Step-up authentication.
  unfoldable pub check_mfa : ℕ → Option String → Check
  check_mfa now none e = (none, e)
  check_mfa now (some p) e = elim (get e.mfa_enforced_principals p) [
    | none ↦ (none, e)
    | some info ↦
        if leb now info.until
        then (
          some (
              mitigated ActionType.challenge_mfa 403 Reason.mfa_required
                (Header.mfa_header ∷ Header.mfa_reason info.reason ∷ []) (some info.action_id)),
          e,
        )
        else (none, record e { mfa_enforced_principals = pop e.mfa_enforced_principals p })
  ]

  abbrev throttle_of : String → MitigationEngine st → Option (String × Throttle)
  throttle_of k e = elim (get e.dynamic_rate_limits k) [ none ↦ none | some x ↦ some (k, x) ]

  abbrev find_throttle : String → Option String → MitigationEngine st → Option (String × Throttle)
  find_throttle client_ip p e = elim (throttle_of client_ip e) [
    | some found ↦ some found
    | none ↦ elim p [ none ↦ none | some u ↦ throttle_of u e ]
  ]

  -- 5. Dynamic rate limits: of the address if there is one, else of the principal.
  unfoldable pub check_throttle : ℕ → String → Option String → Check
  check_throttle now client_ip p e = elim (find_throttle client_ip p e) [
    | none ↦ (none, e)
    | some (key, info) ↦
        if leb now info.until
        then (
          some (
              mitigated ActionType.rate_limit 429 Reason.throttled
                (Header.retry_after 60 ∷ Header.rate_limit_limit info.limit ∷ [])
                (some info.action_id)),
          e,
        )
        else (none, record e { dynamic_rate_limits = pop e.dynamic_rate_limits key })
  ]

  -- The next check runs if the last one passed the request on.
  infixl 5 ◌then_check◌
  unfoldable pub ◌then_check◌ : Check → Check → Check
  ◌then_check◌ first next e =
      let (decision, e') = first e in elim decision [ some d ↦ (some d, e') | none ↦ next e' ]

  unfoldable pub checks : ℕ → String → Option String → Option String → Check
  checks now client_ip p token =
      check_suspended p
      then_check check_quarantine now client_ip p
      then_check check_token token
      then_check check_principal now p
      then_check check_mfa now p
      then_check check_throttle now client_ip p

  unfoldable pub evaluate_request :
      ℕ
      → String
      → Option String
      → Option String
      → MitigationEngine st
      → MitigationDecision × MitigationEngine st
  evaluate_request now client_ip principal_ref auth_token e =
      let (decision, e') = checks now client_ip (truthy? principal_ref) (truthy? auth_token) e in
      (elim decision [ some d ↦ d | none ↦ no_mitigation ], e')
