-- ===== src/Mitigation/Suspended.antt =====
-- Suspensions on record in the engine of gateway/mitigation_engine.py, over later calls.
use erp_security.Prelude.{
  ℕ, String, Option, none, some, Bool, true, false, ◌≡◌, arith, is_some, refl, Option-cases, inl,
  inr, List, All,
}
use erp_security.Prelude.Dict.{get, get-put}
use erp_security.Prelude.Text.{truthy, truthy?}
use erp_security.Agents.{AgentAction, ActionType}
use erp_security.StateStore.Interface.{SharedStore}
use erp_security.Mitigation.State.{Shared, MitigationEngine, MitigationDecision}
use erp_security.Mitigation.Apply.{route, quarantine, revoke_session, challenge, throttle, suspend}
use erp_security.Mitigation.Checks.{
  Holds, checks-Holds, evaluate_request-Holds, apply_action-induction,
}
use erp_security.Mitigation.Calls.{Call, apply, rollback, evaluate, call, run, run_induction}
use erp_security.Mitigation.Evaluate.{
  Check, evaluate_request, checks, ◌then_check◌, check_suspended, check_quarantine, check_token,
  check_principal, check_mfa, check_throttle,
}

abbrev pub is_rollback : Call → Bool
is_rollback (apply now a) = false
is_rollback (rollback action_id) = true
is_rollback (evaluate now client_ip q token) = false

abbrev Anything : MitigationDecision → Type 0
Anything d = Unit

module _ (st : SharedStore Shared) (p : String) where
  -- The engine itself has a suspension of `p`.
  pub record IsSuspended (e : MitigationEngine st) : Type 0 where
    pub on_record : is_some (get e.suspended_accounts p) ≡ true

  same :
      (e e' : MitigationEngine st)
      → e'.suspended_accounts ≡ e.suspended_accounts
      → IsSuspended e
      → IsSuspended e'
  same e e' kept h = record { on_record = rw kept h.on_record }

  route-IsSuspended :
      (t : ActionType) (now : ℕ) (a : AgentAction) (e : MitigationEngine st)
      → IsSuspended e
      → IsSuspended (route st t now a e).0
  unfolding route quarantine revoke_session challenge throttle suspend
  route-IsSuspended ActionType.rate_limit now a e h =
      same e (route st ActionType.rate_limit now a e).0 (ground arith) h
  route-IsSuspended ActionType.challenge_mfa now a e h =
      same e (route st ActionType.challenge_mfa now a e).0 (ground arith) h
  route-IsSuspended ActionType.revoke_session now a e h =
      same e (route st ActionType.revoke_session now a e).0 (ground arith) h
  route-IsSuspended ActionType.quarantine_ip_temp now a e h =
      same e (route st ActionType.quarantine_ip_temp now a e).0 (ground arith) h
  route-IsSuspended ActionType.block_cidr_organization now a e h =
      same e (route st ActionType.block_cidr_organization now a e).0 (ground arith) h
  route-IsSuspended ActionType.rollback_data now a e h =
      same e (route st ActionType.rollback_data now a e).0 (ground arith) h
  route-IsSuspended ActionType.change_privileges now a e h =
      same e (route st ActionType.change_privileges now a e).0 (ground arith) h
  route-IsSuspended ActionType.suspend_account now a e h = record {
    on_record = grind (arith, get-put, h.on_record);
  }

  -- A check that leaves the suspensions alone.
  check-IsSuspended :
      (c : Check st)
      → ((e : MitigationEngine st) → (c e).1.suspended_accounts ≡ e.suspended_accounts)
      → Holds st IsSuspended Anything c
  check-IsSuspended c same = record {
    keeps = λ e h. record { on_record = rw (same e) h.on_record };
    decides = λ e d h x. tt;
  }

  check_suspended-kept :
      (q : Option String) (e : MitigationEngine st)
      → (check_suspended st q e).1.suspended_accounts ≡ e.suspended_accounts
  unfolding check_suspended
  check_suspended-kept none e = refl
  check_suspended-kept (some x) e = ground arith

  check_quarantine-kept :
      (now : ℕ) (ip : String) (q : Option String) (e : MitigationEngine st)
      → (check_quarantine st now ip q e).1.suspended_accounts ≡ e.suspended_accounts
  unfolding check_quarantine
  check_quarantine-kept now ip q e = ground arith

  check_token-kept :
      (token : Option String) (e : MitigationEngine st)
      → (check_token st token e).1.suspended_accounts ≡ e.suspended_accounts
  unfolding check_token
  check_token-kept none e = refl
  check_token-kept (some x) e = ground arith

  check_principal-kept :
      (now : ℕ) (q : Option String) (e : MitigationEngine st)
      → (check_principal st now q e).1.suspended_accounts ≡ e.suspended_accounts
  unfolding check_principal
  check_principal-kept now none e = refl
  check_principal-kept now (some x) e = ground arith

  check_mfa-kept :
      (now : ℕ) (q : Option String) (e : MitigationEngine st)
      → (check_mfa st now q e).1.suspended_accounts ≡ e.suspended_accounts
  unfolding check_mfa
  check_mfa-kept now none e = refl
  check_mfa-kept now (some x) e = ground arith

  check_throttle-kept :
      (now : ℕ) (ip : String) (q : Option String) (e : MitigationEngine st)
      → (check_throttle st now ip q e).1.suspended_accounts ≡ e.suspended_accounts
  unfolding check_throttle
  check_throttle-kept now ip q e = ground arith

  checks-IsSuspended :
      (now : ℕ) (ip : String) (q token : Option String)
      → Holds st IsSuspended Anything (checks st now ip q token)
  checks-IsSuspended now ip q token =
      checks-Holds st now ip q token (check-IsSuspended _ (check_suspended-kept q))
        (check-IsSuspended _ (check_quarantine-kept now ip q))
        (check-IsSuspended _ (check_token-kept token))
        (check-IsSuspended _ (check_principal-kept now q))
        (check-IsSuspended _ (check_mfa-kept now q))
        (check-IsSuspended _ (check_throttle-kept now ip q))

  call-IsSuspended :
      (whitelisted : String → Bool) (c : Call) (e : MitigationEngine st)
      → is_rollback c ≡ false
      → IsSuspended e
      → IsSuspended (call st whitelisted c e)
  unfolding call
  call-IsSuspended whitelisted (apply now a) e n h =
      apply_action-induction st IsSuspended whitelisted now a e h
        (λ free. route-IsSuspended a.action_type now a e h)
  call-IsSuspended whitelisted (rollback action_id) e n h = cc
  call-IsSuspended whitelisted (evaluate now ip q token) e n h =
      (evaluate_request-Holds st now ip q token e tt
        (checks-IsSuspended now ip (truthy? q) (truthy? token)) h).1

  -- A suspension stays in force over any calls without a rollback.
  pub run-IsSuspended :
      (whitelisted : String → Bool) (cs : List Call) (e : MitigationEngine st)
      → All (λ c. is_rollback c ≡ false) cs
      → IsSuspended e
      → IsSuspended (run st whitelisted cs e)
  run-IsSuspended whitelisted cs e =
      run_induction st whitelisted (call-IsSuspended whitelisted) cs e

  -- A suspended account is answered 403.
  pub evaluate-IsSuspended :
      (now : ℕ) (ip : String) (token : Option String) (e : MitigationEngine st)
      → truthy p ≡ true
      → IsSuspended e
      → let decision = (evaluate_request st now ip (some p) token e).0 in
        (decision.action ≡ some ActionType.suspend_account) × (decision.http_status ≡ 403)
  unfolding evaluate_request checks ◌then_check◌ check_suspended
  evaluate-IsSuspended now ip token e named h = elim (Option-cases (get e.suspended_accounts p)) [
    | inl missing ↦ elim (none_ne (rw missing at h.on_record)) [ ]
    | inr (s, found) ↦ (grind (arith, named, found), grind (arith, named, found))
  ]
    where
      none_ne : false ≡ true → ⊥
      none_ne x = cc
