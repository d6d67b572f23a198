-- ===== src/Mitigation/Gate.antt =====
-- The human approval gate of gateway/mitigation_engine.py.
use erp_security.Prelude.{
  ℕ, String, ◌==◌, ◌≡◌, ◌≢◌, Option, none, some, Bool, true, false, arith, List, All, ◌&&◌, not,
  refl, Option-cases, inl, inr, Bool-cases,
}
use erp_security.Prelude.Dict.{get, get-put, get-pop}
use erp_security.Prelude.Text.{truthy, truthy?}
use erp_security.Agents.{AgentAction, ActionType, ApprovalStatus}
use erp_security.StateStore.Interface.{SharedStore, shared_laws}
use erp_security.Mitigation.State.{Shared, MitigationEngine, MitigationDecision}
use erp_security.Mitigation.Apply.{
  is_approved, blocks_address, is_gated, apply_action, rollback_action, route, release, quarantine,
  revoke_session, challenge, throttle, suspend,
}
use erp_security.Mitigation.Checks.{Holds, Holds-weaken, checks-Holds, evaluate_request-Holds}
use erp_security.Mitigation.Calls.{Call, apply, rollback, evaluate, call, run, run_induction}
use erp_security.Mitigation.Evaluate.{
  evaluate_request, checks, check_suspended, check_quarantine, check_token, check_principal,
  check_mfa, check_throttle,
}

abbrev pub is_suspension : ActionType → Bool
is_suspension ActionType.suspend_account = true
is_suspension _ = false

-- The two statuses that the engine takes for an approval: granted, or granted and carried out.
unfoldable pub carries_approval : ApprovalStatus → Bool
carries_approval ApprovalStatus.pending_human_approval = false
carries_approval ApprovalStatus.auto_approved = false
carries_approval ApprovalStatus.rejected = false
carries_approval ApprovalStatus.revoked = false
carries_approval ApprovalStatus.approved = true
carries_approval ApprovalStatus.executed = true

-- A call that applies a suspension of `p` with one of these statuses.
abbrev pub suspends : String → Call → Bool
suspends p (apply now a) =
    is_suspension a.action_type && carries_approval a.approval_status && a.target_entity == p
suspends p (rollback action_id) = false
suspends p (evaluate now client_ip q token) = false

is_approved-carries : (status : ApprovalStatus) → is_approved status ≡ carries_approval status
unfolding carries_approval
is_approved-carries ApprovalStatus.pending_human_approval = refl
is_approved-carries ApprovalStatus.auto_approved = refl
is_approved-carries ApprovalStatus.rejected = refl
is_approved-carries ApprovalStatus.revoked = refl
is_approved-carries ApprovalStatus.approved = refl
is_approved-carries ApprovalStatus.executed = refl

not_suspended :
    (t : ActionType) (status : ApprovalStatus) (same : Bool)
    → is_gated t && not (is_approved status) ≡ false
    → is_suspension t && carries_approval status && same ≡ false
    → is_suspension t && same ≡ false
not_suspended t status same g u = ground (arith, is_approved-carries status)

abbrev pub NotSuspension : MitigationDecision → Type 0
NotSuspension d = d.action ≢ some ActionType.suspend_account

abbrev Anything : MitigationDecision → Type 0
Anything d = Unit

ruleset free_laws = (arith, get-put, get-pop, shared_laws)

module _ (st : SharedStore Shared) (p : String) where
  -- No suspension of `p` is on record, neither here nor in the shared store.
  pub record IsFree (e : MitigationEngine st) : Type 0 where
    pub here : get e.suspended_accounts p ≡ none
    pub shared : st.get_hash_entry "suspended_accounts" p e.state_store ≡ none

  release-IsFree :
      (t : ActionType) (target : String) (e : MitigationEngine st)
      → IsFree e
      → IsFree (release st t target e)
  unfolding release
  release-IsFree ActionType.rate_limit target e h = grind free_laws
  release-IsFree ActionType.challenge_mfa target e h = grind free_laws
  release-IsFree ActionType.revoke_session target e h = grind free_laws
  release-IsFree ActionType.quarantine_ip_temp target e h = grind free_laws
  release-IsFree ActionType.suspend_account target e h = grind free_laws
  release-IsFree ActionType.block_cidr_organization target e h = grind free_laws
  release-IsFree ActionType.rollback_data target e h = grind free_laws
  release-IsFree ActionType.change_privileges target e h = grind free_laws

  rollback_action-IsFree :
      (action_id : String) (e : MitigationEngine st)
      → IsFree e
      → IsFree (rollback_action st action_id e).0
  unfolding rollback_action
  rollback_action-IsFree action_id e h = elim (Option-cases (get e.action_registry action_id)) [
    | inl unknown ↦ rw (unknown, rollback_action) h
    | inr ((t, target), known) ↦
        let f = release-IsFree t target e h in
        rw (known, rollback_action) (record { here = f.here; shared = f.shared })
  ]

  route-IsFree :
      (t : ActionType) (now : ℕ) (a : AgentAction) (e : MitigationEngine st)
      → is_suspension t && a.target_entity == p ≡ false
      → IsFree e
      → IsFree (route st t now a e).0
  unfolding route quarantine revoke_session challenge throttle suspend
  route-IsFree ActionType.rate_limit now a e u h = grind (free_laws, u)
  route-IsFree ActionType.challenge_mfa now a e u h = grind (free_laws, u)
  route-IsFree ActionType.revoke_session now a e u h = grind (free_laws, u)
  route-IsFree ActionType.quarantine_ip_temp now a e u h = grind (free_laws, u)
  route-IsFree ActionType.suspend_account now a e u h = grind (free_laws, u)
  route-IsFree ActionType.block_cidr_organization now a e u h = grind (free_laws, u)
  route-IsFree ActionType.rollback_data now a e u h = grind (free_laws, u)
  route-IsFree ActionType.change_privileges now a e u h = grind (free_laws, u)

  pub apply_action-IsFree :
      (whitelisted : String → Bool) (now : ℕ) (a : AgentAction) (e : MitigationEngine st)
      → suspends p (apply now a) ≡ false
      → IsFree e
      → IsFree (apply_action st whitelisted now a e).0
  unfolding apply_action
  apply_action-IsFree whitelisted now a e u h =
      elim (Bool-cases (is_gated a.action_type && not (is_approved a.approval_status))) [
        | inl refused ↦ rw (refused, apply_action) h
        | inr passed ↦
            elim (Bool-cases (blocks_address a.action_type && whitelisted a.target_entity)) [
              | inl kept ↦ rw (passed, kept, apply_action) h
              | inr free ↦
                  rw (passed, free, apply_action)
                    (route-IsFree a.action_type now a e
                      (not_suspended a.action_type a.approval_status _ passed u) h)
            ]
      ]

  check_quarantine-IsFree :
      (now : ℕ) (ip : String) (q : Option String)
      → Holds st IsFree NotSuspension (check_quarantine st now ip q)
  unfolding check_quarantine
  check_quarantine-IsFree now ip q = record {
    keeps = λ e h. grind free_laws;
    decides = λ e d h x. grind arith;
  }

  check_token-IsFree :
      (token : Option String) → Holds st IsFree NotSuspension (check_token st token)
  unfolding check_token
  check_token-IsFree none = record { keeps = λ e h. h; decides = λ e d h x. cc }
  check_token-IsFree (some token) = record {
    keeps = λ e h. grind free_laws;
    decides = λ e d h x. grind arith;
  }

  check_principal-IsFree :
      (now : ℕ) (q : Option String) → Holds st IsFree NotSuspension (check_principal st now q)
  unfolding check_principal
  check_principal-IsFree now none = record { keeps = λ e h. h; decides = λ e d h x. cc }
  check_principal-IsFree now (some q) = record {
    keeps = λ e h. grind free_laws;
    decides = λ e d h x. grind arith;
  }

  check_mfa-IsFree :
      (now : ℕ) (q : Option String) → Holds st IsFree NotSuspension (check_mfa st now q)
  unfolding check_mfa
  check_mfa-IsFree now none = record { keeps = λ e h. h; decides = λ e d h x. cc }
  check_mfa-IsFree now (some q) = record {
    keeps = λ e h. grind free_laws;
    decides = λ e d h x. grind arith;
  }

  check_throttle-IsFree :
      (now : ℕ) (ip : String) (q : Option String)
      → Holds st IsFree NotSuspension (check_throttle st now ip q)
  unfolding check_throttle
  check_throttle-IsFree now ip q = record {
    keeps = λ e h. grind free_laws;
    decides = λ e d h x. grind arith;
  }

  check_suspended-IsFree : (q : Option String) → Holds st IsFree Anything (check_suspended st q)
  unfolding check_suspended
  check_suspended-IsFree none = record { keeps = λ e h. h; decides = λ e d h x. tt }
  check_suspended-IsFree (some q) = record {
    keeps = λ e h. grind free_laws;
    decides = λ e d h x. tt;
  }

  check_suspended_self : Holds st IsFree NotSuspension (check_suspended st (some p))
  unfolding check_suspended
  check_suspended_self = record { keeps = λ e h. grind free_laws; decides = λ e d h x. grind arith }

  module _ (R : MitigationDecision → Type 0)
      (w : (d : MitigationDecision) → NotSuspension d → R d) where
    checks-IsFree :
        (now : ℕ) (ip : String) (q token : Option String)
        → Holds st IsFree R (check_suspended st q)
        → Holds st IsFree R (checks st now ip q token)
    checks-IsFree now ip q token first =
        checks-Holds st now ip q token first
          (Holds-weaken st _ w (check_quarantine-IsFree now ip q))
          (Holds-weaken st _ w (check_token-IsFree token))
          (Holds-weaken st _ w (check_principal-IsFree now q))
          (Holds-weaken st _ w (check_mfa-IsFree now q))
          (Holds-weaken st _ w (check_throttle-IsFree now ip q))

  call-IsFree :
      (whitelisted : String → Bool) (c : Call) (e : MitigationEngine st)
      → suspends p c ≡ false
      → IsFree e
      → IsFree (call st whitelisted c e)
  unfolding call
  call-IsFree whitelisted (apply now a) e u h = apply_action-IsFree whitelisted now a e u h
  call-IsFree whitelisted (rollback action_id) e u h = rollback_action-IsFree action_id e h
  call-IsFree whitelisted (evaluate now ip q token) e u h =
      (evaluate_request-Holds st now ip q token e tt
        (checks-IsFree Anything (λ d x. tt) now ip (truthy? q) (truthy? token)
          (check_suspended-IsFree (truthy? q)))
        h).1

-- No action suspends an account unless its status is APPROVED or EXECUTED: where no suspension of
-- `p` is on record, neither in the engine nor in the store, and the store is written by this engine
-- alone and shows what was written, then after any calls of the engine that apply no suspension of
-- `p` of one of these statuses, whatever else they apply, roll back and evaluate, no request of `p`
-- is answered as suspended.
pub no_suspension_without_approval :
    (st : SharedStore Shared) (whitelisted : String → Bool) (p : String) (cs : List Call)
    (e : MitigationEngine st) (now : ℕ) (ip : String) (token : Option String)
    → truthy p ≡ true
    → IsFree st p e
    → All (λ c. suspends p c ≡ false) cs
    → (evaluate_request st now ip (some p) token (run st whitelisted cs e)).0.action
      ≢ some ActionType.suspend_account
no_suspension_without_approval st whitelisted p cs e now ip token t free h =
    (evaluate_request-Holds st now ip (some p) token (run st whitelisted cs e) (λ x. cc)
      (checks-IsFree st p NotSuspension (λ d k. k) now ip (truthy? (some p)) (truthy? token)
        (rw t (check_suspended_self st p)))
      (run_induction st whitelisted (call-IsFree st p whitelisted) cs e h free)).0
