-- ===== src/Mitigation/OnRecord.antt =====
-- What stays true of the quarantines on record in the engine of gateway/mitigation_engine.py, here
-- and in the shared store, through every call.
use erp_security.Prelude.{
  ℕ, ◌+◌, ◌*◌, String, ◌≡◌, ◌≢◌, eq_iff, Option, none, some, Bool, true, false, ◌&&◌, arith,
  Option-cases, inl, inr,
}
use erp_security.Prelude.Dict.{Dict, get, get-put, get-pop}
use erp_security.Prelude.Text.{truthy?}
use erp_security.Agents.{AgentAction, ActionType}
use erp_security.StateStore.{second}
use erp_security.StateStore.Interface.{SharedStore, shared_laws}
use erp_security.Mitigation.State.{
  Shared, Entry, entry, suspension, MitigationEngine, MitigationDecision,
}
use erp_security.Mitigation.Apply.{
  blocks_address, apply_action, rollback_action, route, release, quarantine, revoke_session,
  challenge, throttle, suspend, duration,
}
use erp_security.Mitigation.Checks.{
  apply_action-induction, Holds, Holds-weaken, checks-Holds, evaluate_request-Holds,
}
use erp_security.Mitigation.Calls.{Call, apply, rollback, evaluate, call}
use erp_security.Mitigation.Evaluate.{
  Check, evaluate_request, checks, check_suspended, check_quarantine, check_token, check_principal,
  check_mfa, check_throttle, local_quarantine, shared_quarantine, quarantine_of,
}

abbrev Anything : MitigationDecision → Type 0
Anything d = Unit

abbrev pub SharedIn : (ℕ → Bool) → Option Shared → Type 0
SharedIn ok (some (entry x)) = ok x.until ≡ true
SharedIn ok (some (suspension s)) = Unit {0}
SharedIn ok none = Unit {0}

abbrev pub LocalIn : (ℕ → Bool) → Option Entry → Type 0
LocalIn ok (some x) = ok x.until ≡ true
LocalIn ok none = Unit {0}

abbrev pub NotQuarantine : MitigationDecision → Type 0
NotQuarantine d = d.action ≢ some ActionType.quarantine_ip_temp

abbrev pub FoundIn : (String → ℕ → Bool) → Option (String × Entry) → Type 0
FoundIn ok (some (k, x)) = ok k x.until ≡ true
FoundIn ok none = Unit {0}

ruleset quarantine_laws = (arith, get-put, get-pop, shared_laws)

module _ (st : SharedStore Shared) (ok : String → ℕ → Bool) where
  -- Every quarantine on record, here and in the shared store, is of a target and until a time
  -- that pass the test.
  pub record AllQuarantines (e : MitigationEngine st) : Type 0 where
    pub here : (k : String) → LocalIn (ok k) (get e.quarantined_ips k)
    pub shared :
        (k : String) → SharedIn (ok k) (st.get_hash_entry "quarantined_ips" k e.state_store)

  AllQuarantines-registry :
      (e : MitigationEngine st) (r : Dict (ActionType × String))
      → AllQuarantines e
      → AllQuarantines (record e { action_registry = r })
  AllQuarantines-registry e r h = record { here = h.here; shared = h.shared }

  release-AllQuarantines :
      (t : ActionType) (target : String) (e : MitigationEngine st)
      → AllQuarantines e
      → AllQuarantines (release st t target e)
  unfolding release
  release-AllQuarantines t target e h = record {
    here = λ k. grind (quarantine_laws, h.here k);
    shared = λ k. grind (quarantine_laws, h.shared k);
  }

  rollback_action-AllQuarantines :
      (action_id : String) (e : MitigationEngine st)
      → AllQuarantines e
      → AllQuarantines (rollback_action st action_id e).0
  unfolding rollback_action
  rollback_action-AllQuarantines action_id e h =
      elim (Option-cases (get e.action_registry action_id)) [
        | inl unknown ↦ rw (unknown, rollback_action) h
        | inr ((t, target), known) ↦
            rw (known, rollback_action)
              (AllQuarantines-registry _ _ (release-AllQuarantines t target e h))
      ]

  route-AllQuarantines :
      (t : ActionType) (now : ℕ) (a : AgentAction) (e : MitigationEngine st)
      → (t ≡ ActionType.quarantine_ip_temp → ok a.target_entity (now + duration a * second) ≡ true)
      → AllQuarantines e
      → AllQuarantines (route st t now a e).0
  unfolding route quarantine revoke_session challenge throttle suspend
  route-AllQuarantines t now a e u h = record {
    here = λ k. grind (quarantine_laws, h.here k, u, eq_iff a.target_entity k);
    shared = λ k. grind (quarantine_laws, h.shared k, u, eq_iff a.target_entity k);
  }

  apply_action-AllQuarantines :
      (whitelisted : String → Bool) (now : ℕ) (a : AgentAction) (e : MitigationEngine st)
      → (a.action_type ≡ ActionType.quarantine_ip_temp
          → blocks_address a.action_type && whitelisted a.target_entity ≡ false
          → ok a.target_entity (now + duration a * second) ≡ true)
      → AllQuarantines e
      → AllQuarantines (apply_action st whitelisted now a e).0
  apply_action-AllQuarantines whitelisted now a e u h =
      apply_action-induction st AllQuarantines whitelisted now a e h
        (λ free. route-AllQuarantines a.action_type now a e (λ t. u t free) h)

  check_quarantine-AllQuarantines :
      (now : ℕ) (ip : String) (q : Option String)
      → Holds st AllQuarantines Anything (check_quarantine st now ip q)
  unfolding check_quarantine
  check_quarantine-AllQuarantines now ip q = record {
    keeps = λ e h. record {
      here = λ k. grind (quarantine_laws, h.here k);
      shared = λ k. grind (quarantine_laws, h.shared k);
    };
    decides = λ e d h x. tt;
  }

  pub quarantine_of-AllQuarantines :
      (ip : String) (q : Option String) (e : MitigationEngine st)
      → AllQuarantines e
      → FoundIn ok (quarantine_of st ip q e)
  unfolding quarantine_of local_quarantine shared_quarantine
  quarantine_of-AllQuarantines ip none e h = ground (arith, h.here ip, h.shared ip)
  quarantine_of-AllQuarantines ip (some u) e h =
      ground (arith, h.here ip, h.shared ip, h.here u, h.shared u)

  -- A check that leaves the quarantines and the store alone.
  unmoved-Holds :
      (c : Check st)
      → ((e : MitigationEngine st) → (c e).1.quarantined_ips ≡ e.quarantined_ips)
      → ((e : MitigationEngine st) → (c e).1.state_store ≡ e.state_store)
      → ((e : MitigationEngine st) (d : MitigationDecision) → (c e).0 ≡ some d → NotQuarantine d)
      → Holds st AllQuarantines NotQuarantine c
  unmoved-Holds c same same' decides = record {
    keeps = λ e h. record {
      here = λ k. rw (same e) (h.here k);
      shared = λ k. rw (same' e) (h.shared k);
    };
    decides = λ e d h x. decides e d x;
  }

  check_suspended-AllQuarantines :
      (q : Option String) → Holds st AllQuarantines NotQuarantine (check_suspended st q)
  unfolding check_suspended
  check_suspended-AllQuarantines q =
      unmoved-Holds (check_suspended st q) (λ e. ground arith) (λ e. ground arith)
        (λ e d x. grind arith)

  check_token-AllQuarantines :
      (token : Option String) → Holds st AllQuarantines NotQuarantine (check_token st token)
  unfolding check_token
  check_token-AllQuarantines token =
      unmoved-Holds (check_token st token) (λ e. ground arith) (λ e. ground arith)
        (λ e d x. grind arith)

  check_principal-AllQuarantines :
      (now : ℕ) (q : Option String)
      → Holds st AllQuarantines NotQuarantine (check_principal st now q)
  unfolding check_principal
  check_principal-AllQuarantines now q =
      unmoved-Holds (check_principal st now q) (λ e. ground arith) (λ e. ground arith)
        (λ e d x. grind arith)

  check_mfa-AllQuarantines :
      (now : ℕ) (q : Option String) → Holds st AllQuarantines NotQuarantine (check_mfa st now q)
  unfolding check_mfa
  check_mfa-AllQuarantines now q =
      unmoved-Holds (check_mfa st now q) (λ e. ground arith) (λ e. ground arith)
        (λ e d x. grind arith)

  check_throttle-AllQuarantines :
      (now : ℕ) (ip : String) (q : Option String)
      → Holds st AllQuarantines NotQuarantine (check_throttle st now ip q)
  unfolding check_throttle
  check_throttle-AllQuarantines now ip q =
      unmoved-Holds (check_throttle st now ip q) (λ e. ground arith) (λ e. ground arith)
        (λ e d x. grind arith)

  module _ (R : MitigationDecision → Type 0)
      (w : (d : MitigationDecision) → NotQuarantine d → R d) where
    checks-AllQuarantines :
        (now : ℕ) (ip : String) (q token : Option String)
        → Holds st AllQuarantines R (check_quarantine st now ip q)
        → Holds st AllQuarantines R (checks st now ip q token)
    checks-AllQuarantines now ip q token second_check =
        checks-Holds st now ip q token (Holds-weaken st _ w (check_suspended-AllQuarantines q))
          second_check (Holds-weaken st _ w (check_token-AllQuarantines token))
          (Holds-weaken st _ w (check_principal-AllQuarantines now q))
          (Holds-weaken st _ w (check_mfa-AllQuarantines now q))
          (Holds-weaken st _ w (check_throttle-AllQuarantines now ip q))

  -- What an application must meet for its quarantine to pass the test.
  abbrev pub Fits : (String → Bool) → Call → Type 0
  Fits whitelisted (apply now a) =
      a.action_type ≡ ActionType.quarantine_ip_temp
      → blocks_address a.action_type && whitelisted a.target_entity ≡ false
      → ok a.target_entity (now + duration a * second) ≡ true
  Fits whitelisted (rollback action_id) = Unit {0}
  Fits whitelisted (evaluate now client_ip q token) = Unit {0}

  pub call-AllQuarantines :
      (whitelisted : String → Bool) (c : Call) (e : MitigationEngine st)
      → Fits whitelisted c
      → AllQuarantines e
      → AllQuarantines (call st whitelisted c e)
  unfolding call
  call-AllQuarantines whitelisted (apply now a) e u h =
      apply_action-AllQuarantines whitelisted now a e u h
  call-AllQuarantines whitelisted (rollback action_id) e u h =
      rollback_action-AllQuarantines action_id e h
  call-AllQuarantines whitelisted (evaluate now ip q token) e u h =
      (evaluate_request-Holds st now ip q token e tt
        (checks-AllQuarantines Anything (λ d x. tt) now ip (truthy? q) (truthy? token)
          (check_quarantine-AllQuarantines now ip (truthy? q)))
        h).1

  -- A request is not answered as quarantined if the check of quarantines passes it on.
  pub not_quarantined :
      (now : ℕ) (ip : String) (q token : Option String) (e : MitigationEngine st)
      → ((e : MitigationEngine st)
          → AllQuarantines e
          → (check_quarantine st now ip (truthy? q) e).0 ≡ none)
      → AllQuarantines e
      → (evaluate_request st now ip q token e).0.action ≢ some ActionType.quarantine_ip_temp
  not_quarantined now ip q token e passes h =
      (evaluate_request-Holds st now ip q token e (λ x. cc)
        (checks-AllQuarantines NotQuarantine (λ d k. k) now ip (truthy? q) (truthy? token)
          (record {
            keeps = (check_quarantine-AllQuarantines now ip (truthy? q)).keeps;
            decides = λ e d p x. cc (passes e p);
          }))
        h).0
