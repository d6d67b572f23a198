-- ===== src/Mitigation/Sharing.antt =====
-- What another replica of the gateway, with nothing but the shared store, enforces of the
-- mitigations of gateway/mitigation_engine.py.
use erp_security.Prelude.{
  ℕ, ◌+◌, ◌*◌, ◌≤◌, String, ◌≡◌, eq_refl, Option, none, some, Bool, true, false, arith,
}
use erp_security.Prelude.Dict.{get-put, get-pop, get-empty}
use erp_security.Prelude.Text.{truthy, clean_token}
use erp_security.Agents.{AgentAction, ActionType}
use erp_security.StateStore.{second}
use erp_security.StateStore.Interface.{SharedStore, shared_laws}
use erp_security.Mitigation.State.{Shared, MitigationEngine, init}
use erp_security.Mitigation.Apply.{apply_action, quarantine, duration}
use erp_security.Mitigation.Evaluate.{
  evaluate_request, checks, ◌then_check◌, check_suspended, check_quarantine, quarantine_of,
  local_quarantine, shared_quarantine,
}
use erp_security.Mitigation.Rollback.{apply-quarantine}

ruleset sharing_laws = (arith, get-put, get-pop, get-empty, shared_laws)

module _ (st : SharedStore Shared) where
  -- A quarantine reaches every replica: a fresh replica over the store refuses requests from the
  -- quarantined address until the quarantine ends, with status 403.
  pub quarantine_shared :
      (whitelisted : String → Bool) (now later : ℕ) (a : AgentAction) (e : MitigationEngine st)
      (token : Option String)
      → a.action_type ≡ ActionType.quarantine_ip_temp
      → whitelisted a.target_entity ≡ false
      → truthy a.target_entity ≡ true
      → later ≤ now + duration a * second
      → let e₁ = (apply_action st whitelisted now a e).0 in
        let decision =
          (evaluate_request st later a.target_entity none token (init st e₁.state_store)).0 in
        (decision.action ≡ some ActionType.quarantine_ip_temp) × (decision.http_status ≡ 403)
  unfolding evaluate_request checks ◌then_check◌ check_suspended check_quarantine quarantine_of
      local_quarantine shared_quarantine init quarantine
  quarantine_shared whitelisted now later a e token q free t l =
      rw (apply-quarantine st whitelisted now a e q free)
        (grind (sharing_laws, eq_refl), grind (sharing_laws, eq_refl))

  -- A name, if there is one, has no entry in a hash of the store, and a token is not revoked in it.
  abbrev Unlisted : String → Option String → st.Store → Type 0
  Unlisted h none store = Unit {0}
  Unlisted h (some p) store = st.get_hash_entry h p store ≡ none

  abbrev Unrevoked : Option String → st.Store → Type 0
  Unrevoked none store = Unit {0}
  Unrevoked (some x) store = st.is_member "revoked_tokens" (clean_token x) store ≡ false
