-- ===== src/Mitigation/Rollback.antt =====
-- The rollback of a mitigation in gateway/mitigation_engine.py.
use erp_security.Prelude.{
  ℕ, String, ◌==◌, ◌≡◌, eq_iff, eq_refl, none, some, Bool, true, false, arith, ap, List, [], ◌∷◌,
  refl, if◌then◌else◌,
}
use erp_security.Prelude.Dict.{get, put, pop, get-put, get-pop}
use erp_security.Prelude.Text.{member, clean_token}
use erp_security.Agents.{AgentAction, ActionType}
use erp_security.StateStore.Interface.{SharedStore, shared_laws}
use erp_security.Mitigation.State.{Shared, MitigationEngine}
use erp_security.Mitigation.Apply.{
  returned, apply_action, rollback_action, route, release, quarantine, revoke_session, challenge,
  throttle, suspend, add, discard,
}

ruleset view_laws = (arith, get-put, get-pop, shared_laws)

member-add :
    (x y : String) (xs : List String) → member y (add x xs) ≡ (if x == y then true else member y xs)
member-add x y xs = ground (arith, eq_iff x y)

member-discard :
    (x y : String) (xs : List String)
    → member y (discard x xs) ≡ (if x == y then false else member y xs)
member-discard x y [] = ground arith
member-discard x y (z ∷ xs) =
    ground (arith, member-discard x y xs, eq_iff z x, eq_iff z y, eq_iff x y)

module _ (st : SharedStore Shared) where
  -- Two engines that no look-up tells apart.
  pub record SameView (e e' : MitigationEngine st) : Type 0 where
    pub quarantined : (k : String) → get e.quarantined_ips k ≡ get e'.quarantined_ips k
    pub tokens : (k : String) → member k e.revoked_tokens ≡ member k e'.revoked_tokens
    pub principals : (k : String) → get e.revoked_principals k ≡ get e'.revoked_principals k
    pub mfa : (k : String) → get e.mfa_enforced_principals k ≡ get e'.mfa_enforced_principals k
    pub limits : (k : String) → get e.dynamic_rate_limits k ≡ get e'.dynamic_rate_limits k
    pub suspended : (k : String) → get e.suspended_accounts k ≡ get e'.suspended_accounts k
    pub registry : (k : String) → get e.action_registry k ≡ get e'.action_registry k
    pub hashes :
        (h k : String) → st.get_hash_entry h k e.state_store ≡ st.get_hash_entry h k e'.state_store
    pub sets : (n k : String) → st.is_member n k e.state_store ≡ st.is_member n k e'.state_store

  -- Nothing is on record yet of what the action would record: neither for its target nor under
  -- its id.
  pub record IsFresh (a : AgentAction) (e : MitigationEngine st) : Type 0 where
    pub quarantined : get e.quarantined_ips a.target_entity ≡ none
    pub tokens : member (clean_token a.target_entity) e.revoked_tokens ≡ false
    pub principals : get e.revoked_principals a.target_entity ≡ none
    pub mfa : get e.mfa_enforced_principals a.target_entity ≡ none
    pub limits : get e.dynamic_rate_limits a.target_entity ≡ none
    pub suspended : get e.suspended_accounts a.target_entity ≡ none
    pub registry : get e.action_registry a.action_id ≡ none
    pub shared_quarantine : st.get_hash_entry "quarantined_ips" a.target_entity e.state_store ≡ none
    pub shared_principal :
        st.get_hash_entry "revoked_principals" a.target_entity e.state_store ≡ none
    pub shared_suspension :
        st.get_hash_entry "suspended_accounts" a.target_entity e.state_store ≡ none
    pub shared_token :
        st.is_member "revoked_tokens" (clean_token a.target_entity) e.state_store ≡ false

  -- What a rollback does once the registry has given it a type and a target.
  abbrev undo : ActionType → String → String → MitigationEngine st → MitigationEngine st
  undo t target id e =
      let e' = release st t target e in record e' { action_registry = pop e'.action_registry id }

  undo-route :
      (t : ActionType) (now : ℕ) (a : AgentAction) (e : MitigationEngine st)
      → IsFresh a e
      → (route st t now a e).1 ≡ returned true
      → SameView (undo t a.target_entity a.action_id (route st t now a e).0) e
  unfolding route release quarantine revoke_session challenge throttle suspend
  undo-route ActionType.quarantine_ip_temp now a e f r = record {
    quarantined = λ k. grind (view_laws, eq_iff a.target_entity k);
    tokens = λ k. refl;
    principals = λ k. refl;
    mfa = λ k. refl;
    limits = λ k. refl;
    suspended = λ k. refl;
    registry = λ k. grind (view_laws, eq_iff a.action_id k);
    hashes = λ h k. grind (view_laws, eq_iff a.target_entity k, eq_iff "quarantined_ips" h);
    sets =
        λ n k. grind (view_laws, eq_iff (clean_token a.target_entity) k, eq_iff "revoked_tokens" n);
  }
  undo-route ActionType.revoke_session now a e f r = record {
    quarantined = λ k. grind (view_laws, eq_iff a.target_entity k);
    tokens =
        λ k. grind (view_laws, member-add, member-discard, eq_iff (clean_token a.target_entity) k);
    principals = λ k. grind (view_laws, eq_iff a.target_entity k);
    mfa = λ k. grind (view_laws, eq_iff a.target_entity k);
    limits = λ k. grind (view_laws, eq_iff a.target_entity k);
    suspended = λ k. grind (view_laws, eq_iff a.target_entity k);
    registry = λ k. grind (view_laws, eq_iff a.action_id k);
    hashes = λ h k. grind (view_laws, eq_iff a.target_entity k, eq_iff "revoked_principals" h);
    sets =
        λ n k. grind (view_laws, eq_iff (clean_token a.target_entity) k, eq_iff "revoked_tokens" n);
  }
  undo-route ActionType.challenge_mfa now a e f r = record {
    quarantined = λ k. refl;
    tokens = λ k. refl;
    principals = λ k. refl;
    mfa = λ k. grind (view_laws, eq_iff a.target_entity k);
    limits = λ k. refl;
    suspended = λ k. refl;
    registry = λ k. grind (view_laws, eq_iff a.action_id k);
    hashes = λ h k. refl;
    sets = λ n k. refl;
  }
  undo-route ActionType.rate_limit now a e f r = record {
    quarantined = λ k. refl;
    tokens = λ k. refl;
    principals = λ k. refl;
    mfa = λ k. refl;
    limits = λ k. grind (view_laws, eq_iff a.target_entity k);
    suspended = λ k. refl;
    registry = λ k. grind (view_laws, eq_iff a.action_id k);
    hashes = λ h k. refl;
    sets = λ n k. refl;
  }
  undo-route ActionType.suspend_account now a e f r = record {
    quarantined = λ k. refl;
    tokens = λ k. refl;
    principals = λ k. refl;
    mfa = λ k. refl;
    limits = λ k. refl;
    suspended = λ k. grind (view_laws, eq_iff a.target_entity k);
    registry = λ k. grind (view_laws, eq_iff a.action_id k);
    hashes = λ h k. grind (view_laws, eq_iff a.target_entity k, eq_iff "suspended_accounts" h);
    sets =
        λ n k. grind (view_laws, eq_iff (clean_token a.target_entity) k, eq_iff "revoked_tokens" n);
  }
  undo-route ActionType.block_cidr_organization now a e f r = cc
  undo-route ActionType.rollback_data now a e f r = cc
  undo-route ActionType.change_privileges now a e f r = cc

  route-registry :
      (t : ActionType) (now : ℕ) (a : AgentAction) (e : MitigationEngine st)
      → (route st t now a e).1 ≡ returned true
      → get (route st t now a e).0.action_registry a.action_id
        ≡ some (a.action_type, a.target_entity)
  unfolding route
  route-registry ActionType.rate_limit now a e r = simp (get-put, eq_refl)
  route-registry ActionType.challenge_mfa now a e r = simp (get-put, eq_refl)
  route-registry ActionType.revoke_session now a e r = simp (get-put, eq_refl)
  route-registry ActionType.quarantine_ip_temp now a e r = simp (get-put, eq_refl)
  route-registry ActionType.suspend_account now a e r = simp (get-put, eq_refl)
  route-registry ActionType.block_cidr_organization now a e r = cc
  route-registry ActionType.rollback_data now a e r = cc
  route-registry ActionType.change_privileges now a e r = cc

  rollback-known :
      (id : String) (e : MitigationEngine st) (t : ActionType) (target : String)
      → get e.action_registry id ≡ some (t, target)
      → rollback_action st id e ≡ (undo t target id e, true)
  unfolding rollback_action
  rollback-known id e t target known = rw (known, rollback_action)

  apply-route :
      (whitelisted : String → Bool) (now : ℕ) (a : AgentAction) (e : MitigationEngine st)
      → (apply_action st whitelisted now a e).1 ≡ returned true
      → apply_action st whitelisted now a e ≡ route st a.action_type now a e
  unfolding apply_action
  apply-route whitelisted now a e r = ground arith

  -- A rollback takes back exactly what the action did: where nothing was on record for the target
  -- or under the id of an action that was then applied, its rollback succeeds and leaves an engine
  -- that no look-up, local or shared, tells apart from the one before the action.
  pub rollback-apply :
      (whitelisted : String → Bool) (now : ℕ) (a : AgentAction) (e : MitigationEngine st)
      → IsFresh a e
      → (apply_action st whitelisted now a e).1 ≡ returned true
      → let (e', undone) = rollback_action st a.action_id (apply_action st whitelisted now a e).0 in
        (undone ≡ true) × SameView e' e
  rollback-apply whitelisted now a e f r =
      let same = apply-route whitelisted now a e r in
      let r' = rw same at r in
      rw
        (
          same,
          rollback-known a.action_id (route st a.action_type now a e).0 a.action_type
              a.target_entity (route-registry a.action_type now a e r'),
        )
        (refl, undo-route a.action_type now a e f r')

  abbrev quarantined_by : ℕ → AgentAction → MitigationEngine st → MitigationEngine st
  quarantined_by now a e =
      let e' = quarantine st now a e in
      record e' {
        action_registry = put e'.action_registry a.action_id (a.action_type, a.target_entity);
      }

  pub apply-quarantine :
      (whitelisted : String → Bool) (now : ℕ) (a : AgentAction) (e : MitigationEngine st)
      → a.action_type ≡ ActionType.quarantine_ip_temp
      → whitelisted a.target_entity ≡ false
      → apply_action st whitelisted now a e ≡ (quarantined_by now a e, returned true)
  unfolding apply_action route
  apply-quarantine whitelisted now a e q free = ground arith

  rollback-quarantined :
      (id target : String) (e : MitigationEngine st)
      → get e.action_registry id ≡ some (ActionType.quarantine_ip_temp, target)
      → (rollback_action st id e).0 ≡ undo ActionType.quarantine_ip_temp target id e
  rollback-quarantined id target e known =
      rw (rollback-known id e ActionType.quarantine_ip_temp target known)

  -- The rollback of an older quarantine lifts a newer one of the same target, which stays in the
  -- registry as if it were in force.
  pub rollback_lifts_newer :
      (whitelisted : String → Bool) (now later : ℕ) (a b : AgentAction) (e : MitigationEngine st)
      → a.action_type ≡ ActionType.quarantine_ip_temp
      → b.action_type ≡ ActionType.quarantine_ip_temp
      → b.target_entity ≡ a.target_entity
      → (a.action_id == b.action_id) ≡ false
      → whitelisted a.target_entity ≡ false
      → let e₁ = (apply_action st whitelisted now a e).0 in
        let e₂ = (apply_action st whitelisted later b e₁).0 in
        let e₃ = (rollback_action st a.action_id e₂).0 in
        (get e₃.quarantined_ips b.target_entity ≡ none)
        × (st.get_hash_entry "quarantined_ips" b.target_entity e₃.state_store ≡ none)
        × (get e₃.action_registry b.action_id ≡ some (b.action_type, b.target_entity))
  rollback_lifts_newer whitelisted now later a b e qa qb same ids free =
      let e₂ = quarantined_by later b (quarantined_by now a e) in
      rw
        (
          apply-quarantine whitelisted now a e qa free,
          apply-quarantine whitelisted later b (quarantined_by now a e) qb
              (cc (ap whitelisted same)),
          rollback-quarantined a.action_id a.target_entity e₂
              (unfold quarantine in grind (view_laws, eq_iff a.action_id b.action_id, eq_refl)),
        )
        (
          unfold release quarantine in grind (view_laws, eq_refl, same),
          unfold release quarantine in grind (view_laws, eq_refl, same),
          unfold release quarantine in grind (view_laws, eq_refl, eq_iff a.action_id b.action_id),
        )
