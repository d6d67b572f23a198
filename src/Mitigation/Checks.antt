-- ===== src/Mitigation/Checks.antt =====
-- Rules for the chain of checks of `evaluate_request` (gateway/mitigation_engine.py).
use erp_security.Prelude.{
  ℕ, String, Option, none, some, Bool, false, not, ◌&&◌, ◌≡◌, refl, Bool-cases, inl, inr,
}
use erp_security.Prelude.Text.{truthy?}
use erp_security.StateStore.Interface.{SharedStore}
use erp_security.Agents.{AgentAction}
use erp_security.Mitigation.Apply.{apply_action, route, is_gated, is_approved, blocks_address}
use erp_security.Mitigation.State.{Shared, MitigationEngine, MitigationDecision, no_mitigation}
use erp_security.Mitigation.Evaluate.{
  Check, ◌then_check◌, checks, evaluate_request, check_suspended, check_quarantine, check_token,
  check_principal, check_mfa, check_throttle,
}

module _ (st : SharedStore Shared) where
  -- An application is refused and changes nothing, or is routed.
  pub apply_action-induction :
      (P : MitigationEngine st → Type 0) (whitelisted : String → Bool) (now : ℕ) (a : AgentAction)
      (e : MitigationEngine st)
      → P e
      → (blocks_address a.action_type && whitelisted a.target_entity ≡ false
          → P (route st a.action_type now a e).0)
      → P (apply_action st whitelisted now a e).0
  unfolding apply_action
  apply_action-induction P whitelisted now a e h r =
      elim (Bool-cases (is_gated a.action_type && not (is_approved a.approval_status))) [
        | inl refused ↦ rw (refused, apply_action) h
        | inr passed ↦
            elim (Bool-cases (blocks_address a.action_type && whitelisted a.target_entity)) [
              | inl kept ↦ rw (passed, kept, apply_action) h
              | inr free ↦ rw (passed, free, apply_action) (r free)
            ]
      ]

  -- From an engine with `P` the check leaves one with `P`, and decides only with `R`.
  pub record Holds (P : MitigationEngine st → Type 0) (R : MitigationDecision → Type 0)
      (c : Check st) : Type 0 where
    pub keeps : (e : MitigationEngine st) → P e → P (c e).1
    pub decides : (e : MitigationEngine st) (d : MitigationDecision) → P e → (c e).0 ≡ some d → R d

  pub then_check-Holds :
      {P : MitigationEngine st → Type 0} {R : MitigationDecision → Type 0} (c c' : Check st)
      → Holds P R c
      → Holds P R c'
      → Holds P R (◌then_check◌ st c c')
  unfolding ◌then_check◌
  then_check-Holds {P} {R} c c' h h' = record {
    keeps = λ e p. keeps_on (c e).0 (c e).1 (h.keeps e p);
    decides = λ e d p. decides_on (c e).0 (c e).1 (h.keeps e p) d (h.decides e d p);
  }
    where
      keeps_on :
          (o : Option MitigationDecision) (e : MitigationEngine st)
          → P e
          → P
              (let r : Option MitigationDecision × MitigationEngine st = elim o [
                | some d ↦ (some d, e)
                | none ↦ c' e
              ] in
                r).1
      keeps_on none e p = h'.keeps e p
      keeps_on (some d) e p = p

      decides_on :
          (o : Option MitigationDecision) (e : MitigationEngine st)
          → P e
          → (d : MitigationDecision) → (o ≡ some d → R d)
          → (let r : Option MitigationDecision × MitigationEngine st = elim o [
            | some d ↦ (some d, e)
            | none ↦ c' e
          ] in
              r).0
            ≡ some d
          → R d
      decides_on none e p d k q = h'.decides e d p q
      decides_on (some d') e p d k q = k q

  pub Holds-weaken :
      {P : MitigationEngine st → Type 0} {R R' : MitigationDecision → Type 0} (c : Check st)
      → ((d : MitigationDecision) → R d → R' d)
      → Holds P R c
      → Holds P R' c
  Holds-weaken c w h = record { keeps = h.keeps; decides = λ e d p x. w d (h.decides e d p x) }

  -- The whole chain, from a rule for each check.
  pub checks-Holds :
      {P : MitigationEngine st → Type 0} {R : MitigationDecision → Type 0} (now : ℕ) (ip : String)
      (q token : Option String)
      → Holds P R (check_suspended st q)
      → Holds P R (check_quarantine st now ip q)
      → Holds P R (check_token st token)
      → Holds P R (check_principal st now q)
      → Holds P R (check_mfa st now q)
      → Holds P R (check_throttle st now ip q)
      → Holds P R (checks st now ip q token)
  unfolding checks
  checks-Holds now ip q token h₁ h₂ h₃ h₄ h₅ h₆ =
      then_check-Holds _ _
        (then_check-Holds _ _
          (then_check-Holds _ _ (then_check-Holds _ _ (then_check-Holds _ _ h₁ h₂) h₃) h₄) h₅)
        h₆

  -- A request is decided by a check, with `R`, or let through.
  pub evaluate_request-Holds :
      {P : MitigationEngine st → Type 0} {R : MitigationDecision → Type 0} (now : ℕ) (ip : String)
      (q token : Option String) (e : MitigationEngine st)
      → R no_mitigation
      → Holds P R (checks st now ip (truthy? q) (truthy? token))
      → P e
      → R (evaluate_request st now ip q token e).0 × P (evaluate_request st now ip q token e).1
  unfolding evaluate_request
  evaluate_request-Holds {R} now ip q token e r h p = (
    result (checks st now ip (truthy? q) (truthy? token) e).0 (λ d x. h.decides e d p x),
    h.keeps e p,
  )
    where
      result :
          (o : Option MitigationDecision)
          → ((d : MitigationDecision) → o ≡ some d → R d)
          → R (let d : MitigationDecision = elim o [ some d ↦ d | none ↦ no_mitigation ] in d)
      result none k = r
      result (some d) k = k d refl
