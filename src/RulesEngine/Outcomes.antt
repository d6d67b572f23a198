-- ===== src/RulesEngine/Outcomes.antt =====
-- What `evaluate` of gateway/rules_engine.py collects from its checks.
use erp_security.Prelude.{
  ℕ, max, String, ◌==◌, false, All, arith, ◌≡◌, refl, ap, sym, ◌∙◌, Option, List, [], ◌∷◌, ◌++◌,
}
use mathlib.Core.Path.{subst}
use mathlib.Core.List.{append_assoc, append-nil}
use erp_security.Prelude.Text.{member}
use erp_security.Prelude.Json.{Json}
use erp_security.RulesEngine.Checks.{Request, Reason, Outcome, raised, quiet, fired}
use erp_security.RulesEngine.{
  Check, Rule, ConfigFile, RulesEngine, run_check, apply_rule, run_rules, evaluate,
  check_hot_reload, negative_price, duplicate_order, inventory_depletion, role_escalation,
  auth_sequence, mass_access,
}

-- The identifiers, the reasons and the greatest severity of the rules that fired.
unfoldable pub ids : List (Rule × Outcome) → List String
ids [] = []
ids ((r, raised) ∷ os) = ids os
ids ((r, quiet) ∷ os) = ids os
ids ((r, fired why) ∷ os) = r.rule_id ∷ ids os

unfoldable pub reasons : List (Rule × Outcome) → List Reason
reasons [] = []
reasons ((r, raised) ∷ os) = reasons os
reasons ((r, quiet) ∷ os) = reasons os
reasons ((r, fired why) ∷ os) = why ∷ reasons os

unfoldable pub severities : List (Rule × Outcome) → List ℕ
severities [] = []
severities ((r, raised) ∷ os) = severities os
severities ((r, quiet) ∷ os) = severities os
severities ((r, fired why) ∷ os) = r.severity ∷ severities os

unfoldable pub greatest : ℕ → List ℕ → ℕ
greatest m [] = m
greatest m (n ∷ ns) = greatest (max m n) ns

-- An engine with other results on display.
abbrev pub with_results : List String → List Reason → RulesEngine → RulesEngine
with_results names whys e = record e { fired_rules = names; fired_reasons = whys }

module _ (sha256 : String → String) (dumps : Json → String) where
  -- Every check in turn, on what the checks before it left, whatever their outcomes.
  unfoldable pub outcomes : List Rule → (String → ℕ) → Request → RulesEngine → List (Rule × Outcome)
  outcomes [] clock q e = []
  outcomes (r ∷ rs) clock q e =
      let (e', outcome) = run_check sha256 dumps r.check_fn (clock r.rule_id) q e in
      (r, outcome) ∷ outcomes rs clock q e'

  pub run_check-with_results :
      (c : Check) (now : ℕ) (q : Request) (names : List String) (whys : List Reason)
      (e : RulesEngine)
      → run_check sha256 dumps c now q (with_results names whys e) ≡ (
          let (e', outcome) = run_check sha256 dumps c now q e in
          (with_results names whys e', outcome))
  unfolding run_check
  run_check-with_results negative_price now q names whys e = refl
  run_check-with_results duplicate_order now q names whys e = refl
  run_check-with_results inventory_depletion now q names whys e = refl
  run_check-with_results role_escalation now q names whys e = refl
  run_check-with_results auth_sequence now q names whys e = refl
  run_check-with_results mass_access now q names whys e = refl

  outcomes-with_results :
      (rs : List Rule) (clock : String → ℕ) (q : Request) (names : List String) (whys : List Reason)
      (e : RulesEngine)
      → outcomes rs clock q (with_results names whys e) ≡ outcomes rs clock q e
  unfolding outcomes
  outcomes-with_results [] clock q names whys e = refl
  outcomes-with_results (r ∷ rs) clock q names whys e =
      rw
        (
          run_check-with_results r.check_fn (clock r.rule_id) q names whys e,
          outcomes-with_results rs clock q names whys
              (run_check sha256 dumps r.check_fn (clock r.rule_id) q e).0,
        )
        refl

  run_check-results :
      (c : Check) (now : ℕ) (q : Request) (e : RulesEngine)
      → let e' = (run_check sha256 dumps c now q e).0 in
        (e'.fired_rules ≡ e.fired_rules) × (e'.fired_reasons ≡ e.fired_reasons)
  unfolding run_check
  run_check-results negative_price now q e = (refl, refl)
  run_check-results duplicate_order now q e = (refl, refl)
  run_check-results inventory_depletion now q e = (refl, refl)
  run_check-results role_escalation now q e = (refl, refl)
  run_check-results auth_sequence now q e = (refl, refl)
  run_check-results mass_access now q e = (refl, refl)

  -- A rule that is not there has not fired.
  pub ids-absent :
      (id : String) (rs : List Rule) (clock : String → ℕ) (q : Request) (e : RulesEngine)
      → All (λ r. r.rule_id == id ≡ false) rs
      → member id (ids (outcomes rs clock q e)) ≡ false
  unfolding outcomes ids
  ids-absent id [] clock q e h = refl
  ids-absent id (r ∷ rs) clock q e (other, h) =
      let (e', outcome) = run_check sha256 dumps r.check_fn (clock r.rule_id) q e in
      skip outcome (outcomes rs clock q e') (ids-absent id rs clock q e' h)
    where
      skip :
          (outcome : Outcome) (os : List (Rule × Outcome))
          → member id (ids os) ≡ false
          → member id (ids ((r, outcome) ∷ os)) ≡ false
      skip raised os k = k
      skip quiet os k = k
      skip (fired why) os k = ground arith

  -- A state and a severity show the results of the rules.
  abbrev Shows : RulesEngine × ℕ → RulesEngine → ℕ → List (Rule × Outcome) → Type 0
  Shows (e', n) e m os =
      (e'.fired_rules ≡ e.fired_rules ++ ids os)
      × (e'.fired_reasons ≡ e.fired_reasons ++ reasons os)
      × (n ≡ greatest m (severities os))

  apply_then :
      (r : Rule) (outcome : Outcome) (e : RulesEngine) (m : ℕ) (p : RulesEngine × ℕ)
      (os : List (Rule × Outcome))
      → (let (e', m') = apply_rule sha256 dumps r outcome (e, m) in Shows p e' m' os)
      → Shows p e m ((r, outcome) ∷ os)
  unfolding apply_rule ids reasons severities greatest
  apply_then r raised e m p os h = h
  apply_then r quiet e m p os h = h
  apply_then r (fired why) e m p os h = (
    h.0 ∙ append_assoc e.fired_rules (r.rule_id ∷ []) (ids os),
    h.1 ∙ append_assoc e.fired_reasons (why ∷ []) (reasons os),
    h.2,
  )

  apply_rule-outcomes :
      (r : Rule) (outcome : Outcome) (e : RulesEngine) (m : ℕ) (rs : List Rule) (clock : String → ℕ)
      (q : Request)
      → outcomes rs clock q (apply_rule sha256 dumps r outcome (e, m)).0 ≡ outcomes rs clock q e
  unfolding apply_rule
  apply_rule-outcomes r raised e m rs clock q = refl
  apply_rule-outcomes r quiet e m rs clock q = refl
  apply_rule-outcomes r (fired why) e m rs clock q =
      outcomes-with_results rs clock q (e.fired_rules ++ (r.rule_id ∷ []))
        (e.fired_reasons ++ (why ∷ [])) e

  run_rules-Shows :
      (rs : List Rule) (clock : String → ℕ) (q : Request) (e : RulesEngine) (m : ℕ)
      → Shows (run_rules sha256 dumps rs clock q (e, m)) e m (outcomes rs clock q e)
  unfolding run_rules outcomes ids reasons severities greatest
  run_rules-Shows [] clock q e m =
      (sym (append-nil e.fired_rules), sym (append-nil e.fired_reasons), refl)
  run_rules-Shows (r ∷ rs) clock q e m =
      let (e1, outcome) = run_check sha256 dumps r.check_fn (clock r.rule_id) q e in
      let (e2, m2) = apply_rule sha256 dumps r outcome (e1, m) in
      let os = outcomes rs clock q e1 in
      let kept = run_check-results r.check_fn (clock r.rule_id) q e in
      let last = run_rules sha256 dumps rs clock q (e2, m2) in
      let rest : Shows last e2 m2 os =
        subst (Shows last e2 m2) (apply_rule-outcomes r outcome e1 m rs clock q)
          (run_rules-Shows rs clock q e2 m2) in
      let shown = apply_then r outcome e1 m last os rest in
      (
        shown.0 ∙ ap (λ xs. xs ++ ids ((r, outcome) ∷ os)) kept.0,
        shown.1 ∙ ap (λ xs. xs ++ reasons ((r, outcome) ∷ os)) kept.1,
        shown.2,
      )

  -- An evaluation shows what its checks find, each run on the memory that the checks before it
  -- left: the identifiers and the reasons of the rules that fired, in the order of the rules, and
  -- the greatest severity among them, 0 where none fired. A rule that stays quiet or whose check
  -- raises an exception changes none of it, and nothing is left of the evaluation before.
  pub evaluate-outcomes :
      (file : Option ConfigFile) (clock : String → ℕ) (q : Request) (e : RulesEngine)
      → let e0 = check_hot_reload file e in
        let os = outcomes e0.rules clock q e0 in
        let (e', severity) = evaluate sha256 dumps file clock q e in
        (e'.fired_rules ≡ ids os)
        × (e'.fired_reasons ≡ reasons os)
        × (severity ≡ greatest 0 (severities os))
  unfolding evaluate
  evaluate-outcomes file clock q e =
      let e0 = check_hot_reload file e in
      let e1 = with_results [] [] e0 in
      let shown = run_rules-Shows e0.rules clock q e1 0 in
      let same = outcomes-with_results e0.rules clock q [] [] e0 in
      (
        shown.0 ∙ ap ids same,
        shown.1 ∙ ap reasons same,
        shown.2 ∙ ap (λ os. greatest 0 (severities os)) same,
      )
