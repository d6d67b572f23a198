-- ===== src/RulesEngine/Severity.antt =====
-- The severity that `evaluate` of gateway/rules_engine.py returns.
use erp_security.Prelude.{ℕ, ◌≤◌, max, String, ◌≡◌, inl, inr, arith, Option, List, [], ◌∷◌, OneOf}
use erp_security.Prelude.Json.{Json}
use erp_security.RulesEngine.Checks.{Request, Reason, Outcome, raised, quiet, fired}
use erp_security.RulesEngine.{Rule, ConfigFile, RulesEngine, run_check, evaluate, check_hot_reload}
use erp_security.RulesEngine.Outcomes.{outcomes, severities, greatest, evaluate-outcomes}

greatest-ge : (m : ℕ) (ns : List ℕ) → m ≤ greatest m ns
unfolding greatest
greatest-ge m [] = omega arith
greatest-ge m (n ∷ ns) = omega (arith, greatest-ge (max m n) ns)

-- The greatest severity is at least that of each rule that fires.
module _ (sha256 : String → String) (dumps : Json → String) (clock : String → ℕ) (q : Request) where
  -- A check that fires whatever it remembers.
  abbrev pub Fires : Rule → Type 0
  Fires r =
      (e : RulesEngine)
      → (why : Reason) × ((run_check sha256 dumps r.check_fn (clock r.rule_id) q e).1 ≡ fired why)

  severities-ge :
      (bound m : ℕ) (rs : List Rule) (e : RulesEngine)
      → OneOf (λ r. Fires r × (bound ≤ r.severity)) rs
      → bound ≤ greatest m (severities (outcomes sha256 dumps rs clock q e))
  unfolding outcomes severities greatest
  severities-ge bound m [] e x = elim x [ ]
  severities-ge bound m (r ∷ rs) e (inl (fires, h)) =
      let (why, same) = fires e in
      rw same (
        omega (
          arith,
          greatest-ge (max m r.severity) (
              severities (
                outcomes sha256 dumps rs clock q
                  (run_check sha256 dumps r.check_fn (clock r.rule_id) q e).0)),
        ))
  severities-ge bound m (r ∷ rs) e (inr later) =
      let (e', outcome) = run_check sha256 dumps r.check_fn (clock r.rule_id) q e in
      skip outcome (λ m'. severities-ge bound m' rs e' later)
    where
      skip :
          (outcome : Outcome)
          → ((m' : ℕ)
              → bound
                ≤ greatest m' (
                    severities (
                      outcomes sha256 dumps rs clock q
                        (run_check sha256 dumps r.check_fn (clock r.rule_id) q e).0)))
          → bound
            ≤ greatest m (
                severities (
                  (r, outcome)
                  ∷ outcomes sha256 dumps rs clock q
                      (run_check sha256 dumps r.check_fn (clock r.rule_id) q e).0))
      skip raised h = h m
      skip quiet h = h m
      skip (fired why) h = h (max m r.severity)

  pub evaluate-ge :
      (bound : ℕ) (file : Option ConfigFile) (e : RulesEngine)
      → OneOf (λ r. Fires r × (bound ≤ r.severity)) (check_hot_reload file e).rules
      → bound ≤ (evaluate sha256 dumps file clock q e).1
  evaluate-ge bound file e h =
      let (names, whys, same) = evaluate-outcomes sha256 dumps file clock q e in
      omega (
        arith,
        same,
        severities-ge bound 0 (check_hot_reload file e).rules (check_hot_reload file e) h,
      )
