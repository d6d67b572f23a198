-- ===== src/RulesEngine/Memory.antt =====
-- What the evaluations of gateway/rules_engine.py leave for the next one: the two histories.
use erp_security.Prelude.{
  ℕ, suc, ◌≤◌, String, ◌≡◌, refl, sym, ap, ◌∙◌, none, Bool, true, false, List, [], ◌∷◌, ◌++◌, All,
  length, if◌then◌else◌, get_or, Bool-cases, inl, inr,
}
use erp_security.Prelude.Dict.{Dict, get}
use erp_security.Prelude.Window.{recent}
use erp_security.Prelude.Json.{Json}
use erp_security.RateLimiter.{InMemoryRateLimiter, check_and_increment}
use erp_security.RateLimiter.Window.{Hit, count_all, times_of, counts_window, count_all-window}
use erp_security.RulesEngine.Checks.{Request, Outcome, raised, quiet, fired}
use erp_security.RulesEngine.{
  Rule, RulesEngine, default_rules, run_check, run_rules, apply_rule, evaluate, check_hot_reload,
  check_mass_access, check_duplicate_order, visit,
}
use erp_security.RulesEngine.Outcomes.{with_results, run_check-with_results}

-- An evaluation to come: a request, and the readings of its checks.
pub record Visit : Type 0 where
  pub request : Request
  pub clock : String → ℕ

-- An engine without results on display.
abbrev forget : RulesEngine → RulesEngine
forget e = with_results [] [] e

-- The requests that a rule counts, under the keys that it counts them by.
unfoldable pub hits : String → (Request → Bool) → (Request → String) → List Visit → List Hit
hits id counts key [] = []
hits id counts key (v ∷ vs) =
    let rest = hits id counts key vs in
    if counts v.request then record { now = v.clock id; key = key v.request } ∷ rest else rest

hits-past :
    (id : String) (counts : Request → Bool) (key : Request → String) (now : ℕ) (vs : List Visit)
    → All (λ v. v.clock id ≤ now) vs
    → All (λ h. h.now ≤ now) (hits id counts key vs)
unfolding hits
hits-past id counts key now [] past = tt
hits-past id counts key now (v ∷ vs) (first, past) =
    let rest = hits-past id counts key now vs past in
    elim (Bool-cases (counts v.request)) [
      | inl counted ↦ rw counted (first, rest)
      | inr other ↦ rw other rest
    ]

-- A dictionary after the checks of a rule.
unfoldable pub check_all :
    String
    → (ℕ → Request → Dict (List ℕ) → Dict (List ℕ))
    → List Visit
    → Dict (List ℕ)
    → Dict (List ℕ)
check_all id check [] d = d
check_all id check (v ∷ vs) d = check_all id check vs (check (v.clock id) v.request d)

-- A check that counts some requests by the in-memory limiter and passes over the others.
pub record Counter : Type 0 where
  pub counts : Request → Bool
  pub key : Request → String
  pub window : ℕ
  pub check : ℕ → Request → Dict (List ℕ) → Dict (List ℕ)
  pub counted :
      (now : ℕ) (q : Request) (d : Dict (List ℕ))
      → counts q ≡ true
      → check now q d
        ≡ (check_and_increment now (key q) (record { window = window; records = d })).0.records
  pub uncounted : (now : ℕ) (q : Request) (d : Dict (List ℕ)) → counts q ≡ false → check now q d ≡ d

check_all-hits :
    (id : String) (c : Counter) (vs : List Visit) (d : Dict (List ℕ))
    → check_all id c.check vs d
      ≡ (count_all (hits id c.counts c.key vs) (record { window = c.window; records = d })).records
unfolding check_all hits count_all check_and_increment
check_all-hits id c [] d = refl
check_all-hits id c (v ∷ vs) d = elim (Bool-cases (c.counts v.request)) [
  | inl counted ↦
      let hs = hits id c.counts c.key vs in
      rw counted (
        check_all-hits id c vs (c.check (v.clock id) v.request d)
        ∙ ap (λ d'. (count_all hs (record { window = c.window; records = d' })).records)
            (c.counted (v.clock id) v.request d counted))
  | inr passed ↦ rw (passed, c.uncounted (v.clock id) v.request d passed) (check_all-hits id c vs d)
]

-- What the limiter tells of a dictionary that a check kept.
pub check_all-counts :
    (id : String) (c : Counter) (vs : List Visit) (key : String) (now : ℕ)
    → All (λ v. v.clock id ≤ now) vs
    → length (visit c.window now key (check_all id c.check vs []))
      ≡ suc (length (recent c.window now (times_of key (hits id c.counts c.key vs))))
unfolding visit check_and_increment
check_all-counts id c vs key now past =
    let hs = hits id c.counts c.key vs in
    let r : InMemoryRateLimiter = record { window = c.window; records = [] } in
    ap (λ d. length (visit c.window now key d)) (check_all-hits id c vs [])
    ∙ ap (λ w. length (recent w now (get_or (get (count_all hs r).records key) []) ++ (now ∷ [])))
        (sym (count_all-window hs r))
    ∙ counts_window c.window hs key now (hits-past id c.counts c.key now vs past)

module _ (sha256 : String → String) (dumps : Json → String) where
  -- What the checks leave, without the results.
  unfoldable after : List Rule → (String → ℕ) → Request → RulesEngine → RulesEngine
  after [] clock q e = e
  after (r ∷ rs) clock q e =
      after rs clock q (run_check sha256 dumps r.check_fn (clock r.rule_id) q e).0

  apply_rule-forget :
      (r : Rule) (outcome : Outcome) (e : RulesEngine) (m : ℕ)
      → forget (apply_rule sha256 dumps r outcome (e, m)).0 ≡ forget e
  unfolding apply_rule
  apply_rule-forget r raised e m = refl
  apply_rule-forget r quiet e m = refl
  apply_rule-forget r (fired why) e m = refl

  run_rules-forget :
      (rs : List Rule) (clock : String → ℕ) (q : Request) (e : RulesEngine) (m : ℕ)
      → forget (run_rules sha256 dumps rs clock q (e, m)).0 ≡ after rs clock q (forget e)
  unfolding run_rules after
  run_rules-forget [] clock q e m = refl
  run_rules-forget (r ∷ rs) clock q e m =
      let (e1, outcome) = run_check sha256 dumps r.check_fn (clock r.rule_id) q e in
      let (e2, m2) = apply_rule sha256 dumps r outcome (e1, m) in
      run_rules-forget rs clock q e2 m2
      ∙ ap (after rs clock q) (
          apply_rule-forget r outcome e1 m
          ∙ sym (
              ap (λ p. p.0)
                (run_check-with_results sha256 dumps r.check_fn (clock r.rule_id) q [] [] e)))

  -- The two histories after an evaluation with the built-in rules.
  after-default :
      (clock : String → ℕ) (q : Request) (e : RulesEngine)
      → after default_rules clock q e ≡ record e {
        order_hash_history =
            (check_duplicate_order sha256 dumps (clock "R002") q e.order_hash_history).0;
        mass_access_history = (check_mass_access (clock "R006") q e.mass_access_history).0;
      }
  unfolding after run_check
  after-default clock q e = refl

  unfoldable pub evaluate_all : List Visit → RulesEngine → RulesEngine
  evaluate_all [] e = e
  evaluate_all (v ∷ vs) e = evaluate_all vs (evaluate sha256 dumps none v.clock v.request e).0

  -- The rules and the two histories of an engine.
  abbrev pub Remembers : RulesEngine → Dict (List ℕ) → Dict (List ℕ) → Type 0
  Remembers e orders masses =
      (e.rules ≡ default_rules) × (e.order_hash_history ≡ orders) × (e.mass_access_history ≡ masses)

  abbrev pub duplicates : ℕ → Request → Dict (List ℕ) → Dict (List ℕ)
  duplicates now q d = (check_duplicate_order sha256 dumps now q d).0

  abbrev pub accesses : ℕ → Request → Dict (List ℕ) → Dict (List ℕ)
  accesses now q d = (check_mass_access now q d).0

  evaluate-Remembers :
      (v : Visit) (e : RulesEngine) (orders masses : Dict (List ℕ))
      → Remembers e orders masses
      → Remembers
          (evaluate sha256 dumps none v.clock v.request e).0
          (duplicates (v.clock "R002") v.request orders)
          (accesses (v.clock "R006") v.request masses)
  unfolding evaluate check_hot_reload
  evaluate-Remembers v e orders masses (ruled, o, m) =
      let same =
        run_rules-forget e.rules v.clock v.request (forget e) 0
        ∙ ap (λ rs. after rs v.clock v.request (forget e)) ruled
        ∙ after-default v.clock v.request (forget e) in
      (
        ap (λ x. x.rules) same ∙ ruled,
        ap (λ x. x.order_hash_history) same ∙ ap (duplicates (v.clock "R002") v.request) o,
        ap (λ x. x.mass_access_history) same ∙ ap (accesses (v.clock "R006") v.request) m,
      )

  pub evaluate_all-Remembers :
      (vs : List Visit) (e : RulesEngine) (orders masses : Dict (List ℕ))
      → Remembers e orders masses
      → Remembers
          (evaluate_all vs e)
          (check_all "R002" duplicates vs orders)
          (check_all "R006" accesses vs masses)
  unfolding evaluate_all check_all
  evaluate_all-Remembers [] e orders masses h = h
  evaluate_all-Remembers (v ∷ vs) e orders masses h =
      evaluate_all-Remembers vs (evaluate sha256 dumps none v.clock v.request e).0
        (duplicates (v.clock "R002") v.request orders) (accesses (v.clock "R006") v.request masses)
        (evaluate-Remembers v e orders masses h)
