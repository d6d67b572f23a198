-- ===== src/RulesEngine/Windows.antt =====
-- What rules R002 and R006 of gateway/rules_engine.py count, with the built-in rules.
use erp_security.Prelude.{
  ℕ, suc, ◌*◌, ◌≤◌, String, ◌==◌, starts_with, ◌≡◌, refl, ap, ◌∙◌, arith, none, Bool, true, false,
  ◌&&◌, ◌||◌, ltb, leb, List, [], ◌∷◌, All, length,
}
use erp_security.Prelude.Dict.{Dict}
use erp_security.Prelude.Text.{member}
use erp_security.Prelude.Window.{recent}
use erp_security.Prelude.Json.{Json, is_true}
use erp_security.StateStore.{second}
use erp_security.RateLimiter.{check_and_increment}
use erp_security.RateLimiter.Window.{times_of}
use erp_security.RulesEngine.Checks.{
  Request, Outcome, raised, quiet, fired, is_order, check_negative_price, check_inventory_depletion,
  check_role_escalation, check_auth_sequence,
}
use erp_security.RulesEngine.{
  Rule, RulesEngine, rules_engine, default_rules, run_check, evaluate, check_hot_reload, load_rules,
  check_mass_access, check_duplicate_order, client_ref, order_hash, visit,
}
use erp_security.RulesEngine.Outcomes.{outcomes, ids, evaluate-outcomes}
use erp_security.RulesEngine.Memory.{
  Visit, hits, check_all, Counter, check_all-counts, evaluate_all, Remembers, duplicates,
  evaluate_all-Remembers,
}

-- R006 counts the requests for records, R002 the orders whose body is not empty.
unfoldable pub reads_records : Request → Bool
reads_records q = starts_with q.path "/api/orders" || starts_with q.path "/api/users"

unfoldable pub places_order : Request → Bool
places_order q = is_order q && is_true q.body

mass_counter : Counter
unfolding check_mass_access reads_records check_and_increment visit
mass_counter = record {
  counts = reads_records;
  key = client_ref;
  window = 60 * second;
  check = λ now q d. (check_mass_access now q d).0;
  counted = λ now q d h. ground arith;
  uncounted = λ now q d h. ground arith;
}

order_counter : (String → String) → (Json → String) → Counter
unfolding check_duplicate_order places_order check_and_increment visit
order_counter sha256 dumps = record {
  counts = places_order;
  key = order_hash sha256 dumps;
  window = 5 * second;
  check = λ now q d. (check_duplicate_order sha256 dumps now q d).0;
  counted = λ now q d h. ground arith;
  uncounted = λ now q d h. ground arith;
}

module _ (sha256 : String → String) (dumps : Json → String) where
  -- Which rules of a list of outcomes fired.
  abbrev is_fired : Outcome → Bool
  is_fired (fired why) = true
  is_fired _ = false

  abbrev fires : String → List (Rule × Outcome) → Bool
  fires id [] = false
  fires id ((r, outcome) ∷ os) = (is_fired outcome && r.rule_id == id) || fires id os

  member-ids : (id : String) (os : List (Rule × Outcome)) → member id (ids os) ≡ fires id os
  unfolding ids
  member-ids id [] = refl
  member-ids id ((r, raised) ∷ os) = member-ids id os
  member-ids id ((r, quiet) ∷ os) = member-ids id os
  member-ids id ((r, fired why) ∷ os) = ap (λ b. (r.rule_id == id) || b) (member-ids id os)

  sixth :
      (a b c d e f : Bool)
      → (a && false)
          || ((b && false)
              || ((c && false) || ((d && false) || ((e && false) || ((f && true) || false)))))
        ≡ f
  sixth a b c d e f = ground arith

  second_only :
      (a b c d e f : Bool)
      → (a && false)
          || ((b && true)
              || ((c && false) || ((d && false) || ((e && false) || ((f && false) || false)))))
        ≡ b
  second_only a b c d e f = ground arith

  default-R006 :
      (clock : String → ℕ) (q : Request) (e : RulesEngine)
      → fires "R006" (outcomes sha256 dumps default_rules clock q e)
        ≡ is_fired (check_mass_access (clock "R006") q e.mass_access_history).1
  unfolding outcomes run_check
  default-R006 clock q e =
      sixth (is_fired (check_negative_price q))
        (is_fired (check_duplicate_order sha256 dumps (clock "R002") q e.order_hash_history).1)
        (is_fired (check_inventory_depletion e.inventory q)) (is_fired (check_role_escalation q))
        (is_fired (check_auth_sequence q))
        (is_fired (check_mass_access (clock "R006") q e.mass_access_history).1)

  default-R002 :
      (clock : String → ℕ) (q : Request) (e : RulesEngine)
      → fires "R002" (outcomes sha256 dumps default_rules clock q e)
        ≡ is_fired (check_duplicate_order sha256 dumps (clock "R002") q e.order_hash_history).1
  unfolding outcomes run_check
  default-R002 clock q e =
      second_only (is_fired (check_negative_price q))
        (is_fired (check_duplicate_order sha256 dumps (clock "R002") q e.order_hash_history).1)
        (is_fired (check_inventory_depletion e.inventory q)) (is_fired (check_role_escalation q))
        (is_fired (check_auth_sequence q))
        (is_fired (check_mass_access (clock "R006") q e.mass_access_history).1)

  member-fired :
      (id : String) (v : Visit) (e : RulesEngine)
      → e.rules ≡ default_rules
      → member id (evaluate sha256 dumps none v.clock v.request e).0.fired_rules
        ≡ fires id (outcomes sha256 dumps default_rules v.clock v.request e)
  unfolding check_hot_reload
  member-fired id v e ruled =
      let (names, whys, severity) = evaluate-outcomes sha256 dumps none v.clock v.request e in
      ap (member id) names
      ∙ member-ids id (outcomes sha256 dumps e.rules v.clock v.request e)
      ∙ ap (λ rs. fires id (outcomes sha256 dumps rs v.clock v.request e)) ruled

  access-fires :
      (now : ℕ) (q : Request) (d : Dict (List ℕ))
      → reads_records q ≡ true
      → is_fired (check_mass_access now q d).1
        ≡ ltb 100 (length (visit (60 * second) now (client_ref q) d))
  unfolding check_mass_access reads_records
  access-fires now q d h = ground arith

  order-fires :
      (now : ℕ) (q : Request) (d : Dict (List ℕ))
      → places_order q ≡ true
      → is_fired (check_duplicate_order sha256 dumps now q d).1
        ≡ leb 2 (length (visit (5 * second) now (order_hash sha256 dumps q) d))
  unfolding check_duplicate_order places_order
  order-fires now q d h = ground arith

  new_engine-Remembers : Remembers sha256 dumps (rules_engine none) [] []
  unfolding rules_engine load_rules
  new_engine-Remembers = (refl, refl, refl)

  -- Mass access is found exactly: of a new engine with the built-in rules, after any evaluations
  -- none of whose readings is later than now, an evaluation of a request for a path under
  -- /api/orders or /api/users fires R006 if, and only if, more than 100 such requests of the same
  -- client, itself included, fell within the last minute.
  pub mass_access_counted :
      (vs : List Visit) (v : Visit)
      → All (λ w. w.clock "R006" ≤ v.clock "R006") vs
      → reads_records v.request ≡ true
      → let e = evaluate_all sha256 dumps vs (rules_engine none) in
        let seen = times_of (client_ref v.request) (hits "R006" reads_records client_ref vs) in
        member "R006" (evaluate sha256 dumps none v.clock v.request e).0.fired_rules
        ≡ ltb 100 (suc (length (recent (60 * second) (v.clock "R006") seen)))
  mass_access_counted vs v past h =
      let e = evaluate_all sha256 dumps vs (rules_engine none) in
      let now = v.clock "R006" in
      let (ruled, o, m) =
        evaluate_all-Remembers sha256 dumps vs (rules_engine none) [] [] new_engine-Remembers in
      member-fired "R006" v e ruled
      ∙ default-R006 v.clock v.request e
      ∙ access-fires now v.request e.mass_access_history h
      ∙ ap (λ d. ltb 100 (length (visit (60 * second) now (client_ref v.request) d))) m
      ∙ ap (ltb 100) (
          unfold mass_counter in
          check_all-counts "R006" mass_counter vs (client_ref v.request) now past)

  orders_told :
      (vs : List Visit) (key : String) (now : ℕ)
      → All (λ w. w.clock "R002" ≤ now) vs
      → length (visit (5 * second) now key (check_all "R002" (duplicates sha256 dumps) vs []))
        ≡ suc (
            length (
              recent
                (5 * second)
                now
                (times_of key (hits "R002" places_order (order_hash sha256 dumps) vs))))
  unfolding order_counter
  orders_told vs key now past = check_all-counts "R002" (order_counter sha256 dumps) vs key now past

  -- A repeated order is found exactly: of a new engine with the built-in rules, after any
  -- evaluations none of whose readings is later than now, an evaluation of a POST under /api/orders
  -- whose body is not empty fires R002 if, and only if, one with the same digest of client and body
  -- came within the last five seconds.
  pub duplicate_order_counted :
      (vs : List Visit) (v : Visit)
      → All (λ w. w.clock "R002" ≤ v.clock "R002") vs
      → places_order v.request ≡ true
      → let e = evaluate_all sha256 dumps vs (rules_engine none) in
        let key = order_hash sha256 dumps in
        let seen = times_of (key v.request) (hits "R002" places_order key vs) in
        member "R002" (evaluate sha256 dumps none v.clock v.request e).0.fired_rules
        ≡ ltb 0 (length (recent (5 * second) (v.clock "R002") seen))
  duplicate_order_counted vs v past h =
      let e = evaluate_all sha256 dumps vs (rules_engine none) in
      let now = v.clock "R002" in
      let key = order_hash sha256 dumps v.request in
      let (ruled, o, m) =
        evaluate_all-Remembers sha256 dumps vs (rules_engine none) [] [] new_engine-Remembers in
      let seen = times_of key (hits "R002" places_order (order_hash sha256 dumps) vs) in
      member-fired "R002" v e ruled
      ∙ default-R002 v.clock v.request e
      ∙ order-fires now v.request e.order_hash_history h
      ∙ ap (λ d. leb 2 (length (visit (5 * second) now key d))) o
      ∙ ap (leb 2) (orders_told vs key now past)
      ∙ two (length (recent (5 * second) now seen))
    where
      two : (n : ℕ) → leb 2 (suc n) ≡ ltb 0 n
      two n = ground arith
