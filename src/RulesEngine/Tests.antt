-- ===== src/RulesEngine/Tests.antt =====
-- Runs of the rules of gateway/rules_engine.py.
use erp_security.Prelude.{
  ℕ, suc, ◌*◌, String, ◌≡◌, refl, inl, arith, none, some, true, false, ltb, [], ◌∷◌, length,
}
use erp_security.Prelude.Text.{member, upper_equals}
use erp_security.Prelude.Window.{recent}
use erp_security.Prelude.Json.{
  Json, Items, Fields, ratio, number, text, array, object, no_items, item, no_fields, field, lookup,
}
use erp_security.StateStore.{second}
use erp_security.RateLimiter.Window.{times_of}
use erp_security.Risk.{Signals, block, calculate_risk}
use erp_security.RulesEngine.Checks.{Request, is_order}
use erp_security.RulesEngine.{rules_engine, load_rules, evaluate, check_hot_reload, client_ref}
use erp_security.RulesEngine.Outcomes.{
  outcomes, ids, reasons, severities, greatest, evaluate-outcomes,
}
use erp_security.RulesEngine.Prices.{
  price, listed, negative_price_blocked, malformed_total_hides_prices, is_numeric, all_numeric,
  NegativeItem,
}
use erp_security.RulesEngine.Memory.{Visit, hits, evaluate_all}
use erp_security.RulesEngine.Windows.{reads_records, mass_access_counted}

abbrev sha256 : String → String
sha256 s = s

abbrev dumps : Json → String
dumps body = "body"

abbrev clock : String → ℕ
clock id = 7

-- An item for a price of -5, and orders of it.
abbrev cheap : Items
cheap = item (object (field "price" (number (ratio true 5 0)) no_fields)) no_items

abbrev cheap_order : Fields
cheap_order = field "items" (array cheap) no_fields

abbrev odd_order : Fields
odd_order = field "total_amount" (text "free") cheap_order

abbrev order : Fields → Request
order body = record {
  method = "POST";
  path = "/api/orders";
  body = object body;
  client_ip = some "10.0.0.1";
  user_id = some "u1";
  current_role = some "user";
  is_authenticated = true;
}

abbrev visit : ℕ → Visit
visit now = record { request = order cheap_order; clock = λ id. now }

evaluate-outcomes_example :
    let e0 = check_hot_reload none (rules_engine none) in
    let os = outcomes sha256 dumps e0.rules clock (order cheap_order) e0 in
    let (e', severity) = evaluate sha256 dumps none clock (order cheap_order) (rules_engine none) in
    (e'.fired_rules ≡ ids os)
    × (e'.fired_reasons ≡ reasons os)
    × (severity ≡ greatest 0 (severities os))
evaluate-outcomes_example =
    evaluate-outcomes sha256 dumps none clock (order cheap_order) (rules_engine none)

abbrev signals : ℕ → Signals
signals rule_severity = record {
  waf_severity = 0;
  auth_anomaly = 0;
  rate_severity = 0;
  path = "/api/orders";
  user_trust = 10000;
  contextual_risk = 0;
  rule_severity = rule_severity;
  anomaly_score = 0;
  extra_reasons = [];
}

abbrev severity_of_cheap : ℕ
severity_of_cheap = (evaluate sha256 dumps none clock (order cheap_order) (rules_engine none)).1

negative_price_blocked_example :
    (calculate_risk (signals (100 * severity_of_cheap))).decision ≡ block
unfolding rules_engine load_rules check_hot_reload is_order is_numeric all_numeric NegativeItem
    upper_equals lookup
negative_price_blocked_example =
    negative_price_blocked sha256 dumps none clock (order cheap_order) (rules_engine none)
      cheap_order (signals (100 * severity_of_cheap)) (inl (refl, omega arith)) refl refl
      (listed cheap refl refl refl (inl (price, ratio true 5 0, refl, refl))) refl

malformed_total_hides_prices_example :
    member "R001"
      (evaluate sha256 dumps none clock (order odd_order) (rules_engine none)).0.fired_rules
    ≡ false
unfolding rules_engine load_rules is_order is_numeric upper_equals lookup
malformed_total_hides_prices_example =
    malformed_total_hides_prices sha256 dumps clock (order odd_order) (rules_engine none) odd_order
      refl refl refl refl

mass_access_counted_example :
    let e = evaluate_all sha256 dumps (visit 3 ∷ []) (rules_engine none) in
    let seen =
      times_of
        (client_ref (order cheap_order))
        (hits "R006" reads_records client_ref (visit 3 ∷ [])) in
    member "R006" (evaluate sha256 dumps none (λ id. 9) (order cheap_order) e).0.fired_rules
    ≡ ltb 100 (suc (length (recent (60 * second) 9 seen)))
unfolding reads_records
mass_access_counted_example =
    mass_access_counted sha256 dumps (visit 3 ∷ []) (visit 9) (omega arith, tt) refl
