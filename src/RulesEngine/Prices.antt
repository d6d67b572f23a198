-- ===== src/RulesEngine/Prices.antt =====
-- What rule R001 of gateway/rules_engine.py does to an order with a negative price, and what the
-- decision of gateway/risk_engine.py makes of it.
use erp_security.Prelude.{
  ℕ, ◌*◌, ◌≤◌, String, ◌≡◌, refl, ap, ◌⊎◌, inl, inr, arith, Option, none, some, Bool, true, false,
  ◌&&◌, List, [], ◌∷◌, OneOf, OneOf-map, Option-cases, Bool-cases,
}
use erp_security.Prelude.Text.{member}
use erp_security.Prelude.Json.{
  Number, Json, Items, Fields, null, boolean, number, text, array, object, no_items, item,
  below_zero, lookup,
}
use erp_security.Risk.{Signals, block, calculate_risk}
use erp_security.Risk.Policy.{critical_blocks}
use erp_security.RulesEngine.Checks.{
  Request, Reason, raised, fired, is_order, negative_at, negative_fields, negative_items,
  check_negative_price, negative_total, negative_item, raise_or, items_of, negative,
}
use erp_security.RulesEngine.{
  Rule, ConfigFile, RulesEngine, run_check, evaluate, check_hot_reload, negative_price,
  default_rules,
}
use erp_security.RulesEngine.Severity.{Fires, evaluate-ge}
use erp_security.RulesEngine.Outcomes.{outcomes, ids, ids-absent, evaluate-outcomes}

-- A key that holds no number where it is present makes the comparison raise an exception.
unfoldable pub is_numeric : Fields → String → Bool
is_numeric d key = elim (lookup d key) [
  | none ↦ true
  | some v ↦ elim v [ number n ↦ true | boolean b ↦ true | _ ↦ false ]
]

unfoldable pub all_numeric : Items → Bool
unfolding is_numeric
all_numeric no_items = true
all_numeric (item (object d) vs) =
    is_numeric d "price" && is_numeric d "unit_price" && is_numeric d "quantity" && all_numeric vs
all_numeric (item v vs) = all_numeric vs

pub data Amount : Type 0 where
  price unit_price quantity : Amount

abbrev pub key_of : Amount → String
key_of price = "price"
key_of unit_price = "unit_price"
key_of quantity = "quantity"

-- An amount of an item is below zero.
abbrev pub IsNegative : Fields → Type 0
IsNegative d =
    (a : Amount) × (n : Number) × (lookup d (key_of a) ≡ some (number n)) × (below_zero n ≡ true)

unfoldable pub NegativeItem : Items → Type 0
NegativeItem no_items = ⊥
NegativeItem (item (object d) vs) = IsNegative d ⊎ NegativeItem vs
NegativeItem (item v vs) = NegativeItem vs

negative_at-numeric :
    (d : Fields) (key : String)
    → is_numeric d key ≡ true
    → (b : Bool) × (negative_at d key ≡ some b)
unfolding is_numeric negative_at
negative_at-numeric d key h = elim (Option-cases (lookup d key)) [
  | inl absent ↦ rw (absent, negative_at) (false, refl)
  | inr (v, same) ↦ rw (same, negative_at) (by_value v (rw (same, is_numeric) at h))
]
  where
    by_value :
        (v : Json)
        → elim v [ number n ↦ true | boolean b ↦ true | _ ↦ false ] ≡ true
        → (b : Bool) × (negative v ≡ some b)
    by_value (number n) h = (below_zero n, refl)
    by_value (boolean b) h = (false, refl)
    by_value null h = cc
    by_value (text s) h = cc
    by_value (array vs) h = cc
    by_value (object d) h = cc

negative_at-below :
    (d : Fields) (key : String) (n : Number)
    → lookup d key ≡ some (number n)
    → below_zero n ≡ true
    → negative_at d key ≡ some true
unfolding negative_at
negative_at-below d key n same h = rw (same, negative_at) (ap some h)

abbrev numeric_item : Fields → Bool
numeric_item d = is_numeric d "price" && is_numeric d "unit_price" && is_numeric d "quantity"

-- Where every amount is a number or absent, the fields are read without an exception.
negative_fields-numeric :
    (d : Fields)
    → numeric_item d ≡ true
    → (negative_fields d ≡ some true) ⊎ (negative_fields d ≡ some false)
unfolding negative_fields
negative_fields-numeric d h =
    let (p, ep) = negative_at-numeric d "price" (ground arith) in
    let (u, eu) = negative_at-numeric d "unit_price" (ground arith) in
    let (k, ek) = negative_at-numeric d "quantity" (ground arith) in ground arith

negative_fields-below :
    (d : Fields) (a : Amount)
    → numeric_item d ≡ true
    → negative_at d (key_of a) ≡ some true
    → negative_fields d ≡ some true
unfolding negative_fields
negative_fields-below d price h below = ground arith
negative_fields-below d unit_price h below =
    let (p, ep) = negative_at-numeric d "price" (ground arith) in ground arith
negative_fields-below d quantity h below =
    let (p, ep) = negative_at-numeric d "price" (ground arith) in
    let (u, eu) = negative_at-numeric d "unit_price" (ground arith) in ground arith

negative_items-object :
    (d : Fields) (vs : Items)
    → negative_items (item (object d) vs)
      ≡ raise_or (negative_fields d) (negative_item d) (negative_items vs)
unfolding negative_items
negative_items-object d vs = refl

-- An item that is no object is passed over; one that is has numeric fields.
negative_items-numeric :
    (vs : Items)
    → all_numeric vs ≡ true
    → NegativeItem vs
    → (why : Reason) × (negative_items vs ≡ fired why)
unfolding all_numeric negative_items NegativeItem
negative_items-numeric no_items h x = elim x [ ]
negative_items-numeric (item (object d) vs) h (inl (a, n, same, below)) =
    let fires =
      negative_fields-below d a (ground arith) (negative_at-below d (key_of a) n same below) in
    (negative_item d, rw fires refl)
negative_items-numeric (item (object d) vs) h (inr later) =
    let (why, fires) = negative_items-numeric vs (ground arith) later in
    elim (negative_fields-numeric d (ground arith)) [
      | inl first ↦ (negative_item d, rw first refl)
      | inr clean ↦ (why, rw clean fires)
    ]
negative_items-numeric (item null vs) h later = negative_items-numeric vs h later
negative_items-numeric (item (boolean b) vs) h later = negative_items-numeric vs h later
negative_items-numeric (item (number n) vs) h later = negative_items-numeric vs h later
negative_items-numeric (item (text s) vs) h later = negative_items-numeric vs h later
negative_items-numeric (item (array ws) vs) h later = negative_items-numeric vs h later

-- The order of a body has a negative price: its total is below zero, or one of its items is, and
-- every amount that the rule reads is a number.
pub data NegativeOrder (d : Fields) : Type 0 where
  total :
      (n : Number)
      → lookup d "total_amount" ≡ some (number n)
      → below_zero n ≡ true
      → NegativeOrder d
  listed :
      (vs : Items)
      → is_numeric d "total_amount" ≡ true
      → lookup d "items" ≡ some (array vs)
      → all_numeric vs ≡ true
      → NegativeItem vs
      → NegativeOrder d

NegativeOrder-fires :
    (q : Request) (d : Fields)
    → is_order q ≡ true
    → q.body ≡ object d
    → NegativeOrder d
    → (why : Reason) × (check_negative_price q ≡ fired why)
unfolding check_negative_price
NegativeOrder-fires q d order same (total n at below) =
    (negative_total, rw (order, same, negative_at-below d "total_amount" n at below) refl)
NegativeOrder-fires q d order same (listed vs numeric at items x) =
    let (why, fires) = negative_items-numeric vs items x in
    let (b, eb) = negative_at-numeric d "total_amount" numeric in
    elim (Bool-cases b) [
      | inl bt ↦ (negative_total, rw (order, same, eb, bt) refl)
      | inr bf ↦ (why, rw (order, same, eb, bf, items_of, at) fires)
    ]

-- An order with a negative price never passes: where a rule of the engine, as it stands after the
-- reload of its file, checks prices with a severity of 80 or more, and a POST under /api/orders
-- has a body with a negative total, or with a negative price, unit price or quantity in one of its
-- items, every one of these amounts being a number or absent, the severity of the evaluation makes
-- the decision BLOCK, whatever the other signals are.
pub negative_price_blocked :
    (sha256 : String → String) (dumps : Json → String) (file : Option ConfigFile)
    (clock : String → ℕ) (q : Request) (e : RulesEngine) (d : Fields) (s : Signals)
    → OneOf (λ r. (r.check_fn ≡ negative_price) × (80 ≤ r.severity)) (check_hot_reload file e).rules
    → is_order q ≡ true
    → q.body ≡ object d
    → NegativeOrder d
    → s.rule_severity ≡ 100 * (evaluate sha256 dumps file clock q e).1
    → (calculate_risk s).decision ≡ block
negative_price_blocked sha256 dumps file clock q e d s ruled order same x severity =
    let (why, fires) = NegativeOrder-fires q d order same x in
    let by_check : (r : Rule)
        → (r.check_fn ≡ negative_price) × (80 ≤ r.severity)
        → Fires sha256 dumps clock q r × (80 ≤ r.severity) =
      λ r (check, h). ((λ e'. (why, unfold run_check in rw check fires)), h) in
    critical_blocks s (
      inr (
        omega (
          arith,
          severity,
          evaluate-ge sha256 dumps clock q 80 file e
              (OneOf-map by_check (check_hot_reload file e).rules ruled),
        )))

-- The built-in rules after R001.
abbrev other_rules : List Rule
other_rules = elim default_rules [ [] ↦ [] | r ∷ rs ↦ rs ]

malformed_raised :
    (q : Request) (d : Fields)
    → is_order q ≡ true
    → q.body ≡ object d
    → is_numeric d "total_amount" ≡ false
    → check_negative_price q ≡ raised
unfolding check_negative_price negative_at is_numeric
malformed_raised q d order same odd = rw (order, same) (ground arith)

-- A malformed total hides the prices: with the built-in rules, an order whose "total_amount" is
-- there and is neither a number nor a Boolean never fires R001, whatever its items ask for,
-- because the check raises an exception and the evaluation passes over it.
pub malformed_total_hides_prices :
    (sha256 : String → String) (dumps : Json → String) (clock : String → ℕ) (q : Request)
    (e : RulesEngine) (d : Fields)
    → e.rules ≡ default_rules
    → is_order q ≡ true
    → q.body ≡ object d
    → is_numeric d "total_amount" ≡ false
    → member "R001" (evaluate sha256 dumps none clock q e).0.fired_rules ≡ false
malformed_total_hides_prices sha256 dumps clock q e d ruled order same odd =
    let (names, whys, severity) = evaluate-outcomes sha256 dumps none clock q e in
    unfold check_hot_reload outcomes ids run_check in
    rw (names, ruled, malformed_raised q d order same odd)
      (ids-absent sha256 dumps "R001" other_rules clock q e
        (refl, (refl, (refl, (refl, (refl, tt))))))
