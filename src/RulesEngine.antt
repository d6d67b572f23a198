-- ===== src/RulesEngine.antt =====
-- The business rules of gateway/rules_engine.py (class RulesEngine). A clock reading is a number of
-- microseconds; a method is a token of ASCII letters, as HTTP has it. A reason text is a constructor
-- with what the text mentions. The digest, `json.dumps` and the file with the rules are parameters;
-- an entry of the file has its defaults filled in, and a severity below 0 counts as 0, since the
-- code only takes its maximum with 0. Locks are left out: a check runs alone.
pub mod Checks
pub mod Outcomes
pub mod Severity
pub mod Prices
pub mod Memory
pub mod Windows
mod Tests
use erp_security.Prelude.{
  ℕ, suc, ◌-◌, ◌*◌, max, String, concat, ◌==◌, starts_with, Option, none, some, Bool, true, false,
  not, ◌||◌, ltb, leb, if◌then◌else◌, List, [], ◌∷◌, ◌++◌, get_or, length,
}
use erp_security.Prelude.Dict.{Dict, get, put}
use erp_security.Prelude.Text.{truthy?}
use erp_security.Prelude.Window.{recent}
use erp_security.Prelude.Json.{Json, is_true}
use erp_security.StateStore.{second}
use erp_security.RulesEngine.Checks.{
  Request, Reason, Outcome, raised, quiet, fired, is_order, check_negative_price,
  check_inventory_depletion, check_role_escalation, check_auth_sequence,
}

pub data RuleCategory : Type 0 where
  business_logic sequence_violation resource_depletion privilege_escalation api_abuse : RuleCategory

-- The methods that a rule may name.
pub data Check : Type 0 where
  negative_price duplicate_order inventory_depletion role_escalation auth_sequence : Check
  mass_access : Check

pub record Rule : Type 0 where
  pub rule_id : String
  pub category : RuleCategory
  pub description : String
  pub severity : ℕ
  pub check_fn : Check
  pub remediation : String

-- An entry under "rules" of the configuration file.
pub record RuleConfig : Type 0 where
  pub rule_id : String
  pub check_type : String
  pub category : RuleCategory
  pub description : String
  pub severity : ℕ
  pub remediation : String

-- The configuration file: `rules` is `none` where it does not parse.
pub record ConfigFile : Type 0 where
  pub mtime : ℕ
  pub rules : Option (List RuleConfig)

pub record RulesEngine : Type 0 where
  pub rules : List Rule
  pub fired_rules : List String
  pub fired_reasons : List Reason
  pub last_mtime : ℕ
  pub order_hash_history : Dict (List ℕ)
  pub mass_access_history : Dict (List ℕ)
  pub inventory : Dict ℕ

-- `KNOWN_INVENTORY`.
abbrev known_inventory : Dict ℕ
known_inventory =
    ("SKU-9901", 420)
    ∷ ("SKU-9902", 1850)
    ∷ ("SKU-9903", 34)
    ∷ ("Industrial Widget A", 420)
    ∷ ("Bearing Assembly", 1850)
    ∷ ("Hydraulic Pump v2", 34)
    ∷ []

abbrev pub default_rules : List Rule
default_rules =
    record {
      rule_id = "R001";
      category = business_logic;
      description = "Order item has negative price";
      severity = 100;
      check_fn = negative_price;
      remediation = "block";
    }
    ∷ record {
      rule_id = "R002";
      category = api_abuse;
      description = "Same order placed twice in <5 seconds";
      severity = 60;
      check_fn = duplicate_order;
      remediation = "challenge";
    }
    ∷ record {
      rule_id = "R003";
      category = resource_depletion;
      description = "Order quantity would deplete inventory below 0";
      severity = 80;
      check_fn = inventory_depletion;
      remediation = "block";
    }
    ∷ record {
      rule_id = "R004";
      category = privilege_escalation;
      description = "User attempting to grant themselves admin role";
      severity = 100;
      check_fn = role_escalation;
      remediation = "block";
    }
    ∷ record {
      rule_id = "R005";
      category = sequence_violation;
      description = "POST /api/orders without prior authentication";
      severity = 75;
      check_fn = auth_sequence;
      remediation = "challenge";
    }
    ∷ record {
      rule_id = "R006";
      category = api_abuse;
      description = "User accessing excessive orders in 1 minute (mass scraping)";
      severity = 65;
      check_fn = mass_access;
      remediation = "limit";
    }
    ∷ []

-- `dispatch`.
abbrev dispatch : Dict Check
dispatch =
    ("negative_price", negative_price)
    ∷ ("duplicate_order", duplicate_order)
    ∷ ("inventory_depletion", inventory_depletion)
    ∷ ("role_escalation", role_escalation)
    ∷ ("sequence_violation", auth_sequence)
    ∷ ("mass_access", mass_access)
    ∷ []

unfoldable pub build_rule : RuleConfig → Option Rule
build_rule c = elim (get dispatch c.check_type) [
  | none ↦ none
  | some check_fn ↦ some (record {
    rule_id = c.rule_id;
    category = c.category;
    description = c.description;
    severity = c.severity;
    check_fn = check_fn;
    remediation = c.remediation;
  })
]

unfoldable pub build_rules : List RuleConfig → List Rule
unfolding build_rule
build_rules [] = []
build_rules (c ∷ cs) =
    let rest = build_rules cs in elim (build_rule c) [ none ↦ rest | some r ↦ r ∷ rest ]

-- `_load_rules`; the outer `none` is a file that does not exist.
unfoldable pub load_rules : Option ConfigFile → RulesEngine → RulesEngine
unfolding build_rules
load_rules none e = record e { rules = default_rules }
load_rules (some f) e = elim f.rules [
  | none ↦ record e { rules = default_rules; last_mtime = f.mtime }
  | some cs ↦ record e { rules = build_rules cs; last_mtime = f.mtime }
]

unfoldable pub check_hot_reload : Option ConfigFile → RulesEngine → RulesEngine
unfolding load_rules
check_hot_reload none e = e
check_hot_reload (some f) e = if ltb e.last_mtime f.mtime then load_rules (some f) e else e

-- `RulesEngine.__init__`.
unfoldable pub rules_engine : Option ConfigFile → RulesEngine
unfolding load_rules
rules_engine file = load_rules file (record {
  rules = [];
  fired_rules = [];
  fired_reasons = [];
  last_mtime = 0;
  order_hash_history = [];
  mass_access_history = [];
  inventory = known_inventory;
})

unfoldable pub reset_state : RulesEngine → RulesEngine
reset_state e = record e { order_hash_history = []; mass_access_history = [] }

-- `request_data.get("user_id") or request_data.get("client_ip") or "anon"`.
unfoldable pub client_ref : Request → String
client_ref q = get_or (truthy? q.user_id) (get_or (truthy? q.client_ip) "anon")

-- The readings of a key within a window, the new one included.
unfoldable pub visit : ℕ → ℕ → String → Dict (List ℕ) → List ℕ
unfolding recent
visit window now key history = recent window now (get_or (get history key) []) ++ (now ∷ [])

-- The difference of the last two readings.
abbrev last_gap : List ℕ → ℕ
last_gap (a ∷ b ∷ []) = b - a
last_gap (a ∷ b ∷ c ∷ rest) = last_gap (b ∷ c ∷ rest)
last_gap _ = 0

-- R006, over `_mass_access_history`.
unfoldable pub check_mass_access : ℕ → Request → Dict (List ℕ) → Dict (List ℕ) × Outcome
unfolding visit client_ref
check_mass_access now q histories =
    let history = visit (60 * second) now (client_ref q) histories in
    if not (starts_with q.path "/api/orders" || starts_with q.path "/api/users")
    then (histories, quiet)
    else (
      put histories (client_ref q) history,
      if ltb 100 (length history) then fired (Reason.mass_access (length history)) else quiet,
    )

module _ (sha256 : String → String) (dumps : Json → String) where
  unfoldable pub order_hash : Request → String
  unfolding client_ref
  order_hash q = sha256 (concat (client_ref q) (concat ":" (dumps q.body)))

  -- R002, over `_order_hash_history`.
  unfoldable pub check_duplicate_order : ℕ → Request → Dict (List ℕ) → Dict (List ℕ) × Outcome
  unfolding visit is_order order_hash
  check_duplicate_order now q histories =
      let history = visit (5 * second) now (order_hash q) histories in
      if not (is_order q) || not (is_true q.body) then (histories, quiet) else (
        put histories (order_hash q) history,
        if leb 2 (length history) then fired (Reason.duplicate_order (last_gap history)) else quiet,
      )

  -- `rule.check_fn(request_data)` at a clock reading.
  unfoldable pub run_check : Check → ℕ → Request → RulesEngine → RulesEngine × Outcome
  unfolding check_duplicate_order check_mass_access
  run_check negative_price now q e = (e, check_negative_price q)
  run_check duplicate_order now q e =
      let (histories, outcome) = check_duplicate_order now q e.order_hash_history in
      (record e { order_hash_history = histories }, outcome)
  run_check inventory_depletion now q e = (e, check_inventory_depletion e.inventory q)
  run_check role_escalation now q e = (e, check_role_escalation q)
  run_check auth_sequence now q e = (e, check_auth_sequence q)
  run_check mass_access now q e =
      let (histories, outcome) = check_mass_access now q e.mass_access_history in
      (record e { mass_access_history = histories }, outcome)

  -- One rule: an exception of its check is logged and passed over.
  unfoldable pub apply_rule : Rule → Outcome → RulesEngine × ℕ → RulesEngine × ℕ
  apply_rule r (fired why) (e, max_severity) = (
    record e {
      fired_rules = e.fired_rules ++ (r.rule_id ∷ []);
      fired_reasons = e.fired_reasons ++ (why ∷ []);
    },
    max max_severity r.severity,
  )
  apply_rule r raised (e, max_severity) = (e, max_severity)
  apply_rule r quiet (e, max_severity) = (e, max_severity)

  -- The rules in turn; `clock` gives the reading that the check of a rule takes, by its identifier.
  unfoldable pub run_rules : List Rule → (String → ℕ) → Request → RulesEngine × ℕ → RulesEngine × ℕ
  unfolding apply_rule run_check
  run_rules [] clock q (e, max_severity) = (e, max_severity)
  run_rules (r ∷ rs) clock q (e, max_severity) =
      let (e', outcome) = run_check r.check_fn (clock r.rule_id) q e in
      run_rules rs clock q (apply_rule r outcome (e', max_severity))

  -- The severity, and the rules that fired in `fired_rules` of the engine.
  unfoldable pub evaluate :
      Option ConfigFile → (String → ℕ) → Request → RulesEngine → RulesEngine × ℕ
  unfolding check_hot_reload run_rules
  evaluate file clock q e =
      let e' = record (check_hot_reload file e) { fired_rules = []; fired_reasons = [] } in
      run_rules e'.rules clock q (e', 0)
