-- ===== src/RulesEngine/Checks.antt =====
-- The checks of class RulesEngine (gateway/rules_engine.py) that keep no state: prices, stock, roles
-- and authentication.
use erp_security.Prelude.{
  ℕ, ◌+◌, ◌-◌, ◌*◌, String, ◌==◌, starts_with, Option, none, some, Bool, true, false, not, ◌&&◌,
  ◌||◌, ltb, leb, eqb, if◌then◌else◌, List, ◌∷◌, get_or,
}
use Prim.Native.Char.{code}
use erp_security.Prelude.Dict.{Dict, get}
use erp_security.Prelude.Text.{truthy, truthy?, upper_equals, count_char, split, strip}
use erp_security.Prelude.Json.{
  Number, Json, Items, Fields, below_zero, above, whole, ratio, null, boolean, number, text, array,
  object, no_items, item, is_true, as_object, as_array, lookup,
}

-- `request_data`, as far as the rules read it.
pub record Request : Type 0 where
  pub method : String
  pub path : String
  pub body : Json
  pub client_ip : Option String
  pub user_id : Option String
  pub current_role : Option String
  pub is_authenticated : Bool

pub data Reason : Type 0 where
  negative_total unauthenticated : Reason
  negative_item : Fields → Reason
  duplicate_order : ℕ → Reason
  exceeds_stock : Number → ℕ → String → Reason
  escalation : String → Reason
  mass_access : ℕ → Reason

-- What a check does: it raises an exception, stays quiet, or fires.
pub data Outcome : Type 0 where
  raised quiet : Outcome
  fired : Reason → Outcome

-- A POST of an order.
unfoldable pub is_order : Request → Bool
is_order q = upper_equals q.method "POST" && starts_with q.path "/api/orders"

-- `v < 0`; `none` is the TypeError of a value that is no number.
abbrev pub negative : Json → Option Bool
negative (number n) = some (below_zero n)
negative (boolean b) = some false
negative _ = none

-- `d.get(key, 0) < 0`.
unfoldable pub negative_at : Fields → String → Option Bool
negative_at d key = elim (lookup d key) [ none ↦ some false | some v ↦ negative v ]

-- `a or b`, where `a` may raise.
abbrev pub or_else : Option Bool → Option Bool → Option Bool
or_else none b = none
or_else (some true) b = some true
or_else (some false) b = b

unfoldable pub negative_fields : Fields → Option Bool
unfolding negative_at
negative_fields d =
    or_else (negative_at d "price")
      (or_else (negative_at d "unit_price") (negative_at d "quantity"))

abbrev pub raise_or : Option Bool → Reason → Outcome → Outcome
raise_or none why rest = raised
raise_or (some true) why rest = fired why
raise_or (some false) why rest = rest

unfoldable pub negative_items : Items → Outcome
unfolding negative_fields
negative_items no_items = quiet
negative_items (item v vs) =
    let rest = negative_items vs in
    elim (as_object v) [
      | none ↦ rest
      | some d ↦ raise_or (negative_fields d) (negative_item d) rest
    ]

-- The value of a key that holds a list, and no items where it holds something else.
abbrev pub items_of : Fields → Items
items_of d = elim (lookup d "items") [ none ↦ no_items | some v ↦ get_or (as_array v) no_items ]

-- R001.
unfoldable pub check_negative_price : Request → Outcome
unfolding is_order negative_at negative_items
check_negative_price q = if not (is_order q) then quiet else elim (as_object q.body) [
  | none ↦ quiet
  | some d ↦ raise_or (negative_at d "total_amount") negative_total (negative_items (items_of d))
]

-- `int(s)` of an ASCII text of at most 4300 digits; `none` is its ValueError.
pub data Digit : Type 0 where
  digit : ℕ → Digit
  underscore other : Digit

classify : ℕ → Digit
classify c = if leb 48 c && leb c 57 then digit (c - 48) else if eqb c 95 then underscore else other

digits : ℕ → Bool → String → Option ℕ
digits n after_digit String.[] = if after_digit then some n else none
digits n after_digit (String.◌∷◌ c s) = elim (classify (code c)) [
  | digit d ↦ digits (n * 10 + d) true s
  | underscore ↦ (elim after_digit [ true ↦ digits n false s | false ↦ none ])
  | other ↦ none
]

abbrev signed : Bool → Option ℕ → Option Number
signed negative none = none
signed negative (some n) = some (ratio negative n 0)

unfoldable pub parse_int : String → Option Number
unfolding digits classify strip
parse_int s = sign (strip s)
  where
    sign : String → Option Number
    sign String.[] = none
    sign (String.◌∷◌ c t) =
        if eqb (code c) 45
        then signed true (digits 0 false t)
        else if eqb (code c) 43
        then signed false (digits 0 false t)
        else signed false (digits 0 false (String.◌∷◌ c t))

-- The stock item that an item names and the quantity that it asks for.
pub record Wanted : Type 0 where
  pub name : Json
  pub quantity : Json

abbrev first_true : Option Json → Json → Json
first_true none d = d
first_true (some v) d = if is_true v then v else d

-- `a.get("sku") or a.get("name") or a.get("item_id")`, and the quantity.
unfoldable pub wanted_of : Fields → Wanted
wanted_of d = record {
  name =
      first_true (lookup d "sku") (first_true (lookup d "name") (get_or (lookup d "item_id") null));
  quantity = get_or (lookup d "quantity") (number (whole 1));
}

-- An item that is a text: a name, or a name and a quantity with a colon between.
unfoldable pub wanted_text : String → Wanted
unfolding strip split parse_int
wanted_text s =
    if ltb 0 (count_char b':' s)
    then parts (split b':' s)
    else record { name = text (strip s); quantity = number (whole 1) }
  where
    parts : List String → Wanted
    parts (name ∷ quantity ∷ rest) = record {
      name = text (strip name);
      quantity = number (get_or (parse_int quantity) (whole 1));
    }
    parts _ = record { name = null; quantity = number (whole 1) }

-- `sku in self.inventory`, a TypeError of a value without a hash, and the comparison of the
-- quantity, a TypeError of a value that is no number; a number is no key.
unfoldable pub stock_outcome : Dict ℕ → Wanted → Outcome → Outcome
stock_outcome inventory w rest = if is_true w.name then named w.name else rest
  where
    compared : String → ℕ → Json → Outcome
    compared name available (number n) =
        if above available n then fired (exceeds_stock n available name) else rest
    compared name available (boolean b) =
        if b && ltb available 1 then fired (exceeds_stock (whole 1) available name) else rest
    compared name available _ = raised

    named : Json → Outcome
    named (text name) = elim (get inventory name) [
      | none ↦ rest
      | some available ↦ compared name available w.quantity
    ]
    named (array vs) = raised
    named (object d) = raised
    named _ = rest

unfoldable pub depleting_items : Dict ℕ → Items → Outcome
unfolding wanted_of wanted_text stock_outcome
depleting_items inventory no_items = quiet
depleting_items inventory (item (object d) vs) =
    stock_outcome inventory (wanted_of d) (depleting_items inventory vs)
depleting_items inventory (item (text s) vs) =
    stock_outcome inventory (wanted_text s) (depleting_items inventory vs)
depleting_items inventory (item v vs) = depleting_items inventory vs

-- R003.
unfoldable pub check_inventory_depletion : Dict ℕ → Request → Outcome
unfolding is_order depleting_items
check_inventory_depletion inventory q =
    if not (is_order q)
    then quiet
    else elim (as_object q.body) [ none ↦ quiet | some d ↦ depleting_items inventory (items_of d) ]

-- `requested_role == "admin"`.
abbrev asks_admin : Option Json → Bool
asks_admin (some (text s)) = s == "admin"
asks_admin _ = false

-- R004.
unfoldable pub check_role_escalation : Request → Outcome
check_role_escalation q =
    let current_role = get_or (truthy? q.current_role) "user" in
    if not (starts_with q.path "/api/users")
      || not (upper_equals q.method "POST" || upper_equals q.method "PUT")
    then quiet
    else elim (as_object q.body) [
      | none ↦ quiet
      | some d ↦
          if asks_admin (lookup d "role") && not (current_role == "admin")
          then fired (escalation current_role)
          else quiet
    ]

-- R005.
unfoldable pub check_auth_sequence : Request → Outcome
unfolding is_order
check_auth_sequence q =
    if is_order q && (not q.is_authenticated || not (truthy (get_or q.user_id "")))
    then fired unauthenticated
    else quiet
