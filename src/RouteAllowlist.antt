-- ===== src/RouteAllowlist.antt =====
-- The catalogue of routes of gateway/route_allowlist.py (classes RouteRule and RouteAllowlist). A
-- pattern is read as the expression that the constructor makes of it: outside of its {id} parts and
-- a final "/*" it holds no character with a meaning in expressions but the point, and a point of a
-- pattern without "/*" stands for any character but a line feed. Reading the YAML file is left out:
-- `load_from_yaml` adds its entries one by one.
pub mod Specific
pub mod Catalogue
mod Tests
use erp_security.Prelude.{
  ℕ, zero, suc, ◌+◌, ◌-◌, String, concat, ◌==◌, starts_with, Option, none, some, Bool, true, false,
  not, ◌&&◌, ◌||◌, ltb, leb, eqb, if◌then◌else◌, List, [], ◌∷◌, ◌++◌, filter,
}
use Prim.Native.Char.{Char, code}
use erp_security.Prelude.Text.{member, upper}

pub data Token : Type 0 where
  literal : ℕ → Token
  any_char segment : Token

-- What `re.compile` is given: the tokens between "^" and "$", or the prefix before "(/.*)?".
pub data Regex : Type 0 where
  exact : List Token → Regex
  under : String → Regex

pub record RouteRule : Type 0 where
  pub raw_pattern : String
  pub methods : List String
  pub auth_required : Bool
  pub roles : List String
  pub regex : Regex

-- `len(s)`.
unfoldable pub size : String → ℕ
size String.[] = 0
size (String.◌∷◌ c s) = suc (size s)

-- The text before its last characters, and whether a text ends with "/*".
unfoldable pub ends_with_star : String → Bool
ends_with_star String.[] = false
ends_with_star (String.◌∷◌ c s) = (String.◌∷◌ c s) == "/*" || ends_with_star s

unfoldable pub take : ℕ → String → String
take zero s = String.[]
take (suc n) String.[] = String.[]
take (suc n) (String.◌∷◌ c s) = String.◌∷◌ c (take n s)

is_name : ℕ → Bool
is_name c = (leb 97 c && leb c 122) || (leb 65 c && leb c 90) || eqb c 95 || (leb 48 c && leb c 57)

-- After "{": how many characters a name and its "}" have.
placeholder : ℕ → String → Option ℕ
placeholder n String.[] = none
placeholder n (String.◌∷◌ c s) =
    let rest = placeholder (suc n) s in
    if is_name (code c) then rest else if eqb (code c) 125 && ltb 0 n then some (suc n) else none

-- The tokens of a pattern; the number counts characters of a placeholder still to be passed over.
unfoldable pub tokens : ℕ → String → List Token
unfolding placeholder is_name
tokens n String.[] = []
tokens (suc n) (String.◌∷◌ c s) = tokens n s
tokens zero (String.◌∷◌ c s) = elim (if eqb (code c) 123 then placeholder 0 s else none) [
  | some n ↦ segment ∷ tokens n s
  | none ↦ (if eqb (code c) 46 then any_char else literal (code c)) ∷ tokens zero s
]

unfoldable pub compile : String → Regex
unfolding ends_with_star take size tokens
compile pattern =
    if ends_with_star pattern
    then under (take (size pattern - 2) pattern)
    else exact (tokens 0 pattern)

-- "$" stands at the end, or before a final line feed.
abbrev at_end : String → Bool
at_end s = s == "" || s == "\n"

unfoldable pub match_tokens : List Token → String → Bool
match_tokens [] s = at_end s
match_tokens (t ∷ ts) String.[] = false
match_tokens (literal c ∷ ts) (String.◌∷◌ d s) = eqb c (code d) && match_tokens ts s
match_tokens (any_char ∷ ts) (String.◌∷◌ d s) = not (eqb (code d) 10) && match_tokens ts s
match_tokens (segment ∷ ts) (String.◌∷◌ d s) =
    not (eqb (code d) 47) && (match_tokens ts s || match_tokens (segment ∷ ts) s)

-- ".*$".
unfoldable pub one_line : String → Bool
one_line String.[] = true
one_line (String.◌∷◌ c s) = if eqb (code c) 10 then s == "" else one_line s

-- What is left of a text after a prefix of it.
unfoldable pub after_prefix : String → String → Option String
after_prefix String.[] s = some s
after_prefix (String.◌∷◌ c p) String.[] = none
after_prefix (String.◌∷◌ c p) (String.◌∷◌ d s) =
    let rest = after_prefix p s in if eqb (code c) (code d) then rest else none

unfoldable pub match_regex : Regex → String → Bool
unfolding match_tokens one_line after_prefix
match_regex (exact ts) path = match_tokens ts path
match_regex (under prefix) path = elim (after_prefix prefix path) [
  | none ↦ false
  | some rest ↦ at_end rest || (starts_with rest "/" && one_line rest)
]

unfoldable pub matches : RouteRule → String → Bool
unfolding match_regex
matches r path = match_regex r.regex path

-- `[m.upper() for m in methods]`.
unfoldable pub upper_all : List String → List String
unfolding upper
upper_all [] = []
upper_all (m ∷ ms) = upper m ∷ upper_all ms

-- `RouteRule.__init__`.
unfoldable pub route_rule : String → List String → Bool → List String → RouteRule
unfolding compile upper_all
route_rule pattern methods auth_required roles = record {
  raw_pattern = pattern;
  methods = upper_all methods;
  auth_required = auth_required;
  roles = roles;
  regex = compile pattern;
}

abbrev pub order_roles : List String
order_roles = "sales" ∷ "manager" ∷ "admin" ∷ []

unfoldable pub default_routes : List RouteRule
unfolding route_rule
default_routes =
    route_rule "/health" ("GET" ∷ []) false []
    ∷ route_rule "/docs" ("GET" ∷ []) false []
    ∷ route_rule "/openapi.json" ("GET" ∷ []) false []
    ∷ route_rule "/redoc" ("GET" ∷ []) false []
    ∷ route_rule "/api/auth/login" ("POST" ∷ []) false []
    ∷ route_rule "/api/orders" ("GET" ∷ "POST" ∷ []) true order_roles
    ∷ route_rule "/api/orders/{id}" ("GET" ∷ "PUT" ∷ "DELETE" ∷ []) true order_roles
    ∷ route_rule "/api/users/{id}" ("GET" ∷ "PUT" ∷ []) true ("user" ∷ "manager" ∷ "admin" ∷ [])
    ∷ route_rule "/api/inventory" ("GET" ∷ []) true ("warehouse" ∷ order_roles)
    ∷ []

unfoldable pub add_route :
    String → List String → Bool → List String → List RouteRule → List RouteRule
unfolding route_rule
add_route pattern methods auth_required roles routes =
    filter (λ r. not (r.raw_pattern == pattern)) routes
    ++ (route_rule pattern methods auth_required roles ∷ [])

-- The sort key: whether the pattern ends with "/*", then its length from the longest.
unfoldable pub is_wildcard : RouteRule → Bool
unfolding ends_with_star
is_wildcard r = ends_with_star r.raw_pattern

-- `key(r) <= key(s)`.
unfoldable pub comes_first : RouteRule → RouteRule → Bool
unfolding is_wildcard size
comes_first r s =
    if is_wildcard r
    then is_wildcard s && leb (size s.raw_pattern) (size r.raw_pattern)
    else is_wildcard s || leb (size s.raw_pattern) (size r.raw_pattern)

-- `sorted`, which keeps the order of equal keys.
unfoldable pub insert : RouteRule → List RouteRule → List RouteRule
unfolding comes_first
insert r [] = r ∷ []
insert r (s ∷ rs) = if comes_first r s then r ∷ s ∷ rs else s ∷ insert r rs

unfoldable pub sorted_routes : List RouteRule → List RouteRule
unfolding insert
sorted_routes [] = []
sorted_routes (r ∷ rs) = insert r (sorted_routes rs)

unfoldable pub first_match : String → List RouteRule → Option RouteRule
unfolding matches
first_match path [] = none
first_match path (r ∷ rs) = if matches r path then some r else first_match path rs

-- The first three results of `validate_route`, for a method in capitals.
pub record Validation : Type 0 where
  pub is_path_known : Bool
  pub is_method_allowed : Bool
  pub matching_rule : Option RouteRule

abbrev pub validation : String → Option RouteRule → Validation
validation method none = record {
  is_path_known = false;
  is_method_allowed = false;
  matching_rule = none;
}
validation method (some rule) = record {
  is_path_known = true;
  is_method_allowed = member method rule.methods;
  matching_rule = some rule;
}

unfoldable pub validate_route : String → String → List RouteRule → Validation
unfolding first_match sorted_routes upper
validate_route path method routes =
    validation (upper method) (first_match path (sorted_routes routes))
