-- ===== src/AuthEngine.antt =====
-- Authentication and object access of gateway/auth_engine.py (class AuthEngine). `jwt.decode` is a
-- parameter; an exception of it is a case of its result. A score is a number of hundredths of a
-- point and the trust in a user one of ten-thousandths, as in `Risk`. A reason text is a
-- constructor with what the text mentions. `generate_token` mints tokens for tests and is left
-- out.
pub mod Access
pub mod Verified
mod Tests
use erp_security.Prelude.{
  ℕ, zero, suc, String, concat, ◌==◌, starts_with, Option, none, some, Bool, true, false, not, ◌&&◌,
  ◌||◌, if◌then◌else◌, List, [], ◌∷◌, filter, get_or,
}
use erp_security.Prelude.Dict.{Dict, get}
use erp_security.Prelude.Text.{truthy, truthy?, member, split, strip}

-- A claim: absent, a text, or another value, with what `str` makes of it.
pub data Claim : Type 0 where
  absent : Claim
  named other : String → Claim

-- The claim "roles": absent, a list or an object (with its items or keys, `none` for one that is no
-- text), a text, or a value that `in` and `for` do not take.
pub data Roles : Type 0 where
  unset unreadable : Roles
  listed : List (Option String) → Roles
  spelled : String → Roles

-- What the code reads of the claims of a token.
pub record Claims : Type 0 where
  pub role : Claim
  pub roles : Roles
  pub sub : Claim
  pub customer_id : Claim

-- `str(claims.get(key, default))`.
abbrev pub str : String → Claim → String
str default absent = default
str default (named s) = s
str default (other s) = s

-- What `jwt.decode` returns or raises.
pub data Decoded : Type 0 where
  claims : Claims → Decoded
  expired_signature invalid_algorithm invalid_signature decode_error : Decoded
  invalid_token other_exception : Decoded

pub data Reason : Type 0 where
  missing_header invalid_scheme empty_token valid_token : Reason
  failed : Decoded → Reason

-- The five results of `decode_and_verify`.
pub record Verification : Type 0 where
  pub is_valid : Bool
  pub reason : Reason
  pub claims : Option Claims
  pub auth_anomaly_score : ℕ
  pub user_trust_score : ℕ

unfoldable pub refuse : Reason → ℕ → ℕ → Verification
refuse reason score trust = record {
  is_valid = false;
  reason = reason;
  claims = none;
  auth_anomaly_score = score;
  user_trust_score = trust;
}

unfoldable pub verify : Decoded → Verification
unfolding refuse
verify (Decoded.claims c) = record {
  is_valid = true;
  reason = valid_token;
  claims = some c;
  auth_anomaly_score = 0;
  user_trust_score = 10000;
}
verify Decoded.expired_signature = refuse (failed Decoded.expired_signature) 8500 1000
verify Decoded.invalid_algorithm = refuse (failed Decoded.invalid_algorithm) 9500 0
verify Decoded.invalid_signature = refuse (failed Decoded.invalid_signature) 9500 0
verify Decoded.decode_error = refuse (failed Decoded.decode_error) 9000 0
verify Decoded.invalid_token = refuse (failed Decoded.invalid_token) 9000 0
verify Decoded.other_exception = refuse (failed Decoded.other_exception) 9000 0

-- `s[n:]`.
unfoldable pub skip : ℕ → String → String
skip zero s = s
skip (suc n) String.[] = String.[]
skip (suc n) (String.◌∷◌ c s) = skip n s

-- The token of a header.
unfoldable pub bearer_token : String → String
unfolding skip strip
bearer_token auth_header = strip (skip 7 auth_header)

-- `jwt.decode` with the secret and the algorithm of the engine.
module _ (jwt_decode : String → Decoded) where
  unfoldable pub decode_and_verify : String → Verification
  unfolding refuse verify bearer_token
  decode_and_verify auth_header =
      if not (truthy auth_header)
      then refuse missing_header 8500 0
      else if not (starts_with auth_header "Bearer ")
      then refuse invalid_scheme 8000 0
      else if not (truthy (bearer_token auth_header))
      then refuse empty_token 8500 0
      else verify (jwt_decode (bearer_token auth_header))

-- `ORDER_OWNERSHIP`.
abbrev pub order_ownership : Dict String
order_ownership = ("101", "cust-882") ∷ ("102", "cust-941") ∷ []

pub data Verdict : Type 0 where
  no_claims staff_access authorized : Verdict
  profile_violation : String → String → Verdict
  order_violation : String → String → String → Verdict
  customer_violation : String → String → Verdict

-- The first of the two results of `check_bola_idor`.
abbrev pub is_authorized : Verdict → Bool
is_authorized no_claims = true
is_authorized staff_access = true
is_authorized authorized = true
is_authorized _ = false

-- `role`, where it is a text, `sub` and `caller_cust_id`, with their defaults.
abbrev pub role_of : Claims → Option String
role_of c = elim c.role [ absent ↦ some "user" | named s ↦ some s | other s ↦ none ]

abbrev pub sub_of : Claims → String
sub_of c = str "" c.sub

abbrev pub caller_cust_id : Claims → String
caller_cust_id c = get_or (truthy? (some (str "" c.customer_id))) (sub_of c)

-- Whether an identifier is one of the caller's own: the test that the three checks share.
unfoldable pub is_own : Claims → String → Bool
is_own c id = caller_cust_id c == id || concat "cust-" (sub_of c) == id || sub_of c == id

abbrev pub staff_roles : List String
staff_roles = "admin" ∷ "sales" ∷ "warehouse" ∷ "finance" ∷ "support" ∷ []

-- Whether a value, if it is a text, is one of some texts.
abbrev pub is_among : List String → Option String → Bool
is_among xs none = false
is_among xs (some s) = member s xs

abbrev pub any_staff : List (Option String) → Bool
any_staff [] = false
any_staff (r ∷ rs) = is_among staff_roles r || any_staff rs

abbrev pub any_admin : List (Option String) → Bool
any_admin [] = false
any_admin (r ∷ rs) = is_among ("admin" ∷ []) r || any_admin rs

-- `t in s` for two texts.
unfoldable pub contains : String → String → Bool
contains t String.[] = t == ""
contains t (String.◌∷◌ c s) = starts_with (String.◌∷◌ c s) t || contains t s

-- `any(r in (...) for r in roles)`: of a text the items are characters, and none of these is a role
-- of the staff; `none` is a TypeError.
unfoldable pub staff_listed : Claims → Option Bool
staff_listed c = elim c.roles [
  | unset ↦ some (is_among staff_roles (role_of c))
  | unreadable ↦ none
  | listed rs ↦ some (any_staff rs)
  | spelled s ↦ some false
]

unfoldable pub is_internal_staff : Claims → Option Bool
unfolding staff_listed
is_internal_staff c = elim (staff_listed c) [
  | none ↦ none
  | some staff ↦ some (staff || is_among staff_roles (role_of c))
]

-- `"admin" in roles`; `none` is a TypeError.
unfoldable pub admin_listed : Claims → Option Bool
unfolding contains
admin_listed c = elim c.roles [
  | unset ↦ some (is_among ("admin" ∷ []) (role_of c))
  | unreadable ↦ none
  | listed rs ↦ some (any_admin rs)
  | spelled s ↦ some (contains "admin" s)
]

unfoldable pub is_admin : Claims → Option Bool
unfolding admin_listed
is_admin c = if is_among ("admin" ∷ []) (role_of c) then some true else admin_listed c

abbrev third : List String → Option String
third (a ∷ b ∷ c ∷ rest) = some c
third _ = none

-- `parts[2]` of the parts of a path that are not empty, where there are three; 47 is the slash.
unfoldable pub path_id : String → Option String
unfolding split
path_id path = third (filter truthy (split 47 path))

unfoldable pub writes_order : String → String → Bool
writes_order path method = path == "/api/orders" && member method ("POST" ∷ "PUT" ∷ "PATCH" ∷ [])

unfoldable pub check_profile : Claims → Option String → Option Verdict
unfolding is_own is_admin
check_profile c none = some authorized
check_profile c (some target_id) = elim (is_admin c) [
  | none ↦ none
  | some admin ↦ some (
      if not admin && not (is_own c target_id)
      then profile_violation (sub_of c) target_id
      else authorized)
]

unfoldable pub check_owner : Claims → String → Option String → Verdict
unfolding is_own
check_owner c order_id none = authorized
check_owner c order_id (some owner_id) =
    if not (is_own c owner_id) then order_violation (sub_of c) order_id owner_id else authorized

unfoldable pub check_order : Claims → Option String → Verdict
unfolding check_owner
check_order c none = authorized
check_order c (some order_id) = check_owner c order_id (get order_ownership order_id)

unfoldable pub check_customer : Claims → Option String → Verdict
unfolding is_own
check_customer c none = authorized
check_customer c (some payload_cust_id) =
    if not (is_own c payload_cust_id)
    then customer_violation (sub_of c) payload_cust_id
    else authorized

-- `check_bola_idor`; `none` for claims is None or {}, and `payload_customer` is the "customer_id"
-- of the body, `none` where there is no body or no such key. The result `none` is the TypeError of
-- roles that cannot be read.
unfoldable pub check_bola_idor : String → Option Claims → String → Option String → Option Verdict
unfolding check_profile check_order check_customer is_internal_staff
check_bola_idor path none method payload_customer = some no_claims
check_bola_idor path (some c) method payload_customer =
    if starts_with path "/api/users/"
    then check_profile c (path_id path)
    else if starts_with path "/api/orders/" || writes_order path method
    then (elim (is_internal_staff c) [
      | none ↦ none
      | some staff ↦ some (
          if staff
          then staff_access
          else if starts_with path "/api/orders/"
          then check_order c (path_id path)
          else check_customer c (truthy? payload_customer))
    ])
    else some authorized
