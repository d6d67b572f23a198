-- ===== src/AuthEngine/Access.antt =====
-- Who reaches which object, by the checks of gateway/auth_engine.py.
use erp_security.Prelude.{
  String, starts_with, Option, some, none, true, false, ◌||◌, ◌≡◌, Bool, if◌then◌else◌, arith, ap,
  ◌∙◌,
}
use erp_security.Prelude.Text.{truthy?}
use erp_security.Prelude.Dict.{get}
use erp_security.AuthEngine.{
  Claims, Verdict, staff_access, authorized, check_customer, writes_order, is_authorized, is_own,
  is_internal_staff, path_id, order_ownership, check_profile, check_owner, check_order,
  check_bola_idor,
}

-- Whether a check lets a caller through; one that raises does not.
abbrev pub lets_through : Option Verdict → Bool
lets_through none = false
lets_through (some v) = is_authorized v

-- An order of which an owner is registered is open to its owner and to the staff alone, where the
-- roles of the caller can be read.
pub order_access :
    (path order_id owner : String) (c : Claims) (staff : Bool) (method : String)
    (customer : Option String)
    → starts_with path "/api/users/" ≡ false
    → starts_with path "/api/orders/" ≡ true
    → path_id path ≡ some order_id
    → get order_ownership order_id ≡ some owner
    → is_internal_staff c ≡ some staff
    → lets_through (check_bola_idor path (some c) method customer) ≡ staff || is_own c owner
unfolding check_bola_idor check_order check_owner
order_access path order_id owner c staff method customer users orders id owned known = ground arith

-- An order has one owner: of two callers outside the staff whose identifiers have nothing in
-- common, no more than one is let through to an order of which an owner is registered.
pub owned_order_isolated :
    (path order_id owner : String) (c c' : Claims) (method method' : String)
    (customer customer' : Option String)
    → starts_with path "/api/users/" ≡ false
    → starts_with path "/api/orders/" ≡ true
    → path_id path ≡ some order_id
    → get order_ownership order_id ≡ some owner
    → is_internal_staff c ≡ some false
    → is_internal_staff c' ≡ some false
    → ((id : String) → is_own c id ≡ true → is_own c' id ≡ false)
    → lets_through (check_bola_idor path (some c) method customer) ≡ true
    → lets_through (check_bola_idor path (some c') method' customer') ≡ false
owned_order_isolated path order_id owner c c' method method' customer customer' users orders id
      owned staff staff' apart through =
    ground (
      arith,
      order_access path order_id owner c false method customer users orders id owned staff,
      order_access path order_id owner c' false method' customer' users orders id owned staff',
      apart owner,
    )

check_profile-foreign :
    (c : Claims) (target : Option String) (v : Verdict)
    → check_profile c target ≡ some v
    → is_authorized v ≡ false
    → (id : String) × (is_own c id ≡ false)
unfolding check_profile
check_profile-foreign c none v e h = elim (permits v e h) [ ]
  where
    permits : (v : Verdict) → some authorized ≡ some v → is_authorized v ≡ false → ⊥
    permits v e h = ground (arith, e, h)
check_profile-foreign c (some target) v e h = (target, ground (arith, e, h))

check_owner-foreign :
    (c : Claims) (order_id : String) (owner : Option String)
    → is_authorized (check_owner c order_id owner) ≡ false
    → (id : String) × (is_own c id ≡ false)
unfolding check_owner
check_owner-foreign c order_id none h = ground (arith, h)
check_owner-foreign c order_id (some owner) h = (owner, ground (arith, h))

check_order-foreign :
    (c : Claims) (order : Option String)
    → is_authorized (check_order c order) ≡ false
    → (id : String) × (is_own c id ≡ false)
unfolding check_order
check_order-foreign c none h = ground (arith, h)
check_order-foreign c (some order_id) h =
    check_owner-foreign c order_id (get order_ownership order_id) h

check_customer-foreign :
    (c : Claims) (customer : Option String)
    → is_authorized (check_customer c customer) ≡ false
    → (id : String) × (is_own c id ≡ false)
unfolding check_customer
check_customer-foreign c none h = ground (arith, h)
check_customer-foreign c (some customer) h = (customer, ground (arith, h))

-- A refusal comes from one of the three checks.
refused_by :
    {R : Type 0} (users orders path : Bool) (staff : Option Bool) (profile : Option Verdict)
    (order placement v : Verdict)
    → (profile ≡ some v → R)
    → (order ≡ v → R)
    → (placement ≡ v → R)
    → is_authorized v ≡ false
    → (if users
        then profile
        else if orders
        then (elim staff [
          | none ↦ none
          | some s ↦ some (if s then staff_access else if path then order else placement)
        ])
        else some authorized)
      ≡ some v
    → R
refused_by true orders path staff profile order placement v a b c h e = a e
refused_by false true path none profile order placement v a b c h e = cc
refused_by false true path (some true) profile order placement v a b c h e = ground (arith, e, h)
refused_by false true true (some false) profile order placement v a b c h e = b (cc)
refused_by false true false (some false) profile order placement v a b c h e = c (cc)
refused_by false false path staff profile order placement v a b c h e = ground (arith, e, h)

-- Nobody is refused what is their own: a refusal is of an object with an identifier that is not one
-- of the caller's.
pub refused_is_foreign :
    (path : String) (c : Claims) (method : String) (customer : Option String) (v : Verdict)
    → check_bola_idor path (some c) method customer ≡ some v
    → is_authorized v ≡ false
    → (id : String) × (is_own c id ≡ false)
unfolding check_bola_idor
refused_is_foreign path c method customer v answered refused =
    refused_by (starts_with path "/api/users/")
      (starts_with path "/api/orders/" || writes_order path method)
      (starts_with path "/api/orders/") (is_internal_staff c) (check_profile c (path_id path))
      (check_order c (path_id path)) (check_customer c (truthy? customer)) v
      (λ e. check_profile-foreign c (path_id path) v e refused)
      (λ e. check_order-foreign c (path_id path) (ap is_authorized e ∙ refused))
      (λ e. check_customer-foreign c (truthy? customer) (ap is_authorized e ∙ refused)) refused
      answered
