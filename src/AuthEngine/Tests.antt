-- ===== src/AuthEngine/Tests.antt =====
-- Runs of the checks of gateway/auth_engine.py.
use erp_security.Prelude.{String, none, some, refl, true, false, ◌≡◌, arith, eq_iff, []}
use erp_security.AuthEngine.{
  absent, unset, named, Claims, is_own, is_admin, spelled, unreadable, check_bola_idor, path_id,
  is_internal_staff,
}
use erp_security.AuthEngine.Access.{lets_through, owned_order_isolated}

abbrev customer : String → Claims
customer id = record { role = absent; roles = unset; sub = named id; customer_id = absent }

apart : (id : String) → is_own (customer "882") id ≡ true → is_own (customer "941") id ≡ false
unfolding is_own
apart id own = ground (
  arith,
  eq_iff "882" id,
  eq_iff "cust-882" id,
  eq_iff "941" id,
  eq_iff "cust-941" id,
  eq_iff "882" "941",
  eq_iff "882" "cust-941",
  eq_iff "cust-882" "941",
  eq_iff "cust-882" "cust-941",
)

owned_order_isolated_example :
    lets_through (check_bola_idor "/api/orders/101" (some (customer "941")) "PUT" none) ≡ false
unfolding path_id erp_security.Prelude.Dict.get is_internal_staff check_bola_idor
owned_order_isolated_example =
    owned_order_isolated "/api/orders/101" "101" "cust-882" (customer "882") (customer "941") "GET"
      "PUT" none none refl refl refl refl refl refl apart refl

-- A text under "roles" is searched for the role.
nonadmin_is_admin :
    is_admin
      (record { role = absent; roles = spelled "nonadmin"; sub = named "7"; customer_id = absent })
    ≡ some true
unfolding is_admin
nonadmin_is_admin = refl

null_roles_raise :
    check_bola_idor "/api/orders/101"
      (some (record {
        role = named "sales";
        roles = unreadable;
        sub = named "7";
        customer_id = absent;
      }))
      "GET"
      none
    ≡ none
unfolding check_bola_idor
null_roles_raise = refl
