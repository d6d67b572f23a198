-- ===== src/RouteAllowlist/Tests.antt =====
-- Runs of the catalogue of gateway/route_allowlist.py.
use erp_security.Prelude.{◌≡◌, refl, none, some, true, false, [], is_some}
use erp_security.Prelude.Text.{member, upper}
use erp_security.RouteAllowlist.{default_routes, route_rule, validate_route, matches}
use erp_security.RouteAllowlist.Specific.{IsBest, validate_route-IsBest}

matches_order : matches (route_rule "/api/orders/{id}" [] true []) "/api/orders/101" ≡ true
unfolding matches route_rule
matches_order = refl

passes_items : matches (route_rule "/api/orders/{id}" [] true []) "/api/orders/101/items" ≡ false
unfolding matches route_rule
passes_items = refl

matches_below : matches (route_rule "/sap/*" [] true []) "/sap/opu" ≡ true
unfolding matches route_rule
matches_below = refl

lower_case_allowed : (validate_route "/api/orders" "post" default_routes).is_method_allowed ≡ true
unfolding validate_route default_routes
lower_case_allowed = refl

validate_route-IsBest_example :
    let v = validate_route "/api/orders/101" "get" default_routes in
    IsBest "/api/orders/101" default_routes v.matching_rule
    × (v.is_path_known ≡ is_some v.matching_rule)
    × (v.is_method_allowed
        ≡ elim v.matching_rule [ none ↦ false | some r ↦ member (upper "get") r.methods ])
validate_route-IsBest_example = validate_route-IsBest "/api/orders/101" "get" default_routes
