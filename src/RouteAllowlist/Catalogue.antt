-- ===== src/RouteAllowlist/Catalogue.antt =====
-- The catalogue that `add_route` of gateway/route_allowlist.py keeps.
use erp_security.Prelude.{
  String, ◌==◌, ◌≡◌, refl, inl, inr, Bool, false, not, List, [], ◌∷◌, ◌++◌, All, OneOf, Bool-cases,
  filter,
}
use erp_security.RouteAllowlist.{RouteRule, add_route, route_rule}

-- No pattern stands twice.
unfoldable pub IsCatalogue : List RouteRule → Type 0
IsCatalogue [] = Unit
IsCatalogue (r ∷ rs) = All (λ s. r.raw_pattern == s.raw_pattern ≡ false) rs × IsCatalogue rs

module _ (pattern : String) where
  abbrev differs : RouteRule → Bool
  differs r = not (r.raw_pattern == pattern)

  All-filter : (P : RouteRule → Type 0) (rs : List RouteRule) → All P rs → All P (filter differs rs)
  All-filter P [] h = tt
  All-filter P (r ∷ rs) (hr, hrs) = elim (Bool-cases (differs r)) [
    | inl kept ↦ rw kept (hr, All-filter P rs hrs)
    | inr dropped ↦ rw dropped (All-filter P rs hrs)
  ]

  filter-IsCatalogue : (rs : List RouteRule) → IsCatalogue rs → IsCatalogue (filter differs rs)
  unfolding IsCatalogue
  filter-IsCatalogue [] h = tt
  filter-IsCatalogue (r ∷ rs) (hr, hrs) = elim (Bool-cases (differs r)) [
    | inl kept ↦
        rw kept (
          All-filter (λ s. r.raw_pattern == s.raw_pattern ≡ false) rs hr,
          filter-IsCatalogue rs hrs,
        )
    | inr dropped ↦ rw dropped (filter-IsCatalogue rs hrs)
  ]

  filter-differs :
      (rs : List RouteRule) → All (λ r. r.raw_pattern == pattern ≡ false) (filter differs rs)
  filter-differs [] = tt
  filter-differs (r ∷ rs) = elim (Bool-cases (r.raw_pattern == pattern)) [
    | inl same ↦ rw same (filter-differs rs)
    | inr other ↦ rw other (other, filter-differs rs)
  ]

All-snoc :
    (P : RouteRule → Type 0) (rs : List RouteRule) (x : RouteRule)
    → All P rs
    → P x
    → All P (rs ++ (x ∷ []))
All-snoc P [] x h hx = (hx, tt)
All-snoc P (r ∷ rs) x (hr, hrs) hx = (hr, All-snoc P rs x hrs hx)

snoc-IsCatalogue :
    (rs : List RouteRule) (x : RouteRule)
    → IsCatalogue rs
    → All (λ r. r.raw_pattern == x.raw_pattern ≡ false) rs
    → IsCatalogue (rs ++ (x ∷ []))
unfolding IsCatalogue
snoc-IsCatalogue [] x h hx = (tt, tt)
snoc-IsCatalogue (r ∷ rs) x (hr, hrs) (hx, hxs) = (
  All-snoc (λ s. r.raw_pattern == s.raw_pattern ≡ false) rs x hr hx,
  snoc-IsCatalogue rs x hrs hxs,
)

last-OneOf : (rs : List RouteRule) (x : RouteRule) → OneOf (λ s. s ≡ x) (rs ++ (x ∷ []))
last-OneOf [] x = inl refl
last-OneOf (r ∷ rs) x = inr (last-OneOf rs x)

-- Adding a route to a catalogue in which no pattern stands twice keeps it so: a route with the
-- same pattern is replaced, and the new route is there.
pub add_route-IsCatalogue :
    (pattern : String) (methods : List String) (auth_required : Bool) (roles : List String)
    (routes : List RouteRule)
    → IsCatalogue routes
    → let routes' = add_route pattern methods auth_required roles routes in
      IsCatalogue routes' × OneOf (λ s. s ≡ route_rule pattern methods auth_required roles) routes'
unfolding add_route
add_route-IsCatalogue pattern methods auth_required roles routes h =
    let kept = filter (differs pattern) routes in
    let new = route_rule pattern methods auth_required roles in
    (
      unfold route_rule in
          snoc-IsCatalogue kept new (filter-IsCatalogue pattern routes h)
            (filter-differs pattern routes),
      last-OneOf kept new,
    )
